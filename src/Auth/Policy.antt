-- ===== src/Auth/Policy.antt =====
-- The requirements on passwords (packages/crypto/src/password/password-policy.ts) and on user names
-- (packages/auth/src/initial-admin.ts and user-management.ts).
use myadmin.Common.{
  ℕ, ◌≤◌, ◌<◌, String, ◌≡◌, refl, ◌≢◌, ◌↔◌, ◌⊎◌, Bool, true, not, ◌&&◌, ◌||◌, List, [], ◌∷◌, ◌++◌,
  arith, eq_iff, ltb, leb, if◌then◌else◌, ◌==◌, nat_eq, string_eq, text_eq, codes, length, all, All,
  All-imp, all_iff,
}

pub data PasswordViolation : Type 0 where
  too_short too_long matches_username : PasswordViolation

abbrev pub password_min_length : ℕ
password_min_length = 10

abbrev pub password_max_length : ℕ
password_max_length = 256

abbrev only_if {ℓ} : {A : Type ℓ} → Bool → A → List A
only_if b a = if b then a ∷ [] else []

-- `lower` is `String.prototype.toLowerCase`.
unfoldable pub validate_password : (String → String) → String → String → List PasswordViolation
validate_password lower password username =
    only_if (ltb (length (codes password)) password_min_length) too_short
    ++ (only_if (ltb password_max_length (length (codes password))) too_long
        ++ only_if (ltb 0 (length (codes username)) && (lower password == lower username))
            matches_username)

unfoldable pub is_password_valid : (String → String) → String → String → Bool
unfolding validate_password
is_password_valid lower password username = length (validate_password lower password username) == 0

pub data UsernameViolation : Type 0 where
  name_too_short name_too_long invalid_characters : UsernameViolation

-- `[A-Za-z0-9._-]`
unfoldable pub is_username_char : ℕ → Bool
is_username_char c =
    (leb b'A' c && leb c b'Z')
    || ((leb b'a' c && leb c b'z')
        || ((leb b'0' c && leb c b'9') || ((c == b'.') || ((c == b'_') || (c == b'-')))))

-- `/^[A-Za-z0-9._-]+$/`
unfoldable pub matches_username_pattern : List ℕ → Bool
unfolding is_username_char
matches_username_pattern cs = ltb 0 (length cs) && all is_username_char cs

abbrev pub username_min_length : ℕ
username_min_length = 3

abbrev pub username_max_length : ℕ
username_max_length = 32

unfoldable pub username_violations : String → List UsernameViolation
unfolding matches_username_pattern
username_violations username =
    only_if (ltb (length (codes username)) username_min_length) name_too_short
    ++ (only_if (ltb username_max_length (length (codes username))) name_too_long
        ++ only_if (not (matches_username_pattern (codes username))) invalid_characters)

All-same : (P Q : ℕ → Type 0) (same : (c : ℕ) → P c ↔ Q c) (cs : List ℕ) → All P cs ↔ All Q cs
All-same P Q same cs = (All-imp P Q (λ c. (same c).0) cs, All-imp Q P (λ c. (same c).1) cs)

length-codes_iff : (s : String) → (0 < length (codes s)) ↔ (s ≢ "")
length-codes_iff String.[] = (λ h. absurd (omega arith), λ n. absurd (n refl))
length-codes_iff (String.◌∷◌ c s) = (λ h e. cc, λ n. omega arith)

-- A password is accepted exactly when it has 10 to 256 characters and is not the user name in
-- another case, unless that is empty.
pub validate_password_iff :
    (lower : String → String) (password username : String)
    → (validate_password lower password username ≡ []) ↔ (
        (10 ≤ length (codes password))
        × (length (codes password) ≤ 256)
        × (username ≢ "" → lower password ≢ lower username))
unfolding validate_password
validate_password_iff lower password username =
    grind (arith, eq_iff (lower password) (lower username), length-codes_iff username)

-- The characters of a user name, by their numbers: 0 to 9, A to Z, a to z, full stop, hyphen, underscore.
abbrev pub IsNameCharacter : ℕ → Type 0
IsNameCharacter c =
    ((48 ≤ c) × (c ≤ 57))
    ⊎ (((65 ≤ c) × (c ≤ 90)) ⊎ (((97 ≤ c) × (c ≤ 122)) ⊎ ((c ≡ 46) ⊎ ((c ≡ 45) ⊎ (c ≡ 95)))))

is_username_char_iff : (c : ℕ) → (is_username_char c ≡ true) ↔ IsNameCharacter c
unfolding is_username_char
is_username_char_iff c = ground arith

-- A user name is accepted exactly when it has 3 to 32 characters, all of them letters of A to Z in
-- either case, digits, full stops, underscores or hyphens.
pub username_violations_iff :
    (username : String)
    → (username_violations username ≡ []) ↔ (
        (3 ≤ length (codes username))
        × (length (codes username) ≤ 32)
        × All IsNameCharacter (codes username))
unfolding username_violations matches_username_pattern
username_violations_iff username =
    let listed =
      All-same (λ c. is_username_char c ≡ true) IsNameCharacter is_username_char_iff
        (codes username) in
    ground (arith, all_iff is_username_char (codes username), listed)
