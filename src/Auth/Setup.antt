-- ===== src/Auth/Setup.antt =====
-- packages/auth/src/initial-admin.ts: the claim of an empty instance. `create` awaits the hash:
-- one function is the checks before that, another the transaction after it.
use myadmin.Common.{
  ℕ, ◌≤◌, String, ◌≡◌, refl, inl, inr, Bool, true, not, ◌||◌, Option, none, some, List, [], ◌∷◌,
  ◌++◌, arith, ltb, nat_eq, string_eq, is_some, Result, ok, err, guard, length, find?, count_if,
  count_if-append, Result-cases,
}
use myadmin.Auth.Store.{
  admin, role_eq, User, success, AuditDraft, Store, find_by_username, create_user_row, record_audit,
  transaction,
}
use myadmin.Auth.Policy.{
  PasswordViolation, validate_password, UsernameViolation, username_violations,
}
use myadmin.Auth.Sessions.{PublicUser, public_user}
use myadmin.Auth.Users.{is_active_admin, active_admin_count}

pub data InitialAdminError : Type 0 where
  validation_failed : List UsernameViolation → List PasswordViolation → InitialAdminError
  already_initialized username_taken store_failed : InitialAdminError

-- The service: `initialized` is its cached answer, if there is one.
pub record InitialAdmin : Type 0 where
  pub store : Store
  pub initialized : Option Bool

unfoldable pub active_admin : List User → Option User
active_admin users = find? is_active_admin users

unfoldable pub is_initialized : InitialAdmin → InitialAdmin × Bool
is_initialized s = elim s.initialized [
  | some answer ↦ (s, answer)
  | none ↦
      let answer = is_some (active_admin s.store.users) in
      (record s { initialized = some answer }, answer)
]

-- `create` up to its wait.
unfoldable pub check_input :
    (String → String) → String → String → Result InitialAdminError (Unit {0})
check_input lower username password =
    let names = username_violations username in
    let passwords = validate_password lower password username in
    guard (not (ltb 0 (length names) || ltb 0 (length passwords)))
      (validation_failed names passwords)

unfoldable pub first_admin : String → String → String → ℕ → User
first_admin id username hash now = record {
  id = id;
  username = username;
  password_hash = hash;
  role = admin;
  is_active = true;
  created_at = now;
  updated_at = now;
}

-- The entry of the audit log, the same with and without an audit writer.
abbrev admin_created : User → AuditDraft
admin_created u = record {
  action = "auth.initial_admin.created";
  result = success;
  actor_user_id = some u.id;
  target_ref = some u.id;
  details = ("username", u.username) ∷ [];
}

unfoldable pub claim_rows : User → Store → Result InitialAdminError (Store × User)
claim_rows u s = elim (active_admin s.users) [
  | some _ ↦ err already_initialized
  | none ↦ elim (find_by_username u.username s) [
    | some _ ↦ err username_taken
    | none ↦ elim (create_user_row u s) [
      | err _ ↦ err store_failed
      | ok stored ↦ ok (record_audit (admin_created u) stored, u)
    ]
  ]
]

-- `create` after its wait.
unfoldable pub claim : User → InitialAdmin → InitialAdmin × Result InitialAdminError PublicUser
claim u s =
    let (stored, result) = transaction (claim_rows u) s.store in
    elim result [
      | ok created ↦ (record { store = stored; initialized = some true }, ok (public_user created))
      | err e ↦ (record s { store = stored }, err e)
    ]

find-count :
    (xs : List User) → 1 ≤ count_if is_active_admin xs → is_some (find? is_active_admin xs) ≡ true
find-count [] h = absurd (omega arith)
find-count (x ∷ xs) h = ground (arith, find-count xs)

-- While the instance has an active administrator, every claim is refused and changes nothing.
pub claim_refused :
    (u : User) (s : InitialAdmin)
    → 1 ≤ active_admin_count s.store.users
    → claim u s ≡ (s, err already_initialized)
unfolding claim claim_rows active_admin active_admin_count transaction
claim_refused u s h = ground (arith, find-count s.store.users h)

claimed_count :
    (u : User) (s t : Store) (v : User)
    → is_active_admin u ≡ true
    → claim_rows u s ≡ ok (t, v)
    → (t.users ≡ s.users ++ u ∷ []) × (v ≡ u) × (active_admin s.users ≡ none)
unfolding claim_rows create_user_row record_audit
claimed_count u s t v a h = ground arith

none-count : (xs : List User) → find? is_active_admin xs ≡ none → count_if is_active_admin xs ≡ 0
none-count [] h = refl
none-count (x ∷ xs) h = ground (arith, none-count xs)

claim_committed :
    (u : User) (s t : InitialAdmin) (p : PublicUser)
    → claim u s ≡ (t, ok p)
    → (v : User) × (claim_rows u s.store ≡ ok (t.store, v))
      × (t.initialized ≡ some true)
      × (p ≡ public_user v)
unfolding claim transaction
claim_committed u s t p h = elim (Result-cases (claim_rows u s.store)) [
  | inl (e, bad) ↦ ground arith
  | inr ((t', v), good) ↦ (v, ground arith, ground arith, ground arith)
]

-- The claim is one-way: if it succeeds, there was no active administrator before, there is exactly
-- one afterwards, the instance counts as initialized, and any further claim is refused and changes
-- nothing.
pub claim_once :
    (id username hash : String) (now : ℕ) (s t : InitialAdmin) (p : PublicUser) (v : User)
    → claim (first_admin id username hash now) s ≡ (t, ok p)
    → (active_admin s.store.users ≡ none)
      × (active_admin_count t.store.users ≡ 1)
      × ((is_initialized t).1 ≡ true)
      × (claim v t ≡ (t, err already_initialized))
unfolding active_admin_count active_admin first_admin is_initialized
claim_once id username hash now s t p v h =
    let u = first_admin id username hash now in
    let (w, rows, marked, told) = claim_committed u s t p h in
    let (joined, same, empty) = claimed_count u s.store t.store w refl rows in
    let one : active_admin_count t.store.users ≡ 1 = rw joined (
      omega (
        arith,
        count_if-append is_active_admin s.store.users (u ∷ []),
        none-count s.store.users empty,
      )) in
    (empty, one, ground (arith, marked), claim_refused v t (omega (arith, one)))
