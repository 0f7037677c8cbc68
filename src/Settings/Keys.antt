-- ===== src/Settings/Keys.antt =====
-- Which entries of the cache and of the tables belong to which setting.
use myadmin.Common.{
  ℕ, ◌≡◌, refl, sym, ap, subst, ◌∙◌, ◌≢◌, inl, inr, Bool, true, false, Option, none, some, List, [],
  ◌∷◌, ◌++◌, arith, if◌then◌else◌, ◌==◌, nat_eq, string_eq, text_eq, Bool-cases, or_default, Result,
  ok, any, find?, All, find?-sound, some-injective,
}
use myadmin.Common.Dict.{lookup, insert, lookup-insert_self, lookup-insert_ne}
use myadmin.Settings.{
  Change, SettingsScope, user_scope, JsonValue, RegistryEntry, registry, SettingsError, Slot,
  preference, setting, slot_key, slot_scope, cache_key, get_registry_entry, known_entry,
  own_or_inherited, inherited_names, entry_for, SettingsStore, stored, write, log, user_scope,
  app_scope,
}

abbrev has_colon : List ℕ → Bool
has_colon key = any (λ c. c == b':') key

-- Where an entry is found, its key has no colon.
find?-All :
    {A : Type 0} (P : A → Type 0) (p : A → Bool) (xs : List A) (x : A)
    → All P xs
    → find? p xs ≡ some x
    → P x
find?-All P p [] x h found = cc found
find?-All P p (y ∷ xs) x h found = elim (Bool-cases (p y)) [
  | inl here ↦
      subst P (some-injective y x (sym (ap (λ b. if b then some y else find? p xs) here) ∙ found))
        h.0
  | inr there ↦
      find?-All P p xs x h.1 (sym (ap (λ b. if b then some y else find? p xs) there) ∙ found)
]

key_no_colon :
    (key : List ℕ) (e : RegistryEntry)
    → find? (λ x. x.key == key) registry ≡ some e
    → has_colon key ≡ false
key_no_colon key e found =
    subst (λ k. has_colon k ≡ false)
      ((text_eq.same_iff e.key key).0 (find?-sound (λ x. x.key == key) registry e found))
      (find?-All (λ x. has_colon x.key ≡ false) (λ x. x.key == key) registry e
        (refl, (refl, (refl, (refl, (refl, tt))))) found)

own_entry :
    (scope : SettingsScope) (b : Bool) (o : Option RegistryEntry) (e : RegistryEntry)
    → known_entry scope (own_or_inherited b o) ≡ ok e
    → (x : RegistryEntry) × (o ≡ some x)
own_entry scope b (some x) e h = (x, refl)
own_entry scope false none e h = cc h
own_entry user_scope true none e h = cc h
own_entry app_scope true none e h = cc h

entry_no_colon :
    (key : List ℕ) (scope : SettingsScope) (e : RegistryEntry)
    → entry_for key scope ≡ ok e
    → has_colon key ≡ false
unfolding entry_for get_registry_entry
entry_no_colon key scope e h =
    let (found, at) =
      own_entry scope (any (λ name. name == key) inherited_names)
        (find? (λ x. x.key == key) registry) e h in
    key_no_colon key found at

has_colon-append : (user key : List ℕ) → has_colon (user ++ b':' ∷ key) ≡ true
has_colon-append [] key = refl
has_colon-append (c ∷ user) key = ground (arith, has_colon-append user key)

abbrev tail_of : List ℕ → List ℕ
tail_of [] = []
tail_of (c ∷ cs) = cs

abbrev head_of : List ℕ → ℕ
head_of [] = 0
head_of (c ∷ cs) = c

-- A user and a key without a colon are determined by what the cache makes of them.
split_colon :
    (user other key other_key : List ℕ)
    → has_colon key ≡ false
    → has_colon other_key ≡ false
    → user ++ b':' ∷ key ≡ other ++ b':' ∷ other_key
    → (user ≡ other) × (key ≡ other_key)
split_colon [] [] key other_key free other_free h = (refl, ap tail_of h)
split_colon [] (c ∷ other) key other_key free other_free h =
    absurd (ground (arith, free, has_colon-append other other_key, ap has_colon (ap tail_of h)))
split_colon (c ∷ user) [] key other_key free other_free h =
    absurd (ground (arith, other_free, has_colon-append user key, ap has_colon (ap tail_of h)))
split_colon (c ∷ user) (d ∷ other) key other_key free other_free h =
    let (same, same_key) = split_colon user other key other_key free other_free (ap tail_of h) in
    (rw (ap head_of h, same) refl, same_key)

abbrev pub Registered : Slot → RegistryEntry → Type 0
Registered slot e = entry_for (slot_key slot) (slot_scope slot) ≡ ok e

pub ok-injective :
    {x y : RegistryEntry} → ◌≡◌ {A = Result SettingsError RegistryEntry} (ok x) (ok y) → x ≡ y
ok-injective h = cc h

pub cache_key-injective :
    (a b : Slot) (ea eb : RegistryEntry)
    → Registered a ea
    → Registered b eb
    → cache_key a ≡ cache_key b
    → a ≡ b
cache_key-injective (preference user key) (preference other other_key) ea eb ra rb h =
    let (same, same_key) =
      split_colon user other key other_key (entry_no_colon key user_scope ea ra)
        (entry_no_colon other_key user_scope eb rb)
        (ap (λ l. tail_of (tail_of (tail_of (tail_of (tail_of l))))) h) in
    rw (same, same_key) refl
cache_key-injective (preference user key) (setting other_key) ea eb ra rb h =
    absurd (ground (arith, ap head_of h))
cache_key-injective (setting key) (preference other other_key) ea eb ra rb h =
    absurd (ground (arith, ap head_of h))
cache_key-injective (setting key) (setting other_key) ea eb ra rb h =
    ap setting (ap (λ l. tail_of (tail_of (tail_of (tail_of l)))) h)

same_user :
    (user key other_key : List ℕ) (v : JsonValue) (s : SettingsStore)
    → key ≢ other_key
    → stored (preference user other_key) (write (preference user key) v s)
      ≡ stored (preference user other_key) s
unfolding stored write
same_user user key other_key v s differ =
    rw
      (lookup-insert_self user (insert key v (or_default (lookup user s.preferences) []))
        s.preferences)
      (lookup-insert_ne key other_key v (or_default (lookup user s.preferences) []) differ)

pub stored-write_other :
    (a b : Slot) (v : JsonValue) (s : SettingsStore) → a ≢ b → stored b (write a v s) ≡ stored b s
unfolding stored write
stored-write_other (preference user key) (preference other other_key) v s differ =
    elim (Bool-cases (user == other)) [
      | inl same ↦
          subst
            (λ u.
              stored (preference u other_key) (write (preference user key) v s)
              ≡ stored (preference u other_key) s)
            ((text_eq.same_iff user other).0 same)
            (same_user user key other_key v s
              (λ e. differ (rw (e, (text_eq.same_iff user other).0 same) refl)))
      | inr another ↦
          rw
            (lookup-insert_ne user other (insert key v (or_default (lookup user s.preferences) []))
              s.preferences (λ e. cc (another, (text_eq.same_iff user other).1 e)))
            refl
    ]
stored-write_other (preference user key) (setting other_key) v s differ = refl
stored-write_other (setting key) (preference other other_key) v s differ = refl
stored-write_other (setting key) (setting other_key) v s differ =
    lookup-insert_ne key other_key v s.settings (λ e. differ (ap setting e))

pub stored-log : (b : Slot) (c : Change) (s : SettingsStore) → stored b (log c s) ≡ stored b s
unfolding stored
stored-log (preference user key) c s = refl
stored-log (setting key) c s = refl
