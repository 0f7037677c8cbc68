-- ===== src/Auth/Admins.antt =====
-- packages/auth/src/user-management.ts: the administrator that must remain.
use myadmin.Common.{
  ℕ, ◌≤◌, String, ◌≡◌, refl, sym, subst, ◌∙◌, ◌⊎◌, inl, inr, Bool, true, false, not, ◌&&◌, Option,
  none, some, List, [], ◌∷◌, map, arith, eq_iff, ◌==◌, nat_eq, string_eq, text_eq, Bool-cases,
  Option-cases, or_default, Result, ok, err, length, filter, find?, count_if, All, All-imp,
  some-injective,
}
use myadmin.Auth.Store.{
  transaction, UserRole, role_eq, User, Store, find_by_id, updated_row, update_user,
  revoke_all_for_user, record_audit, transaction,
}
use myadmin.Auth.Endings.{found_id}
use myadmin.Auth.Users.{
  update_user_role_status, RoleInput, known, unknown, ManagedUser, is_active_admin,
  active_admin_count, assert_not_last_admin, write_role_status, update_rows,
}

-- `id` is the primary key of the table: a row is what its id finds.
abbrev pub HasPrimaryKey : Store → Type 0
HasPrimaryKey s = All (λ (u : User). find_by_id u.id s ≡ some u) s.users

other_remains :
    (r : User) (xs : List User)
    → 1 ≤ length (filter (λ (u : User). not (u.id == r.id) && is_active_admin u) xs)
    → 1 ≤ count_if is_active_admin (map (updated_row r) xs)
other_remains r [] h = h
other_remains r (x ∷ xs) h = ground (arith, other_remains r xs)

updated_remains :
    (r : User) (xs : List User) (u : User)
    → find? (λ (v : User). v.id == r.id) xs ≡ some u
    → is_active_admin r ≡ true
    → 1 ≤ count_if is_active_admin (map (updated_row r) xs)
updated_remains r [] u h a = cc
updated_remains r (x ∷ xs) u h a = ground (arith, updated_remains r xs u)

elsewhere_remains :
    (r : User) (xs : List User)
    → All (λ (v : User). v.id ≡ r.id → is_active_admin v ≡ false) xs
    → 1 ≤ count_if is_active_admin xs
    → 1 ≤ count_if is_active_admin (map (updated_row r) xs)
elsewhere_remains r [] k h = h
elsewhere_remains r (x ∷ xs) k h = ground (arith, elsewhere_remains r xs k.1, eq_iff x.id r.id)

update_remains :
    (r u : User) (s : Store)
    → HasPrimaryKey s
    → find_by_id r.id s ≡ some u
    → 1 ≤ active_admin_count s.users
    → assert_not_last_admin s.users u r.role r.is_active ≡ ok tt
    → u.id ≡ r.id
    → 1 ≤ count_if is_active_admin (map (updated_row r) s.users)
unfolding active_admin_count assert_not_last_admin find_by_id
update_remains r u s key found some_admin allowed same = elim (Bool-cases (is_active_admin r)) [
  | inl stays ↦ updated_remains r s.users u found stays
  | inr leaves ↦ elim (Bool-cases (is_active_admin u)) [
    | inl was ↦ other_remains r s.users (
        subst
          (λ i. 1 ≤ length (filter (λ (v : User). not (v.id == i) && is_active_admin v) s.users))
          same (ground arith))
    | inr was_not ↦
        elsewhere_remains r s.users
          (All-imp (λ (v : User). find_by_id v.id s ≡ some v)
            (λ (v : User). v.id ≡ r.id → is_active_admin v ≡ false)
            (λ v f e.
              let g : find_by_id r.id s ≡ some v = subst (λ i. find_by_id i s ≡ some v) e f in
              let h : some v ≡ some u = sym g ∙ found in
              subst (λ (w : User). is_active_admin w ≡ false) (sym (some-injective v u h)) was_not)
            s.users key)
          some_admin
  ]
]

abbrev pub next_row : User → Option UserRole → Option Bool → ℕ → User
next_row u role is_active now = record u {
  role = or_default role u.role;
  is_active = or_default is_active u.is_active;
  updated_at = now;
}

pub write_users :
    (u : User) (role : UserRole) (is_active : Bool) (actor : String) (now : ℕ) (s : Store)
    → (write_role_status u role is_active actor now s).users
      ≡ map
          (updated_row (record u { role = role; is_active = is_active; updated_at = now }))
          s.users
unfolding write_role_status update_user record_audit revoke_all_for_user
write_users u role is_active actor now s = ground arith

-- What the transaction leaves is the table as it was, or with the target's row replaced.
pub rows_written :
    (id : String) (role : Option UserRole) (is_active : Option Bool) (actor : String) (now : ℕ)
    (s t : Store) (v : ManagedUser)
    → update_rows id role is_active actor now s ≡ ok (t, v)
    → (u : User) × (find_by_id id s ≡ some u)
      × (assert_not_last_admin s.users u (or_default role u.role) (or_default is_active u.is_active)
          ≡ ok tt)
      × ((t ≡ s × (or_default is_active u.is_active ≡ u.is_active))
          ⊎ (t
              ≡ write_role_status u
                  (or_default role u.role)
                  (or_default is_active u.is_active)
                  actor
                  now
                  s))
unfolding update_rows
rows_written id role is_active actor now s t v h = elim (Option-cases (find_by_id id s)) [
  | inl gone ↦ ground arith
  | inr (u, found) ↦ (u, found, ground arith, ground arith)
]

rows_remain :
    (id : String) (role : Option UserRole) (is_active : Option Bool) (actor : String) (now : ℕ)
    (s t : Store) (v : ManagedUser)
    → HasPrimaryKey s
    → 1 ≤ active_admin_count s.users
    → update_rows id role is_active actor now s ≡ ok (t, v)
    → 1 ≤ active_admin_count t.users
unfolding active_admin_count
rows_remain id role is_active actor now s t v key some_admin h =
    let (u, found, allowed, left) = rows_written id role is_active actor now s t v h in
    elim left [
      | inl (same, _) ↦ rw same some_admin
      | inr wrote ↦
          rw (wrote, write_users)
            (update_remains (next_row u role is_active now) u s key
              (rw (found_id id s u found) found) some_admin allowed refl)
    ]

-- A committed or refused transaction keeps what its operation keeps.
pub transaction_keeps :
    {E A : Type 0} (P : Store → Type 0) (operation : Store → Result E (Store × A)) (s : Store)
    → P s
    → ((t : Store) (a : A) → operation s ≡ ok (t, a) → P t)
    → P (transaction operation s).0
unfolding transaction
transaction_keeps {E} {A} P operation s p keep = go (operation s) refl
  where
    go : (r : Result E (Store × A)) → operation s ≡ r → P (transaction operation s).0
    go (ok (t, a)) h = rw (h, transaction) (keep t a h)
    go (err e) h = rw (h, transaction) p

-- No change of a role or a status takes away the last active administrator: where there is one
-- before, and ids are unique, there is one afterwards, whatever is asked for and by whom.
pub update_user_role_status_remains :
    (id : String) (role : Option RoleInput) (is_active : Option Bool) (actor : String) (now : ℕ)
    (s : Store)
    → HasPrimaryKey s
    → 1 ≤ active_admin_count s.users
    → 1 ≤ active_admin_count (update_user_role_status id role is_active actor now s).0.users
unfolding update_user_role_status
update_user_role_status_remains id (some unknown) is_active actor now s key some_admin = some_admin
update_user_role_status_remains id (some (known role)) is_active actor now s key some_admin =
    transaction_keeps (λ t. 1 ≤ active_admin_count t.users)
      (update_rows id (some role) is_active actor now) s some_admin
      (λ t v h. rows_remain id (some role) is_active actor now s t v key some_admin h)
update_user_role_status_remains id none (some is_active) actor now s key some_admin =
    transaction_keeps (λ t. 1 ≤ active_admin_count t.users)
      (update_rows id none (some is_active) actor now) s some_admin
      (λ t v h. rows_remain id none (some is_active) actor now s t v key some_admin h)
update_user_role_status_remains id none none actor now s key some_admin = some_admin
