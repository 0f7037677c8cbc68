-- ===== src/Auth/Lockout.antt =====
-- What managing an account does to its sessions.
use myadmin.Common.{
  ℕ, String, ◌≡◌, refl, sym, ap, ◌∙◌, inl, inr, Bool, true, false, not, ◌&&◌, Option, none, some,
  List, [], ◌∷◌, map, arith, eq_iff, if◌then◌else◌, ◌==◌, nat_eq, string_eq, text_eq, Bool-cases,
  Option-cases, is_some, Result, ok, find?-map, some-injective,
}
use myadmin.Auth.Store.{
  UserRole, User, Session, Store, find_by_id, find_by_token_hash, update_user, revoke_all_for_user,
  revoked_if, record_audit, transaction,
}
use myadmin.Auth.Sessions.{Host, Settings, Auth, auth_unauthenticated, validate_session}
use myadmin.Auth.Validity.{session_of}
use myadmin.Auth.Endings.{revoked_refused, found_id, revoked_hash}
use myadmin.Auth.Admins.{rows_written, transaction_keeps}
use myadmin.Auth.Users.{
  ManagedUser, update_rows, write_role_status, update_user_role_status, RoleInput, known, unknown,
  reset_password_rows, reset_password,
}

committed :
    {E A : Type 0} (operation : Store → Result E (Store × A)) (s t : Store) (a : A)
    → transaction operation s ≡ (t, ok a)
    → operation s ≡ ok (t, a)
unfolding transaction
committed operation s t a h = ground arith

write_sessions :
    (u : User) (role : UserRole) (is_active : Bool) (actor : String) (now : ℕ) (s : Store)
    → (write_role_status u role is_active actor now s).sessions ≡ (
        if not is_active && u.is_active
        then map (λ (x : Session). revoked_if (x.user_id == u.id) now x) s.sessions
        else s.sessions)
unfolding write_role_status update_user record_audit revoke_all_for_user
write_sessions u role is_active actor now s = ground arith

-- An accepted deactivation of an active account revokes its sessions.
rows_deactivated :
    (id : String) (role : Option UserRole) (actor : String) (now : ℕ) (s t : Store)
    (v : ManagedUser) (u : User)
    → update_rows id role (some false) actor now s ≡ ok (t, v)
    → find_by_id id s ≡ some u
    → u.is_active ≡ true
    → t.sessions ≡ map (λ (x : Session). revoked_if (x.user_id == id) now x) s.sessions
rows_deactivated id role actor now s t v u h found active =
    let (w, there, allowed, left) = rows_written id role (some false) actor now s t v h in
    let same : w ≡ u = some-injective w u (sym there ∙ found) in
    elim left [
      | inl (unchanged, off) ↦ absurd (ground (arith, ap (λ (x : User). x.is_active) same))
      | inr wrote ↦ rw (wrote, write_sessions, same, active, found_id id s u found) refl
    ]

deactivated :
    (id : String) (role : Option RoleInput) (actor : String) (now : ℕ) (s t : Store)
    (v : ManagedUser) (u : User)
    → update_user_role_status id role (some false) actor now s ≡ (t, ok v)
    → find_by_id id s ≡ some u
    → u.is_active ≡ true
    → t.sessions ≡ map (λ (x : Session). revoked_if (x.user_id == id) now x) s.sessions
unfolding update_user_role_status
deactivated id (some unknown) actor now s t v u h found active = cc
deactivated id (some (known role)) actor now s t v u h found active =
    rows_deactivated id (some role) actor now s t v u
      (committed (update_rows id (some role) (some false) actor now) s t v h) found active
deactivated id none actor now s t v u h found active =
    rows_deactivated id none actor now s t v u
      (committed (update_rows id none (some false) actor now) s t v h) found active

-- A call of `updateUserRoleStatus`.
pub record Change : Type 0 where
  pub id : String
  pub role : Option RoleInput
  pub is_active : Option Bool
  pub actor : String
  pub at : ℕ

-- The store after such calls, refused ones included.
unfoldable pub apply_changes : List Change → Store → Store
apply_changes [] s = s
apply_changes (c ∷ cs) s =
    apply_changes cs (update_user_role_status c.id c.role c.is_active c.actor c.at s).0

-- The row of the token is there and revoked.
record IsShut (hash : String) (s : Store) : Type 0 where
  row : Session
  found : find_by_token_hash hash s ≡ some row
  gone : is_some row.revoked_at ≡ true

revoking-IsShut :
    (hash user_id : String) (at : ℕ) (s t : Store)
    → t.sessions ≡ map (λ (x : Session). revoked_if (x.user_id == user_id) at x) s.sessions
    → IsShut hash s
    → IsShut hash t
unfolding find_by_token_hash
revoking-IsShut hash user_id at s t e h = record {
  row = revoked_if (h.row.user_id == user_id) at h.row;
  found = rw e (
      find?-map (λ x. x.token_hash == hash)
        (λ (x : Session). revoked_if (x.user_id == user_id) at x) s.sessions h.row
        (λ x. ap (λ i. i == hash) (revoked_hash (x.user_id == user_id) at x)) h.found);
  gone = ground (arith, h.gone);
}

same-IsShut :
    (hash : String) (s t : Store) → t.sessions ≡ s.sessions → IsShut hash s → IsShut hash t
unfolding find_by_token_hash
same-IsShut hash s t e h = record { row = h.row; found = rw e h.found; gone = h.gone }

write-IsShut :
    (hash : String) (u : User) (role : UserRole) (is_active : Bool) (actor : String) (now : ℕ)
    (s : Store)
    → IsShut hash s
    → IsShut hash (write_role_status u role is_active actor now s)
write-IsShut hash u role is_active actor now s h =
    elim (Bool-cases (not is_active && u.is_active)) [
      | inl revokes ↦
          revoking-IsShut hash u.id now s _
            (write_sessions u role is_active actor now s ∙ rw revokes refl) h
      | inr keeps ↦
          same-IsShut hash s _ (write_sessions u role is_active actor now s ∙ rw keeps refl) h
    ]

rows-IsShut :
    (hash id : String) (role : Option UserRole) (is_active : Option Bool) (actor : String) (now : ℕ)
    (s : Store)
    → IsShut hash s
    → IsShut hash (transaction (update_rows id role is_active actor now) s).0
rows-IsShut hash id role is_active actor now s h =
    transaction_keeps (IsShut hash) (update_rows id role is_active actor now) s h (λ t v e.
      let (u, found, allowed, left) = rows_written id role is_active actor now s t v e in
      elim left [
        | inl (same, _) ↦ rw same h
        | inr wrote ↦ rw wrote (write-IsShut hash u _ _ actor now s h)
      ])

change-IsShut :
    (hash id : String) (role : Option RoleInput) (is_active : Option Bool) (actor : String)
    (now : ℕ) (s : Store)
    → IsShut hash s
    → IsShut hash (update_user_role_status id role is_active actor now s).0
unfolding update_user_role_status
change-IsShut hash id (some unknown) is_active actor now s h = h
change-IsShut hash id (some (known role)) is_active actor now s h =
    rows-IsShut hash id (some role) is_active actor now s h
change-IsShut hash id none (some is_active) actor now s h =
    rows-IsShut hash id none (some is_active) actor now s h
change-IsShut hash id none none actor now s h = h

apply_changes-IsShut :
    (hash : String) (cs : List Change) (s : Store)
    → IsShut hash s
    → IsShut hash (apply_changes cs s)
unfolding apply_changes
apply_changes-IsShut hash [] s h = h
apply_changes-IsShut hash (c ∷ cs) s h =
    apply_changes-IsShut hash cs _ (change-IsShut hash c.id c.role c.is_active c.actor c.at s h)

reset_sessions :
    (id hash actor : String) (now : ℕ) (s t : Store)
    → reset_password_rows id hash actor now s ≡ ok (t, tt)
    → t.sessions ≡ map (λ (x : Session). revoked_if (x.user_id == id) now x) s.sessions
unfolding reset_password_rows revoke_all_for_user update_user record_audit
reset_sessions id hash actor now s t h = elim (Option-cases (find_by_id id s)) [
  | inl gone ↦ ground arith
  | inr (u, found) ↦ let same = found_id id s u found in rw (sym same) (ground arith)
]

module _ (host : Host) (settings : Settings) where
  -- Once the deactivation of an active account is accepted, the tokens of that account are refused for good:
  -- whatever roles and states are changed afterwards, even if the account is made active again.
  pub deactivation_locks_out :
      (id : String) (role : Option RoleInput) (actor token : String) (now later : ℕ) (s t : Auth)
      (v : ManagedUser) (u : User) (y : Session) (changes : List Change)
      → update_user_role_status id role (some false) actor now s.store ≡ (t.store, ok v)
      → find_by_id id s.store ≡ some u
      → u.is_active ≡ true
      → session_of host token s ≡ some y
      → y.user_id ≡ id
      → (validate_session host settings
          (some token)
          later
          (record t { store = apply_changes changes t.store })).1
        ≡ auth_unauthenticated
  unfolding find_by_token_hash
  deactivation_locks_out id role actor token now later s t v u y changes h there active found
        owner =
      let revoked = deactivated id role actor now s.store t.store v u h there active in
      let shut = apply_changes-IsShut (host.token_hash token) changes t.store (record {
        row = revoked_if (y.user_id == id) now y;
        found = rw revoked (
            find?-map (λ x. x.token_hash == host.token_hash token)
              (λ (x : Session). revoked_if (x.user_id == id) now x) s.store.sessions y
              (λ x. ap (λ i. i == host.token_hash token) (revoked_hash (x.user_id == id) now x))
              found);
        gone = ground (arith, eq_iff y.user_id id);
      }) in
      revoked_refused host settings token later _ shut.row shut.found shut.gone

  reset_session :
      (id hash actor token : String) (now : ℕ) (s t : Store) (y : Session)
      → reset_password_rows id hash actor now s ≡ ok (t, tt)
      → find_by_token_hash (host.token_hash token) s ≡ some y
      → find_by_token_hash (host.token_hash token) t ≡ some (revoked_if (y.user_id == id) now y)
  unfolding find_by_token_hash
  reset_session id hash actor token now s t y h found =
      rw (reset_sessions id hash actor now s t h) (
        find?-map (λ x. x.token_hash == host.token_hash token)
          (λ (x : Session). revoked_if (x.user_id == id) now x) s.sessions y
          (λ x. ap (λ h. h == host.token_hash token) (revoked_hash (x.user_id == id) now x)) found)

  -- A password reset shuts every session of the account for good.
  pub reset_password_ends :
      (id hash actor token : String) (now later : ℕ) (s t : Auth) (y : Session)
      → reset_password id hash actor now s.store ≡ (t.store, ok tt)
      → session_of host token s ≡ some y
      → y.user_id ≡ id
      → (validate_session host settings (some token) later t).1 ≡ auth_unauthenticated
  unfolding reset_password
  reset_password_ends id hash actor token now later s t y h found owner =
      revoked_refused host settings token later t _
        (reset_session id hash actor token now s.store t.store y
          (committed (reset_password_rows id hash actor now) s.store t.store tt h) found)
        (ground (arith, eq_iff y.user_id id))
