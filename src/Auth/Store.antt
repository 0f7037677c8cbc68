-- ===== src/Auth/Store.antt =====
-- The rows that packages/auth reads and writes, and the statements of its repositories
-- (packages/internal-sqlite/src/repositories/users.ts and sessions.ts) as operations on tables.
-- Times are milliseconds. SQLite itself is not modelled: a table is the list of its rows, in the
-- order of insertion, and the constraints of migrations/0001-initial.ts are checked on INSERT.
use myadmin.Common.{
  ℕ, ◌-◌, ◌*◌, String, ◌≡◌, ◌↔◌, Bool, true, false, not, ◌&&◌, ◌||◌, Option, some, List, [], ◌∷◌,
  ◌++◌, map, arith, ltb, leb, if◌then◌else◌, Eq, ◌==◌, nat_eq, string_eq, is_some, or_default,
  Result, ok, err, length, any, filter, find?,
}

pub data UserRole : Type 0 where
  admin user : UserRole

abbrev pub role_beq : UserRole → UserRole → Bool
role_beq admin admin = true
role_beq user user = true
role_beq _ _ = false

pub role_beq_iff : (a b : UserRole) → (role_beq a b ≡ true) ↔ (a ≡ b)
role_beq_iff a b = ground arith

instance abbrev pub role_eq : Eq UserRole
role_eq = record { same = role_beq; same_iff = role_beq_iff }

pub record User : Type 0 where
  pub id : String
  pub username : String
  pub password_hash : String
  pub role : UserRole
  pub is_active : Bool
  pub created_at : ℕ
  pub updated_at : ℕ

pub record Session : Type 0 where
  pub id : String
  pub user_id : String
  pub token_hash : String
  pub created_at : ℕ
  pub expires_at : ℕ
  pub last_seen_at : Option ℕ
  pub revoked_at : Option ℕ

pub data AuditResult : Type 0 where
  success failure denied : AuditResult

-- What the services hand to the audit writer.
pub record AuditDraft : Type 0 where
  pub action : String
  pub result : AuditResult
  pub actor_user_id : Option String
  pub target_ref : Option String
  pub details : List (String × String)

pub record Store : Type 0 where
  pub users : List User
  pub sessions : List Session
  pub audit : List AuditDraft

-- A violated constraint of the database.
pub data StoreError : Type 0 where
  constraint_failed : StoreError

-- Users.

unfoldable pub find_by_id : String → Store → Option User
find_by_id id s = find? (λ u. u.id == id) s.users

unfoldable pub find_by_username : String → Store → Option User
find_by_username username s = find? (λ u. u.username == username) s.users

-- `id` is the primary key and `username` is unique.
unfoldable pub create_user_row : User → Store → Result StoreError Store
create_user_row u s =
    if any (λ v. (v.id == u.id) || (v.username == u.username)) s.users
    then err constraint_failed
    else ok (record s { users = s.users ++ u ∷ [] })

-- `UPDATE users SET … WHERE id = ?`: the id and the time of creation stay.
abbrev pub updated_row : User → User → User
updated_row u v = if v.id == u.id then record u { id = v.id; created_at = v.created_at } else v

unfoldable pub update_user : User → Store → Store
update_user u s = record s { users = map (updated_row u) s.users }

-- Sessions.

unfoldable pub find_by_token_hash : String → Store → Option Session
find_by_token_hash hash s = find? (λ x. x.token_hash == hash) s.sessions

-- `id` is the primary key, `token_hash` is unique, and `user_id` refers to a user.
unfoldable pub create_session : Session → Store → Result StoreError Store
create_session x s =
    if any (λ y. (y.id == x.id) || (y.token_hash == x.token_hash)) s.sessions
      || not (any (λ u. u.id == x.user_id) s.users)
    then err constraint_failed
    else ok (record s { sessions = s.sessions ++ x ∷ [] })

abbrev pub touched : String → ℕ → Session → Session
touched id at x = if x.id == id then record x { last_seen_at = some at } else x

unfoldable pub touch : String → ℕ → Store → Store
touch id at s = record s { sessions = map (touched id at) s.sessions }

-- `UPDATE sessions SET revoked_at = ? WHERE … AND revoked_at IS NULL`
abbrev pub revoked_if : Bool → ℕ → Session → Session
revoked_if hit at x =
    if hit && not (is_some x.revoked_at) then record x { revoked_at = some at } else x

unfoldable pub revoke : String → ℕ → Store → Store
revoke id at s = record s { sessions = map (λ x. revoked_if (x.id == id) at x) s.sessions }

unfoldable pub revoke_all_for_user : String → ℕ → Store → Store
revoke_all_for_user user_id at s = record s {
  sessions = map (λ x. revoked_if (x.user_id == user_id) at x) s.sessions;
}

unfoldable pub revoke_all_for_user_except : String → String → ℕ → Store → Store
revoke_all_for_user_except user_id keep at s = record s {
  sessions = map (λ x. revoked_if ((x.user_id == user_id) && not (x.id == keep)) at x) s.sessions;
}

-- `COALESCE(last_seen_at, created_at)`
abbrev pub last_activity : Session → ℕ
last_activity x = or_default x.last_seen_at x.created_at

-- The WHERE clause of `listExpired`. The limit `at - idle` may lie before every date: `-` on
-- numbers stops at 0, so that case is written out.
unfoldable pub is_listed_expired : ℕ → ℕ → Session → Bool
is_listed_expired at idle_minutes x =
    leb x.expires_at at
    || (ltb 0 idle_minutes
        && (leb (idle_minutes * 60_000) at && leb (last_activity x) (at - idle_minutes * 60_000)))

unfoldable pub list_expired : ℕ → ℕ → Store → List Session
unfolding is_listed_expired
list_expired at idle_minutes s = filter (is_listed_expired at idle_minutes) s.sessions

-- `DELETE FROM sessions WHERE id IN (…)` on the ids that `listExpired` gives, and the number of
-- the rows that it deletes.
unfoldable pub delete_expired_rows : ℕ → ℕ → Store → Store × ℕ
unfolding list_expired
delete_expired_rows at idle_minutes s =
    let expired = list_expired at idle_minutes s in
    let doomed = λ (x : Session). any (λ (y : Session). y.id == x.id) expired in
    (
      record s { sessions = filter (λ x. not (doomed x)) s.sessions },
      length (filter doomed s.sessions),
    )

-- `AuditWriter.record`, for drafts whose action is registered: the row joins the log.
unfoldable pub record_audit : AuditDraft → Store → Store
record_audit draft s = record s { audit = s.audit ++ draft ∷ [] }

-- `withTransaction` outside of another one: a commit, or a rollback when the operation throws.
unfoldable pub transaction {ℓ} :
    {E : Type ℓ} {A : Type 0} → (Store → Result E (Store × A)) → Store → Store × Result E A
transaction operation s = elim (operation s) [ ok (s', a) ↦ (s', ok a) | err e ↦ (s, err e) ]
