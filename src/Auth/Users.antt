-- ===== src/Auth/Users.antt =====
-- packages/auth/src/user-management.ts: the accounts, as administrators manage them. A method that
-- awaits the hash is one function before the wait and one after it.
use myadmin.Common.{
  ℕ, String, Bool, true, false, not, ◌&&◌, ◌||◌, Option, none, some, List, [], ◌∷◌, ltb,
  if◌then◌else◌, ◌==◌, nat_eq, string_eq, or_default, Result, ok, err, guard, length, filter,
  count_if,
}
use myadmin.Auth.Store.{
  UserRole, admin, user, role_eq, User, success, AuditDraft, Store, find_by_id, find_by_username,
  create_user_row, update_user, revoke_all_for_user, record_audit, transaction,
}
use myadmin.Auth.Policy.{
  PasswordViolation, validate_password, UsernameViolation, username_violations,
}

pub record ManagedUser : Type 0 where
  pub id : String
  pub username : String
  pub role : UserRole
  pub is_active : Bool

abbrev pub managed_user : User → ManagedUser
managed_user u = record { id = u.id; username = u.username; role = u.role; is_active = u.is_active }

-- `fields` of the details of a refusal.
pub record InvalidFields : Type 0 where
  pub username : List UsernameViolation
  pub password : List PasswordViolation
  pub role : Bool

pub data UserManagementError : Type 0 where
  validation_failed : Option InvalidFields → UserManagementError
  username_taken user_not_found last_admin store_failed : UserManagementError

-- What a request holds where a role is asked for.
pub data RoleInput : Type 0 where
  known : UserRole → RoleInput
  unknown : RoleInput

-- `nextIsActive !== user.isActive`
abbrev pub bool_differs : Bool → Bool → Bool
bool_differs true b = not b
bool_differs false b = b

abbrev pub is_active_admin : User → Bool
is_active_admin u = (u.role == admin) && u.is_active

unfoldable pub active_admin_count : List User → ℕ
active_admin_count users = count_if is_active_admin users

unfoldable pub assert_not_last_admin :
    List User → User → UserRole → Bool → Result UserManagementError (Unit {0})
assert_not_last_admin users target next_role next_is_active =
    if is_active_admin target && not ((next_role == admin) && next_is_active)
    then guard
        (not
          (length (filter (λ (u : User). not (u.id == target.id) && is_active_admin u) users) == 0))
        last_admin
    else ok tt

unfoldable pub check_new_user :
    (String → String) → String → String → RoleInput → Result UserManagementError UserRole
check_new_user lower username password unknown = err (
    validation_failed (
      some (record {
        username = username_violations username;
        password = validate_password lower password username;
        role = true;
      })))
check_new_user lower username password (known role) =
    if ltb 0 (length (username_violations username))
      || ltb 0 (length (validate_password lower password username))
    then err (
        validation_failed (
          some (record {
            username = username_violations username;
            password = validate_password lower password username;
            role = false;
          })))
    else ok role

abbrev role_name : UserRole → String
role_name admin = "admin"
role_name user = "user"

abbrev user_event : String → String → User → List (String × String) → AuditDraft
user_event action actor u more = record {
  action = action;
  result = success;
  actor_user_id = some actor;
  target_ref = some u.id;
  details = ("username", u.username) ∷ more;
}

-- `createUser` after the hash is there, with a fresh id.
unfoldable pub create_user_rows :
    User → String → Store → Result UserManagementError (Store × ManagedUser)
create_user_rows u actor s = elim (find_by_username u.username s) [
  | some _ ↦ err username_taken
  | none ↦ elim (create_user_row u s) [
    | err _ ↦ err store_failed
    | ok stored ↦ ok (
      record_audit (user_event "user.created" actor u (("role", role_name u.role) ∷ [])) stored,
      managed_user u,
    )
  ]
]

unfoldable pub new_user : String → String → String → UserRole → ℕ → User
new_user id username hash role now = record {
  id = id;
  username = username;
  password_hash = hash;
  role = role;
  is_active = true;
  created_at = now;
  updated_at = now;
}

unfoldable pub create_user : User → String → Store → Store × Result UserManagementError ManagedUser
create_user u actor s = transaction (create_user_rows u actor) s

-- The writes of `updateUserRoleStatus` once something changes.
unfoldable pub write_role_status : User → UserRole → Bool → String → ℕ → Store → Store
write_role_status u next_role next_is_active actor now s =
    let updated =
      update_user (record u { role = next_role; is_active = next_is_active; updated_at = now }) s in
    let status_written =
      if bool_differs next_is_active u.is_active
      then record_audit
          (user_event (if next_is_active then "user.activated" else "user.deactivated") actor u [])
          (if next_is_active then updated else revoke_all_for_user u.id now updated)
      else updated in
    if next_role == u.role
    then status_written
    else record_audit
        (user_event "user.role_changed" actor u
          (("from", role_name u.role) ∷ ("to", role_name next_role) ∷ []))
        status_written

unfoldable pub update_rows :
    String
    → Option UserRole
    → Option Bool
    → String
    → ℕ
    → Store
    → Result UserManagementError (Store × ManagedUser)
update_rows target_id role is_active actor now s = elim (find_by_id target_id s) [
  | none ↦ err user_not_found
  | some u ↦
      let next_role = or_default role u.role in
      let next_is_active = or_default is_active u.is_active in
      elim (assert_not_last_admin s.users u next_role next_is_active) [
        | err e ↦ err e
        | ok _ ↦
            if (next_role == u.role) && not (bool_differs next_is_active u.is_active)
            then ok (s, managed_user u)
            else ok (
              write_role_status u next_role next_is_active actor now s,
              managed_user
                  (record u { role = next_role; is_active = next_is_active; updated_at = now }),
            )
      ]
]

abbrev role_invalid : InvalidFields
role_invalid = record { username = []; password = []; role = true }

-- `updateUserRoleStatus`
unfoldable pub update_user_role_status :
    String
    → Option RoleInput
    → Option Bool
    → String
    → ℕ
    → Store
    → Store × Result UserManagementError ManagedUser
update_user_role_status target_id (some unknown) is_active actor now s =
    (s, err (validation_failed (some role_invalid)))
update_user_role_status target_id (some (known role)) is_active actor now s =
    transaction (update_rows target_id (some role) is_active actor now) s
update_user_role_status target_id none (some is_active) actor now s =
    transaction (update_rows target_id none (some is_active) actor now) s
update_user_role_status target_id none none actor now s = (s, err (validation_failed none))

-- `resetPassword` up to its wait.
unfoldable pub reset_password_begin :
    (String → String) → String → String → Store → Result UserManagementError (Unit {0})
reset_password_begin lower target_id new_password s = elim (find_by_id target_id s) [
  | none ↦ err user_not_found
  | some u ↦
      if ltb 0 (length (validate_password lower new_password u.username))
      then err (
          validation_failed (
            some (record {
              username = [];
              password = validate_password lower new_password u.username;
              role = false;
            })))
      else ok tt
]

unfoldable pub reset_password_rows :
    String → String → String → ℕ → Store → Result UserManagementError (Store × Unit {0})
reset_password_rows target_id hash actor now s = elim (find_by_id target_id s) [
  | none ↦ err user_not_found
  | some u ↦ ok (
    record_audit (user_event "user.password_reset" actor u []) (
        revoke_all_for_user u.id now
          (update_user (record u { password_hash = hash; updated_at = now }) s)),
    tt,
  )
]

-- `resetPassword` after its wait.
unfoldable pub reset_password :
    String → String → String → ℕ → Store → Store × Result UserManagementError (Unit {0})
reset_password target_id hash actor now s =
    transaction (reset_password_rows target_id hash actor now) s
