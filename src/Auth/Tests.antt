-- ===== src/Auth/Tests.antt =====
-- The theorems on accounts and sessions at concrete rows, tokens and clocks.
use myadmin.Auth.Setup.{
  InitialAdmin, claim, claim_rows, first_admin, active_admin, is_initialized, already_initialized,
  claim_once,
}
use myadmin.Auth.Lasting.{AllAccepted, login_lasts}
use myadmin.Auth.Cleanup.{HasSessionKeys, delete_expired_keeps}
use myadmin.Auth.Lockout.{Change, apply_changes, deactivation_locks_out, reset_password_ends}
use myadmin.Auth.Admins.{HasPrimaryKey, update_user_role_status_remains}
use myadmin.Auth.Users.{
  ManagedUser, update_user_role_status, update_rows, assert_not_last_admin, reset_password,
  reset_password_rows, known, active_admin_count,
}
use myadmin.Auth.Endings.{logout_ends, change_password_ends}
use myadmin.Auth.Validity.{session_of, IsAccepted, validate_session_sound}
use myadmin.Auth.Sessions.{
  Host, Settings, Auth, AuthenticatedSession, PublicUser, authenticated, auth_unauthenticated,
  logout_reason, is_unusable, public_user, is_expired, idle_deadline, is_touch_due, accept_session,
  check_session, validate_session, logout, delete_expired, login_complete, new_session,
  change_password_commit, change_password_rows,
}
use myadmin.Auth.Store.{
  admin, user, role_eq, User, Session, Store, find_by_id, find_by_username, create_user_row,
  find_by_token_hash, create_session, transaction,
}
use myadmin.Auth.RateLimiter.{create_rate_limiter, login}
use myadmin.Common.{
  ◌≤◌, ◌≡◌, refl, ◌↔◌, true, false, none, some, [], ◌∷◌, ◌++◌, arith, eq_iff, nat_eq, string_eq,
  text_eq, ok, err, units, utf16_length, All,
}
use myadmin.Auth.RateLimiter.{create_rate_limiter, login}

abbrev plain_host : Host
plain_host = record { token_hash = λ s. s; to_lower_case = λ s. s }

abbrev usual : Settings
usual = record { idle_timeout_minutes = 10; absolute_timeout_hours = 1; touch_interval_ms = 1000 }

abbrev ana : User
ana = record {
  id = "u1";
  username = "ana";
  password_hash = "h1";
  role = admin;
  is_active = true;
  created_at = 0;
  updated_at = 0;
}

abbrev ben : User
ben = record {
  id = "u2";
  username = "ben";
  password_hash = "h2";
  role = user;
  is_active = true;
  created_at = 0;
  updated_at = 0;
}

abbrev first_session : Session
first_session = record {
  id = "s1";
  user_id = "u1";
  token_hash = "t1";
  created_at = 0;
  expires_at = 100_000;
  last_seen_at = none;
  revoked_at = none;
}

abbrev second_session : Session
second_session = record {
  id = "s2";
  user_id = "u1";
  token_hash = "t2";
  created_at = 0;
  expires_at = 100_000;
  last_seen_at = none;
  revoked_at = none;
}

abbrev two_users : Store
two_users = record {
  users = ana ∷ ben ∷ [];
  sessions = first_session ∷ second_session ∷ [];
  audit = [];
}

abbrev signed_in : Auth
signed_in = record { store = two_users; limiter = create_rate_limiter login; ended = [] }

first_found : session_of plain_host "t1" signed_in ≡ some first_session
unfolding find_by_token_hash
first_found = refl

ana_found : find_by_id "u1" two_users ≡ some ana
unfolding find_by_id
ana_found = refl

usable : is_unusable "t1" ≡ false
unfolding utf16_length units
usable = refl

-- The first sight of a session is written down.
abbrev seen : AuthenticatedSession
seen = record { session = record first_session { last_seen_at = some 500 }; user = public_user ana }

seen_accepted : (validate_session plain_host usual (some "t1") 500 signed_in).1 ≡ authenticated seen
unfolding validate_session check_session accept_session is_expired idle_deadline is_touch_due
    find_by_token_hash find_by_id utf16_length units
seen_accepted = refl

validate_session_sound_example : IsAccepted plain_host usual "t1" 500 signed_in seen
validate_session_sound_example =
    validate_session_sound plain_host usual "t1" 500 signed_in seen seen_accepted

logged_out : (logout plain_host usual (some "t1") 500 501 signed_in).1 ≡ authenticated seen
unfolding logout validate_session check_session accept_session is_expired idle_deadline is_touch_due
    find_by_token_hash find_by_id utf16_length units
logged_out = refl

logout_ends_example :
    ((validate_session plain_host usual
        (some "t1")
        600
        (logout plain_host usual (some "t1") 500 501 signed_in).0).1
      ≡ auth_unauthenticated)
    × ((logout plain_host usual (some "t1") 500 501 signed_in).0.ended
        ≡ (validate_session plain_host usual (some "t1") 500 signed_in).0.ended
          ++ ("u1", logout_reason) ∷ [])
logout_ends_example = logout_ends plain_host usual "t1" 500 501 600 signed_in seen logged_out

abbrev password_changed : Auth
password_changed = (change_password_commit plain_host usual ana "s1" "h3" 700 signed_in).0

password_committed :
    change_password_commit plain_host usual ana "s1" "h3" 700 signed_in ≡ (password_changed, ok tt)
unfolding change_password_commit change_password_rows transaction find_by_id
password_committed = refl

second_found : session_of plain_host "t2" signed_in ≡ some second_session
unfolding find_by_token_hash
second_found = refl

change_password_ends_example :
    (validate_session plain_host usual (some "t2") 800 password_changed).1 ≡ auth_unauthenticated
change_password_ends_example =
    change_password_ends plain_host usual ana "s1" "h3" "t2" 700 800 signed_in password_changed
      second_session password_committed second_found refl
      (λ e. ground (arith, (eq_iff "s2" "s1").1 e))

two_users-HasPrimaryKey : HasPrimaryKey two_users
unfolding find_by_id
two_users-HasPrimaryKey = (refl, (refl, tt))

one_admin : 1 ≤ active_admin_count two_users.users
unfolding active_admin_count
one_admin = omega arith

update_user_role_status_remains_example :
    1
    ≤ active_admin_count
        (update_user_role_status "u1" (some (known user)) none "u1" 5 two_users).0.users
update_user_role_status_remains_example =
    update_user_role_status_remains "u1" (some (known user)) none "u1" 5 two_users
      two_users-HasPrimaryKey one_admin

abbrev third_session : Session
third_session = record {
  id = "s3";
  user_id = "u2";
  token_hash = "t3";
  created_at = 0;
  expires_at = 100_000;
  last_seen_at = none;
  revoked_at = none;
}

abbrev with_third : Auth
with_third = record signed_in { store = record two_users { sessions = third_session ∷ [] } }

abbrev ben_off : Auth
ben_off = record with_third {
  store = (update_user_role_status "u2" none (some false) "u1" 5 with_third.store).0;
}

abbrev ben_told : ManagedUser
ben_told = record { id = "u2"; username = "ben"; role = user; is_active = false }

ben_deactivated :
    update_user_role_status "u2" none (some false) "u1" 5 with_third.store
    ≡ (ben_off.store, ok ben_told)
unfolding update_user_role_status update_rows assert_not_last_admin transaction find_by_id
ben_deactivated = refl

third_found : session_of plain_host "t3" with_third ≡ some third_session
unfolding find_by_token_hash
third_found = refl

ben_found : find_by_id "u2" with_third.store ≡ some ben
unfolding find_by_id
ben_found = refl

-- Ben is made active again, which does not bring back his session.
abbrev reactivation : Change
reactivation = record { id = "u2"; role = none; is_active = some true; actor = "u1"; at = 7 }

deactivation_locks_out_example :
    (validate_session plain_host usual
      (some "t3")
      10
      (record ben_off { store = apply_changes (reactivation ∷ []) ben_off.store })).1
    ≡ auth_unauthenticated
deactivation_locks_out_example =
    deactivation_locks_out plain_host usual "u2" none "u1" "t3" 5 10 with_third ben_off ben_told ben
      third_session (reactivation ∷ []) ben_deactivated ben_found refl third_found refl

-- The second session has reached its end.
abbrev with_expired : Auth
with_expired = record signed_in {
  store = record two_users {
    sessions = first_session ∷ record second_session { expires_at = 300 } ∷ [];
  };
}

expired-HasSessionKeys : HasSessionKeys with_expired.store.sessions
expired-HasSessionKeys = ((refl, (refl, tt)), (refl, (refl, tt)))

abbrev seen_later : AuthenticatedSession
seen_later = record {
  session = record first_session { last_seen_at = some 600 };
  user = public_user ana;
}

accepted_before :
    (validate_session plain_host usual (some "t1") 600 with_expired).1 ≡ authenticated seen_later
unfolding validate_session check_session accept_session is_expired idle_deadline is_touch_due
    find_by_token_hash find_by_id utf16_length units
accepted_before = refl

delete_expired_keeps_example :
    All
      (λ (x : Session). is_expired x 500 10 ≡ false)
      (delete_expired plain_host usual 500 with_expired).0.store.sessions
    × (((validate_session plain_host usual (some "t1") 600 with_expired).1
          ≡ authenticated seen_later)
        ↔ ((validate_session plain_host usual
              (some "t1")
              600
              (delete_expired plain_host usual 500 with_expired).0).1
            ≡ authenticated seen_later))
delete_expired_keeps_example =
    delete_expired_keeps plain_host usual "t1" 500 600 with_expired seen_later (omega arith)
      expired-HasSessionKeys (omega arith)

abbrev ana_in : Auth
ana_in = (login_complete plain_host usual ana "s9" "t9" 100 signed_in).0

ana_opened :
    login_complete plain_host usual ana "s9" "t9" 100 signed_in
    ≡ (ana_in, ok (public_user ana, "t9"))
unfolding login_complete create_session new_session
ana_opened = refl

usable_token : is_unusable "t9" ≡ false
unfolding utf16_length units
usable_token = refl

login_lasts_example :
    AllAccepted plain_host usual "t9" ana 3_600_100 (500_000 ∷ 1_000_000 ∷ []) ana_in
login_lasts_example =
    login_lasts plain_host usual ana ana "s9" "t9" 100 signed_in ana_in (public_user ana, "t9")
      (500_000 ∷ 1_000_000 ∷ []) ana_opened ana_found refl usable_token
      (omega arith, omega arith, omega arith, (omega arith, omega arith, omega arith, tt))

abbrev after_reset : Auth
after_reset = record signed_in { store = (reset_password "u1" "h9" "u1" 5 two_users).0 }

reset_committed : reset_password "u1" "h9" "u1" 5 two_users ≡ (after_reset.store, ok tt)
unfolding reset_password reset_password_rows transaction find_by_id
reset_committed = refl

reset_password_ends_example :
    (validate_session plain_host usual (some "t1") 10 after_reset).1 ≡ auth_unauthenticated
reset_password_ends_example =
    reset_password_ends plain_host usual "u1" "h9" "u1" "t1" 5 10 signed_in after_reset
      first_session reset_committed first_found refl

abbrev empty_instance : InitialAdmin
empty_instance = record {
  store = record { users = []; sessions = []; audit = [] };
  initialized = none;
}

abbrev claimed : InitialAdmin
claimed = (claim (first_admin "u1" "ana" "h" 3) empty_instance).0

abbrev claimant : PublicUser
claimant = record { id = "u1"; username = "ana"; role = admin }

claim_accepted : claim (first_admin "u1" "ana" "h" 3) empty_instance ≡ (claimed, ok claimant)
unfolding claim claim_rows transaction active_admin find_by_username create_user_row first_admin
claim_accepted = refl

claim_once_example :
    (active_admin empty_instance.store.users ≡ none)
    × (active_admin_count claimed.store.users ≡ 1)
    × ((is_initialized claimed).1 ≡ true)
    × (claim ben claimed ≡ (claimed, err already_initialized))
claim_once_example = claim_once "u1" "ana" "h" 3 empty_instance claimed claimant ben claim_accepted
