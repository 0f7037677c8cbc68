-- ===== src/Auth/Sessions/Types.antt =====
-- packages/auth/src/session.ts: its records, its settings, and when a session has expired.
use myadmin.Common.{
  ℕ, ◌+◌, ◌*◌, String, Bool, not, ◌||◌, Option, none, some, List, ltb, leb, if◌then◌else◌, ◌==◌,
  nat_eq, string_eq, or_default, Number, nat, neg, not_whole, utf16_length,
}
use myadmin.Auth.RateLimiter.{RateLimiter}
use myadmin.Auth.Store.{UserRole, User, Session, Store, last_activity}

pub record PublicUser : Type 0 where
  pub id : String
  pub username : String
  pub role : UserRole

-- What comes from outside of the package: SHA-256 of a token, and `toLowerCase`.
pub record Host : Type 0 where
  pub token_hash : String → String
  pub to_lower_case : String → String

pub record Settings : Type 0 where
  pub idle_timeout_minutes : ℕ
  pub absolute_timeout_hours : ℕ
  pub touch_interval_ms : ℕ

pub data AuthError : Type 0 where
  invalid_credentials unauthenticated validation_failed store_failed : AuthError
  rate_limited : ℕ → AuthError

pub record AuthenticatedSession : Type 0 where
  pub session : Session
  pub user : PublicUser

pub data SessionValidation : Type 0 where
  authenticated : AuthenticatedSession → SessionValidation
  auth_unauthenticated session_expired : SessionValidation

pub data SessionEndReason : Type 0 where
  logout_reason expired_reason : SessionEndReason

-- The state behind the service; `ended` logs the calls of `onSessionEnded`.
pub record Auth : Type 0 where
  pub store : Store
  pub limiter : RateLimiter
  pub ended : List (String × SessionEndReason)

-- The result of `PasswordHasher.verify`.
pub record Verification : Type 0 where
  pub accepted : Bool
  pub needs_rehash : Bool

abbrev pub public_user : User → PublicUser
public_user u = record { id = u.id; username = u.username; role = u.role }

unfoldable pub idle_deadline : Session → ℕ → ℕ
idle_deadline x idle_minutes = last_activity x + idle_minutes * 60_000

unfoldable pub is_expired : Session → ℕ → ℕ → Bool
unfolding idle_deadline
is_expired x now idle_minutes = leb x.expires_at now || leb (idle_deadline x idle_minutes) now

-- The constructor's checks, with its defaults; `none` is the thrown RangeError.
abbrev whole_from_one : Number → Option ℕ
whole_from_one (nat n) = if ltb n 1 then none else some n
whole_from_one (neg n) = none
whole_from_one not_whole = none

unfoldable pub new_settings : Option Number → Option Number → Option Number → Option Settings
new_settings idle absolute interval = elim (whole_from_one (or_default idle (nat 720))) [
  | none ↦ none
  | some i ↦ elim (whole_from_one (or_default absolute (nat 168))) [
    | none ↦ none
    | some a ↦ elim (whole_from_one (or_default interval (nat 60_000))) [
      | none ↦ none
      | some t ↦
          some
            (record { idle_timeout_minutes = i; absolute_timeout_hours = a; touch_interval_ms = t })
    ]
  ]
]

-- `!token || token.length > 512`
abbrev pub is_unusable : String → Bool
is_unusable token = (token == "") || ltb 512 (utf16_length token)

abbrev pub failure_reason : Option User → String
failure_reason none = "credentials_invalid"
failure_reason (some u) = if not u.is_active then "user_inactive" else "credentials_invalid"

abbrev pub id_of : Option User → Option String
id_of none = none
id_of (some u) = some u.id
