-- ===== src/Auth/Sessions.antt =====
-- packages/auth/src/session.ts: signing in and out, checking a session, changing the password. A
-- method that awaits is one function for each part between two waits, so that other requests can
-- change the store in between. `now` is the reading of the clock.
mod Types
unfoldable pub use Types.*
use Prim.Native.String
use myadmin.Common.{
  ℕ, zero, suc, ◌+◌, ◌-◌, ◌*◌, ◌/◌, ◌%◌, ◌^◌, ◌≤◌, ◌<◌, min, max, String, ◌≡◌, refl, sym, ap, subst,
  ◌∙◌, ◌≢◌, ◌↔◌, ◌⊎◌, inl, inr, Bool, true, false, not, ◌&&◌, ◌||◌, Option, none, some, List, [],
  ◌∷◌, ◌++◌, map, append_assoc, append-nil, arith, eq_iff, ltb, leb, if◌then◌else◌, ltb→lt, lt→ltb,
  leb→le, le→leb, Eq, ◌==◌, nat_eq, string_eq, text_eq, Bool-cases, Option-cases, is_some,
  or_default, Result, ok, err, ◌>>=◌, ◌>>◌, guard, Number, nat, neg, not_whole, max_safe_integer,
  codes, is_space, all_space, is_blank, units, utf16_length, length, get_elem?, set, any, all,
  filter, find?, bit, count_if, All, length-append, length-map, get_elem?-set_self,
  get_elem?-set_ne, count_if-set, set-set, set_self, count_if-append, All-append, All-get, All-set,
  All-imp, if_both, all_iff, find?-map, find?-sound, find?-map-none, All-filter, find?-append_none,
  any-eq-false, bit_le, pow-suc, mul_comm, mul_assoc, some-injective, Result-cases, map_option,
}
use myadmin.Auth.RateLimiter.{RateLimiter, consume, reset}
use myadmin.Auth.Store.{
  User, Session, success, failure, AuditDraft, Store, find_by_id, find_by_username, update_user,
  find_by_token_hash, create_session, touch, revoke, revoke_all_for_user_except, list_expired,
  delete_expired_rows, record_audit, transaction,
}
use myadmin.Auth.Policy.{validate_password}

module _ (host : Host) (settings : Settings) where
  abbrev ip_key : String → String
  ip_key ip = String.◌++◌ "ip:" ip

  abbrev username_key : String → String
  username_key username = String.◌++◌ "username:" (host.to_lower_case username)

  -- `login` up to its first wait: both limits, then the look-up.
  unfoldable pub login_begin : String → String → ℕ → Auth → Auth × Result AuthError (Option User)
  login_begin username ip now s =
      let (by_ip, ip_limit) = consume (ip_key ip) now s.limiter in
      let (by_name, name_limit) = consume (username_key username) now by_ip in
      if not ip_limit.allowed
      then (record s { limiter = by_ip }, err (rate_limited ip_limit.retry_after_seconds))
      else if not name_limit.allowed
      then (
        record s { limiter = by_name },
        err (rate_limited (max ip_limit.retry_after_seconds name_limit.retry_after_seconds)),
      )
      else (record s { limiter = by_name }, ok (find_by_username username s.store))

  abbrev login_failed : String → Option User → AuditDraft
  login_failed username user = record {
    action = "auth.login_failed";
    result = failure;
    actor_user_id = none;
    target_ref = id_of user;
    details = ("usernameAttempted", username) ∷ ("reason", failure_reason user) ∷ [];
  }

  unfoldable pub reject_login : String → Option User → Auth → Auth × Result AuthError User
  reject_login username user s = (
    record s { store = record_audit (login_failed username user) s.store },
    err invalid_credentials,
  )

  -- `login` after the verification: the credentials are refused, or both limits are reset.
  unfoldable pub login_verified :
      String → String → Option User → Verification → Auth → Auth × Result AuthError User
  unfolding reject_login
  login_verified username ip none v s = reject_login username none s
  login_verified username ip (some u) v s =
      if not u.is_active || not v.accepted then reject_login username (some u) s else (
        record s { limiter = reset (username_key username) (reset (ip_key ip) s.limiter) },
        ok u,
      )

  -- The transaction that stores a new hash, when the hasher asks for one.
  unfoldable pub store_rehash : User → String → ℕ → Auth → Auth
  store_rehash u new_hash now s = elim (find_by_id u.id s.store) [
    | none ↦ s
    | some current ↦
        if not current.is_active || not (current.password_hash == u.password_hash)
        then s
        else record s {
          store =
              update_user (record current { password_hash = new_hash; updated_at = now }) s.store;
        }
  ]

  abbrev pub login_succeeded : User → AuditDraft
  login_succeeded u = record {
    action = "auth.login_succeeded";
    result = success;
    actor_user_id = some u.id;
    target_ref = some u.id;
    details = ("username", u.username) ∷ [];
  }

  unfoldable pub new_session : User → String → String → ℕ → Session
  new_session u id token now = record {
    id = id;
    user_id = u.id;
    token_hash = host.token_hash token;
    created_at = now;
    expires_at = now + settings.absolute_timeout_hours * (60 * 60_000);
    last_seen_at = some now;
    revoked_at = none;
  }

  -- The end of `login`: the session of a fresh token.
  unfoldable pub login_complete :
      User → String → String → ℕ → Auth → Auth × Result AuthError (PublicUser × String)
  unfolding new_session
  login_complete u id token now s = elim (create_session (new_session u id token now) s.store) [
    | err _ ↦ (s, err store_failed)
    | ok stored ↦
        (record s { store = record_audit (login_succeeded u) stored }, ok (public_user u, token))
  ]

  -- `session.lastSeenAt === null || now - session.lastSeenAt >= this.touchIntervalMs`
  unfoldable pub is_touch_due : Session → ℕ → Bool
  is_touch_due x now = elim x.last_seen_at [
    | none ↦ true
    | some seen ↦ leb (seen + settings.touch_interval_ms) now
  ]

  -- `validateSession` for a session that is found, not revoked and not expired.
  unfoldable pub accept_session : Session → ℕ → Auth → Auth × SessionValidation
  accept_session x now s = elim (find_by_id x.user_id s.store) [
    | none ↦ (s, auth_unauthenticated)
    | some u ↦
        if not u.is_active
        then (s, auth_unauthenticated)
        else if is_touch_due x now
        then (
          record s { store = touch x.id now s.store },
          authenticated
              (record { session = record x { last_seen_at = some now }; user = public_user u }),
        )
        else (s, authenticated (record { session = x; user = public_user u }))
  ]

  unfoldable pub check_session : Option Session → ℕ → Auth → Auth × SessionValidation
  unfolding accept_session
  check_session none now s = (s, auth_unauthenticated)
  check_session (some x) now s =
      if is_some x.revoked_at
      then (s, auth_unauthenticated)
      else if is_expired x now settings.idle_timeout_minutes
      then (record s { ended = s.ended ++ (x.user_id, expired_reason) ∷ [] }, session_expired)
      else accept_session x now s

  unfoldable pub validate_session : Option String → ℕ → Auth → Auth × SessionValidation
  unfolding check_session
  validate_session none now s = (s, auth_unauthenticated)
  validate_session (some token) now s =
      if is_unusable token
      then (s, auth_unauthenticated)
      else check_session (find_by_token_hash (host.token_hash token) s.store) now s

  abbrev logged_out : AuthenticatedSession → AuditDraft
  logged_out v = record {
    action = "auth.logout";
    result = success;
    actor_user_id = some v.user.id;
    target_ref = some v.session.id;
    details = ("username", v.user.username) ∷ [];
  }

  -- `logout`, which reads the clock twice: for the validation and for the revocation.
  unfoldable pub logout : Option String → ℕ → ℕ → Auth → Auth × SessionValidation
  logout token now at s =
      let (checked, validation) = validate_session token now s in
      elim validation [
        | auth_unauthenticated ↦ (checked, auth_unauthenticated)
        | session_expired ↦ (checked, session_expired)
        | authenticated v ↦ (
          record checked {
            store = record_audit (logged_out v) (revoke v.session.id at checked.store);
            ended = checked.ended ++ (v.user.id, logout_reason) ∷ [];
          },
          authenticated v,
        )
      ]

  abbrev password_refused : User → String → AuditDraft
  password_refused u reason = record {
    action = "user.password_changed";
    result = failure;
    actor_user_id = some u.id;
    target_ref = some u.id;
    details = ("reason", reason) ∷ [];
  }

  -- `changePassword` up to its first wait.
  unfoldable pub change_password_begin : String → Auth → Result AuthError User
  change_password_begin user_id s = elim (find_by_id user_id s.store) [
    | none ↦ err unauthenticated
    | some u ↦ if not u.is_active then err unauthenticated else ok u
  ]

  -- Between its waits: the current password and the policy are checked.
  unfoldable pub change_password_verified :
      User → Verification → String → Auth → Auth × Result AuthError (Unit {0})
  change_password_verified u v new_password s =
      if not v.accepted
      then (
        record s { store = record_audit (password_refused u "current_password_invalid") s.store },
        err invalid_credentials,
      )
      else if ltb 0 (length (validate_password host.to_lower_case new_password u.username))
      then (
        record s { store = record_audit (password_refused u "password_policy_invalid") s.store },
        err validation_failed,
      )
      else (s, ok tt)

  abbrev password_changed : User → AuditDraft
  password_changed u = record {
    action = "user.password_changed";
    result = success;
    actor_user_id = some u.id;
    target_ref = some u.id;
    details = ("username", u.username) ∷ [];
  }

  -- The transaction at its end, on the user as read at the beginning.
  unfoldable pub change_password_rows :
      User → String → String → ℕ → Store → Result AuthError (Store × Unit {0})
  change_password_rows u session_id new_hash now s = elim (find_by_id u.id s) [
    | none ↦ err unauthenticated
    | some current ↦
        if not current.is_active
        then err unauthenticated
        else if not (current.password_hash == u.password_hash)
        then err invalid_credentials
        else ok (
          record_audit (password_changed current) (
              revoke_all_for_user_except current.id session_id now
                (update_user (record current { password_hash = new_hash; updated_at = now }) s)),
          tt,
        )
  ]

  unfoldable pub change_password_commit :
      User → String → String → ℕ → Auth → Auth × Result AuthError (Unit {0})
  unfolding change_password_rows
  change_password_commit u session_id new_hash now s =
      let (stored, result) = transaction (change_password_rows u session_id new_hash now) s.store in
      (record s { store = stored }, result)

  -- `[...new Set(ids)]`
  unfoldable pub distinct : List String → List String → List String
  distinct seen [] = []
  distinct seen (x ∷ xs) =
      let rest = distinct (x ∷ seen) xs in
      if any (λ y. y == x) seen then distinct seen xs else x ∷ rest

  unfoldable pub delete_expired : ℕ → Auth → Auth × ℕ
  unfolding distinct
  delete_expired now s =
      let expired = list_expired now settings.idle_timeout_minutes s.store in
      let (stored, count) = delete_expired_rows now settings.idle_timeout_minutes s.store in
      (
        record s {
          store = stored;
          ended =
              s.ended
              ++ map (λ id. (id, expired_reason))
                  (distinct [] (map (λ (x : Session). x.user_id) expired));
        },
        count,
      )
