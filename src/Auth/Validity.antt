-- ===== src/Auth/Validity.antt =====
-- When a session is accepted, and what ends it.
use myadmin.Common.{
  ℕ, ◌+◌, ◌*◌, ◌<◌, String, ◌≡◌, refl, inl, inr, true, false, Option, none, some, arith,
  if◌then◌else◌, nat_eq, string_eq, Bool-cases, Option-cases,
}
use myadmin.Auth.Store.{User, Session, find_by_id, find_by_token_hash, last_activity}
use myadmin.Auth.Sessions.{
  Host, Settings, Auth, AuthenticatedSession, authenticated, public_user, is_expired, is_touch_due,
  accept_session, check_session, is_unusable, validate_session,
}

-- The session of a token in a store.
abbrev pub session_of : Host → String → Auth → Option Session
session_of host token s = find_by_token_hash (host.token_hash token) s.store

module _ (host : Host) (settings : Settings) where
  -- What makes a token good at an instant.
  pub record IsAccepted (token : String) (now : ℕ) (s : Auth) (v : AuthenticatedSession)
      : Type 0 where
    pub session : Session
    pub user : User
    pub usable : is_unusable token ≡ false
    pub found : session_of host token s ≡ some session
    pub live : session.revoked_at ≡ none
    pub in_time : now < session.expires_at
    pub not_idle : now < last_activity session + settings.idle_timeout_minutes * 60_000
    pub owner : find_by_id session.user_id s.store ≡ some user
    pub active : user.is_active ≡ true
    pub told : v.user ≡ public_user user
    pub same_session : v.session.id ≡ session.id

  check_session_sound :
      (x : Option Session) (now : ℕ) (s : Auth) (v : AuthenticatedSession)
      → (check_session host settings x now s).1 ≡ authenticated v
      → (y : Session) × (u : User) × (x ≡ some y)
        × (y.revoked_at ≡ none)
        × (now < y.expires_at)
        × (now < last_activity y + settings.idle_timeout_minutes * 60_000)
        × (find_by_id y.user_id s.store ≡ some u)
        × (u.is_active ≡ true)
        × (v.user ≡ public_user u)
        × (v.session.id ≡ y.id)
  unfolding check_session accept_session is_expired
  check_session_sound none now s v h = cc
  check_session_sound (some y) now s v h = elim (Option-cases (find_by_id y.user_id s.store)) [
    | inl gone ↦ ground arith
    | inr (u, found) ↦ (
      y,
      u,
      refl,
      ground arith,
      ground arith,
      ground arith,
      found,
      ground arith,
      ground arith,
      ground arith,
    )
  ]

  -- A token is accepted only if its session exists, is not revoked, has reached neither its end nor
  -- its limit of inactivity, and belongs to a user who is there and active; the caller is told that
  -- user.
  pub validate_session_sound :
      (token : String) (now : ℕ) (s : Auth) (v : AuthenticatedSession)
      → (validate_session host settings (some token) now s).1 ≡ authenticated v
      → IsAccepted token now s v
  unfolding validate_session
  validate_session_sound token now s v h = elim (Bool-cases (is_unusable token)) [
    | inl bad ↦ ground arith
    | inr good ↦
        let checked : (check_session host settings (session_of host token s) now s).1
            ≡ authenticated v =
          ground arith in
        let (y, u, found, live, in_time, not_idle, owner, active, told, same) =
          check_session_sound (session_of host token s) now s v checked in
        record {
          session = y;
          user = u;
          usable = good;
          found = found;
          live = live;
          in_time = in_time;
          not_idle = not_idle;
          owner = owner;
          active = active;
          told = told;
          same_session = same;
        }
  ]

  -- A token with a session that is live and in time, of an active user, is accepted for that user.
  pub validate_session_complete :
      (token : String) (now : ℕ) (s : Auth) (x : Session) (u : User)
      → is_unusable token ≡ false
      → session_of host token s ≡ some x
      → x.revoked_at ≡ none
      → now < x.expires_at
      → now < last_activity x + settings.idle_timeout_minutes * 60_000
      → find_by_id x.user_id s.store ≡ some u
      → u.is_active ≡ true
      → (v : AuthenticatedSession) × ((validate_session host settings (some token) now s).1
          ≡ authenticated v)
        × (v.user ≡ public_user u)
        × (v.session.id ≡ x.id)
  unfolding validate_session check_session accept_session is_expired
  validate_session_complete token now s x u usable found live in_time idle owner active = (
    record {
      session =
          if is_touch_due host settings x now then record x { last_seen_at = some now } else x;
      user = public_user u;
    },
    ground arith,
    refl,
    ground arith,
  )
