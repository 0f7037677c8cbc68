-- ===== src/Auth/Endings.antt =====
-- What ends a session: signing out, and a new password.
use myadmin.Common.{
  ℕ, String, ◌≡◌, refl, ap, ◌≢◌, inl, inr, Bool, true, not, ◌&&◌, some, [], ◌∷◌, ◌++◌, map, arith,
  eq_iff, ◌==◌, nat_eq, string_eq, text_eq, Bool-cases, is_some, ok, find?-map, find?-sound,
}
use myadmin.Auth.Store.{
  User, Session, Store, find_by_id, find_by_token_hash, touch, revoke, update_user,
  revoke_all_for_user_except, revoked_if, touched, record_audit, transaction,
}
use myadmin.Auth.Sessions.{
  Host, Settings, Auth, AuthenticatedSession, authenticated, auth_unauthenticated, logout_reason,
  is_touch_due, accept_session, check_session, validate_session, logout, change_password_rows,
  change_password_commit,
}
use myadmin.Auth.Validity.{session_of, validate_session_sound}

pub touched_hash :
    (id : String) (at : ℕ) (x : Session) → (touched id at x).token_hash ≡ x.token_hash
touched_hash id at x = ground arith

pub revoked_hash :
    (hit : Bool) (at : ℕ) (x : Session) → (revoked_if hit at x).token_hash ≡ x.token_hash
revoked_hash hit at x = ground arith

pub found_id : (id : String) (s : Store) (c : User) → find_by_id id s ≡ some c → c.id ≡ id
unfolding find_by_id
found_id id s c h = (eq_iff c.id id).0 (find?-sound (λ (u : User). u.id == id) s.users c h)

module _ (host : Host) (settings : Settings) where
  -- An accepted session stays where it is found, under the same id.
  accepted_found :
      (token : String) (now : ℕ) (s : Auth) (x : Session) (v : AuthenticatedSession)
      → session_of host token s ≡ some x
      → (check_session host settings (some x) now s).1 ≡ authenticated v
      → (y : Session) × (session_of host token (check_session host settings (some x) now s).0
          ≡ some y)
        × (y.id ≡ v.session.id)
  unfolding check_session accept_session find_by_token_hash touch
  accepted_found token now s x v found h = elim (Bool-cases (is_touch_due host settings x now)) [
    | inl due ↦ (
      touched x.id now x,
      ground (
        arith,
        find?-map (λ y. y.token_hash == host.token_hash token) (touched x.id now) s.store.sessions x
            (λ y. ap (λ t. t == host.token_hash token) (touched_hash x.id now y)) found,
      ),
      ground arith,
    )
    | inr early ↦ (x, ground arith, ground arith)
  ]

  validated_found :
      (token : String) (now : ℕ) (s : Auth) (v : AuthenticatedSession)
      → (validate_session host settings (some token) now s).1 ≡ authenticated v
      → (y : Session) × (session_of host token (validate_session host settings (some token) now s).0
          ≡ some y)
        × (y.id ≡ v.session.id)
  unfolding validate_session
  validated_found token now s v h =
      let a = validate_session_sound host settings token now s v h in
      let step = accepted_found token now s a.session v a.found in
      rw (a.usable, a.found, validate_session) (step (ground (arith, a.usable, a.found)))

  -- A revoked session is never accepted.
  pub revoked_refused :
      (token : String) (later : ℕ) (t : Auth) (z : Session)
      → session_of host token t ≡ some z
      → is_some z.revoked_at ≡ true
      → (validate_session host settings (some token) later t).1 ≡ auth_unauthenticated
  unfolding validate_session check_session
  revoked_refused token later t z found gone = rw (found, validate_session) (ground arith)

  -- Revoking the session with this id shuts the token.
  revoke_shuts :
      (token id : String) (at later : ℕ) (s t : Auth) (y : Session)
      → session_of host token s ≡ some y
      → y.id ≡ id
      → t.store.sessions ≡ (revoke id at s.store).sessions
      → (validate_session host settings (some token) later t).1 ≡ auth_unauthenticated
  unfolding revoke find_by_token_hash
  revoke_shuts token id at later s t y found same e =
      let after =
        find?-map (λ x. x.token_hash == host.token_hash token)
          (λ (x : Session). revoked_if (x.id == id) at x) s.store.sessions y
          (λ x. ap (λ h. h == host.token_hash token) (revoked_hash (x.id == id) at x)) found in
      revoked_refused token later t (revoked_if (y.id == id) at y) (rw e after)
        (ground (arith, eq_iff y.id id))

  -- After a successful sign-out the token is refused at every later time, as one that was never
  -- issued would be; and the sign-out is reported once, for the user of the session.
  pub logout_ends :
      (token : String) (now at later : ℕ) (s : Auth) (v : AuthenticatedSession)
      → (logout host settings (some token) now at s).1 ≡ authenticated v
      → ((validate_session host settings
            (some token)
            later
            (logout host settings (some token) now at s).0).1
          ≡ auth_unauthenticated)
        × ((logout host settings (some token) now at s).0.ended
            ≡ (validate_session host settings (some token) now s).0.ended
              ++ (v.user.id, logout_reason) ∷ [])
  unfolding logout record_audit
  logout_ends token now at later s v h =
      let checked : (validate_session host settings (some token) now s).1 ≡ authenticated v =
        ground arith in
      let (y, found, same) = validated_found token now s v checked in
      rw (checked, logout)
        (
          revoke_shuts token v.session.id at later
              (validate_session host settings (some token) now s).0 _ y found same refl,
          refl,
        )

  rows_sessions :
      (u c : User) (keep new_hash : String) (now : ℕ) (s t : Store)
      → find_by_id u.id s ≡ some c
      → change_password_rows host settings u keep new_hash now s ≡ ok (t, tt)
      → t.sessions
        ≡ map
            (λ (x : Session). revoked_if ((x.user_id == c.id) && not (x.id == keep)) now x)
            s.sessions
  unfolding change_password_rows record_audit revoke_all_for_user_except update_user
  rows_sessions u c keep new_hash now s t found h = ground arith

  commit_rows :
      (u : User) (keep new_hash : String) (now : ℕ) (s t : Auth)
      → change_password_commit host settings u keep new_hash now s ≡ (t, ok tt)
      → change_password_rows host settings u keep new_hash now s.store ≡ ok (t.store, tt)
  unfolding change_password_commit transaction
  commit_rows u keep new_hash now s t h = ground arith

  rows_found :
      (u : User) (keep new_hash : String) (now : ℕ) (s t : Store)
      → change_password_rows host settings u keep new_hash now s ≡ ok (t, tt)
      → (c : User) × (find_by_id u.id s ≡ some c)
  unfolding change_password_rows
  rows_found u keep new_hash now s t h = ground arith

  -- What a committed change of the password makes of the session of a token.
  pub change_password_session :
      (u : User) (keep new_hash token : String) (now : ℕ) (s t : Auth) (y : Session)
      → change_password_commit host settings u keep new_hash now s ≡ (t, ok tt)
      → session_of host token s ≡ some y
      → session_of host token t
        ≡ some (revoked_if ((y.user_id == u.id) && not (y.id == keep)) now y)
  unfolding find_by_token_hash
  change_password_session u keep new_hash token now s t y h found =
      let rows = commit_rows u keep new_hash now s t h in
      let (c, is_c) = rows_found u keep new_hash now s.store t.store rows in
      rw
        (
          rows_sessions u c keep new_hash now s.store t.store is_c rows,
          found_id u.id s.store c is_c,
        )
        (find?-map (λ x. x.token_hash == host.token_hash token)
          (λ (x : Session). revoked_if ((x.user_id == u.id) && not (x.id == keep)) now x)
          s.store.sessions y
          (λ x.
            ap (λ h. h == host.token_hash token)
              (revoked_hash ((x.user_id == u.id) && not (x.id == keep)) now x))
          found)

  -- A committed change of the password shuts every other session of the user for good.
  pub change_password_ends :
      (u : User) (keep new_hash token : String) (now later : ℕ) (s t : Auth) (y : Session)
      → change_password_commit host settings u keep new_hash now s ≡ (t, ok tt)
      → session_of host token s ≡ some y
      → y.user_id ≡ u.id
      → y.id ≢ keep
      → (validate_session host settings (some token) later t).1 ≡ auth_unauthenticated
  change_password_ends u keep new_hash token now later s t y h found owner elsewhere =
      revoked_refused token later t _
        (change_password_session u keep new_hash token now s t y h found)
        (ground (arith, eq_iff y.user_id u.id, eq_iff y.id keep))
