-- ===== src/Auth/Lasting.antt =====
-- packages/auth/src/session.ts: how long the session lasts that a sign-in opens.
use myadmin.Common.{
  ℕ, ◌+◌, ◌*◌, ◌≤◌, ◌<◌, String, ◌≡◌, refl, ap, inl, inr, true, false, ◌||◌, none, some, List, [],
  ◌∷◌, ◌++◌, arith, eq_iff, if◌then◌else◌, ◌==◌, nat_eq, string_eq, text_eq, Bool-cases, ok, any,
  find?, find?-map, find?-append_none, Result-cases,
}
use myadmin.Auth.Store.{
  User, Session, Store, find_by_id, find_by_token_hash, create_session, touch, touched,
  record_audit,
}
use myadmin.Auth.Sessions.{
  Host, Settings, Auth, PublicUser, AuthenticatedSession, authenticated, public_user, is_expired,
  idle_deadline, is_touch_due, accept_session, check_session, is_unusable, validate_session,
  new_session, login_complete, login_succeeded,
}
use myadmin.Auth.Validity.{session_of, validate_session_complete}
use myadmin.Auth.Endings.{touched_hash}

not_taken :
    (x : Session) (ys : List Session)
    → any (λ (y : Session). (y.id == x.id) || (y.token_hash == x.token_hash)) ys ≡ false
    → find? (λ (y : Session). y.token_hash == x.token_hash) ys ≡ none
not_taken x [] h = refl
not_taken x (y ∷ ys) h = ground (arith, not_taken x ys)

created_found :
    (x : Session) (s t : Store)
    → create_session x s ≡ ok t
    → (find_by_token_hash x.token_hash t ≡ some x) × (t.users ≡ s.users)
unfolding create_session find_by_token_hash
created_found x s t h =
    let free : find? (λ (y : Session). y.token_hash == x.token_hash) s.sessions ≡ none =
      not_taken x s.sessions (ground arith) in
    let rows : t.sessions ≡ s.sessions ++ x ∷ [] = ground arith in
    (
      rw
          (
            rows,
            find?-append_none (λ (y : Session). y.token_hash == x.token_hash) s.sessions (x ∷ [])
                free,
          )
          (ground (arith, eq_iff x.token_hash x.token_hash)),
      ground arith,
    )

-- Times before the end, each at or behind the one before it, by less than the limit of inactivity less the
-- interval at which activity is written down.
abbrev pub IsSteady : Settings → ℕ → ℕ → List ℕ → Type 0
IsSteady settings end last [] = Unit {0}
IsSteady settings end last (t ∷ ts) =
    (last ≤ t)
    × (t + settings.touch_interval_ms < last + settings.idle_timeout_minutes * 60_000)
    × (t < end)
    × IsSteady settings end t ts

module _ (host : Host) (settings : Settings) (token : String) (u : User) (end : ℕ) where
  -- The requests with the token at these times, one after the other, are all answered as requests of the user.
  abbrev pub AllAccepted : List ℕ → Auth → Type 0
  AllAccepted [] s = Unit {0}
  AllAccepted (t ∷ ts) s =
      ((v : AuthenticatedSession) × ((validate_session host settings (some token) t s).1
          ≡ authenticated v)
        × (v.user ≡ public_user u))
      × AllAccepted ts (validate_session host settings (some token) t s).0

  -- The session is there, and its activity is written down up to the interval.
  record IsLive (last : ℕ) (s : Auth) : Type 0 where
    row : Session
    seen : ℕ
    found : session_of host token s ≡ some row
    live : row.revoked_at ≡ none
    ends : row.expires_at ≡ end
    written : row.last_seen_at ≡ some seen
    near : last ≤ seen + settings.touch_interval_ms
    owner : find_by_id row.user_id s.store ≡ some u

  in_time :
      (t l : ℕ) (x : Session)
      → x.expires_at ≡ end
      → x.last_seen_at ≡ some l
      → t < end
      → t < l + settings.idle_timeout_minutes * 60_000
      → is_expired x t settings.idle_timeout_minutes ≡ false
  unfolding is_expired idle_deadline
  in_time t l x ends written early recent = ground arith

  -- What an accepted request leaves.
  used :
      (t : ℕ) (s : Auth) (x : Session)
      → is_unusable token ≡ false
      → session_of host token s ≡ some x
      → x.revoked_at ≡ none
      → is_expired x t settings.idle_timeout_minutes ≡ false
      → find_by_id x.user_id s.store ≡ some u
      → u.is_active ≡ true
      → (validate_session host settings (some token) t s).0
        ≡ (if is_touch_due host settings x t then record s { store = touch x.id t s.store } else s)
  unfolding validate_session check_session accept_session
  used t s x usable found live fresh owner active =
      rw (usable, found, validate_session, check_session) (ground arith)

  touched_found :
      (t : ℕ) (s : Store) (x : Session)
      → find_by_token_hash (host.token_hash token) s ≡ some x
      → find_by_token_hash (host.token_hash token) (touch x.id t s)
        ≡ some (record x { last_seen_at = some t })
  unfolding find_by_token_hash touch
  touched_found t s x found = ground (
    arith,
    eq_iff x.id x.id,
    find?-map (λ y. y.token_hash == host.token_hash token) (touched x.id t) s.sessions x
        (λ y. ap (λ h. h == host.token_hash token) (touched_hash x.id t y)) found,
  )

  step-IsLive :
      (last t : ℕ) (s : Auth) (k : IsLive last s)
      → u.is_active ≡ true
      → is_unusable token ≡ false
      → t < end
      → t < k.seen + settings.idle_timeout_minutes * 60_000
      → IsLive t (validate_session host settings (some token) t s).0
  step-IsLive last t s k active usable early recent =
      let after =
        used t s k.row usable k.found k.live (in_time t k.seen k.row k.ends k.written early recent)
          k.owner active in
      elim (Bool-cases (is_touch_due host settings k.row t)) [
        | inl due ↦
            rw (after, due)
              (record {
                row = record k.row { last_seen_at = some t };
                seen = t;
                found = touched_found t s.store k.row k.found;
                live = k.live;
                ends = k.ends;
                written = refl;
                near = omega arith;
                owner = unfold find_by_id touch in k.owner;
              })
        | inr early_yet ↦
            rw (after, early_yet)
              (record {
                row = k.row;
                seen = k.seen;
                found = k.found;
                live = k.live;
                ends = k.ends;
                written = k.written;
                near = unfold is_touch_due in ground (arith, k.written);
                owner = k.owner;
              })
      ]

  IsLive-AllAccepted :
      (times : List ℕ) (last : ℕ) (s : Auth)
      → IsLive last s
      → u.is_active ≡ true
      → is_unusable token ≡ false
      → IsSteady settings end last times
      → AllAccepted times s
  IsLive-AllAccepted [] last s k active usable h = tt
  IsLive-AllAccepted (t ∷ times) last s k active usable (later, soon, early, rest) =
      let recent : t < k.seen + settings.idle_timeout_minutes * 60_000 = omega (arith, k.near) in
      let (v, accepted, told, _) =
        validate_session_complete host settings token t s k.row u usable k.found k.live
          (omega (arith, k.ends)) (ground (arith, k.written)) k.owner active in
      (
        (v, accepted, told),
        IsLive-AllAccepted times t (validate_session host settings (some token) t s).0
            (step-IsLive last t s k active usable early recent) active usable rest,
      )

module _ (host : Host) (settings : Settings) where
  opened :
      (u c : User) (id token : String) (now : ℕ) (s t : Auth) (stored : Store)
      → create_session (new_session host settings u id token now) s.store ≡ ok stored
      → t.store ≡ record_audit (login_succeeded host settings u) stored
      → find_by_id u.id s.store ≡ some c
      → IsLive host settings token c (now + settings.absolute_timeout_hours * 3_600_000) now t
  unfolding new_session find_by_token_hash record_audit find_by_id
  opened u c id token now s t stored created after there =
      let (found, users) =
        created_found (new_session host settings u id token now) s.store stored created in
      record {
        row = new_session host settings u id token now;
        seen = now;
        found = rw after found;
        live = refl;
        ends = refl;
        written = refl;
        near = omega arith;
        owner = rw (after, users) there;
      }

  -- After a sign-in of an active user, requests with its token are answered as that user's for as long as they
  -- come before the absolute limit and follow one another, and the sign-in, within less than the limit of
  -- inactivity less the interval at which activity is written down.
  pub login_lasts :
      (u c : User) (id token : String) (now : ℕ) (s t : Auth) (told : PublicUser × String)
      (times : List ℕ)
      → login_complete host settings u id token now s ≡ (t, ok told)
      → find_by_id u.id s.store ≡ some c
      → c.is_active ≡ true
      → is_unusable token ≡ false
      → IsSteady settings (now + settings.absolute_timeout_hours * 3_600_000) now times
      → AllAccepted host settings token c
          (now + settings.absolute_timeout_hours * 3_600_000)
          times
          t
  unfolding login_complete
  login_lasts u c id token now s t told times h there active usable steady =
      elim (Result-cases (create_session (new_session host settings u id token now) s.store)) [
        | inl (e, failed) ↦ absurd (ground (arith, h))
        | inr (stored, created) ↦
            IsLive-AllAccepted host settings token c
              (now + settings.absolute_timeout_hours * 3_600_000) times now t
              (opened u c id token now s t stored created (ground (arith, h)) there) active usable
              steady
      ]
