-- ===== src/Auth/Cleanup.antt =====
-- packages/auth/src/session.ts: what `deleteExpired` takes away, and what it leaves.
use myadmin.Common.{
  ℕ, ◌≤◌, ◌<◌, String, ◌≡◌, refl, sym, ap, subst, ◌∙◌, ◌↔◌, inl, inr, Bool, true, false, not,
  Option, none, some, List, [], ◌∷◌, arith, eq_iff, ◌==◌, nat_eq, string_eq, text_eq, Bool-cases,
  Option-cases, any, filter, find?, All, All-imp, if_both, find?-sound, some-injective,
}
use myadmin.Auth.Store.{
  find_by_id, User, Session, find_by_token_hash, is_listed_expired, list_expired,
  delete_expired_rows,
}
use myadmin.Auth.Sessions.{
  Host, Settings, Auth, AuthenticatedSession, authenticated, is_expired, accept_session,
  check_session, validate_session, delete_expired, idle_deadline,
}
use myadmin.Auth.Validity.{session_of, validate_session_sound}

-- `id` is the primary key of the table of sessions, and `token_hash` is unique.
abbrev pub HasSessionKeys : List Session → Type 0
HasSessionKeys xs =
    All (λ (x : Session). find? (λ (y : Session). y.id == x.id) xs ≡ some x) xs
    × All (λ (x : Session). find? (λ (y : Session). y.token_hash == x.token_hash) xs ≡ some x) xs

-- The clean-up's condition on a row is that of `validateSession`.
is_listed_expired-is_expired :
    (at idle : ℕ) (x : Session) → 0 < idle → is_listed_expired at idle x ≡ is_expired x at idle
unfolding is_listed_expired is_expired idle_deadline
is_listed_expired-is_expired at idle x pos = ground arith

find?-All :
    (P : Session → Type 0) (p : Session → Bool) (xs : List Session) (x : Session)
    → All P xs
    → find? p xs ≡ some x
    → P x
find?-All P p [] x h e = cc e
find?-All P p (y ∷ ys) x (first, later) e = elim (Bool-cases (p y)) [
  | inl hit ↦ subst P (some-injective y x (ground arith)) first
  | inr miss ↦ find?-All P p ys x later (ground arith)
]

find?-filter :
    (p keep : Session → Bool) (xs : List Session) (x : Session)
    → find? p xs ≡ some x
    → keep x ≡ true
    → find? p (filter keep xs) ≡ some x
find?-filter p keep [] x e k = cc e
find?-filter p keep (y ∷ ys) x e k = elim (Bool-cases (p y)) [
  | inl hit ↦ let same : y ≡ x = some-injective y x (ground arith) in rw (same, k) (ground arith)
  | inr miss ↦ ground (arith, find?-filter p keep ys x)
]

All-kept :
    (P : Session → Type 0) (keep : Session → Bool) (xs : List Session)
    → All P xs
    → All P (filter keep xs)
All-kept P keep [] h = tt
All-kept P keep (x ∷ xs) (first, later) =
    if_both (All P) (keep x) (first, All-kept P keep xs later) (All-kept P keep xs later)

-- A row that is not listed does not have the id of a row that is.
not_listed :
    (listed : Session → Bool) (table ys : List Session) (x : Session)
    → All (λ (y : Session). find? (λ (z : Session). z.id == y.id) table ≡ some y) ys
    → find? (λ (z : Session). z.id == x.id) table ≡ some x
    → listed x ≡ false
    → any (λ (y : Session). y.id == x.id) (filter listed ys) ≡ false
not_listed listed table [] x h found l = refl
not_listed listed table (y ∷ ys) x (first, later) found l = elim (Bool-cases (y.id == x.id)) [
  | inr differs ↦ ground (arith, not_listed listed table ys x later found l)
  | inl equal ↦
      let there : find? (λ (z : Session). z.id == x.id) table ≡ some y =
        subst (λ i. find? (λ (z : Session). z.id == i) table ≡ some y) ((eq_iff y.id x.id).0 equal)
          first in
      let same : y ≡ x = some-injective y x (sym there ∙ found) in
      let skipped : listed y ≡ false = ap listed same ∙ l in
      rw skipped (not_listed listed table ys x later found l)
]

-- Each listed row has an id among those of the listed rows.
listed_each :
    (listed : Session → Bool) (xs : List Session)
    → All
        (λ (x : Session).
          listed x ≡ true → any (λ (y : Session). y.id == x.id) (filter listed xs) ≡ true)
        xs
listed_each listed [] = tt
listed_each listed (x ∷ xs) = (
  λ l. rw l (ground (arith, eq_iff x.id x.id)),
  All-imp
      (λ (z : Session).
        listed z ≡ true → any (λ (y : Session). y.id == z.id) (filter listed xs) ≡ true)
      (λ (z : Session).
        listed z ≡ true → any (λ (y : Session). y.id == z.id) (filter listed (x ∷ xs)) ≡ true)
      (λ z there l.
        if_both (λ ys. any (λ (y : Session). y.id == z.id) ys ≡ true) (listed x)
          (ground (arith, there l)) (there l))
      xs (listed_each listed xs),
)

-- What a filter leaves satisfies its test and what every element satisfies.
All-left :
    (P Q : Session → Type 0) (keep : Session → Bool) (xs : List Session)
    → ((x : Session) → P x → keep x ≡ true → Q x)
    → All P xs
    → All Q (filter keep xs)
All-left P Q keep [] f h = tt
All-left P Q keep (x ∷ xs) f (first, later) = elim (Bool-cases (keep x)) [
  | inl stays ↦ rw stays (f x first stays, All-left P Q keep xs f later)
  | inr goes ↦ rw goes (All-left P Q keep xs f later)
]

contradicts : (a b : Bool) → (b ≡ true → a ≡ true) → not a ≡ true → b ≡ false
contradicts a true f n = absurd (ground (arith, f refl))
contradicts a false f n = refl

module _ (host : Host) (settings : Settings) where
  check_answer :
      (o : Option Session) (now : ℕ) (s t : Auth)
      → s.store.users ≡ t.store.users
      → (check_session host settings o now s).1 ≡ (check_session host settings o now t).1
  unfolding check_session accept_session find_by_id
  check_answer none now s t users = refl
  check_answer (some x) now s t users =
      let owner : find_by_id x.user_id s.store ≡ find_by_id x.user_id t.store =
        ap (find? (λ (u : User). u.id == x.user_id)) users in
      elim (Option-cases (find_by_id x.user_id s.store)) [
        | inl gone ↦
            let gone' : find_by_id x.user_id t.store ≡ none = sym owner ∙ gone in ground arith
        | inr (u, found) ↦
            let found' : find_by_id x.user_id t.store ≡ some u = sym owner ∙ found in ground arith
      ]

  -- The answer depends on the row of the token and on the users alone.
  same_answer :
      (token : String) (now : ℕ) (s t : Auth)
      → session_of host token s ≡ session_of host token t
      → s.store.users ≡ t.store.users
      → (validate_session host settings (some token) now s).1
        ≡ (validate_session host settings (some token) now t).1
  unfolding validate_session
  same_answer token now s t row users =
      ground (arith, row, check_answer (session_of host token t) now s t users)

  accepted_row :
      (token : String) (at later : ℕ) (s : Auth) (v : AuthenticatedSession)
      → 0 < settings.idle_timeout_minutes
      → HasSessionKeys s.store.sessions
      → at ≤ later
      → (validate_session host settings (some token) later s).1 ≡ authenticated v
      → session_of host token s ≡ session_of host token (delete_expired host settings at s).0
  unfolding delete_expired delete_expired_rows list_expired find_by_token_hash
  accepted_row token at later s v pos (ids, hashes) le h =
      let a = validate_session_sound host settings token later s v h in
      let off : is_listed_expired at settings.idle_timeout_minutes a.session ≡ false =
        unfold is_listed_expired in ground (arith, a.in_time, a.not_idle) in
      let key =
        find?-All (λ (x : Session). find? (λ (y : Session). y.id == x.id) s.store.sessions ≡ some x)
          (λ (x : Session). x.token_hash == host.token_hash token) s.store.sessions a.session ids
          a.found in
      a.found
      ∙ sym (
          find?-filter (λ (x : Session). x.token_hash == host.token_hash token) _ s.store.sessions
            a.session a.found
            (ap not (
              not_listed (is_listed_expired at settings.idle_timeout_minutes) s.store.sessions
                s.store.sessions a.session ids key off)))

  kept_row :
      (token : String) (at later : ℕ) (s : Auth) (v : AuthenticatedSession)
      → HasSessionKeys s.store.sessions
      → (validate_session host settings (some token) later (delete_expired host settings at s).0).1
        ≡ authenticated v
      → session_of host token s ≡ session_of host token (delete_expired host settings at s).0
  unfolding delete_expired delete_expired_rows find_by_token_hash
  kept_row token at later s v (ids, hashes) h =
      let t = (delete_expired host settings at s).0 in
      let a = validate_session_sound host settings token later t v h in
      let key =
        find?-All
          (λ (x : Session).
            find? (λ (y : Session). y.token_hash == x.token_hash) s.store.sessions ≡ some x)
          (λ (x : Session). x.token_hash == host.token_hash token) t.store.sessions a.session
          (All-kept _ _ s.store.sessions hashes) a.found in
      let hash : a.session.token_hash ≡ host.token_hash token =
        (eq_iff a.session.token_hash (host.token_hash token)).0 (
          find?-sound (λ (x : Session). x.token_hash == host.token_hash token) t.store.sessions
            a.session a.found) in
      subst (λ i. find? (λ (y : Session). y.token_hash == i) s.store.sessions ≡ some a.session) hash
        key
      ∙ sym a.found

  remaining :
      (at : ℕ) (s : Auth)
      → 0 < settings.idle_timeout_minutes
      → All
          (λ (x : Session). is_expired x at settings.idle_timeout_minutes ≡ false)
          (delete_expired host settings at s).0.store.sessions
  unfolding delete_expired delete_expired_rows list_expired
  remaining at s pos =
      All-left
        (λ (x : Session).
          is_listed_expired at settings.idle_timeout_minutes x ≡ true
          → any (λ (y : Session). y.id == x.id)
              (filter (is_listed_expired at settings.idle_timeout_minutes) s.store.sessions)
            ≡ true)
        (λ (x : Session). is_expired x at settings.idle_timeout_minutes ≡ false) _ s.store.sessions
        (λ x there stays.
          rw (sym (is_listed_expired-is_expired at settings.idle_timeout_minutes x pos))
            (contradicts _ _ there stays))
        (listed_each (is_listed_expired at settings.idle_timeout_minutes) s.store.sessions)

  -- The clean-up leaves no row that is expired at that time, and it takes away no more than that: where ids and
  -- hashes of tokens are unique and there is a limit of inactivity, every token has then and later the session
  -- that it would have without the clean-up, or is refused where it would be refused.
  pub delete_expired_keeps :
      (token : String) (at later : ℕ) (s : Auth) (v : AuthenticatedSession)
      → 0 < settings.idle_timeout_minutes
      → HasSessionKeys s.store.sessions
      → at ≤ later
      → All
          (λ (x : Session). is_expired x at settings.idle_timeout_minutes ≡ false)
          (delete_expired host settings at s).0.store.sessions
        × (((validate_session host settings (some token) later s).1 ≡ authenticated v) ↔ (
            (validate_session host settings
              (some token)
              later
              (delete_expired host settings at s).0).1
            ≡ authenticated v))
  delete_expired_keeps token at later s v pos keys le =
      let t = (delete_expired host settings at s).0 in
      let users : s.store.users ≡ t.store.users =
        unfold delete_expired delete_expired_rows in refl in
      (
        remaining at s pos,
        (
          λ h.
              sym
                (same_answer token later s t (accepted_row token at later s v pos keys le h) users)
              ∙ h,
          λ h. same_answer token later s t (kept_row token at later s v keys h) users ∙ h,
        ),
      )
