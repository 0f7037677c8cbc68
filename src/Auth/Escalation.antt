-- ===== src/Auth/Escalation.antt =====
-- packages/auth/src/rate-limiter.ts: each block under a key is longer than the one before it.
use myadmin.Common.{
  ℕ, ◌+◌, ◌*◌, ◌^◌, ◌≤◌, min, String, ◌≡◌, refl, ap, ◌∙◌, ◌≢◌, inl, inr, Bool, true, false, not,
  ◌&&◌, Option, none, some, List, [], ◌∷◌, arith, eq_iff, leb, ◌==◌, nat_eq, string_eq, text_eq,
  Bool-cases, bit,
}
use myadmin.Common.Dict.{lookup, lookup-insert_self}
use myadmin.Auth.RateLimiter.{
  RateLimitResult, Bucket, RateLimiter, current_bucket, block_ms, consume_bucket, consume,
}
use myadmin.Auth.RateLimits.{consume_settings, consume_other}

abbrev blocked_until_in : Option Bucket → ℕ
blocked_until_in none = 0
blocked_until_in (some b) = b.blocked_until

abbrev blocks_in : Option Bucket → ℕ
blocks_in none = 0
blocks_in (some b) = b.blocks

-- The end of the last block under a key.
abbrev pub blocked_until : String → RateLimiter → ℕ
blocked_until k r = blocked_until_in (lookup k r.buckets)

abbrev blocks : String → RateLimiter → ℕ
blocks k r = blocks_in (lookup k r.buckets)

-- An attempt at `t` begins a block: it is refused, though no block is under way.
abbrev pub begins_block : String → ℕ → RateLimiter → Bool
begins_block k t r = leb (blocked_until k r) t && not (consume k t r).1.allowed

-- The limiter after a history of attempts under any keys.
unfoldable pub consume_all : List (String × ℕ) → RateLimiter → RateLimiter
consume_all [] r = r
consume_all ((j, t) ∷ rest) r = consume_all rest (consume j t r).0

-- The blocks that begin under a key in a history.
unfoldable pub count_blocks : String → List (String × ℕ) → RateLimiter → ℕ
count_blocks k [] r = 0
count_blocks k ((j, t) ∷ rest) r =
    let later = count_blocks k rest (consume j t r).0 in bit (j == k && begins_block k t r) + later

module _ (limit w t : ℕ) where
  abbrev next : Option Bucket → Bucket × RateLimitResult
  next o = consume_bucket limit w t (current_bucket w t o)

  next-blocks :
      (o : Option Bucket)
      → (next o).0.blocks ≡ blocks_in o + bit (leb (blocked_until_in o) t && not (next o).1.allowed)
  unfolding consume_bucket current_bucket
  next-blocks none = ground arith
  next-blocks (some b) = ground arith

  next-blocked_until :
      (o : Option Bucket)
      → blocked_until_in o ≤ t
      → (next o).1.allowed ≡ false
      → (next o).0.blocked_until ≡ t + block_ms w (blocks_in o)
  unfolding consume_bucket current_bucket
  next-blocked_until none h refusal = ground arith
  next-blocked_until (some b) h refusal = ground arith

consume-blocks :
    (k : String) (t : ℕ) (r : RateLimiter)
    → blocks k (consume k t r).0 ≡ blocks k r + bit (begins_block k t r)
unfolding consume
consume-blocks k t r =
    rw lookup-insert_self (next-blocks r.limit r.window_ms t (lookup k r.buckets))

consume_all-blocks :
    (k : String) (es : List (String × ℕ)) (r : RateLimiter)
    → blocks k (consume_all es r) ≡ blocks k r + count_blocks k es r
unfolding consume_all count_blocks
consume_all-blocks k [] r = omega arith
consume_all-blocks k ((j, t) ∷ es) r = elim (Bool-cases (j == k)) [
  | inl same ↦
      let e : j ≡ k = (eq_iff j k).0 same in
      rw (same, e) (omega (arith, consume_all-blocks k es (consume k t r).0, consume-blocks k t r))
  | inr differs ↦
      let n : j ≢ k = λ e. ground (arith, eq_iff j k) in
      let kept : blocks k (consume j t r).0 ≡ blocks k r =
        ap (λ o. blocks_in o) (consume_other j k t r n) in
      rw differs (omega (arith, consume_all-blocks k es (consume j t r).0, kept))
]

consume_all-window :
    (es : List (String × ℕ)) (r : RateLimiter) → (consume_all es r).window_ms ≡ r.window_ms
unfolding consume_all
consume_all-window [] r = refl
consume_all-window ((j, t) ∷ es) r =
    consume_all-window es (consume j t r).0 ∙ (consume_settings j t r).1

consume-blocked_until :
    (k : String) (t : ℕ) (r : RateLimiter)
    → blocked_until k r ≤ t
    → (consume k t r).1.allowed ≡ false
    → blocked_until k (consume k t r).0 ≡ t + block_ms r.window_ms (blocks k r)
unfolding consume
consume-blocked_until k t r free refusal =
    rw lookup-insert_self
      (next-blocked_until r.limit r.window_ms t (lookup k r.buckets) free refusal)

-- Where the limiter begins without an entry for a key, then whatever is attempted under it and other keys, a
-- refused attempt that begins a block under the key blocks it for as long as the window, doubled once for each
-- block under the key before, and for 15 minutes at most.
pub blocked_until-count_blocks :
    (k : String) (es : List (String × ℕ)) (t : ℕ) (r : RateLimiter)
    → lookup k r.buckets ≡ none
    → begins_block k t (consume_all es r) ≡ true
    → blocked_until k (consume k t (consume_all es r)).0
      ≡ t + min (r.window_ms * 2 ^ count_blocks k es r) 900_000
unfolding block_ms
blocked_until-count_blocks k es t r new begins =
    let none_yet : blocks k r ≡ 0 = ap (λ o. blocks_in o) new in
    let counted : blocks k (consume_all es r) ≡ count_blocks k es r =
      omega (arith, consume_all-blocks k es r) in
    consume-blocked_until k t (consume_all es r) (ground (arith, begins)) (ground (arith, begins))
    ∙ ap (λ n. t + min ((consume_all es r).window_ms * 2 ^ n) 900_000) counted
    ∙ ap (λ w. t + min (w * 2 ^ count_blocks k es r) 900_000) (consume_all-window es r)
