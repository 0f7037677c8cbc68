-- ===== src/Auth/RateLimits.antt =====
-- What the rate limiter promises: a bound on the attempts that pass, and blocks that last.
use myadmin.Common.{
  ℕ, ◌+◌, ◌*◌, ◌≤◌, ◌<◌, String, ◌≡◌, refl, ◌≢◌, inl, inr, false, ◌&&◌, none, some, List, [], ◌∷◌,
  arith, eq_iff, ◌==◌, nat_eq, string_eq, text_eq, Bool-cases, bit, bit_le,
}
use myadmin.Common.Dict.{lookup, lookup-insert_self, lookup-insert_ne}
use myadmin.Auth.RateLimiter.{
  Bucket, RateLimiter, current_bucket, retry_seconds, block_ms, consume_bucket, consume,
}

-- The attempts under one key that pass, in a history of attempts under any keys.
unfoldable pub count_allowed : String → List (String × ℕ) → RateLimiter → ℕ
count_allowed k [] r = 0
count_allowed k ((j, t) ∷ rest) r =
    let (r', result) = consume j t r in bit (j == k && result.allowed) + count_allowed k rest r'

-- All attempts under the key fall before an instant.
abbrev pub Before : String → ℕ → List (String × ℕ) → Type 0
Before k end [] = Unit {0}
Before k end ((j, t) ∷ rest) = (j ≡ k → t < end) × Before k end rest

pub consume_settings :
    (j : String) (t : ℕ) (r : RateLimiter)
    → ((consume j t r).0.limit ≡ r.limit) × ((consume j t r).0.window_ms ≡ r.window_ms)
unfolding consume
consume_settings j t r = (refl, refl)

pub consume_other :
    (j k : String) (t : ℕ) (r : RateLimiter)
    → j ≢ k
    → lookup k (consume j t r).0.buckets ≡ lookup k r.buckets
unfolding consume
consume_other j k t r h = lookup-insert_ne j k _ r.buckets h

-- Within the window of a bucket each attempt that passes is counted in it.
record Counted (r r' : RateLimiter) (k : String) (b : Bucket) (passed : ℕ) : Type 0 where
  after : Bucket
  found : lookup k r'.buckets ≡ some after
  same_end : after.reset_at ≡ b.reset_at
  grows : after.count ≡ b.count + passed
  within : after.count ≤ r.limit

consume-Counted :
    (k : String) (t : ℕ) (r : RateLimiter) (b : Bucket)
    → lookup k r.buckets ≡ some b
    → t < b.reset_at
    → b.count ≤ r.limit
    → Counted r (consume k t r).0 k b (bit (consume k t r).1.allowed)
unfolding consume
consume-Counted k t r b h before le = rw h (record {
  after = (consume_bucket r.limit r.window_ms t (current_bucket r.window_ms t (some b))).0;
  found = lookup-insert_self k _ r.buckets;
  same_end = unfold consume_bucket current_bucket in ground arith;
  grows = unfold consume_bucket current_bucket in ground arith;
  within = unfold consume_bucket current_bucket in ground arith;
})

count_allowed_from :
    (k : String) (es : List (String × ℕ)) (r : RateLimiter) (b : Bucket)
    → lookup k r.buckets ≡ some b
    → b.count ≤ r.limit
    → Before k b.reset_at es
    → b.count + count_allowed k es r ≤ r.limit
unfolding count_allowed
count_allowed_from k [] r b h le _ = omega arith
count_allowed_from k ((j, t) ∷ es) r b h le (in_time, later) = elim (Bool-cases (j == k)) [
  | inl same ↦
      let e : j ≡ k = (eq_iff j k).0 same in
      let c = consume-Counted k t r b h (in_time e) le in
      let (l, w) = consume_settings k t r in
      let rest =
        count_allowed_from k es (consume k t r).0 c.after c.found (omega (arith, c.within, l))
          (rw c.same_end later) in
      rw same (rw e (omega (arith, c.grows, l, rest)))
  | inr differs ↦
      let n : j ≢ k = λ e. ground (arith, eq_iff j k) in
      let (l, w) = consume_settings j t r in
      let rest =
        count_allowed_from k es (consume j t r).0 b (rw (consume_other j k t r n) h)
          (omega (arith, le, l)) later in
      rw differs (omega (arith, l, rest))
]

first_counted :
    (k : String) (t : ℕ) (r : RateLimiter)
    → lookup k r.buckets ≡ none
    → 1 ≤ r.limit
    → (b : Bucket) × (lookup k (consume k t r).0.buckets ≡ some b)
      × (b.reset_at ≡ t + r.window_ms)
      × (b.count ≡ 1)
unfolding consume
first_counted k t r h pos = rw h (
  (consume_bucket r.limit r.window_ms t (current_bucket r.window_ms t none)).0,
  lookup-insert_self k _ r.buckets,
  unfold consume_bucket current_bucket in ground arith,
  unfold consume_bucket current_bucket in ground arith,
)

-- Of the attempts under one key that fall into the window which its first attempt opens, that
-- attempt included, at most `limit` pass, whatever is attempted under other keys in between.
pub count_allowed-le-limit :
    (k : String) (t : ℕ) (es : List (String × ℕ)) (r : RateLimiter)
    → lookup k r.buckets ≡ none
    → 1 ≤ r.limit
    → Before k (t + r.window_ms) es
    → count_allowed k ((k, t) ∷ es) r ≤ r.limit
unfolding count_allowed
count_allowed-le-limit k t es r h pos before =
    let (b, found, ends, one) = first_counted k t r h pos in
    let (l, w) = consume_settings k t r in
    let rest =
      count_allowed_from k es (consume k t r).0 b found (omega (arith, l)) (rw ends before) in
    omega (arith, bit_le (k == k && (consume k t r).1.allowed), one, rest, l)

-- A blocked attempt passes on the block, whether its bucket is renewed or not.
consume_blocked :
    (k : String) (t : ℕ) (r : RateLimiter) (b : Bucket)
    → lookup k r.buckets ≡ some b
    → t < b.blocked_until
    → ((consume k t r).1.allowed ≡ false)
      × ((c : Bucket) × (lookup k (consume k t r).0.buckets ≡ some c)
          × (c.blocked_until ≡ b.blocked_until))
unfolding consume
consume_blocked k t r b h early = rw h (
  unfold consume_bucket current_bucket in ground arith,
  (
    (consume_bucket r.limit r.window_ms t (current_bucket r.window_ms t (some b))).0,
    lookup-insert_self k _ r.buckets,
    unfold consume_bucket current_bucket in ground arith,
  ),
)

count_allowed_blocked :
    (k : String) (es : List (String × ℕ)) (r : RateLimiter) (b : Bucket)
    → lookup k r.buckets ≡ some b
    → Before k b.blocked_until es
    → count_allowed k es r ≡ 0
unfolding count_allowed
count_allowed_blocked k [] r b h _ = refl
count_allowed_blocked k ((j, t) ∷ es) r b h (early, later) = elim (Bool-cases (j == k)) [
  | inl same ↦
      let e : j ≡ k = (eq_iff j k).0 same in
      let (refusal, (c, found, until)) = consume_blocked k t r b h (early e) in
      rw (same, e, refusal)
        (omega (arith, count_allowed_blocked k es (consume k t r).0 c found (rw until later)))
  | inr differs ↦
      let n : j ≢ k = λ e. ground (arith, eq_iff j k) in
      rw differs (
        omega (
          arith,
          count_allowed_blocked k es (consume j t r).0 b (rw (consume_other j k t r n) h) later,
        ))
]

block_end :
    (t : ℕ) (r : RateLimiter) (b : Bucket)
    → t < b.reset_at
    → b.blocked_until ≤ t
    → r.limit ≤ b.count
    → (consume_bucket r.limit r.window_ms t (current_bucket r.window_ms t (some b))).0.blocked_until
      ≡ t + block_ms r.window_ms b.blocks
unfolding consume_bucket current_bucket
block_end t r b early free full = ground arith

-- An attempt beyond the limit of a bucket that is not blocked is refused, with a waiting time that
-- covers the block which it starts; and until that block ends, no attempt under the key passes,
-- whatever else is attempted.
pub consume_blocks :
    (k : String) (t : ℕ) (es : List (String × ℕ)) (r : RateLimiter) (b : Bucket)
    → lookup k r.buckets ≡ some b
    → t < b.reset_at
    → b.blocked_until ≤ t
    → r.limit ≤ b.count
    → Before k (t + block_ms r.window_ms b.blocks) es
    → ((consume k t r).1.allowed ≡ false)
      × (block_ms r.window_ms b.blocks ≤ 1000 * (consume k t r).1.retry_after_seconds)
      × (count_allowed k es (consume k t r).0 ≡ 0)
unfolding consume
consume_blocks k t es r b h early free full before = rw h (
  unfold consume_bucket current_bucket in ground arith,
  unfold consume_bucket current_bucket retry_seconds in ground arith,
  count_allowed_blocked k es _
      (consume_bucket r.limit r.window_ms t (current_bucket r.window_ms t (some b))).0
      (lookup-insert_self k _ r.buckets) (rw (block_end t r b early free full) before),
)
