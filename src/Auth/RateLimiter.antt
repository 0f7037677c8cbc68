-- ===== src/Auth/RateLimiter.antt =====
-- packages/auth/src/rate-limiter.ts. Times are milliseconds; the clock is an argument.
use myadmin.Common.{
  ℕ, zero, suc, ◌+◌, ◌-◌, ◌*◌, ◌/◌, ◌^◌, min, max, String, Bool, true, false, Option, none, some,
  List, [], ltb, leb, if◌then◌else◌, nat_eq, string_eq, or_default, Number, nat, neg, not_whole,
}
use myadmin.Common.Dict.{lookup, insert, delete}

pub record Bucket : Type 0 where
  pub count : ℕ
  pub reset_at : ℕ
  pub blocked_until : ℕ
  pub blocks : ℕ

pub record RateLimitResult : Type 0 where
  pub allowed : Bool
  pub remaining : ℕ
  pub retry_after_seconds : ℕ

pub record RateLimiter : Type 0 where
  pub limit : ℕ
  pub window_ms : ℕ
  pub buckets : List (String × Bucket)

-- A positive integer, as the constructor asks for; `Number.isInteger` accepts every size.
abbrev positive : Number → Option ℕ
positive (nat zero) = none
positive (nat (suc n)) = some (suc n)
positive (neg n) = none
positive not_whole = none

-- The constructor; `none` is the thrown RangeError.
unfoldable pub new_rate_limiter : Option Number → Option Number → Option RateLimiter
new_rate_limiter limit window = elim (positive (or_default limit (nat 5))) [
  | none ↦ none
  | some l ↦ elim (positive (or_default window (nat 60_000))) [
    | none ↦ none
    | some w ↦ some (record { limit = l; window_ms = w; buckets = [] })
  ]
]

pub data RateLimitPolicy : Type 0 where
  setup login connection_test import_upload : RateLimitPolicy

-- `createRateLimiter`, with the limits of `RATE_LIMIT_POLICIES`.
unfoldable pub create_rate_limiter : RateLimitPolicy → RateLimiter
create_rate_limiter setup = record { limit = 5; window_ms = 60_000; buckets = [] }
create_rate_limiter login = record { limit = 5; window_ms = 60_000; buckets = [] }
create_rate_limiter connection_test = record { limit = 10; window_ms = 60_000; buckets = [] }
create_rate_limiter import_upload = record { limit = 10; window_ms = 60_000; buckets = [] }

-- The bucket that a call works on: the one at hand within its window, or a new one, which keeps
-- the block and the number of blocks.
unfoldable pub current_bucket : ℕ → ℕ → Option Bucket → Bucket
current_bucket window now none = record {
  count = 0;
  reset_at = now + window;
  blocked_until = 0;
  blocks = 0;
}
current_bucket window now (some b) =
    if leb b.reset_at now
    then record {
      count = 0;
      reset_at = now + window;
      blocked_until = b.blocked_until;
      blocks = b.blocks;
    }
    else b

-- `Math.max(1, Math.ceil(ms / 1000))`
unfoldable pub retry_seconds : ℕ → ℕ
retry_seconds ms = max 1 ((ms + 999) / 1000)

-- How long the block lasts that begins when `blocks` came before it.
unfoldable pub block_ms : ℕ → ℕ → ℕ
block_ms window blocks = min (window * 2 ^ blocks) 900_000

abbrev refused : ℕ → RateLimitResult
refused ms = record { allowed = false; remaining = 0; retry_after_seconds = retry_seconds ms }

-- `consume` on the bucket of its key.
unfoldable pub consume_bucket : ℕ → ℕ → ℕ → Bucket → Bucket × RateLimitResult
consume_bucket limit window now b =
    if ltb now b.blocked_until
    then (b, refused (b.blocked_until - now))
    else if leb limit b.count
    then (
      record b { blocks = b.blocks + 1; blocked_until = now + block_ms window b.blocks },
      refused (block_ms window b.blocks),
    )
    else (
      record b { count = b.count + 1 },
      record { allowed = true; remaining = limit - (b.count + 1); retry_after_seconds = 0 },
    )

unfoldable pub consume : String → ℕ → RateLimiter → RateLimiter × RateLimitResult
consume key now r =
    let (b, result) =
      consume_bucket r.limit r.window_ms now
        (current_bucket r.window_ms now (lookup key r.buckets)) in
    (record r { buckets = insert key b r.buckets }, result)

unfoldable pub reset : String → RateLimiter → RateLimiter
reset key r = record r { buckets = delete key r.buckets }
