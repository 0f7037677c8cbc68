-- ===== src/Auth/LimitTests.antt =====
-- The theorems on the limit on attempts and on the rules for names and passwords, at concrete inputs.

use myadmin.Auth.Store.{role_eq}
use myadmin.Auth.Policy.{
  validate_password, validate_password_iff, IsNameCharacter, username_violations,
  username_violations_iff,
}
use myadmin.Common.Dict.{lookup, insert}
use myadmin.Auth.Escalation.{
  blocked_until, begins_block, consume_all, count_blocks, blocked_until-count_blocks,
}
use myadmin.Auth.RateLimiter.{
  Bucket, RateLimiter, create_rate_limiter, login, consume, consume_bucket, current_bucket,
  block_ms,
}
use myadmin.Auth.RateLimits.{count_allowed, count_allowed-le-limit, consume_blocks}
use myadmin.Common.{
  ℕ, ◌+◌, ◌*◌, ◌^◌, ◌≤◌, min, String, ◌≡◌, refl, ◌≢◌, ◌↔◌, true, false, List, [], ◌∷◌, arith,
  nat_eq, string_eq, text_eq, codes, length, All,
}
use myadmin.Auth.RateLimiter.{create_rate_limiter, login}

abbrev limiter : RateLimiter
limiter = create_rate_limiter login

abbrev tries : List (String × ℕ)
tries = ("a", 10) ∷ ("b", 20) ∷ ("a", 30) ∷ []

count_allowed-le-limit_example : count_allowed "a" (("a", 5) ∷ tries) limiter ≤ limiter.limit
count_allowed-le-limit_example =
    count_allowed-le-limit "a" 5 tries limiter (unfold create_rate_limiter lookup in refl)
      (unfold create_rate_limiter in omega arith) (unfold create_rate_limiter in ground arith)

-- One attempt in 100 ms, and three attempts of which the second begins a block.
abbrev strict_limiter : RateLimiter
strict_limiter = record { limit = 1; window_ms = 100; buckets = [] }

abbrev insisting : List (String × ℕ)
insisting = ("a", 10) ∷ ("a", 20) ∷ ("a", 200) ∷ []

second_block : begins_block "a" 210 (consume_all insisting strict_limiter) ≡ true
unfolding consume_all consume consume_bucket current_bucket block_ms lookup insert
second_block = refl

blocked_until-count_blocks_example :
    blocked_until "a" (consume "a" 210 (consume_all insisting strict_limiter)).0
    ≡ 210 + min (100 * 2 ^ count_blocks "a" insisting strict_limiter) 900_000
blocked_until-count_blocks_example =
    blocked_until-count_blocks "a" insisting 210 strict_limiter (unfold lookup in refl) second_block

one_block_before : count_blocks "a" insisting strict_limiter ≡ 1
unfolding count_blocks consume consume_bucket current_bucket block_ms lookup insert
one_block_before = refl

abbrev full_bucket : Bucket
full_bucket = record { count = 5; reset_at = 60_000; blocked_until = 0; blocks = 0 }

abbrev full_limiter : RateLimiter
full_limiter = record { limit = 5; window_ms = 60_000; buckets = ("a", full_bucket) ∷ [] }

consume_blocks_example :
    ((consume "a" 40 full_limiter).1.allowed ≡ false)
    × (block_ms 60_000 0 ≤ 1000 * (consume "a" 40 full_limiter).1.retry_after_seconds)
    × (count_allowed "a" tries (consume "a" 40 full_limiter).0 ≡ 0)
consume_blocks_example =
    consume_blocks "a" 40 tries full_limiter full_bucket (unfold lookup in refl) (omega arith)
      (omega arith) (omega arith) (unfold block_ms in ground arith)

validate_password_iff_example : (validate_password (λ s. s) "correct horse" "ana" ≡ []) ↔ (
    (10 ≤ length (codes "correct horse"))
    × (length (codes "correct horse") ≤ 256)
    × (◌≢◌ {A = String} "ana" "" → ◌≢◌ {A = String} "correct horse" "ana"))
validate_password_iff_example = validate_password_iff (λ s. s) "correct horse" "ana"

username_violations_iff_example :
    (username_violations "ana" ≡ [])
    ↔ ((3 ≤ length (codes "ana")) × (length (codes "ana") ≤ 32) × All IsNameCharacter (codes "ana"))
username_violations_iff_example = username_violations_iff "ana"
