-- ===== src/RateLimiter/Tests.antt =====
-- Calls on a bucket of three tokens of 10 nanoseconds each.
use orion.Base.{ℕ, ◌*◌, ◌≤◌, ◌≡◌, refl, true, false, List, [], ◌∷◌, arith}
use orion.RateLimiter.TokenBucket.Defs.{
  TokenBucket, Call, started, returned, Action, load, exchange, new, consume, interleave, size,
}
use orion.RateLimiter.TokenBucket.Window.{total_granted, rate_limited}
use orion.RateLimiter.TokenBucket.Size.{size_is_granted}

abbrev bucket : TokenBucket
bucket = record { time_per_token = 10; time_per_bucket = 30; max_tokens = 3 }

abbrev calls : List Call
calls =
    record { tokens = 2; now = 100; phase = started }
    ∷ record { tokens = 2; now = 104; phase = started }
    ∷ []

-- Both load, and one of them loses the exchange.
abbrev schedule : List (ℕ × Action)
schedule =
    (0, load)
    ∷ (1, load)
    ∷ (0, exchange true)
    ∷ (0, exchange false)
    ∷ (1, exchange false)
    ∷ (1, exchange false)
    ∷ []

rate_limited_example : 10 * total_granted (interleave bucket schedule 0 calls).1 ≤ 34
rate_limited_example =
    rate_limited bucket 100 104 schedule 0 calls (omega arith)
      ((omega arith, omega arith), ((omega arith, omega arith), tt)) refl

size_is_granted_example : (consume bucket 2 100 75).1.phase ≡ returned true
unfolding new size
size_is_granted_example =
    size_is_granted 3 2 20 100 bucket 40 100 75 2 2 refl (omega arith) (omega arith) (omega arith)
      refl
