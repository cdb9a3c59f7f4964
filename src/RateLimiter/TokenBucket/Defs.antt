-- ===== src/RateLimiter/TokenBucket/Defs.antt =====
-- The bucket of orion-lib/src/listeners/rate_limiter/token_bucket.rs. An instant is a number of
-- nanoseconds since the first one that the clock can represent, and a duration a number of
-- nanoseconds; both are unbounded above. The atomic `time` is shared: calls of `consume` are
-- machines that load it and then try to exchange it, in any interleaving.
use orion.Base.{
  ℕ, zero, suc, ◌+◌, ◌-◌, ◌*◌, ◌/◌, Bool, true, false, not, ◌||◌, List, [], ◌∷◌, Option, none, some,
  ltb, ◌==◌, if◌then◌else◌,
}

pub record TokenBucket : Type 0 where
  pub time_per_token : ℕ
  pub time_per_bucket : ℕ
  pub max_tokens : ℕ

-- `a.checked_sub(d).unwrap_or(a)`
abbrev pub checked_sub_or_self : ℕ → ℕ → ℕ
checked_sub_or_self a d = if ltb a d then a else a - d

-- The bucket and its first time. A fill of no tokens divides by zero, which panics.
unfoldable pub new : ℕ → ℕ → ℕ → ℕ → Option (TokenBucket × ℕ)
new max_tokens zero fill_interval now = none
new max_tokens (suc fill) fill_interval now = some (
  record {
    time_per_token = fill_interval / suc fill;
    time_per_bucket = max_tokens * fill_interval / suc fill;
    max_tokens = max_tokens;
  },
  checked_sub_or_self now (2 * (max_tokens * fill_interval / suc fill)),
)

-- Where a call of `consume` is: before its load, in its loop with the time it has seen, or done.
pub data Phase : Type 0 where
  started : Phase
  looping : ℕ → Phase
  returned : Bool → Phase

-- `now` is the clock as the call has read it.
pub record Call : Type 0 where
  pub tokens : ℕ
  pub now : ℕ
  pub phase : Phase

pub data Action : Type 0 where
  load : Action
  -- `compare_exchange_weak` may fail though the time is the one it compares with.
  exchange : Bool → Action

abbrev pub min_time : TokenBucket → ℕ → ℕ
min_time bucket now = checked_sub_or_self now bucket.time_per_bucket

-- The time that the loop wants to store over `old_time`.
abbrev pub new_time : TokenBucket → Call → ℕ → ℕ
new_time bucket c old_time =
    (if ltb old_time (min_time bucket c.now) then min_time bucket c.now else old_time)
    + bucket.time_per_token * c.tokens

-- One round of the loop, with the shared time before and after it.
unfoldable pub round : TokenBucket → Bool → ℕ → ℕ → Call → ℕ × Call
round bucket spurious time old_time c =
    let new = new_time bucket c old_time in
    if ltb c.now new
    then (time, record c { phase = returned false })
    else if spurious || not (time == old_time)
    then (time, record c { phase = looping time })
    else (new, record c { phase = returned true })

abbrev pub act_in : TokenBucket → ℕ → Call → Action → Phase → ℕ × Call
act_in bucket time c load started = (time, record c { phase = looping time })
act_in bucket time c (exchange spurious) (looping old_time) = round bucket spurious time old_time c
act_in bucket time c _ _ = (time, c)

unfoldable pub act : TokenBucket → Action → ℕ → Call → ℕ × Call
unfolding round
act bucket a time c = act_in bucket time c a c.phase

-- The action of the call with an index, among the calls of all threads.
unfoldable pub act_at : TokenBucket → Action → ℕ → ℕ → List Call → ℕ × List Call
act_at bucket a i time [] = (time, [])
act_at bucket a zero time (c ∷ cs) = let (time', c') = act bucket a time c in (time', c' ∷ cs)
act_at bucket a (suc i) time (c ∷ cs) =
    let (time', cs') = act_at bucket a i time cs in (time', c ∷ cs')

-- An interleaving.
unfoldable pub interleave : TokenBucket → List (ℕ × Action) → ℕ → List Call → ℕ × List Call
unfolding act_at
interleave bucket [] time cs = (time, cs)
interleave bucket ((i, a) ∷ schedule) time cs =
    let (time', cs') = act_at bucket a i time cs in interleave bucket schedule time' cs'

-- A call that no other disturbs.
unfoldable pub consume : TokenBucket → ℕ → ℕ → ℕ → ℕ × Call
unfolding round
consume bucket tokens now time =
    round bucket false time time (record { tokens = tokens; now = now; phase = looping time })

-- The size of the bucket. Tokens that take no time divide by zero, which panics.
abbrev pub size_in : ℕ → ℕ → ℕ → Option ℕ
size_in max_tokens age zero = none
size_in max_tokens age (suc d) =
    let n = age / suc d in if ltb max_tokens n then some max_tokens else some n

unfoldable pub size : TokenBucket → ℕ → ℕ → Option ℕ
size bucket now t =
    if ltb now t then some 0 else size_in bucket.max_tokens (now - t) bucket.time_per_token

abbrev pub capacity : TokenBucket → ℕ
capacity bucket = bucket.max_tokens
