-- ===== src/RateLimiter/TokenBucket/Window.antt =====
-- How many tokens the bucket can give to calls of a window of time, however they interleave.
use orion.Base.{
  ℕ, zero, suc, ◌+◌, ◌-◌, ◌*◌, ◌≤◌, ◌≡◌, refl, sym, ap, subst, Bool, true, List, [], ◌∷◌, max,
  arith, All,
}
use orion.RateLimiter.TokenBucket.Defs.{
  TokenBucket, Call, Phase, started, looping, returned, Action, load, exchange, round, act, act_at,
  interleave, act_in,
}

abbrev granted_in : ℕ → Phase → ℕ
granted_in k (returned true) = k
granted_in k _ = 0

-- The tokens that a call has been granted, and those of all calls.
abbrev pub granted : Call → ℕ
granted c = granted_in c.tokens c.phase

abbrev pub total_granted : List Call → ℕ
total_granted [] = 0
total_granted (c ∷ cs) = granted c + total_granted cs

module _ (bucket : TokenBucket) (lo hi : ℕ) where
  -- The call has read the clock in the window.
  abbrev pub InWindow : Call → Type 0
  InWindow c = (lo ≤ c.now) × (c.now ≤ hi)

  abbrev floored : ℕ → ℕ
  floored time = max time (lo - bucket.time_per_bucket)

  -- What a step does to the shared time, for `before` tokens granted before it and `after` behind.
  record Accounts (time time' before after : ℕ) : Type 0 where
    paid :
        floored time + bucket.time_per_token * after
        ≤ floored time' + bucket.time_per_token * before
    not_ahead : time' ≤ max time hi

  round-Accounts :
      (spurious : Bool) (time old : ℕ) (c : Call)
      → InWindow c
      → Accounts time
          (round bucket spurious time old c).0
          0
          (granted (round bucket spurious time old c).1)
  unfolding round
  round-Accounts spurious time old c w = ground arith

  round-InWindow :
      (spurious : Bool) (time old : ℕ) (c : Call)
      → InWindow c
      → InWindow (round bucket spurious time old c).1
  unfolding round
  round-InWindow spurious time old c w = ground arith

  act-Accounts :
      (a : Action) (time : ℕ) (c : Call)
      → InWindow c
      → Accounts time (act bucket a time c).0 (granted c) (granted (act bucket a time c).1)
        × InWindow (act bucket a time c).1
  unfolding act
  act-Accounts a time c w = by_phase a c.phase refl
    where
      by_phase :
          (a : Action) (p : Phase)
          → c.phase ≡ p
          → Accounts time
              (act_in bucket time c a p).0
              (granted c)
              (granted (act_in bucket time c a p).1)
            × InWindow (act_in bucket time c a p).1
      by_phase load started e = ground arith
      by_phase load (looping old) e = ground arith
      by_phase load (returned r) e = ground arith
      by_phase (exchange spurious) started e = ground arith
      by_phase (exchange spurious) (looping old) e =
          let none_yet : 0 ≡ granted c = sym (ap (granted_in c.tokens) e) in
          (
            subst
                (λ g.
                  Accounts time (round bucket spurious time old c).0 g
                    (granted (round bucket spurious time old c).1))
                none_yet (round-Accounts spurious time old c w),
            round-InWindow spurious time old c w,
          )
      by_phase (exchange spurious) (returned r) e = ground arith

  -- The same for a step among the calls, and for an interleaving.
  record Accounted (time time' before : ℕ) (cs' : List Call) : Type 0 where
    accounts : Accounts time time' before (total_granted cs')
    in_window : All InWindow cs'

  act_at-Accounted :
      (a : Action) (i time : ℕ) (cs : List Call)
      → All InWindow cs
      → Accounted time
          (act_at bucket a i time cs).0
          (total_granted cs)
          (act_at bucket a i time cs).1
  unfolding act_at
  act_at-Accounted a i time [] w = record {
    accounts = record { paid = omega arith; not_ahead = omega arith };
    in_window = tt;
  }
  act_at-Accounted a zero time (c ∷ cs) (w, ws) =
      let (here, w') = act-Accounts a time c w in
      record { accounts = ground arith; in_window = (w', ws) }
  act_at-Accounted a (suc i) time (c ∷ cs) (w, ws) =
      let there = act_at-Accounted a i time cs ws in
      record { accounts = ground arith; in_window = (w, there.in_window) }

  interleave-Accounted :
      (schedule : List (ℕ × Action)) (time : ℕ) (cs : List Call)
      → All InWindow cs
      → Accounted time
          (interleave bucket schedule time cs).0
          (total_granted cs)
          (interleave bucket schedule time cs).1
  unfolding interleave
  interleave-Accounted [] time cs w = record {
    accounts = record { paid = omega arith; not_ahead = omega arith };
    in_window = w;
  }
  interleave-Accounted ((i, a) ∷ schedule) time cs w =
      let first = act_at-Accounted a i time cs w in
      let rest =
        interleave-Accounted schedule (act_at bucket a i time cs).0 (act_at bucket a i time cs).1
          first.in_window in
      record { accounts = ground arith; in_window = rest.in_window }

  -- Calls that have been granted nothing yet, and that read the clock between `lo` and `hi`, are
  -- granted no more than the window and one full bucket pay for, whatever the interleaving of
  -- their steps, the spurious failures of their exchanges and the time in the bucket.
  pub rate_limited :
      (schedule : List (ℕ × Action)) (time : ℕ) (cs : List Call)
      → lo ≤ hi
      → All InWindow cs
      → total_granted cs ≡ 0
      → bucket.time_per_token * total_granted (interleave bucket schedule time cs).1
        ≤ bucket.time_per_bucket + (hi - lo)
  rate_limited schedule time cs h w z =
      let a = (interleave-Accounted schedule time cs w).accounts in
      let p = a.paid in let n = a.not_ahead in ground arith
