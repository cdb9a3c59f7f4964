-- ===== src/Health/Checker/Waiting.antt =====
-- When an endpoint that stops answering is reported, and how often it is checked at all.
use mathlib.Core.List.{Memᴰ}
use orion.Base.{
  ℕ, zero, suc, ◌+◌, ◌≤◌, ◌<◌, ◌≡◌, ◌≢◌, ◌↔◌, ap, refl, Bool, true, false, List, [], ◌∷◌, Option,
  none, some, length, replicate, All, leb, max, if◌then◌else◌, arith, Bool-cases, inl, inr, ◌⊎◌,
}
use orion.Base.Int.{pos, neg_part, ◌≤ℤ◌}
use orion.Health.Status.{HealthStatus, healthy, unhealthy}
use orion.Health.Counter.{HealthStatusCounter, new, add_failure}
use orion.Health.Counter.Bounds.{failure, step, InRange}
use orion.Health.Counter.Runs.{change, step_reports_change, Failing, step-Failing, step_failed}
use orion.Health.Checker.Defs.{
  Timed, elapsed, ClusterHealthCheck, response, timeout, EndpointHealthUpdate, Round, WaitInterval,
  wait_was_cancelled_opt, wait_interval_was_cancelled, count, after_check, run_loop, run, sent,
  current, unwrap_or_default,
}
use orion.Health.Checker.Reports.{report, reports}

abbrev pub down : {E : Type 0} → E → EndpointHealthUpdate E
down endpoint = record { endpoint = endpoint; health = unhealthy; changed = true }

-- A round in which the endpoint does not answer, or answers with an error.
abbrev pub Unanswered : {R : Type 0} → Round R → Type 0
Unanswered r = (r.check ≡ timeout) ⊎ (r.check ≡ response none)

report-down :
    {E : Type 0} (endpoint : E) (before after : HealthStatusCounter)
    → before.status ≡ some healthy
    → after.status ≡ some unhealthy
    → down endpoint ≡ report endpoint before after
report-down endpoint before after h k = rw (h, k)

down-reports :
    {E : Type 0} (endpoint : E) (n u j : ℕ) (c : HealthStatusCounter)
    → Failing u j c
    → j < max 1 u
    → max 1 u ≤ j + n
    → Memᴰ (down endpoint) (reports endpoint (replicate n failure) c)
down-reports endpoint zero u j c f h k = absurd (omega arith)
down-reports endpoint (suc n) u j c f h k = elim (Bool-cases (leb (max 1 u) (suc j))) [
  | inl last ↦
      Memᴰ.head
        (report-down endpoint c (step failure c).0 f.status (step_failed u j c f (ground arith)))
  | inr more ↦ Memᴰ.tail (
      down-reports endpoint n u (suc j) (step failure c).0 (step-Failing u j c f (ground arith))
        (ground arith) (omega arith))
]

-- What is reported of a healthy endpoint says that it is healthy, and not that it is down.
not_down :
    {E : Type 0} (endpoint : E) (before after : HealthStatusCounter)
    → after.status ≡ some healthy
    → ¬ (down endpoint ≡ report endpoint before after)
not_down endpoint before after h e =
    let k : unhealthy ≡ unwrap_or_default after.status = ap (λ u. u.health) e in
    let l : unwrap_or_default after.status ≡ healthy = ap unwrap_or_default h in ground arith

too_few :
    {E : Type 0} (endpoint : E) (n u j : ℕ) (c : HealthStatusCounter)
    → Failing u j c
    → j + n < max 1 u
    → ¬ Memᴰ (down endpoint) (reports endpoint (replicate n failure) c)
too_few endpoint zero u j c f h m = elim m [ ]
too_few endpoint (suc n) u j c f h (Memᴰ.head e) =
    let g = step-Failing u j c f (omega arith) in not_down endpoint c (step failure c).0 g.status e
too_few endpoint (suc n) u j c f h (Memᴰ.tail m) =
    too_few endpoint n u (suc j) (step failure c).0 (step-Failing u j c f (omega arith))
      (omega arith) m

length-reports :
    {E : Type 0} (endpoint : E) (n : ℕ) (c : HealthStatusCounter)
    → length (reports endpoint (replicate n failure) c) ≡ n
length-reports endpoint zero c = refl
length-reports endpoint (suc n) c = ap suc (length-reports endpoint n (step failure c).0)

module _ {R E : Type 0} (config : ClusterHealthCheck) (wait : WaitInterval)
    (process_response : R → HealthStatusCounter → HealthStatusCounter × Option HealthStatus)
    (endpoint : E) where
  -- The updates are the reports of some number of failures.
  abbrev AllFailed : HealthStatusCounter → List (EndpointHealthUpdate E) → Type 0
  AllFailed c updates = (n : ℕ) × (updates ≡ reports endpoint (replicate n failure) c)

  stopped_or_not :
      (t : Bool) (c : HealthStatusCounter) (later : List (EndpointHealthUpdate E) × Bool)
      → AllFailed (step failure c).0 later.0
      → AllFailed c
          (sent (report endpoint c (step failure c).0) (if t then ([], true) else later)).0
  stopped_or_not true c later a = (1, refl)
  stopped_or_not false c later (n, e) = (suc n, ap (◌∷◌ (report endpoint c (step failure c).0)) e)

  count_failure :
      (r : Round R) (c : HealthStatusCounter)
      → Unanswered r
      → count config wait process_response endpoint r.check c ≡ some (step failure c)
  unfolding add_failure step
  count_failure r c (inl h) = rw h refl
  count_failure r c (inr h) = rw h refl

  run_loop-AllFailed :
      (rounds : List (Round R)) (c : HealthStatusCounter)
      → All Unanswered rounds
      → AllFailed c (run_loop config wait process_response endpoint rounds c).0
  unfolding run_loop
  run_loop-AllFailed [] c a = (0, refl)
  run_loop-AllFailed (r ∷ rounds) c (h, a) =
      rw (count_failure r c h, step_reports_change failure c)
        (stopped_or_not
          (wait config (current (change c.status (step failure c).0.status) (step failure c).0)
            r.wait)
          c (run_loop config wait process_response endpoint rounds (step failure c).0)
          (run_loop-AllFailed rounds (step failure c).0 a))

  -- While a healthy endpoint does not answer, it is reported as unhealthy, as a change, exactly if the
  -- loop sends at least as many updates as the unhealthy threshold says (and at least one), whatever
  -- the waiter does.
  pub outage_reported :
      (rounds : List (Round R)) (c : HealthStatusCounter)
      → InRange c
      → c.status ≡ some healthy
      → pos 0 ≤ℤ c.checks
      → All Unanswered rounds
      → let updates = (run_loop config wait process_response endpoint rounds c).0 in
        Memᴰ (down endpoint) updates ↔ (max 1 (neg_part c.unhealthy_threshold) ≤ length updates)
  outage_reported rounds c v s h a =
      let (n, e) = run_loop-AllFailed rounds c a in
      let u = neg_part c.unhealthy_threshold in
      rw (e, length-reports endpoint n c)
        (
          λ m. elim (Bool-cases (leb (max 1 u) n)) [
            | inl enough ↦ ground arith
            | inr few ↦ absurd (too_few endpoint n u 0 c (ground arith) (ground arith) m)
          ],
          λ l. down-reports endpoint n u 0 c (ground arith) (ground arith) (omega arith),
        )

module _ {R E : Type 0} (config : ClusterHealthCheck)
    (process_response : R → HealthStatusCounter → HealthStatusCounter × Option HealthStatus)
    (endpoint : E) where
  after_elapsed :
      (o : Option (HealthStatusCounter × Option HealthStatus))
      (next : HealthStatusCounter → List (EndpointHealthUpdate E) × Bool)
      → let r =
          after_check config wait_interval_was_cancelled process_response endpoint elapsed o next in
        (length r.0 ≤ 1) × (r.1 ≡ true)
  unfolding wait_interval_was_cancelled
  after_elapsed none next = ground arith
  after_elapsed (some (c, change)) next = ground arith

  jittered :
      (jitter : Option ℕ) (r : Round R) (rounds : List (Round R)) (c : HealthStatusCounter)
      → r.wait ≡ elapsed
      → let s =
          if wait_was_cancelled_opt jitter elapsed
          then ([], true)
          else run_loop config wait_interval_was_cancelled process_response endpoint
              (r ∷ rounds)
              c in
        (length s.0 ≤ 1) × (s.1 ≡ true) × (jitter ≢ none → s.0 ≡ [])
  unfolding run_loop wait_was_cancelled_opt
  jittered none r rounds c w = rw w (
      let (a, b) =
        after_elapsed (count config wait_interval_was_cancelled process_response endpoint r.check c)
          (run_loop config wait_interval_was_cancelled process_response endpoint rounds) in
      (a, b, λ n. absurd (n refl)))
  jittered (some d) r rounds c w = (omega arith, refl, λ n. refl)

  -- With the interval waiter of the program, a checker that nobody stops sends one update at most,
  -- and returns when its first interval is over; with an initial jitter it makes no check at all.
  pub checked_once :
      (jitter : Timed) (r : Round R) (rounds : List (Round R))
      → jitter ≡ elapsed
      → r.wait ≡ elapsed
      → let s =
          run config wait_interval_was_cancelled process_response endpoint jitter (r ∷ rounds) in
        (length s.0 ≤ 1) × (s.1 ≡ true) × (config.initial_jitter ≢ none → s.0 ≡ [])
  unfolding run
  checked_once jitter r rounds j w = rw j (
      jittered config.initial_jitter r rounds
        (new config.healthy_threshold config.unhealthy_threshold) w)
