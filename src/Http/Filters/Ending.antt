-- ===== src/Http/Filters/Ending.antt =====
-- The filter loop ends, and nothing gets past a filter.
use orion.Base.{ℕ, ◌≤◌, ◌<◌, ◌≡◌, List, [], ◌∷◌, Option, none, some, drop, ◌⊎◌}
use orion.Http.Filters.Defs.{Parts, HttpFilterValue, HttpFilter, filters_for}
use orion.Http.Filters.Loop.{
  continue, Outside, State, apply_request, Pass, passed, rerouted, answered, panicked,
  enabled_value, Handled, forwarded, responded, not_found, crashed, out_of_fuel,
}

module _ (p : Parts) (o : Outside p) where
  abbrev Continues : Option (HttpFilterValue p) → State p o → (State p o → Type 0) → Type 0
  Continues none s Next = Next s
  Continues (some value) s Next =
      (t : State p o) × (apply_request p o value s ≡ some (continue, t)) × Next t

  -- Every enabled filter says continue, each to what the one before it has left.
  abbrev pub AllContinue : List (HttpFilter p) → State p o → State p o → Type 0
  AllContinue [] t s = s ≡ t
  AllContinue (f ∷ filters) t s = Continues (enabled_value p o f) s (AllContinue filters t)

  -- What a pass comes to: its state fits, or the next index lies between two bounds.
  abbrev Outcome : (State p o → Type 0) → ℕ → ℕ → Pass p o → Type 0
  Outcome Fits low high (passed t) = Fits t
  Outcome Fits low high (rerouted i t) = (low < i) × (i ≤ high)
  Outcome Fits low high (answered answer) = Unit
  Outcome Fits low high panicked = Unit

  -- The filters of a route in the table that is in place.
  abbrev filters_at : p.Match → State p o → List (HttpFilter p)
  filters_at m u = filters_for p m (o.http_filters_per_route u.1)

  -- The last pass of a request that is forwarded: it began where the loop did, or behind a filter
  -- that asked for a new route.
  abbrev pub Decided : Option p.Match → ℕ → State p o → Handled p o → Type 0
  Decided route idx s (forwarded m t) =
      (i : ℕ) × (u : State p o) × (((route ≡ some m) × (i ≡ idx) × (u ≡ s))
        ⊎ ((o.route_of u.0 ≡ some m) × (idx < i)))
      × AllContinue (drop i (filters_at m u)) t u
  Decided route idx s (responded answer) = Unit
  Decided route idx s not_found = Unit
  Decided route idx s crashed = Unit
  Decided route idx s out_of_fuel = ⊥
