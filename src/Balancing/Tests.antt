-- ===== src/Balancing/Tests.antt =====
-- Round robin over three endpoints, of which one turns healthy.
use orion.Base.{arith, ℕ, ◌+◌, ◌*◌, ◌≤◌, ◌==◌, refl, List, [], ◌∷◌, none, some}
use orion.Base.Int.{pos, negsuc, ◌+ℤ◌, ◌-ℤ◌}
use orion.Health.Status.{healthy, unhealthy}
use orion.Balancing.Healthy.Defs.{
  LbItem, Operation, next, update, new, next_item, run, reload, update_endpoint, set_health,
}
use orion.Balancing.Wrr.Defs
use orion.Balancing.Wrr.Serving.{round_robin, Serves, next_item-Serves}
use orion.Balancing.Wrr.Run.{picks}
use orion.Balancing.Wrr.Fair.{served, fair_shares}
use orion.Balancing.Healthy.Serving.{IsHealthyIn, served-IsHealthyIn}

abbrev items : List (LbItem ℕ)
items =
    record { item = 0; health = unhealthy }
    ∷ record { item = 1; health = unhealthy }
    ∷ record { item = 2; health = healthy }
    ∷ []

abbrev weight : ℕ → ℕ
weight e = 1

abbrev operations : List (Operation ◌==◌ (round_robin weight))
operations = next none ∷ update 1 healthy ∷ []

served-IsHealthyIn_example : IsHealthyIn {E = ℕ} 1 (
    record { item = 0; health = unhealthy }
    ∷ record { item = 1; health = healthy }
    ∷ record { item = 2; health = healthy }
    ∷ [])
unfolding new reload run next_item update_endpoint set_health round_robin Defs.from_iter
    Defs.collect_checked Defs.next_item Defs.increase_all Defs.increase_current_weight
    Defs.adjust_current_weight Defs.total_weight Defs.best_weight Defs.adjust_best ◌+ℤ◌ ◌-ℤ◌
served-IsHealthyIn_example =
    served-IsHealthyIn ◌==◌ (round_robin weight) items operations none 1 refl

-- Two of weight 1 and 3: the second is served.
abbrev two_items : List (Defs.LbItem ℕ)
two_items =
    record { weight = 1; current_weight = pos 0; item = 7 }
    ∷ record { weight = 3; current_weight = pos 0; item = 8 }
    ∷ []

next_item-Serves_example : Serves two_items (
  record { weight = 1; current_weight = pos 1; item = 7 }
      ∷ record { weight = 3; current_weight = negsuc 0; item = 8 }
      ∷ [],
  some 8,
)
unfolding Defs.next_item Defs.increase_all Defs.increase_current_weight Defs.adjust_current_weight
    Defs.total_weight Defs.best_weight Defs.adjust_best ◌+ℤ◌ ◌-ℤ◌
next_item-Serves_example = next_item-Serves two_items

-- Of 8 calls on weights 1 and 3, the second endpoint gets about 6.
fair_shares_example :
    let count = served (◌==◌ 8) (picks 8 two_items) in
    (count * 4 ≤ 8 * 3 + 1 * 4) × (8 * 3 ≤ count * 4 + 1 * 4)
fair_shares_example = fair_shares (◌==◌ 8) 8 two_items (refl, (refl, tt)) (omega arith)
