-- ===== src/Balancing/Healthy/Defs.antt =====
-- `HealthyBalancer`: endpoints with their health, and a balancer over the healthy ones.
use orion.Base.{ℕ, Bool, List, [], ◌∷◌, ◌++◌, Option, none, some, map, if◌then◌else◌}
use orion.Health.Status.{
  HealthStatus, ValueUpdated, updated, not_updated, is_healthy, update_health,
}
use orion.Balancing.Interface.{Balancer}

pub record LbItem (E : Type 0) : Type 0 where
  pub item : E
  pub health : HealthStatus

pub record HealthyBalancer (E B : Type 0) : Type 0 where
  pub items : List (LbItem E)
  pub balancer : B

-- `filter_map`: the endpoints whose health is `Healthy`.
abbrev pub healthy_items : {E : Type 0} → List (LbItem E) → List E
healthy_items [] = []
healthy_items (i ∷ items) =
    if is_healthy i.health then i.item ∷ healthy_items items else healthy_items items

-- The health of the first item that is the endpoint is set; `none` when there is no such item.
abbrev pub prepend :
    {E : Type 0}
    → LbItem E
    → Option (List (LbItem E) × ValueUpdated)
    → Option (List (LbItem E) × ValueUpdated)
prepend i none = none
prepend i (some (items, u)) = some (i ∷ items, u)

module _ {E : Type 0} (eq : E → E → Bool) where
  unfoldable pub set_health :
      E → HealthStatus → List (LbItem E) → Option (List (LbItem E) × ValueUpdated)
  set_health id status [] = none
  set_health id status (i ∷ items) =
      let rest = set_health id status items in
      if eq id i.item
      then some (
        record i { health = (update_health i.health status).0 } ∷ items,
        (update_health i.health status).1,
      )
      else prepend i rest

  module _ (ops : Balancer E) where
    abbrev pub State : Type 0
    State = HealthyBalancer E ops.B

    unfoldable pub reload : List (LbItem E) → State
    reload items = record { items = items; balancer = ops.from_iter (healthy_items items) }

    unfoldable pub new : List (LbItem E) → State
    unfolding reload
    new items = reload items

    unfoldable pub next_item : Option ℕ → State → State × Option E
    next_item hash s = let r = ops.next_item hash s.balancer in (record s { balancer = r.0 }, r.1)

    -- The balancer is made again only if the health has changed. An error is `none`.
    abbrev pub after_update :
        State → Option (List (LbItem E) × ValueUpdated) → State × Option ValueUpdated
    after_update s none = (s, none)
    after_update s (some (items, updated)) =
        (record { items = items; balancer = ops.from_iter (healthy_items items) }, some updated)
    after_update s (some (items, not_updated)) = (record s { items = items }, some not_updated)

    unfoldable pub update_endpoint : E → HealthStatus → State → State × Option ValueUpdated
    unfolding set_health
    update_endpoint id status s = after_update s (set_health id status s.items)

    -- `EndpointHealth` of the new endpoints is what they answer at that time.
    abbrev pub with_health : (E → HealthStatus) → E → LbItem E
    with_health health e = record { item = e; health = health e }

    unfoldable pub extend : (E → HealthStatus) → List E → State → State
    unfolding reload
    extend health endpoints s = reload (s.items ++ map (with_health health) endpoints)

    pub data Operation : Type 0 where
      next : Option ℕ → Operation
      update : E → HealthStatus → Operation
      extended : (E → HealthStatus) → List E → Operation

    unfoldable pub run : List Operation → State → State
    unfolding next_item update_endpoint extend
    run [] s = s
    run (next hash ∷ operations) s = run operations (next_item hash s).0
    run (update id status ∷ operations) s = run operations (update_endpoint id status s).0
    run (extended health endpoints ∷ operations) s = run operations (extend health endpoints s)
