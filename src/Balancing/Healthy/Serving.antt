-- ===== src/Balancing/Healthy/Serving.antt =====
-- Which endpoints are served.
use mathlib.Core.List.{Memᴰ}
use orion.Base.{
  ℕ, ◌≡◌, refl, sym, ap, subst, Bool, true, false, List, [], ◌∷◌, ◌++◌, Option, none, map, some,
  if◌then◌else◌, arith, inl, inr, Bool-cases,
}
use orion.Health.Status.{
  HealthStatus, healthy, ValueUpdated, updated, not_updated, is_healthy, update_health,
}
use orion.Balancing.Interface.{Balancer}
use orion.Balancing.Healthy.Defs.{
  LbItem, healthy_items, prepend, set_health, State, reload, new, next_item, after_update,
  update_endpoint, extend, Operation, next, update, extended, run, with_health,
}

-- An item that is the endpoint `e`, and is healthy.
abbrev pub IsHealthyIn : {E : Type 0} → E → List (LbItem E) → Type 0
IsHealthyIn {E} e items = (i : LbItem E) × Memᴰ i items × (i.item ≡ e) × (i.health ≡ healthy)

same_health :
    (old status : HealthStatus)
    → (update_health old status).1 ≡ not_updated
    → (update_health old status).0 ≡ old
same_health old status e = ground arith

module _ {E : Type 0} where
  healthy_if :
      (i : LbItem E) (items : List (LbItem E)) (e : E) (b : Bool)
      → is_healthy i.health ≡ b
      → (Memᴰ e (healthy_items items) → IsHealthyIn e items)
      → Memᴰ e (if b then i.item ∷ healthy_items items else healthy_items items)
      → IsHealthyIn e (i ∷ items)
  healthy_if i items e true h ih (Memᴰ.head q) = (i, Memᴰ.head refl, sym q, ground arith)
  healthy_if i items e true h ih (Memᴰ.tail m) = let (j, n, q, w) = ih m in (j, Memᴰ.tail n, q, w)
  healthy_if i items e false h ih m = let (j, n, q, w) = ih m in (j, Memᴰ.tail n, q, w)

  healthy_items-IsHealthyIn :
      (items : List (LbItem E)) (e : E) → Memᴰ e (healthy_items items) → IsHealthyIn e items
  healthy_items-IsHealthyIn [] e m = elim m [ ]
  healthy_items-IsHealthyIn (i ∷ items) e m =
      healthy_if i items e (is_healthy i.health) refl (healthy_items-IsHealthyIn items e) m

  -- What `not_updated` says of the items.
  abbrev Unchanged : List (LbItem E) → Option (List (LbItem E) × ValueUpdated) → Type 0
  Unchanged items none = Unit
  Unchanged items (some (items', updated)) = Unit
  Unchanged items (some (items', not_updated)) = items' ≡ items

  prepend-Unchanged :
      (i : LbItem E) (items : List (LbItem E)) (o : Option (List (LbItem E) × ValueUpdated))
      → Unchanged items o
      → Unchanged (i ∷ items) (prepend i o)
  prepend-Unchanged i items none h = tt
  prepend-Unchanged i items (some (items', updated)) h = tt
  prepend-Unchanged i items (some (items', not_updated)) h = ap (◌∷◌ i) h

  first-Unchanged :
      (i : LbItem E) (items : List (LbItem E)) (u : HealthStatus × ValueUpdated)
      → (u.1 ≡ not_updated → u.0 ≡ i.health)
      → Unchanged (i ∷ items) (some (record i { health = u.0 } ∷ items, u.1))
  first-Unchanged i items (status, updated) h = tt
  first-Unchanged i items (status, not_updated) h =
      ap (λ z. record i { health = z } ∷ items) (h refl)

module _ {E : Type 0} (eq : E → E → Bool) (ops : Balancer E) where
  set_health-Unchanged :
      (id : E) (status : HealthStatus) (items : List (LbItem E))
      → Unchanged items (set_health eq id status items)
  unfolding set_health
  set_health-Unchanged id status [] = tt
  set_health-Unchanged id status (i ∷ items) = elim (Bool-cases (eq id i.item)) [
    | inl h ↦
        rw h (first-Unchanged i items (update_health i.health status) (same_health i.health status))
    | inr h ↦ rw h (
        prepend-Unchanged i items (set_health eq id status items)
          (set_health-Unchanged id status items))
  ]

  -- The balancer below holds the healthy items.
  abbrev pub Synced : State eq ops → Type 0
  Synced s = ops.Has s.balancer (healthy_items s.items)

  update-Synced :
      (s : State eq ops) (o : Option (List (LbItem E) × ValueUpdated))
      → Unchanged s.items o
      → Synced s
      → Synced (after_update eq ops s o).0
  update-Synced s none h y = y
  update-Synced s (some (items, updated)) h y = ops.from_iter-Has (healthy_items items)
  update-Synced s (some (items, not_updated)) h y =
      subst (λ z. ops.Has s.balancer (healthy_items z)) (sym h) y

  run-Synced :
      (operations : List (Operation eq ops)) (s : State eq ops)
      → Synced s
      → Synced (run eq ops operations s)
  unfolding run next_item update_endpoint extend reload
  run-Synced [] s y = y
  run-Synced (next hash ∷ operations) s y =
      run-Synced operations (next_item eq ops hash s).0
        (ops.next_item-Has hash s.balancer (healthy_items s.items) y)
  run-Synced (update id status ∷ operations) s y =
      run-Synced operations (update_endpoint eq ops id status s).0 (
        update-Synced s (set_health eq id status s.items) (set_health-Unchanged id status s.items)
          y)
  run-Synced (extended health endpoints ∷ operations) s y =
      run-Synced operations (extend eq ops health endpoints s)
        (ops.from_iter-Has (healthy_items (s.items ++ map (with_health eq ops health) endpoints)))

  -- Whatever operations came before, an endpoint that is served is one of the items at that
  -- time, and its health there is healthy.
  pub served-IsHealthyIn :
      (items : List (LbItem E)) (operations : List (Operation eq ops)) (hash : Option ℕ) (e : E)
      → (next_item eq ops hash (run eq ops operations (new eq ops items))).1 ≡ some e
      → IsHealthyIn e (run eq ops operations (new eq ops items)).items
  unfolding next_item new reload
  served-IsHealthyIn items operations hash e h =
      let s = run eq ops operations (new eq ops items) in
      let synced =
        run-Synced operations (new eq ops items) (ops.from_iter-Has (healthy_items items)) in
      healthy_items-IsHealthyIn s.items e
        (ops.serves hash s.balancer (healthy_items s.items) e synced h)
