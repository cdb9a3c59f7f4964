-- ===== src/Balancing/Wrr/Serving.antt =====
-- The round robin balancer keeps its endpoints, and serves one of them.
use mathlib.Core.List.{Memᴰ}
use orion.Base.{
  ℕ, ◌+◌, ◌^◌, ◌≡◌, ◌≢◌, ◌↔◌, refl, sym, ap, subst, ◌∙◌, Bool, true, false, List, [], ◌∷◌, Option,
  none, some, map, ltb, if◌then◌else◌, arith, inl, inr, ◌⊎◌, Bool-cases,
}
use orion.Base.Int.{ℤ, pos, ltb_ℤ, ◌-ℤ◌}
use orion.Base.Decides.{Any}
use orion.Balancing.Interface.{Balancer}
use orion.Balancing.Wrr.Defs.{
  LbItem, adjust_current_weight, increase_current_weight, new_item, collect_checked, from_iter,
  increase_all, total_weight, best_weight, cons_item, adjust_best, pick, next_item,
}

module _ {E : Type 0} where
  -- What an item keeps: its endpoint and its weight.
  abbrev pub row : LbItem E → E × ℕ
  row i = (i.item, i.weight)

  pub increase_all-rows : (items : List (LbItem E)) → map row (increase_all items) ≡ map row items
  unfolding increase_all increase_current_weight adjust_current_weight
  increase_all-rows [] = refl
  increase_all-rows (i ∷ items) = ap (◌∷◌ (row i)) (increase_all-rows items)

  cons_item-rows :
      (i : LbItem E) (p : List (LbItem E) × Option E)
      → map row (cons_item i p).0 ≡ row i ∷ map row p.0
  cons_item-rows i (items, e) = refl

  pub adjust_best-rows :
      (total : ℕ) (best : ℤ) (items : List (LbItem E))
      → map row (adjust_best total best items).0 ≡ map row items
  unfolding adjust_best adjust_current_weight
  adjust_best-rows total best [] = refl
  adjust_best-rows total best (i ∷ items) = elim (Bool-cases (ltb_ℤ i.current_weight best)) [
    | inl h ↦ rw h (
        cons_item-rows i (adjust_best total best items)
        ∙ ap (◌∷◌ (row i)) (adjust_best-rows total best items))
    | inr h ↦ rw h refl
  ]

  -- What the branch of `adjust_best` returns.
  pub cons_item-endpoint : (i : LbItem E) (p : List (LbItem E) × Option E) → (cons_item i p).1 ≡ p.1
  cons_item-endpoint i (items, e) = refl

  adjust_best-serves :
      (total : ℕ) (best : ℤ) (items : List (LbItem E)) (e : E)
      → (adjust_best total best items).1 ≡ some e
      → Memᴰ e (map (λ i. i.item) items)
  unfolding adjust_best
  adjust_best-serves total best [] e h = absurd (ground arith)
  adjust_best-serves total best (i ∷ items) e h =
      go (ltb_ℤ i.current_weight best) (adjust_best-serves total best items e) h
    where
      go :
          (b : Bool)
          → ((adjust_best total best items).1 ≡ some e → Memᴰ e (map (λ i. i.item) items))
          → (if b
              then cons_item i (adjust_best total best items)
              else (adjust_current_weight (pos 0 -ℤ pos total) i ∷ items, some i.item)).1
            ≡ some e
          → Memᴰ e (map (λ i. i.item) (i ∷ items))
      go true later h =
          Memᴰ.tail (later (sym (cons_item-endpoint i (adjust_best total best items)) ∙ h))
      go false later h = Memᴰ.head (ground arith)

  -- An item that is not below the best one is picked.
  pub adjust_best-picks :
      (total : ℕ) (best : ℤ) (items : List (LbItem E))
      → Any (λ i. i.current_weight ≡ best) items
      → (adjust_best total best items).1 ≢ none
  unfolding adjust_best
  adjust_best-picks total best [] a = absurd a
  adjust_best-picks total best (i ∷ items) a = elim (Bool-cases (ltb_ℤ i.current_weight best)) [
    | inl h ↦ rw h (λ q. elim a [
      | inl e ↦ ground arith
      | inr r ↦
          adjust_best-picks total best items r
            (sym (cons_item-endpoint i (adjust_best total best items)) ∙ q)
    ])
    | inr h ↦ rw h (λ q. ground arith)
  ]

  -- The greatest weight is that of one of the items.
  abbrev pub Attained : ℤ → List (LbItem E) → ℤ → Type 0
  Attained best items w = (best ≡ w) ⊎ Any (λ i. i.current_weight ≡ w) items

  pub best_weight-Attained :
      (best : ℤ) (items : List (LbItem E)) → Attained best items (best_weight best items)
  unfolding best_weight
  best_weight-Attained best [] = inl refl
  best_weight-Attained best (i ∷ items) =
      go (ltb_ℤ best i.current_weight) (best_weight-Attained i.current_weight items)
        (best_weight-Attained best items)
    where
      go :
          (b : Bool)
          → Attained i.current_weight items (best_weight i.current_weight items)
          → Attained best items (best_weight best items)
          → Attained best (i ∷ items) (best_weight (if b then i.current_weight else best) items)
      go true m n = inr m
      go false m n = elim n [ inl q ↦ inl q | inr r ↦ inr (inr r) ]

  endpoints : (items : List (LbItem E)) → map (λ i. i.item) items ≡ map (λ r. r.0) (map row items)
  endpoints [] = refl
  endpoints (i ∷ items) = ap (◌∷◌ i.item) (endpoints items)

  -- What it means to serve one of the items, and to keep them all.
  abbrev pub Serves : List (LbItem E) → List (LbItem E) × Option E → Type 0
  Serves items r =
      (map row r.0 ≡ map row items)
      × ((r.1 ≡ none) ↔ (items ≡ []))
      × ((e : E) → r.1 ≡ some e → Memᴰ e (map (λ i. i.item) items))

  pub same_endpoints :
      (items items' : List (LbItem E))
      → map row items ≡ map row items'
      → map (λ i. i.item) items ≡ map (λ i. i.item) items'
  same_endpoints items items' h = endpoints items ∙ ap (map (λ r. r.0)) h ∙ sym (endpoints items')

  pick-Serves :
      (total : ℕ) (i : LbItem E) (items : List (LbItem E))
      → Serves (i ∷ items) (pick total (i ∷ items))
  pick-Serves total i items =
      let best = best_weight i.current_weight items in
      (
        adjust_best-rows total best (i ∷ items),
        (
          λ q. absurd (
              adjust_best-picks total best (i ∷ items) (best_weight-Attained i.current_weight items)
                q),
          λ q. absurd (ground arith),
        ),
        adjust_best-serves total best (i ∷ items),
      )

  increased-Serves :
      (i : LbItem E) (items : List (LbItem E)) (r : List (LbItem E) × Option E)
      → Serves (increase_all (i ∷ items)) r
      → Serves (i ∷ items) r
  unfolding increase_all
  increased-Serves i items r (rows, (to, from), serves) = (
    rows ∙ increase_all-rows (i ∷ items),
    (λ q. absurd (ground (arith, to q)), λ q. absurd (ground arith)),
    λ e q.
        subst (Memᴰ e)
          (same_endpoints (increase_all (i ∷ items)) (i ∷ items) (increase_all-rows (i ∷ items)))
          (serves e q),
  )

  -- The balancer keeps its endpoints and their weights, serves one of them, and serves none only if
  -- there is none.
  pub next_item-Serves : (items : List (LbItem E)) → Serves items (next_item items)
  unfolding next_item increase_all
  next_item-Serves [] = (refl, (λ q. refl, λ q. refl), λ e q. absurd (ground arith))
  next_item-Serves (i ∷ []) = (
    refl,
    (λ q. absurd (ground arith), λ q. absurd (ground arith)),
    λ e q. Memᴰ.head (ground arith),
  )
  next_item-Serves (i ∷ j ∷ items) =
      increased-Serves i (j ∷ items)
        (pick (total_weight 0 (increase_all (i ∷ j ∷ items))) (increase_all (i ∷ j ∷ items)))
        (pick-Serves (total_weight 0 (increase_all (i ∷ j ∷ items))) (increase_current_weight i)
          (increase_all (j ∷ items)))

  pub collected-Memᴰ :
      (weight : E → ℕ) (total : ℕ) (xs : List E) (e : E)
      → Memᴰ e (map (λ i. i.item) (collect_checked total (map (new_item weight) xs)))
      → Memᴰ e xs
  unfolding collect_checked
  collected-Memᴰ weight total [] e m = m
  collected-Memᴰ weight total (x ∷ xs) e m =
      go (ltb (total + weight x) (2 ^ 32)) (collected-Memᴰ weight (total + weight x) xs e) m
    where
      go :
          (b : Bool)
          → (Memᴰ e
                (map (λ i. i.item) (collect_checked (total + weight x) (map (new_item weight) xs)))
              → Memᴰ e xs)
          → Memᴰ e (
              map
                (λ i. i.item)
                (if b
                  then new_item weight x
                    ∷ collect_checked (total + weight x) (map (new_item weight) xs)
                  else []))
          → Memᴰ e (x ∷ xs)
      go true later (Memᴰ.head q) = Memᴰ.head q
      go true later (Memᴰ.tail m) = Memᴰ.tail (later m)
      go false later m = elim m [ ]

  -- The endpoints that a balancer has are among the given ones.
  abbrev pub Has : List (LbItem E) → List E → Type 0
  Has items xs = (e : E) → Memᴰ e (map (λ i. i.item) items) → Memᴰ e xs

  unfoldable pub round_robin : (E → ℕ) → Balancer E
  unfolding from_iter
  round_robin weight = record {
    B = List (LbItem E);
    from_iter = from_iter weight;
    next_item = λ hash items. next_item items;
    Has = Has;
    from_iter-Has = λ xs e m. collected-Memᴰ weight 0 xs e m;
    next_item-Has = λ hash items xs h e m.
        h e
          (subst (Memᴰ e) (same_endpoints (next_item items).0 items (next_item-Serves items).0) m);
    serves = λ hash items xs e h q. h e ((next_item-Serves items).2 e q);
  }
