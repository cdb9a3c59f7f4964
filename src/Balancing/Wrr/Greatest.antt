-- ===== src/Balancing/Wrr/Greatest.antt =====
-- The item that the round robin balancer serves has the greatest current weight.
use mathlib.Core.List.{Memᴰ}
use orion.Base.{
  ℕ, ◌≡◌, refl, sym, ◌∙◌, Bool, true, false, List, [], ◌∷◌, some, All, if◌then◌else◌, arith,
}
use orion.Base.Int.{ℤ, pos, ltb_ℤ, ◌-ℤ◌, ◌≤ℤ◌}
use orion.Balancing.Wrr.Defs.{
  LbItem, adjust_current_weight, increase_current_weight, increase_all, total_weight, best_weight,
  cons_item, adjust_best, pick, next_item,
}
use orion.Balancing.Wrr.Serving.{cons_item-endpoint}

module _ {E : Type 0} where
  -- No item has a greater weight.
  abbrev pub Bounded : ℤ → List (LbItem E) → Type 0
  Bounded w items = All (λ i. i.current_weight ≤ℤ w) items

  Bounded-mono : (v w : ℤ) (items : List (LbItem E)) → v ≤ℤ w → Bounded v items → Bounded w items
  Bounded-mono v w [] h b = tt
  Bounded-mono v w (i ∷ items) h (a, b) = (ground arith, Bounded-mono v w items h b)

  pub best_weight-Bounded :
      (best : ℤ) (items : List (LbItem E))
      → (best ≤ℤ best_weight best items) × Bounded (best_weight best items) items
  unfolding best_weight
  best_weight-Bounded best [] = (ground arith, tt)
  best_weight-Bounded best (i ∷ items) =
      go (ltb_ℤ best i.current_weight) refl (best_weight-Bounded i.current_weight items)
        (best_weight-Bounded best items)
    where
      go :
          (b : Bool)
          → ltb_ℤ best i.current_weight ≡ b
          → (i.current_weight ≤ℤ best_weight i.current_weight items)
            × Bounded (best_weight i.current_weight items) items
          → (best ≤ℤ best_weight best items) × Bounded (best_weight best items) items
          → (best ≤ℤ best_weight (if b then i.current_weight else best) items)
            × Bounded (best_weight (if b then i.current_weight else best) items) (i ∷ items)
      go true h (m, b) n = (ground arith, (m, b))
      go false h m (n, b) = (n, (ground arith, b))

  -- The endpoint of an item whose weight is at least `w`.
  abbrev pub IsOfWeight : ℤ → List (LbItem E) → E → Type 0
  IsOfWeight w items e = (i : LbItem E) × Memᴰ i items × (i.item ≡ e) × (w ≤ℤ i.current_weight)

  adjust_best-IsOfWeight :
      (total : ℕ) (best : ℤ) (items : List (LbItem E)) (e : E)
      → (adjust_best total best items).1 ≡ some e
      → IsOfWeight best items e
  unfolding adjust_best
  adjust_best-IsOfWeight total best [] e h = absurd (ground arith)
  adjust_best-IsOfWeight total best (i ∷ items) e h =
      go (ltb_ℤ i.current_weight best) refl (adjust_best-IsOfWeight total best items e) h
    where
      go :
          (b : Bool)
          → ltb_ℤ i.current_weight best ≡ b
          → ((adjust_best total best items).1 ≡ some e → IsOfWeight best items e)
          → (if b
              then cons_item i (adjust_best total best items)
              else (adjust_current_weight (pos 0 -ℤ pos total) i ∷ items, some i.item)).1
            ≡ some e
          → IsOfWeight best (i ∷ items) e
      go true q later h =
          let (j, m, p, w) =
            later (sym (cons_item-endpoint i (adjust_best total best items)) ∙ h) in
          (j, Memᴰ.tail m, p, w)
      go false q later h = (i, Memᴰ.head refl, ground arith, ground arith)

  -- An endpoint whose item no other item exceeds.
  abbrev pub IsGreatest : List (LbItem E) → E → Type 0
  IsGreatest items e = (i : LbItem E) × Memᴰ i items × (i.item ≡ e) × Bounded i.current_weight items

  pick-IsGreatest :
      (total : ℕ) (items : List (LbItem E)) (e : E)
      → (pick total items).1 ≡ some e
      → IsGreatest items e
  pick-IsGreatest total [] e h = absurd (ground arith)
  pick-IsGreatest total (i ∷ items) e h =
      let best = best_weight i.current_weight items in
      let (j, m, p, w) = adjust_best-IsOfWeight total best (i ∷ items) e h in
      (
        j,
        m,
        p,
        Bounded-mono best j.current_weight (i ∷ items) w
            (best_weight-Bounded i.current_weight items),
      )

  -- When the weights of all items have been added, no item exceeds the one that is served.
  pub served-IsGreatest :
      (items : List (LbItem E)) (e : E)
      → (next_item items).1 ≡ some e
      → IsGreatest (increase_all items) e
  unfolding next_item increase_all increase_current_weight adjust_current_weight
  served-IsGreatest [] e h = absurd (ground arith)
  served-IsGreatest (i ∷ []) e h =
      (increase_current_weight i, Memᴰ.head refl, ground arith, (ground arith, tt))
  served-IsGreatest (i ∷ j ∷ items) e h =
      pick-IsGreatest (total_weight 0 (increase_all (i ∷ j ∷ items))) (increase_all (i ∷ j ∷ items))
        e h
