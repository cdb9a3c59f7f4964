-- ===== src/Balancing/Wrr/Credit.antt =====
-- The current weights stay within bounds, so that nothing saturates.
use orion.Base.{
  ℕ, suc, ◌+◌, ◌≤◌, ◌≡◌, subst, ◌∙◌, Bool, true, List, [], ◌∷◌, Option, map, min, All, length,
  arith, Bool-cases, inl, inr,
}
use orion.Base.Int.{
  ℤ, pos, negsuc, pos_part, neg_part, ◌+ℤ◌, ◌-ℤ◌, ltb_ℤ, ◌≤ℤ◌, int_laws, +ℤ_parts, -ℤ_parts,
}
use orion.Balancing.Wrr.Defs.{
  i32_max, saturating_add, to_i32, LbItem, adjust_current_weight, increase_current_weight,
  increase_all, total_weight, best_weight, cons_item, adjust_best,
}
use orion.Balancing.Wrr.Serving.{row}
use orion.Balancing.Wrr.Greatest.{Bounded, best_weight-Bounded}
use orion.Balancing.Wrr.Exact.{
  one_sided, increase_exact, adjust_exact, weights, room, sum_of, CanIncreaseAll, CanAdjustAll,
}

abbrev pub everything : {E : Type 0} → E → Bool
everything e = true

All-mono :
    {A : Type 0} {P Q : A → Type 0} (xs : List A) → ((x : A) → P x → Q x) → All P xs → All Q xs
All-mono [] f a = tt
All-mono (x ∷ xs) f (p, a) = (f x p, All-mono xs f a)

All-and :
    {A : Type 0} (P Q : A → Type 0) (xs : List A) → All P xs → All Q xs → All (λ x. P x × Q x) xs
All-and P Q [] a b = tt
All-and P Q (x ∷ xs) (p, a) (q, b) = ((p, q), All-and P Q xs a b)

plus_parts :
    (x : ℤ) (w : ℕ)
    → (pos_part (x +ℤ pos w) ≤ pos_part x + w) × (neg_part (x +ℤ pos w) ≤ neg_part x)
plus_parts x w = grind (int_laws, +ℤ_parts x (pos w), one_sided (x +ℤ pos w), one_sided x)

pub minus_parts : (x : ℤ) (n : ℕ) → pos 0 ≤ℤ x → neg_part (x -ℤ pos n) ≤ n
minus_parts x n h = grind (int_laws, -ℤ_parts x (pos n), one_sided (x -ℤ pos n), one_sided x)

-- Items that are all below 0 have a sum below 0.
sum_negative :
    {E : Type 0} (m : ℕ) (items : List (LbItem E))
    → Bounded (negsuc m) items
    → pos_part (sum_of everything items) + length items ≤ neg_part (sum_of everything items)
unfolding sum_of
sum_negative m [] b = omega arith
sum_negative m (i ∷ items) (h, b) = omega (int_laws, sum_negative m items b)

pub total_weight-weights :
    {E : Type 0} (acc : ℕ) (items : List (LbItem E))
    → acc + weights everything (map row items) ≤ i32_max
    → total_weight acc items ≡ acc + weights everything (map row items)
unfolding total_weight
total_weight-weights acc [] h = omega arith
total_weight-weights acc (i ∷ items) h =
    let step : min (acc + to_i32 i.weight) i32_max ≡ acc + i.weight = omega arith in
    rw step (total_weight-weights (acc + i.weight) items (omega arith) ∙ omega arith)

module _ {E : Type 0} (total : ℕ) where
  -- No item has been picked more than one share ahead.
  abbrev pub Solvent : List (LbItem E) → Type 0
  Solvent = All (λ i. neg_part i.current_weight ≤ total)

  -- The sum of solvent items is not below the shares of all.
  pub sum-lower :
      (f : E → Bool) (items : List (LbItem E))
      → Solvent items
      → neg_part (sum_of f items) ≤ pos_part (sum_of f items) + room f total (map row items)
  unfolding sum_of
  sum-lower f [] s = omega arith
  sum-lower f (i ∷ items) (h, s) = elim (Bool-cases (f i.item)) [
    | inl e ↦ rw e (omega (int_laws, sum-lower f items s))
    | inr e ↦ rw e (sum-lower f items s)
  ]

  -- Each item has at most what the others lack.
  item-upper :
      (items : List (LbItem E)) (most : ℕ)
      → Solvent items
      → sum_of everything items ≤ℤ pos most
      → All
          (λ i. pos_part i.current_weight + total ≤ most + room everything total (map row items))
          items
  unfolding sum_of
  item-upper [] most h e = tt
  item-upper (i ∷ items) most (h, k) e = (
    grind (
      int_laws,
      +ℤ_parts i.current_weight (sum_of everything items),
      sum-lower everything items k,
      one_sided i.current_weight,
    ),
    All-mono items (λ j l. omega arith)
        (item-upper items (most + total) k
          (omega (int_laws, +ℤ_parts i.current_weight (sum_of everything items)))),
  )

  weight-le :
      (items : List (LbItem E)) (extra : ℕ)
      → extra + weights everything (map row items) ≤ total
      → All (λ i. i.weight ≤ total) items
  weight-le [] extra h = tt
  weight-le (i ∷ items) extra h = (omega arith, weight-le items (extra + i.weight) (omega arith))

  -- What is known of an item of balanced items, with `most` all the shares.
  abbrev pub Known : ℕ → LbItem E → Type 0
  Known most i =
      (pos_part i.current_weight + total ≤ most)
      × ((neg_part i.current_weight ≤ total) × (i.weight ≤ total))

  pub known :
      (items : List (LbItem E))
      → Solvent items
      → sum_of everything items ≡ pos 0
      → weights everything (map row items) ≤ total
      → All (Known (room everything total (map row items))) items
  known items s e h =
      let most = room everything total (map row items) in
      let upper = item-upper items 0 s (rw e (omega arith)) in
      All-and (λ i. pos_part i.current_weight + total ≤ most)
        (λ i. (neg_part i.current_weight ≤ total) × (i.weight ≤ total)) items
        (All-mono items (λ i u. omega arith) upper)
        (All-and (λ i. neg_part i.current_weight ≤ total) (λ i. i.weight ≤ total) items s
          (weight-le items 0 (omega arith)))

  pub Known-CanIncrease :
      (items : List (LbItem E)) (most : ℕ)
      → most ≤ i32_max
      → All (Known most) items
      → CanIncreaseAll items
  Known-CanIncrease items most h k = All-mono items (λ i (a, (b, c)). (omega arith, omega arith)) k

  pub Known-CanAdjust :
      (items : List (LbItem E)) (most : ℕ)
      → most ≤ i32_max
      → total + total ≤ most
      → All (Known most) items
      → CanAdjustAll total (increase_all items) × Solvent (increase_all items)
  unfolding increase_all increase_current_weight adjust_current_weight
  Known-CanAdjust [] most h t k = (tt, tt)
  Known-CanAdjust (i ∷ items) most h t ((a, (b, c)), k) =
      let (x, y) = Known-CanAdjust items most h t k in
      let exact : saturating_add i.current_weight (pos (to_i32 i.weight))
          ≡ i.current_weight +ℤ pos i.weight =
        increase_exact i.weight i.current_weight (omega arith, omega arith) in
      let (p, q) = plus_parts i.current_weight i.weight in
      rw exact (((omega arith, omega arith), x), (omega arith, y))

  cons_item-Solvent :
      (i : LbItem E) (p : List (LbItem E) × Option E)
      → neg_part i.current_weight ≤ total
      → Solvent p.0
      → Solvent (cons_item i p).0
  cons_item-Solvent i (items, e) h s = (h, s)

  -- A best item that is not below 0 can pay.
  pub adjust_best-Solvent :
      (best : ℤ) (items : List (LbItem E))
      → pos 0 ≤ℤ best
      → CanAdjustAll total items
      → Solvent items
      → Solvent (adjust_best total best items).0
  unfolding adjust_best adjust_current_weight
  adjust_best-Solvent best [] b c s = tt
  adjust_best-Solvent best (i ∷ items) b ((c, c'), d) (h, s) =
      elim (Bool-cases (ltb_ℤ i.current_weight best)) [
        | inl e ↦ rw e (
            cons_item-Solvent i (adjust_best total best items) h
              (adjust_best-Solvent best items b d s))
        | inr e ↦
            rw (e, adjust_exact total i.current_weight c c')
              (minus_parts i.current_weight total (ground arith), s)
      ]

  -- Items whose sum is not below 0 have a best item that is not below 0.
  pub best-nonneg :
      (i : LbItem E) (items : List (LbItem E)) (n : ℕ)
      → sum_of everything (i ∷ items) ≡ pos n
      → pos 0 ≤ℤ best_weight i.current_weight items
  best-nonneg i items n e =
      go (best_weight i.current_weight items) (best_weight-Bounded i.current_weight items)
    where
      go : (w : ℤ) → (i.current_weight ≤ℤ w) × Bounded w items → pos 0 ≤ℤ w
      go (pos m) b = omega arith
      go (negsuc m) b =
          let negative = sum_negative m (i ∷ items) b in
          absurd
            (omega (arith, subst (λ z. pos_part z + suc (length items) ≤ neg_part z) e negative))
