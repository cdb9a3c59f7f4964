-- ===== src/Balancing/Wrr/Exact.antt =====
-- The sums of current weights under one call, where no `i32` saturates.
use orion.Base.{
  ℕ, suc, ◌+◌, ◌≤◌, ◌≡◌, refl, ap, Bool, true, false, List, [], ◌∷◌, Option, none, some, map, All,
  if◌then◌else◌, arith, Bool-cases, inl, inr, ◌⊎◌,
}
use orion.Base.Int.{
  ℤ, pos, negsuc, pos_part, neg_part, ◌+ℤ◌, ◌-ℤ◌, ltb_ℤ, int_laws, +ℤ_parts, -ℤ_parts,
}
use orion.Balancing.Wrr.Defs.{
  i32_max, saturate, saturating_add, to_i32, LbItem, adjust_current_weight, increase_all, cons_item,
  adjust_best,
}
use orion.Balancing.Wrr.Serving.{row, cons_item-endpoint}

-- An integer that an `i32` holds.
abbrev pub Fits : ℤ → Type 0
Fits x = (pos_part x ≤ i32_max) × (neg_part x ≤ suc i32_max)

saturate-Fits : (x : ℤ) → Fits x → saturate x ≡ x
saturate-Fits (pos n) (h, k) = ap pos (omega arith)
saturate-Fits (negsuc n) (h, k) = ap negsuc (omega arith)

pub one_sided : (x : ℤ) → (pos_part x ≡ 0) ⊎ (neg_part x ≡ 0)
one_sided (pos n) = inr refl
one_sided (negsuc n) = inl refl

-- What an increase needs, with `w` the weight.
abbrev pub CanIncrease : ℕ → ℤ → Type 0
CanIncrease w x = (pos_part x + w ≤ i32_max) × (neg_part x ≤ suc i32_max)

increased-Fits : (w : ℕ) (x : ℤ) → CanIncrease w x → Fits (x +ℤ pos w)
increased-Fits w x (h, k) =
    grind (int_laws, +ℤ_parts x (pos w), one_sided (x +ℤ pos w), one_sided x)

adjusted-Fits :
    (total : ℕ) (x : ℤ)
    → pos_part x ≤ i32_max
    → neg_part x + total ≤ i32_max
    → Fits (x -ℤ pos total)
adjusted-Fits total x h k =
    grind (int_laws, -ℤ_parts x (pos total), one_sided (x -ℤ pos total), one_sided x)

minus_lem : (x y : ℤ) → x +ℤ (pos 0 -ℤ y) ≡ x -ℤ y
minus_lem x y = omega int_laws

pub increase_exact :
    (w : ℕ) (x : ℤ) → CanIncrease w x → saturating_add x (pos (to_i32 w)) ≡ x +ℤ pos w
increase_exact w x h =
    let same : to_i32 w ≡ w = omega arith in
    rw same (saturate-Fits (x +ℤ pos w) (increased-Fits w x h))

pub adjust_exact :
    (total : ℕ) (x : ℤ)
    → pos_part x ≤ i32_max
    → neg_part x + total ≤ i32_max
    → saturating_add x (pos 0 -ℤ pos total) ≡ x -ℤ pos total
adjust_exact total x h k =
    rw (minus_lem x (pos total)) (saturate-Fits (x -ℤ pos total) (adjusted-Fits total x h k))

first_taken :
    (b : Bool) (total : ℕ) (x y s : ℤ)
    → y ≡ x -ℤ pos total
    → (if b then y +ℤ s else s) ≡ (if b then x +ℤ s else s) -ℤ pos (if b then total else 0)
first_taken true total x y s h = rw h (omega int_laws)
first_taken false total x y s h = omega int_laws

later_taken :
    (b : Bool) (x s s' t : ℤ)
    → s' ≡ s -ℤ t
    → (if b then x +ℤ s' else s') ≡ (if b then x +ℤ s else s) -ℤ t
later_taken true x s s' t h = rw h (omega int_laws)
later_taken false x s s' t h = h

module _ {E : Type 0} where
  -- The sum of the weights of the rows that `f` picks, and a share of `total` for each of them.
  abbrev pub weights : (E → Bool) → List (E × ℕ) → ℕ
  weights f [] = 0
  weights f ((e, w) ∷ rows) = if f e then w + weights f rows else weights f rows

  abbrev pub room : (E → Bool) → ℕ → List (E × ℕ) → ℕ
  room f total [] = 0
  room f total ((e, w) ∷ rows) = if f e then total + room f total rows else room f total rows

  -- The sum of their current weights.
  unfoldable pub sum_of : (E → Bool) → List (LbItem E) → ℤ
  sum_of f [] = pos 0
  sum_of f (i ∷ items) = if f i.item then i.current_weight +ℤ sum_of f items else sum_of f items

  abbrev pub CanIncreaseAll : List (LbItem E) → Type 0
  CanIncreaseAll = All (λ i. CanIncrease i.weight i.current_weight)

  pub sum_of-increase_all :
      (f : E → Bool) (items : List (LbItem E))
      → CanIncreaseAll items
      → sum_of f (increase_all items) ≡ sum_of f items +ℤ pos (weights f (map row items))
  unfolding sum_of increase_all
  sum_of-increase_all f [] h = omega int_laws
  sum_of-increase_all f (i ∷ items) (h, k) =
      rw (increase_exact i.weight i.current_weight h) (elim (Bool-cases (f i.item)) [
        | inl e ↦ rw (e, sum_of-increase_all f items k) (omega int_laws)
        | inr e ↦ rw (e, sum_of-increase_all f items k)
      ])

  -- What a pick takes from the sum.
  abbrev pub taken : (E → Bool) → ℕ → Option E → ℕ
  taken f total none = 0
  taken f total (some e) = if f e then total else 0

  abbrev pub CanAdjustAll : ℕ → List (LbItem E) → Type 0
  CanAdjustAll total =
      All
        (λ i. (pos_part i.current_weight ≤ i32_max) × (neg_part i.current_weight + total ≤ i32_max))

  cons_item-sum :
      (f : E → Bool) (i : LbItem E) (p : List (LbItem E) × Option E)
      → sum_of f (cons_item i p).0
        ≡ (if f i.item then i.current_weight +ℤ sum_of f p.0 else sum_of f p.0)
  unfolding sum_of
  cons_item-sum f i (items, e) = refl

  pub sum_of-adjust_best :
      (f : E → Bool) (total : ℕ) (best : ℤ) (items : List (LbItem E))
      → CanAdjustAll total items
      → sum_of f (adjust_best total best items).0
        ≡ sum_of f items -ℤ pos (taken f total (adjust_best total best items).1)
  unfolding sum_of adjust_best adjust_current_weight
  sum_of-adjust_best f total best [] h = omega int_laws
  sum_of-adjust_best f total best (i ∷ items) ((h, h'), k) =
      elim (Bool-cases (ltb_ℤ i.current_weight best)) [
        | inl e ↦
            rw
              (
                e,
                cons_item-sum f i (adjust_best total best items),
                cons_item-endpoint i (adjust_best total best items),
              )
              (later_taken (f i.item) i.current_weight (sum_of f items)
                (sum_of f (adjust_best total best items).0)
                (pos (taken f total (adjust_best total best items).1))
                (sum_of-adjust_best f total best items k))
        | inr e ↦ rw e (
            first_taken (f i.item) total i.current_weight
              (saturating_add i.current_weight (pos 0 -ℤ pos total)) (sum_of f items)
              (adjust_exact total i.current_weight h h'))
      ]
