-- ===== src/Balancing/Wrr/Defs.antt =====
-- `WeightedRoundRobinBalancer` of orion-lib/src/clusters/balancers/wrr.rs. An `i32` is an integer, with
-- its saturation written out.
use orion.Base.{ℕ, ◌+◌, ◌^◌, List, [], ◌∷◌, Option, none, some, map, min, ltb, if◌then◌else◌}
use orion.Base.Int.{ℤ, pos, negsuc, ◌+ℤ◌, ◌-ℤ◌, ltb_ℤ}

abbrev pub i32_max : ℕ
i32_max = 0x7fffffff

-- Between -(i32_max + 1) and i32_max.
abbrev pub saturate : ℤ → ℤ
saturate (pos n) = pos (min n i32_max)
saturate (negsuc n) = negsuc (min n i32_max)

abbrev pub saturating_add : ℤ → ℤ → ℤ
saturating_add a b = saturate (a +ℤ b)

-- `i32::try_from(weight).unwrap_or(i32::MAX)`
abbrev pub to_i32 : ℕ → ℕ
to_i32 weight = min weight i32_max

pub record LbItem (E : Type 0) : Type 0 where
  pub weight : ℕ
  pub current_weight : ℤ
  pub item : E

module _ {E : Type 0} where
  unfoldable pub adjust_current_weight : ℤ → LbItem E → LbItem E
  adjust_current_weight value i = record i {
    current_weight = saturating_add i.current_weight value;
  }

  unfoldable pub increase_current_weight : LbItem E → LbItem E
  unfolding adjust_current_weight
  increase_current_weight i = adjust_current_weight (pos (to_i32 i.weight)) i

  abbrev pub new_item : (E → ℕ) → E → LbItem E
  new_item weight e = record { weight = weight e; current_weight = pos 0; item = e }

  -- `collect_checked`: the items up to the first with which the sum leaves 32 bits.
  unfoldable pub collect_checked : ℕ → List (LbItem E) → List (LbItem E)
  collect_checked total [] = []
  collect_checked total (i ∷ items) =
      let rest = collect_checked (total + i.weight) items in
      if ltb (total + i.weight) (2 ^ 32) then i ∷ rest else []

  unfoldable pub from_iter : (E → ℕ) → List E → List (LbItem E)
  unfolding collect_checked
  from_iter weight items = collect_checked 0 (map (new_item weight) items)

  unfoldable pub increase_all : List (LbItem E) → List (LbItem E)
  unfolding increase_current_weight
  increase_all [] = []
  increase_all (i ∷ items) = increase_current_weight i ∷ increase_all items

  -- The fold of the weights, from `total` on.
  unfoldable pub total_weight : ℕ → List (LbItem E) → ℕ
  total_weight total [] = total
  total_weight total (i ∷ items) = total_weight (min (total + to_i32 i.weight) i32_max) items

  -- `reduce`: the first item with the greatest weight, behind the best of those before it.
  -- What is returned is the list with the best item adjusted, and that item.
  unfoldable pub best_weight : ℤ → List (LbItem E) → ℤ
  best_weight best [] = best
  best_weight best (i ∷ items) =
      best_weight (if ltb_ℤ best i.current_weight then i.current_weight else best) items

  abbrev pub cons_item : LbItem E → List (LbItem E) × Option E → List (LbItem E) × Option E
  cons_item i (items, e) = (i ∷ items, e)

  -- The first item whose weight is the greatest one is adjusted by `-total` and returned.
  unfoldable pub adjust_best : ℕ → ℤ → List (LbItem E) → List (LbItem E) × Option E
  unfolding adjust_current_weight
  adjust_best total best [] = ([], none)
  adjust_best total best (i ∷ items) =
      let rest = adjust_best total best items in
      if ltb_ℤ i.current_weight best
      then cons_item i rest
      else (adjust_current_weight (pos 0 -ℤ pos total) i ∷ items, some i.item)

  abbrev pub pick : ℕ → List (LbItem E) → List (LbItem E) × Option E
  pick total [] = ([], none)
  pick total (i ∷ items) = adjust_best total (best_weight i.current_weight items) (i ∷ items)

  -- The balancer's state is its items.
  unfoldable pub next_item : List (LbItem E) → List (LbItem E) × Option E
  unfolding increase_all total_weight best_weight adjust_best
  next_item [] = ([], none)
  next_item (i ∷ []) = (i ∷ [], some i.item)
  next_item (i ∷ j ∷ items) =
      pick (total_weight 0 (increase_all (i ∷ j ∷ items))) (increase_all (i ∷ j ∷ items))
