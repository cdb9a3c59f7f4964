-- ===== src/Balancing/Wrr/Fair.antt =====
-- The round robin balancer is fair: no group of endpoints is far from its share.
use orion.Base.{
  ℕ, suc, ◌+◌, ◌*◌, ◌≤◌, ◌≡◌, refl, ap, subst, ◌∙◌, Bool, not, List, [], ◌∷◌, Option, none, some,
  map, All, if◌then◌else◌, arith, Bool-cases, inl, inr,
}
use orion.Base.Int.{ℤ, pos, pos_part, neg_part, ◌+ℤ◌, int_laws}
use orion.Balancing.Wrr.Defs.{LbItem}
use orion.Balancing.Wrr.Serving.{row}
use orion.Balancing.Wrr.Exact.{weights, room, sum_of}
use orion.Balancing.Wrr.Credit.{everything, Solvent, sum-lower}
use orion.Balancing.Wrr.Run.{total_of, IsSmall, picks, after, spent, run-On}

share_bounds :
    (x y z : ℤ) (used earned r r' : ℕ)
    → x +ℤ pos used ≡ z +ℤ pos earned
    → z ≡ pos 0
    → x +ℤ y ≡ pos 0
    → neg_part x ≤ pos_part x + r
    → neg_part y ≤ pos_part y + r'
    → (used ≤ earned + r) × (earned ≤ used + r')
share_bounds x y z used earned r r' p c q h k = omega (
  int_laws,
  ap pos_part p,
  ap neg_part p,
  ap pos_part c,
  ap neg_part c,
  ap pos_part q,
  ap neg_part q,
)

module _ {E : Type 0} where
  -- How many of the items, and of the calls, are of a group.
  abbrev pub members : (E → Bool) → List (E × ℕ) → ℕ
  members f [] = 0
  members f ((e, w) ∷ rows) = if f e then suc (members f rows) else members f rows

  abbrev pub served : (E → Bool) → List (Option E) → ℕ
  served f [] = 0
  served f (none ∷ os) = served f os
  served f (some e ∷ os) = if f e then suc (served f os) else served f os

  room-members :
      (f : E → Bool) (total : ℕ) (rows : List (E × ℕ)) → room f total rows ≡ members f rows * total
  room-members f total [] = omega arith
  room-members f total ((e, w) ∷ rows) = elim (Bool-cases (f e)) [
    | inl h ↦ rw (h, room-members f total rows) (omega arith)
    | inr h ↦ rw h (room-members f total rows)
  ]

  spent-served :
      (f : E → Bool) (total : ℕ) (os : List (Option E)) → spent f total os ≡ served f os * total
  spent-served f total [] = omega arith
  spent-served f total (none ∷ os) = omega (arith, spent-served f total os)
  spent-served f total (some e ∷ os) = elim (Bool-cases (f e)) [
    | inl h ↦ rw (h, spent-served f total os) (omega arith)
    | inr h ↦ rw h (omega (arith, spent-served f total os))
  ]

  abbrev others : (E → Bool) → E → Bool
  others f e = not (f e)

  sum_of-others :
      (f : E → Bool) (items : List (LbItem E))
      → sum_of f items +ℤ sum_of (others f) items ≡ sum_of everything items
  unfolding sum_of
  sum_of-others f [] = omega int_laws
  sum_of-others f (i ∷ items) = elim (Bool-cases (f i.item)) [
    | inl h ↦ rw (h, ← sum_of-others f items) (omega int_laws)
    | inr h ↦ rw (h, ← sum_of-others f items) (omega int_laws)
  ]

  abbrev pub IsFresh : List (LbItem E) → Type 0
  IsFresh = All (λ i. i.current_weight ≡ pos 0)

  fresh-sum : (f : E → Bool) (items : List (LbItem E)) → IsFresh items → sum_of f items ≡ pos 0
  unfolding sum_of
  fresh-sum f [] h = refl
  fresh-sum f (i ∷ items) (h, k) = elim (Bool-cases (f i.item)) [
    | inl e ↦ rw (e, h, fresh-sum f items k) (omega int_laws)
    | inr e ↦ rw e (fresh-sum f items k)
  ]

  fresh-Solvent : (total : ℕ) (items : List (LbItem E)) → IsFresh items → Solvent total items
  fresh-Solvent total [] h = tt
  fresh-Solvent total (i ∷ items) (h, k) = (rw h (omega arith), fresh-Solvent total items k)

  -- Of any number of calls on new items whose total weight fits into an `i32` as often as there are
  -- items, a group of endpoints gets its share by weight, up to one call more for each endpoint in
  -- the group, and one call less for each that is not.
  pub fair_shares :
      (f : E → Bool) (k : ℕ) (items : List (LbItem E))
      → IsFresh items
      → IsSmall items
      → let rows = map row items in
        let total = total_of items in
        let count = served f (picks k items) in
        (count * total ≤ k * weights f rows + members f rows * total)
        × (k * weights f rows ≤ count * total + members (others f) rows * total)
  fair_shares f k items fresh small =
      let rows = map row items in
      let total = total_of items in
      let (o, accounts) = run-On rows k items small (record {
        kept = refl;
        solvent = fresh-Solvent total items fresh;
        zero_sum = fresh-sum everything items fresh;
      }) in
      let left : List (LbItem E) = after k items in
      let lower = λ (g : E → Bool).
        subst (λ r. neg_part (sum_of g left) ≤ pos_part (sum_of g left) + room g total r) o.kept
          (sum-lower total g left o.solvent) in
      let (upper_bound, lower_bound) =
        share_bounds (sum_of f left) (sum_of (others f) left) (sum_of f items)
          (spent f total (picks k items)) (k * weights f rows) (room f total rows)
          (room (others f) total rows) (accounts f) (fresh-sum f items fresh)
          (sum_of-others f left ∙ o.zero_sum) (lower f) (lower (others f)) in
      omega (
        arith,
        room-members f total rows,
        room-members (others f) total rows,
        spent-served f total (picks k items),
      )
