-- ===== src/Balancing/Wrr/Run.antt =====
-- What a run of calls does to the sums of current weights.
use orion.Base.{
  ℕ, zero, suc, ◌+◌, ◌*◌, ◌≤◌, ◌≡◌, ◌≢◌, refl, ap, subst, ◌∙◌, Bool, List, [], ◌∷◌, Option, none,
  some, map, arith, Bool-cases, inl, inr,
}
use orion.Base.Int.{ℤ, pos, pos_part, neg_part, ◌+ℤ◌, ◌-ℤ◌, int_laws}
use orion.Balancing.Wrr.Defs.{
  i32_max, LbItem, increase_current_weight, increase_all, total_weight, best_weight, adjust_best,
  pick, next_item,
}
use orion.Balancing.Wrr.Serving.{
  row, increase_all-rows, adjust_best-picks, best_weight-Attained, next_item-Serves,
}
use orion.Balancing.Wrr.Exact.{
  weights, room, sum_of, taken, CanAdjustAll, sum_of-increase_all, sum_of-adjust_best,
}
use orion.Balancing.Wrr.Credit.{
  everything, Solvent, total_weight-weights, known, Known-CanIncrease, Known-CanAdjust,
  adjust_best-Solvent, best-nonneg,
}

chained :
    (x y z : ℤ) (a b w v u : ℕ)
    → y +ℤ pos a ≡ x +ℤ pos w
    → z +ℤ pos b ≡ y +ℤ pos v
    → w + v ≡ u
    → z +ℤ pos (a + b) ≡ x +ℤ pos u
chained x y z a b w v u p q e =
    omega (int_laws, ap pos_part p, ap neg_part p, ap pos_part q, ap neg_part q)

module _ {E : Type 0} where
  abbrev pub total_of : List (LbItem E) → ℕ
  total_of items = weights everything (map row items)

  -- The items owe one another what they have, and none owes more than the total weight.
  pub record Balanced (items : List (LbItem E)) : Type 0 where
    pub solvent : Solvent (total_of items) items
    pub zero_sum : sum_of everything items ≡ pos 0

  -- The total weight fits into an `i32` as often as there are items.
  abbrev pub IsSmall : List (LbItem E) → Type 0
  IsSmall items = room everything (total_of items) (map row items) ≤ i32_max

  -- What a call does to the sum of the current weights of a group: it adds their weights and takes
  -- the total weight from it if one of them is served.
  abbrev pub Accounts : List (LbItem E) → List (LbItem E) × Option E → Type 0
  Accounts items r =
      (f : E → Bool)
      → sum_of f r.0 +ℤ pos (taken f (total_of items) r.1)
        ≡ sum_of f items +ℤ pos (weights f (map row items))

  single-Accounts : (i : LbItem E) → Accounts (i ∷ []) (i ∷ [], some i.item)
  single-Accounts i f = elim (Bool-cases (f i.item)) [
    | inl e ↦ rw e (omega int_laws)
    | inr e ↦ rw e
  ]

  taken_all : (n : ℕ) (o : Option E) → o ≢ none → taken everything n o ≡ n
  taken_all n none h = absurd (h refl)
  taken_all n (some e) h = refl

  -- The call on items whose weights have been added.
  pick_lem :
      (i : LbItem E) (items : List (LbItem E)) (n : ℕ)
      → CanAdjustAll n (i ∷ items)
      → Solvent n (i ∷ items)
      → sum_of everything (i ∷ items) ≡ pos n
      → let r = pick n (i ∷ items) in
        Solvent n r.0
        × (sum_of everything r.0 ≡ pos 0)
        × ((f : E → Bool) → sum_of f r.0 ≡ sum_of f (i ∷ items) -ℤ pos (taken f n r.1))
  pick_lem i items n c s e =
      let best = best_weight i.current_weight items in
      let exact = λ (f : E → Bool). sum_of-adjust_best f n best (i ∷ items) c in
      let picked =
        adjust_best-picks n best (i ∷ items) (best_weight-Attained i.current_weight items) in
      (
        adjust_best-Solvent n best (i ∷ items) (best-nonneg n i items n e) c s,
        exact everything
            ∙ rw (e, taken_all n (adjust_best n best (i ∷ items)).1 picked) (omega int_laws),
        exact,
      )

  -- What a call leaves: balanced items, and the account of each group.
  abbrev Settles : List (LbItem E) → List (LbItem E) × Option E → Type 0
  Settles items r =
      Solvent (total_of items) r.0 × (sum_of everything r.0 ≡ pos 0) × Accounts items r

  several-Settles :
      (i j : LbItem E) (items : List (LbItem E))
      → IsSmall (i ∷ j ∷ items)
      → Balanced (i ∷ j ∷ items)
      → Settles
          (i ∷ j ∷ items)
          (pick (total_weight 0 (increase_all (i ∷ j ∷ items))) (increase_all (i ∷ j ∷ items)))
  unfolding increase_all
  several-Settles i j items small b =
      let all_items : List (LbItem E) = i ∷ j ∷ items in
      let n : ℕ = total_of all_items in
      let facts = known n all_items b.solvent b.zero_sum (omega arith) in
      let most : ℕ = room everything n (map row all_items) in
      let (c, s) = Known-CanAdjust n all_items most small (omega arith) facts in
      let sums = λ (f : E → Bool).
        sum_of-increase_all f all_items (Known-CanIncrease n all_items most small facts) in
      let e : sum_of everything (increase_all all_items) ≡ pos n =
        sums everything ∙ rw b.zero_sum (omega int_laws) in
      let rows : total_of (increase_all all_items) ≡ n =
        ap (weights everything) (increase_all-rows all_items) in
      let weight : total_weight 0 (increase_all all_items) ≡ n =
        total_weight-weights 0 (increase_all all_items) (omega arith) ∙ omega arith in
      let (x, y, z) = pick_lem (increase_current_weight i) (increase_all (j ∷ items)) n c s e in
      rw weight (x, y, λ f. rw (z f, sums f) (omega int_laws))

  next_item-Settles :
      (items : List (LbItem E)) → IsSmall items → Balanced items → Settles items (next_item items)
  unfolding next_item
  next_item-Settles [] small b = (b.solvent, b.zero_sum, λ f. refl)
  next_item-Settles (i ∷ []) small b = (b.solvent, b.zero_sum, single-Accounts i)
  next_item-Settles (i ∷ j ∷ items) small b = several-Settles i j items small b

  -- Balanced items with the endpoints and weights `rows`.
  pub record On (rows : List (E × ℕ)) (items : List (LbItem E)) : Type 0 where
    pub kept : map row items ≡ rows
    pub solvent : Solvent (weights everything rows) items
    pub zero_sum : sum_of everything items ≡ pos 0

  abbrev pub RowsSmall : List (E × ℕ) → Type 0
  RowsSmall rows = room everything (weights everything rows) rows ≤ i32_max

  abbrev StepOn : List (LbItem E) → List (E × ℕ) → Type 0
  StepOn items rows =
      RowsSmall rows
      → Solvent (weights everything rows) items
      → Solvent (weights everything rows) (next_item items).0
        × (sum_of everything (next_item items).0 ≡ pos 0)
        × ((f : E → Bool)
            → sum_of f (next_item items).0
                +ℤ pos (taken f (weights everything rows) (next_item items).1)
              ≡ sum_of f items +ℤ pos (weights f rows))

  step-On : (rows : List (E × ℕ)) (items : List (LbItem E)) → On rows items → StepOn items rows
  step-On rows items o =
      subst (StepOn items) o.kept
        (λ small s. next_item-Settles items small (record { solvent = s; zero_sum = o.zero_sum }))

  -- What `k` calls serve, and what they leave.
  unfoldable pub picks : ℕ → List (LbItem E) → List (Option E)
  picks zero items = []
  picks (suc k) items = (next_item items).1 ∷ picks k (next_item items).0

  unfoldable pub after : ℕ → List (LbItem E) → List (LbItem E)
  after zero items = items
  after (suc k) items = after k (next_item items).0

  abbrev pub spent : (E → Bool) → ℕ → List (Option E) → ℕ
  spent f total [] = 0
  spent f total (o ∷ os) = taken f total o + spent f total os

  pub run-On :
      (rows : List (E × ℕ)) (k : ℕ) (items : List (LbItem E))
      → RowsSmall rows
      → On rows items
      → On rows (after k items)
        × ((f : E → Bool)
            → sum_of f (after k items) +ℤ pos (spent f (weights everything rows) (picks k items))
              ≡ sum_of f items +ℤ pos (k * weights f rows))
  unfolding picks after
  run-On rows zero items small o = (o, λ f. ap (λ (n : ℕ). sum_of f items +ℤ pos n) (omega arith))
  run-On rows (suc k) items small o =
      let (s, z, account) = step-On rows items o small o.solvent in
      let o' : On rows (next_item items).0 = record {
        kept = (next_item-Serves items).0 ∙ o.kept;
        solvent = s;
        zero_sum = z;
      } in
      let (end, accounts) = run-On rows k (next_item items).0 small o' in
      (
        end,
        λ f.
            chained (sum_of f items) (sum_of f (next_item items).0)
              (sum_of f (after k (next_item items).0))
              (taken f (weights everything rows) (next_item items).1)
              (spent f (weights everything rows) (picks k (next_item items).0)) (weights f rows)
              (k * weights f rows) (suc k * weights f rows) (account f) (accounts f) (omega arith),
      )
