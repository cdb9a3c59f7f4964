-- ===== src/Listener/FilterChain/Survivors.antt =====
-- The loops over the vectors keep the chains that are best in one aspect after the other.
use orion.Base.{
  ◌≡◌, refl, ap, ◌∙◌, Bool, not, ◌&&◌, List, [], ◌∷◌, filter, arith, inl, inr, Bool-cases,
}
use orion.Listener.FilterChain.Match.{MatchResult, failed_match, result_eq}
use orion.Listener.FilterChain.Select.{
  Row, scan, better, best_match, trim, match_subitem, initial, match_all, possible_chains,
  first_match, select,
}

abbrev pub keeps : MatchResult → MatchResult → Bool
keeps best r = result_eq r best && not (result_eq r failed_match)

module _ {C : Type 0} where
  abbrev pub best_of : (C → MatchResult) → List C → MatchResult → MatchResult
  best_of f [] best = best
  best_of f (c ∷ cs) best = best_of f cs (better (f c) best)

  abbrev pub stage : (C → MatchResult) → List C → List C
  stage f cs = filter (λ c. keeps (best_of f cs failed_match) (f c)) cs

  -- The chains that are left after all aspects.
  abbrev pub survivors : List (C → MatchResult) → List C → List C
  survivors [] cs = cs
  survivors (f ∷ fs) cs = survivors fs (stage f cs)

  possible-trim :
      (f : C → MatchResult) (best : MatchResult) (rows : List (Row C))
      → possible_chains (trim best (scan f rows))
        ≡ filter (λ c. keeps best (f c)) (possible_chains rows)
  unfolding possible_chains trim scan
  possible-trim f best [] = refl
  possible-trim f best (r ∷ rows) = ground (arith, possible-trim f best rows)

  best_match-possible :
      (f : C → MatchResult) (rows : List (Row C)) (best : MatchResult)
      → best_match f rows best ≡ best_of f (possible_chains rows) best
  unfolding possible_chains best_match
  best_match-possible f [] best = refl
  best_match-possible f (r ∷ rows) best = elim (Bool-cases r.possible) [
    | inl p ↦ rw p (best_match-possible f rows (better (f r.chain) best))
    | inr p ↦ rw p (best_match-possible f rows best)
  ]

  match_all-survivors :
      (fs : List (C → MatchResult)) (rows : List (Row C))
      → possible_chains (match_all fs rows) ≡ survivors fs (possible_chains rows)
  unfolding match_all match_subitem
  match_all-survivors [] rows = refl
  match_all-survivors (f ∷ fs) rows =
      match_all-survivors fs (match_subitem f rows)
      ∙ ap (survivors fs) (
          possible-trim f (best_match f rows failed_match) rows
          ∙ rw (best_match-possible f rows failed_match) refl)

  possible-initial : (cs : List C) → possible_chains (initial cs) ≡ cs
  unfolding possible_chains initial
  possible-initial [] = refl
  possible-initial (c ∷ cs) = ap (◌∷◌ c) (possible-initial cs)

  -- The selection is the one survivor, if there is one.
  pub select-survivors :
      (fs : List (C → MatchResult)) (cs : List C) → select fs cs ≡ first_match (survivors fs cs)
  unfolding select
  select-survivors fs cs =
      ap first_match (match_all-survivors fs (initial cs) ∙ ap (survivors fs) (possible-initial cs))
