-- ===== src/Routing/Host/Fold.antt =====
-- The fold that keeps the best of the virtual hosts, and the last of equals.
use orion.Base.{
  ◌≡◌, refl, sym, ap, subst, ◌∙◌, Bool, true, false, List, [], ◌∷◌, ◌++◌, Option, none, some, All,
  if◌then◌else◌, arith, inl, inr, ◌⊎◌,
}
use orion.Routing.Host.Defs.{MatchHostScoreLpm, less, VirtualHost, keep_best}

-- A score that may be missing, against one that is there.
abbrev pub AtMost : MatchHostScoreLpm → Option MatchHostScoreLpm → Type 0
AtMost s none = Unit
AtMost s (some a) = less s a ≡ false

abbrev pub Below : MatchHostScoreLpm → Option MatchHostScoreLpm → Type 0
Below s none = Unit
Below s (some a) = less a s ≡ true

pub AtMost-trans :
    (s t : MatchHostScoreLpm) (o : Option MatchHostScoreLpm)
    → AtMost s (some t)
    → AtMost t o
    → AtMost s o
AtMost-trans s t none h k = tt
AtMost-trans s t (some a) h k = ground arith

pub Below-trans :
    (s t : MatchHostScoreLpm) (o : Option MatchHostScoreLpm)
    → Below s (some t)
    → AtMost t o
    → Below s o
Below-trans s t none h k = tt
Below-trans s t (some a) h k = ground arith

module _ {R : Type 0} (key : VirtualHost R → Option MatchHostScoreLpm) where
  abbrev pub fold :
      List (VirtualHost R)
      → Option (VirtualHost R × MatchHostScoreLpm)
      → Option (VirtualHost R × MatchHostScoreLpm)
  fold [] best = best
  fold (vh ∷ vhs) best = fold vhs (keep_best vh (key vh) best)

  -- The last host with the greatest score.
  abbrev pub LastBest : List (VirtualHost R) → VirtualHost R → MatchHostScoreLpm → Type 0
  LastBest vhs vh s =
      (before : List (VirtualHost R)) × (after : List (VirtualHost R)) × (vhs
        ≡ before ++ (vh ∷ after))
      × (key vh ≡ some s)
      × All (λ v. AtMost s (key v)) before
      × All (λ v. Below s (key v)) after

  abbrev pub best_score_of : Option (VirtualHost R × MatchHostScoreLpm) → Option MatchHostScoreLpm
  best_score_of none = none
  best_score_of (some (vh, s)) = some s

  abbrev pub Folded :
      List (VirtualHost R)
      → Option (VirtualHost R × MatchHostScoreLpm)
      → Option (VirtualHost R × MatchHostScoreLpm)
      → Type 0
  Folded vhs best none = (best ≡ none) × All (λ v. key v ≡ none) vhs
  Folded vhs best (some (vh, s)) =
      ((best ≡ some (vh, s)) × All (λ v. Below s (key v)) vhs)
      ⊎ (LastBest vhs vh s × AtMost s (best_score_of best))

  host_in : VirtualHost R → Option (VirtualHost R × MatchHostScoreLpm) → VirtualHost R
  host_in d none = d
  host_in d (some (vh, s)) = vh

  score_in : MatchHostScoreLpm → Option (VirtualHost R × MatchHostScoreLpm) → MatchHostScoreLpm
  score_in d none = d
  score_in d (some (vh, s)) = s

  module _ (vh : VirtualHost R) (vhs : List (VirtualHost R)) where
    abbrev scored : VirtualHost R → MatchHostScoreLpm → Option (VirtualHost R × MatchHostScoreLpm)
    scored w s = some (w, s)

    -- The new host is the best so far, and stays it.
    here :
        (w : VirtualHost R) (s t : MatchHostScoreLpm)
        → key vh ≡ some t
        → scored vh t ≡ scored w s
        → All (λ v. Below s (key v)) vhs
        → LastBest (vh ∷ vhs) w s
    unfolding host_in score_in
    here w s t e b bl =
        let ew : vh ≡ w = ap (host_in vh) b in
        let es : t ≡ s = ap (score_in t) b in
        ([], vhs, ap (λ z. z ∷ vhs) ew, sym (ap key ew) ∙ e ∙ ap some es, tt, bl)

    -- A later host is the best.
    later :
        (w : VirtualHost R) (s : MatchHostScoreLpm)
        → AtMost s (key vh)
        → LastBest vhs w s
        → LastBest (vh ∷ vhs) w s
    later w s a (before, after, e, k, am, bl) = (vh ∷ before, after, ap (◌∷◌ vh) e, k, (a, am), bl)

    tie :
        (t u : MatchHostScoreLpm) (x : VirtualHost R) (c : Bool)
        (res : Option (VirtualHost R × MatchHostScoreLpm))
        → less t u ≡ c
        → key vh ≡ some t
        → Folded vhs (if c then some (x, u) else some (vh, t)) res
        → Folded (vh ∷ vhs) (some (x, u)) res
    unfolding score_in
    tie t u x true none l e (b, a) = absurd (ground arith)
    tie t u x true (some (w, s)) l e (inl (b, bl)) =
        let es : u ≡ s = ap (score_in u) b in
        inl (b, (subst (Below s) (sym e) (subst (λ z. less t z ≡ true) es l), bl))
    tie t u x true (some (w, s)) l e (inr (lb, am)) =
        inr (later w s (subst (AtMost s) (sym e) (ground arith)) lb, am)
    tie t u x false none l e (b, a) = absurd (ground arith)
    tie t u x false (some (w, s)) l e (inl (b, bl)) =
        let es : t ≡ s = ap (score_in t) b in
        inr (here w s t e b bl, subst (λ z. less z u ≡ false) es l)
    tie t u x false (some (w, s)) l e (inr (lb, am)) =
        inr (later w s (subst (AtMost s) (sym e) am) lb, ground arith)

    step :
        (o : Option MatchHostScoreLpm) (best res : Option (VirtualHost R × MatchHostScoreLpm))
        → key vh ≡ o
        → Folded vhs (keep_best vh o best) res
        → Folded (vh ∷ vhs) best res
    unfolding score_in
    step none best none e (b, a) = (b, (e, a))
    step none best (some (w, s)) e (inl (b, bl)) = inl (b, (subst (Below s) (sym e) tt, bl))
    step none best (some (w, s)) e (inr (lb, am)) =
        inr (later w s (subst (AtMost s) (sym e) tt) lb, am)
    step (some t) none none e (b, a) = absurd (ground arith)
    step (some t) none (some (w, s)) e (inl (b, bl)) = inr (here w s t e b bl, tt)
    step (some t) none (some (w, s)) e (inr (lb, am)) =
        inr (later w s (subst (AtMost s) (sym e) am) lb, tt)
    step (some t) (some (x, u)) res e f = tie t u x (less t u) res refl e f

  pub fold-Folded :
      (vhs : List (VirtualHost R)) (best : Option (VirtualHost R × MatchHostScoreLpm))
      → Folded vhs best (fold vhs best)
  fold-Folded [] none = (refl, tt)
  fold-Folded [] (some (vh, s)) = inl (refl, tt)
  fold-Folded (vh ∷ vhs) best =
      step vh vhs (key vh) best (fold vhs (keep_best vh (key vh) best)) refl
        (fold-Folded vhs (keep_best vh (key vh) best))
