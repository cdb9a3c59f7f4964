-- ===== src/Routing/Host/Best.antt =====
-- Which virtual host is selected.
use mathlib.Core.List.{Memᴰ}
use orion.Base.{
  ℕ, ◌≡◌, refl, sym, subst, Bool, true, false, List, [], ◌∷◌, ◌++◌, Option, none, some, All,
  if◌then◌else◌, arith, inl, inr,
}
use orion.Matching.Header.Defs.{Request}
use orion.Routing.Host.Defs.{
  MatchHost, MatchHostScoreLpm, less, max_score, best_score, VirtualHost, keep_best, max_host,
  first_of, select_virtual_host, eval_lpm_request,
}
use orion.Routing.Host.Fold.{Folded, fold, fold-Folded, AtMost, Below, AtMost-trans, Below-trans}

-- The best score of the domains of one host.
module _ (eval : MatchHost → Option MatchHostScoreLpm) where
  abbrev pub Scores : List MatchHost → MatchHostScoreLpm → Type 0
  Scores ds s = ((d : MatchHost) × Memᴰ d ds × (eval d ≡ some s)) × All (λ d. AtMost s (eval d)) ds

  abbrev BestOf : List MatchHost → Option MatchHostScoreLpm → Type 0
  BestOf ds none = All (λ d. eval d ≡ none) ds
  BestOf ds (some s) = Scores ds s

  All-to :
      (P Q : Option MatchHostScoreLpm → Type 0) (ds : List MatchHost)
      → ((o : Option MatchHostScoreLpm) → P o → Q o)
      → All (λ d. P (eval d)) ds
      → All (λ d. Q (eval d)) ds
  All-to P Q [] h a = tt
  All-to P Q (d ∷ ds) h (a, as') = (h (eval d) a, All-to P Q ds h as')

  none-AtMost : (s : MatchHostScoreLpm) (o : Option MatchHostScoreLpm) → o ≡ none → AtMost s o
  none-AtMost s o e = subst (AtMost s) (sym e) tt

  none-Below : (s : MatchHostScoreLpm) (o : Option MatchHostScoreLpm) → o ≡ none → Below s o
  none-Below s o e = subst (Below s) (sym e) tt

  module _ (d : MatchHost) (ds : List MatchHost) where
    above :
        (t s : MatchHostScoreLpm) (c : Bool)
        → less s t ≡ c
        → eval d ≡ some t
        → Scores ds s
        → BestOf (d ∷ ds) (if c then some t else some s)
    above t s true l e (m, a) = (
      (d, Memᴰ.head refl, e),
      (
        subst (AtMost t) (sym e) (ground arith),
        All-to (AtMost s) (AtMost t) ds (λ o. AtMost-trans t s o (ground arith)) a,
      ),
    )
    above t s false l e ((d', m, q), a) = ((d', Memᴰ.tail m, q), (subst (AtMost s) (sym e) l, a))

    best_step :
        (o p : Option MatchHostScoreLpm)
        → eval d ≡ o
        → BestOf ds p
        → BestOf (d ∷ ds) (max_score o p)
    best_step none none e h = (e, h)
    best_step none (some s) e ((d', m, q), a) =
        ((d', Memᴰ.tail m, q), (none-AtMost s (eval d) e, a))
    best_step (some t) none e h = (
      (d, Memᴰ.head refl, e),
      (
        subst (AtMost t) (sym e) (ground arith),
        All-to (λ o. o ≡ none) (AtMost t) ds (none-AtMost t) h,
      ),
    )
    best_step (some t) (some s) e h = above t s (less s t) refl e h

  best_score-BestOf : (ds : List MatchHost) → BestOf ds (best_score eval ds)
  unfolding best_score
  best_score-BestOf [] = tt
  best_score-BestOf (d ∷ ds) =
      best_step d ds (eval d) (best_score eval ds) refl (best_score-BestOf ds)

  -- What a bound on the best score says of all domains.
  All-AtMost :
      (s : MatchHostScoreLpm) (ds : List MatchHost) (o : Option MatchHostScoreLpm)
      → BestOf ds o
      → AtMost s o
      → All (λ d. AtMost s (eval d)) ds
  All-AtMost s ds none b h = All-to (λ o. o ≡ none) (AtMost s) ds (none-AtMost s) b
  All-AtMost s ds (some t) (m, a) h = All-to (AtMost t) (AtMost s) ds (λ o. AtMost-trans s t o h) a

  All-Below :
      (s : MatchHostScoreLpm) (ds : List MatchHost) (o : Option MatchHostScoreLpm)
      → BestOf ds o
      → Below s o
      → All (λ d. Below s (eval d)) ds
  All-Below s ds none b h = All-to (λ o. o ≡ none) (Below s) ds (none-Below s) b
  All-Below s ds (some t) (m, a) h = All-to (AtMost t) (Below s) ds (λ o. Below-trans s t o h) a

  module _ {R : Type 0} where
    abbrev key : VirtualHost R → Option MatchHostScoreLpm
    key vh = best_score eval vh.domains

    -- What the selection says of the hosts, domain by domain.
    abbrev pub SelectedHost : List (VirtualHost R) → Option (VirtualHost R) → Type 0
    SelectedHost vhs none = All (λ v. All (λ d. eval d ≡ none) v.domains) vhs
    SelectedHost vhs (some vh) =
        (s : MatchHostScoreLpm) × (before : List (VirtualHost R)) × (after : List (VirtualHost R))
        × (vhs ≡ before ++ (vh ∷ after))
        × Scores vh.domains s
        × All (λ v. All (λ d. AtMost s (eval d)) v.domains) before
        × All (λ v. All (λ d. Below s (eval d)) v.domains) after

    All-hosts :
        (P Q : VirtualHost R → Type 0) (vhs : List (VirtualHost R))
        → ((v : VirtualHost R) → P v → Q v)
        → All P vhs
        → All Q vhs
    All-hosts P Q [] h a = tt
    All-hosts P Q (v ∷ vhs) h (a, as') = (h v a, All-hosts P Q vhs h as')

    Folded-SelectedHost :
        (vhs : List (VirtualHost R)) (res : Option (VirtualHost R × MatchHostScoreLpm))
        → Folded key vhs none res
        → SelectedHost vhs (first_of res)
    Folded-SelectedHost vhs none (b, a) =
        All-hosts (λ v. key v ≡ none) (λ v. All (λ d. eval d ≡ none) v.domains) vhs
          (λ v e. subst (BestOf v.domains) e (best_score-BestOf v.domains)) a
    Folded-SelectedHost vhs (some (vh, s)) (inl (b, bl)) = absurd (ground arith)
    Folded-SelectedHost vhs (some (vh, s)) (inr ((before, after, e, k, am, bl), u)) = (
      s,
      before,
      after,
      e,
      subst (BestOf vh.domains) k (best_score-BestOf vh.domains),
      All-hosts (λ v. AtMost s (key v)) (λ v. All (λ d. AtMost s (eval d)) v.domains) before
          (λ v. All-AtMost s v.domains (key v) (best_score-BestOf v.domains)) am,
      All-hosts (λ v. Below s (key v)) (λ v. All (λ d. Below s (eval d)) v.domains) after
          (λ v. All-Below s v.domains (key v) (best_score-BestOf v.domains)) bl,
    )

    max_host-fold :
        (vhs : List (VirtualHost R)) (best : Option (VirtualHost R × MatchHostScoreLpm))
        → max_host eval vhs best ≡ fold key vhs best
    unfolding max_host
    max_host-fold [] best = refl
    max_host-fold (vh ∷ vhs) best = max_host-fold vhs (keep_best vh (key vh) best)

-- The virtual host that serves a request has a domain whose score for the request's host no domain
-- of any host exceeds, and it is the last such host; no host is selected exactly if no domain of any
-- matches.
pub select_virtual_host_lem :
    {R : Type 0} (authority_host : List ℕ → Option (List ℕ)) (request : Request)
    (vhs : List (VirtualHost R))
    → SelectedHost
        (λ m. eval_lpm_request authority_host m request)
        vhs
        (select_virtual_host authority_host request vhs)
unfolding select_virtual_host
select_virtual_host_lem authority_host request vhs =
    let eval = λ (m : MatchHost). eval_lpm_request authority_host m request in
    rw (max_host-fold eval vhs none)
      (Folded-SelectedHost eval vhs (fold (key eval) vhs none) (fold-Folded (key eval) vhs none))
