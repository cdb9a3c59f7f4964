-- ===== src/Listener/FilterChain/Order.antt =====
-- Which chains survive: those that are best in the order of the aspects.
use mathlib.Core.List.{Memᴰ}
use orion.Base.{
  ◌≡◌, ◌↔◌, ◌≢◌, refl, sym, ap, subst, ◌∙◌, Bool, true, false, List, [], ◌∷◌, filter, All,
  if◌then◌else◌, arith, inl, inr, ◌⊎◌, Bool-cases,
}
use orion.Listener.FilterChain.Match.{MatchResult, failed_match, greater}
use orion.Listener.FilterChain.Select.{better}
use orion.Listener.FilterChain.Survivors.{keeps, best_of, stage, survivors}

-- `a` is as good as `b`.
abbrev pub AtLeast : MatchResult → MatchResult → Type 0
AtLeast a b = (greater a b ≡ true) ⊎ (a ≡ b)

AtLeast-better : (r x b : MatchResult) → AtLeast r x → AtLeast r b → AtLeast r (better x b)
AtLeast-better r x b h k = ground arith

better-left : (x b : MatchResult) → AtLeast (better x b) x
better-left x b = ground arith

better-right : (x b : MatchResult) → AtLeast (better x b) b
better-right x b = ground arith

AtLeast-trans : (a b c : MatchResult) → AtLeast a b → AtLeast b c → AtLeast a c
AtLeast-trans a b c h k = ground arith

pub AtLeast-antisym : (a b : MatchResult) → AtLeast a b → AtLeast b a → a ≡ b
AtLeast-antisym a b h k = ground arith

AtLeast-failed : (a : MatchResult) → AtLeast a failed_match
AtLeast-failed a = ground arith

keeps_iff : (b r : MatchResult) → (keeps b r ≡ true) ↔ ((r ≡ b) × (r ≢ failed_match))
keeps_iff b r = ground arith

-- One aspect of a chain that has the best result `b`, and what a further condition `A` is about.
module _ (b r s : MatchResult) (A : Type 0) (e : r ≡ b) where
  wins_or_equals :
      r ≢ failed_match → (keeps b s ≡ true → A) → AtLeast b s → (greater r s ≡ true) ⊎ ((r ≡ s) × A)
  wins_or_equals n k (inl g) = inl (subst (λ z. greater z s ≡ true) (sym e) g)
  wins_or_equals n k (inr q) = inr (e ∙ q, k ((keeps_iff b s).1 (sym q, λ f. n (e ∙ q ∙ f))))

  not_beaten : keeps b s ≡ true → (greater r s ≡ true) ⊎ ((r ≡ s) × A) → A
  not_beaten k (inl g) = absurd (ground (arith, (keeps_iff b s).0 k))
  not_beaten k (inr (q, a)) = a

module _ {C : Type 0} where
  -- `c` beats `d` in the first aspect in which they differ, or in none.
  abbrev pub AsGood : List (C → MatchResult) → C → C → Type 0
  AsGood [] c d = Unit
  AsGood (f ∷ fs) c d = (greater (f c) (f d) ≡ true) ⊎ ((f c ≡ f d) × AsGood fs c d)

  abbrev pub NeverFails : List (C → MatchResult) → C → Type 0
  NeverFails [] c = Unit
  NeverFails (f ∷ fs) c = (f c ≢ failed_match) × NeverFails fs c

  -- The best result bounds those of the chains, and is at most what bounds them.
  pub best_of-start :
      (f : C → MatchResult) (cs : List C) (b : MatchResult) → AtLeast (best_of f cs b) b
  best_of-start f [] b = inr refl
  best_of-start f (c ∷ cs) b =
      AtLeast-trans (best_of f cs (better (f c) b)) (better (f c) b) b
        (best_of-start f cs (better (f c) b)) (better-right (f c) b)

  pub best_of-bounds :
      (f : C → MatchResult) (cs : List C) (b : MatchResult)
      → All (λ d. AtLeast (best_of f cs b) (f d)) cs
  best_of-bounds f [] b = tt
  best_of-bounds f (c ∷ cs) b = (
    AtLeast-trans (best_of f cs (better (f c) b)) (better (f c) b) (f c)
        (best_of-start f cs (better (f c) b)) (better-left (f c) b),
    best_of-bounds f cs (better (f c) b),
  )

  pub best_of-least :
      (f : C → MatchResult) (r : MatchResult) (cs : List C) (b : MatchResult)
      → AtLeast r b
      → All (λ d. AtLeast r (f d)) cs
      → AtLeast r (best_of f cs b)
  best_of-least f r [] b h k = h
  best_of-least f r (c ∷ cs) b h (k, ks) =
      best_of-least f r cs (better (f c) b) (AtLeast-better r (f c) b k h) ks

  -- Membership in a filtered list, and what holds of all of it.
  mem_if :
      (p : C → Bool) (c x : C) (cs ds : List C)
      → (Memᴰ c ds → Memᴰ c cs × (p c ≡ true))
      → (b : Bool) → p x ≡ b
      → Memᴰ c (if b then x ∷ ds else ds)
      → Memᴰ c (x ∷ cs) × (p c ≡ true)
  mem_if p c x cs ds ih true e (Memᴰ.head h) = (Memᴰ.head h, ap p h ∙ e)
  mem_if p c x cs ds ih true e (Memᴰ.tail m) = let (n, q) = ih m in (Memᴰ.tail n, q)
  mem_if p c x cs ds ih false e m = let (n, q) = ih m in (Memᴰ.tail n, q)

  mem_filter :
      (p : C → Bool) (c : C) (cs : List C) → Memᴰ c (filter p cs) → Memᴰ c cs × (p c ≡ true)
  mem_filter p c [] m = elim m [ ]
  mem_filter p c (x ∷ cs) m = mem_if p c x cs (filter p cs) (mem_filter p c cs) (p x) refl m

  mem_filter_of :
      (p : C → Bool) (c : C) (cs : List C) → Memᴰ c cs → p c ≡ true → Memᴰ c (filter p cs)
  mem_filter_of p c [] m h = elim m [ ]
  mem_filter_of p c (x ∷ cs) (Memᴰ.head e) h = rw (sym (ap p e) ∙ h) (Memᴰ.head e)
  mem_filter_of p c (x ∷ cs) (Memᴰ.tail m) h = elim (Bool-cases (p x)) [
    | inl e ↦ rw e (Memᴰ.tail (mem_filter_of p c cs m h))
    | inr e ↦ rw e (mem_filter_of p c cs m h)
  ]

  All-if :
      (P : C → Type 0) (p : C → Bool) (x : C) (cs ds : List C)
      → (All P ds → All (λ d. p d ≡ true → P d) cs)
      → (b : Bool) → p x ≡ b
      → All P (if b then x ∷ ds else ds)
      → All (λ d. p d ≡ true → P d) (x ∷ cs)
  All-if P p x cs ds ih true e (h, hs) = (λ q. h, ih hs)
  All-if P p x cs ds ih false e h = (λ q. absurd (ground arith), ih h)

  All-filter :
      (P : C → Type 0) (p : C → Bool) (cs : List C)
      → All P (filter p cs)
      → All (λ d. p d ≡ true → P d) cs
  All-filter P p [] h = tt
  All-filter P p (x ∷ cs) h = All-if P p x cs (filter p cs) (All-filter P p cs) (p x) refl h

  All-map : (P Q : C → Type 0) (cs : List C) → ((d : C) → P d → Q d) → All P cs → All Q cs
  All-map P Q [] h a = tt
  All-map P Q (x ∷ cs) h (a, as') = (h x a, All-map P Q cs h as')

  All-both : (P Q : C → Type 0) (cs : List C) → All P cs → All Q cs → All (λ d. P d × Q d) cs
  All-both P Q [] h k = tt
  All-both P Q (x ∷ cs) (h, hs) (k, ks) = ((h, k), All-both P Q cs hs ks)

  All-filter_of :
      (P : C → Type 0) (p : C → Bool) (cs : List C)
      → All (λ d. p d ≡ true → P d) cs
      → All P (filter p cs)
  All-filter_of P p [] h = tt
  All-filter_of P p (x ∷ cs) (h, hs) = elim (Bool-cases (p x)) [
    | inl e ↦ rw e (h e, All-filter_of P p cs hs)
    | inr e ↦ rw e (All-filter_of P p cs hs)
  ]

  All_mem : (P : C → Type 0) (c : C) (cs : List C) → All P cs → Memᴰ c cs → P c
  All_mem P c [] a m = elim m [ ]
  All_mem P c (x ∷ cs) (h, hs) (Memᴰ.head e) = subst P (sym e) h
  All_mem P c (x ∷ cs) (h, hs) (Memᴰ.tail m) = All_mem P c cs hs m

  AsGood-AtLeast :
      (f : C → MatchResult) (fs : List (C → MatchResult)) (c d : C)
      → AsGood (f ∷ fs) c d
      → AtLeast (f c) (f d)
  AsGood-AtLeast f fs c d (inl g) = inl g
  AsGood-AtLeast f fs c d (inr (e, h)) = inr e

  -- The first aspect, with what is known of the others.
  module _ (f : C → MatchResult) (fs : List (C → MatchResult)) (c : C) (cs : List C) where
    abbrev best : MatchResult
    best = best_of f cs failed_match

    abbrev kept : C → Bool
    kept d = keeps best (f d)

    stage_to :
        Memᴰ c (stage f cs) × NeverFails fs c × All (AsGood fs c) (stage f cs)
        → Memᴰ c cs × NeverFails (f ∷ fs) c × All (AsGood (f ∷ fs) c) cs
    stage_to (in_stage, nf, good) =
        let (in_all, k) = mem_filter kept c cs in_stage in
        let (e, n) = (keeps_iff best (f c)).0 k in
        (
          in_all,
          (n, nf),
          All-map (λ d. (kept d ≡ true → AsGood fs c d) × AtLeast best (f d)) (AsGood (f ∷ fs) c) cs
              (λ d (h, a). wins_or_equals best (f c) (f d) (AsGood fs c d) e n h a)
              (All-both (λ d. kept d ≡ true → AsGood fs c d) (λ d. AtLeast best (f d)) cs
                (All-filter (AsGood fs c) kept cs good) (best_of-bounds f cs failed_match)),
        )

    stage_from :
        Memᴰ c cs × NeverFails (f ∷ fs) c × All (AsGood (f ∷ fs) c) cs
        → Memᴰ c (stage f cs) × NeverFails fs c × All (AsGood fs c) (stage f cs)
    stage_from (m, (n, nf), good) =
        let above = best_of-least f (f c) cs failed_match (AtLeast-failed (f c)) (
          All-map (AsGood (f ∷ fs) c) (λ d. AtLeast (f c) (f d)) cs (AsGood-AtLeast f fs c) good) in
        let below = All_mem (λ d. AtLeast best (f d)) c cs (best_of-bounds f cs failed_match) m in
        let e = AtLeast-antisym (f c) best above below in
        (
          mem_filter_of kept c cs m ((keeps_iff best (f c)).1 (e, n)),
          nf,
          All-filter_of (AsGood fs c) kept cs (
              All-map (AsGood (f ∷ fs) c) (λ d. kept d ≡ true → AsGood fs c d) cs
                (λ d h k. not_beaten best (f c) (f d) (AsGood fs c d) e k h) good),
        )

  All-unit : (cs : List C) → All (λ d. Unit {0}) cs
  All-unit [] = tt
  All-unit (x ∷ cs) = (tt, All-unit cs)

  abbrev pub Wins : List (C → MatchResult) → List C → C → Type 0
  Wins fs cs c = Memᴰ c cs × NeverFails fs c × All (AsGood fs c) cs

  -- A chain is left after all aspects exactly when it fails in none of them and is as good as every
  -- chain: in the first aspect in which two chains differ, the better one wins.
  pub survivors_iff :
      (fs : List (C → MatchResult)) (c : C) (cs : List C) → Memᴰ c (survivors fs cs) ↔ Wins fs cs c
  survivors_iff [] c cs = (λ m. (m, tt, All-unit cs), λ (m, u, v). m)
  survivors_iff (f ∷ fs) c cs =
      let (to, from) = survivors_iff fs c (stage f cs) in
      (λ m. stage_to f fs c cs (to m), λ h. from (stage_from f fs c cs h))
