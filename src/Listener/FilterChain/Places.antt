-- ===== src/Listener/FilterChain/Places.antt =====
-- Chains that are left stand at the places of a list, and at different ones if there are two.
use mathlib.Core.List.{Memᴰ}
use orion.Base.{◌≡◌, Bool, true, false, List, [], ◌∷◌, filter, if◌then◌else◌, inl, inr, ◌⊎◌}
use orion.Listener.FilterChain.Match.{MatchResult, failed_match}
use orion.Listener.FilterChain.Survivors.{keeps, best_of, stage, survivors}

module _ {C : Type 0} where
  -- Two places of a list, the first in front of the second, by what stands there.
  abbrev pub TwoPlaces : C → C → List C → Type 0
  TwoPlaces c d [] = ⊥
  TwoPlaces c d (x ∷ xs) = ((c ≡ x) × Memᴰ d xs) ⊎ TwoPlaces c d xs

  if-Mem :
      (t : Bool) (d x : C) (xs ys : List C)
      → (Memᴰ d ys → Memᴰ d xs)
      → Memᴰ d (if t then x ∷ ys else ys)
      → Memᴰ d (x ∷ xs)
  if-Mem true d x xs ys f (Memᴰ.head e) = Memᴰ.head e
  if-Mem true d x xs ys f (Memᴰ.tail m) = Memᴰ.tail (f m)
  if-Mem false d x xs ys f m = Memᴰ.tail (f m)

  filter-Mem : (q : C → Bool) (d : C) (xs : List C) → Memᴰ d (filter q xs) → Memᴰ d xs
  filter-Mem q d [] m = m
  filter-Mem q d (x ∷ xs) m = if-Mem (q x) d x xs (filter q xs) (filter-Mem q d xs) m

  if-TwoPlaces :
      (t : Bool) (c d x : C) (xs ys : List C)
      → (Memᴰ d ys → Memᴰ d xs)
      → (TwoPlaces c d ys → TwoPlaces c d xs)
      → TwoPlaces c d (if t then x ∷ ys else ys)
      → TwoPlaces c d (x ∷ xs)
  if-TwoPlaces true c d x xs ys f g (inl (e, m)) = inl (e, f m)
  if-TwoPlaces true c d x xs ys f g (inr p) = inr (g p)
  if-TwoPlaces false c d x xs ys f g p = inr (g p)

  filter-TwoPlaces :
      (q : C → Bool) (c d : C) (xs : List C) → TwoPlaces c d (filter q xs) → TwoPlaces c d xs
  filter-TwoPlaces q c d [] p = p
  filter-TwoPlaces q c d (x ∷ xs) p =
      if-TwoPlaces (q x) c d x xs (filter q xs) (filter-Mem q d xs) (filter-TwoPlaces q c d xs) p

  pub survivors-TwoPlaces :
      (fs : List (C → MatchResult)) (c d : C) (cs : List C)
      → TwoPlaces c d (survivors fs cs)
      → TwoPlaces c d cs
  survivors-TwoPlaces [] c d cs p = p
  survivors-TwoPlaces (f ∷ fs) c d cs p =
      filter-TwoPlaces (λ x. keeps (best_of f cs failed_match) (f x)) c d cs
        (survivors-TwoPlaces fs c d (stage f cs) p)
