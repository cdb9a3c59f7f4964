-- ===== src/Routing/Host/Print.antt =====
-- Reading a host pattern and writing it again.
use orion.Base.{
  ℕ, ◌≡◌, refl, sym, ap, subst, Bool, true, false, List, [], ◌∷◌, ◌++◌, Option, none, some, length,
  filter, any, list_eq, list_eq_lem, ltb, ◌==◌, if◌then◌else◌, arith, inl, inr, Bool-cases,
}
use orion.Routing.Host.Defs.{
  MatchHost, wildcard, star, before, strip_last, strip_first, try_exact, try_suffix, try_prefix,
  try_from_compact_str, serialize,
}

abbrev Stripped : ℕ → List ℕ → Option (List ℕ) → Type 0
Stripped c s none = Unit
Stripped c s (some r) = r ++ (c ∷ []) ≡ s

before-Stripped :
    (c b : ℕ) (s : List ℕ) (r : Option (List ℕ)) → Stripped c s r → Stripped c (b ∷ s) (before b r)
before-Stripped c b s none h = tt
before-Stripped c b s (some r) h = ap (◌∷◌ b) h

strip_last-Stripped : (c : ℕ) (s : List ℕ) → Stripped c s (strip_last c s)
unfolding strip_last
strip_last-Stripped c [] = tt
strip_last-Stripped c (b ∷ []) = ground arith
strip_last-Stripped c (b ∷ d ∷ s) =
    before-Stripped c b (d ∷ s) (strip_last c (d ∷ s)) (strip_last-Stripped c (d ∷ s))

abbrev Writes : List ℕ → Option MatchHost → Type 0
Writes s none = Unit
Writes s (some m) = serialize m ≡ s

try_exact-Writes : (s : List ℕ) → Writes s (try_exact s)
try_exact-Writes s = elim (Bool-cases (any (◌==◌ star) s)) [ inl h ↦ rw h tt | inr h ↦ rw h refl ]

try_suffix-Writes :
    (s : List ℕ) (r : Option (List ℕ)) → Stripped star s r → Writes s (try_suffix s r)
try_suffix-Writes s none h = try_exact-Writes s
try_suffix-Writes s (some host) h = h

try_prefix-Writes :
    (s : List ℕ) (r : Option (List ℕ))
    → ((host : List ℕ) → r ≡ some host → star ∷ host ≡ s)
    → Writes s (try_prefix s r)
unfolding try_prefix
try_prefix-Writes s none h = try_suffix-Writes s (strip_last star s) (strip_last-Stripped star s)
try_prefix-Writes s (some host) h = h host refl

strip_first_lem : (s host : List ℕ) → strip_first star s ≡ some host → star ∷ host ≡ s
strip_first_lem [] host e = absurd (ground arith)
strip_first_lem (b ∷ s) host e = ground arith

if_Writes :
    (s : List ℕ) (b : Bool) (x y : Option MatchHost)
    → (b ≡ true → Writes s x)
    → Writes s y
    → Writes s (if b then x else y)
if_Writes s true x y h k = h refl
if_Writes s false x y h k = k

-- A pattern that is read from a text is written as that text again.
pub serialize-try_from :
    (is_header_value : List ℕ → Bool) (s : List ℕ) (m : MatchHost)
    → try_from_compact_str is_header_value s ≡ some m
    → serialize m ≡ s
unfolding try_from_compact_str
serialize-try_from is_header_value s m e = subst (Writes s) e (all_Writes)
  where
    all_Writes : Writes s (try_from_compact_str is_header_value s)
    all_Writes =
        if_Writes s (is_header_value s) _ none
          (λ valid.
            if_Writes s (list_eq s (star ∷ [])) (some wildcard) _
              (λ h. sym (list_eq_lem s (star ∷ []) h))
              (if_Writes s (ltb 1 (length (filter (◌==◌ star) s))) none
                (try_prefix s (strip_first star s)) (λ many. tt)
                (try_prefix-Writes s (strip_first star s) (strip_first_lem s))))
          tt
