-- ===== src/Routing/Route/Specifier.antt =====
-- What a path specifier and a query parameter matcher mean.
use orion.Base.{
  ℕ, ◌-◌, ◌<◌, ◌≡◌, ◌↔◌, refl, sym, ap, subst, ◌∙◌, Bool, true, false, List, [], ◌∷◌, Option, none,
  some, length, take, arith, inl, inr, ◌⊎◌,
}
use orion.Base.Decides.{Decides, map-Decides}
use orion.Matching.Text.Defs.{matches, equals, starts_with, is_prefix}
use orion.Matching.Text.Parts.{IsAscii, folded, HasPrefix, is_prefix_iff, slice_ascii}
use orion.Matching.Text.Meaning.{
  Meaning, matches_lem, matcher_on, equals-folded, starts_with-folded, list_eq_iff,
}
use orion.Matching.Header.Meaning.{Readable}
use orion.Routing.Host.Defs.{then_some}
use orion.Routing.Route.Defs.{
  PathSpecifier, prefix, exact, path_separated_prefix, regex, PathMatcherResult, matched_up_to,
  without_separator, or_starts_with, separated_match, match_specifier, QueryParameterMatchSpecifier,
  present_match, string_match, is_present, parameter_matches,
}

-- A path specifier can be used: the prefix that ends with a separator has one.
abbrev pub IsUsable : PathSpecifier → Type 0
IsUsable (prefix p) = Unit
IsUsable (exact p) = Unit
IsUsable (path_separated_prefix psp) = IsAscii psp × (0 < length psp)
IsUsable (regex r) = Unit

abbrev pub PathMeaning : PathSpecifier → Bool → List ℕ → Type 0
PathMeaning (prefix p) ic path = HasPrefix (folded ic p) (folded ic path)
PathMeaning (exact p) ic path = folded ic path ≡ folded ic p
PathMeaning (path_separated_prefix psp) ic path =
    (folded ic path ≡ folded ic (take (length psp - 1) psp))
    ⊎ HasPrefix (folded ic psp) (folded ic path)
PathMeaning (regex r) ic path = r path ≡ true

-- A result as a test.
abbrev pub as_test : Option PathMatcherResult → Option Bool
as_test none = none
as_test (some none) = some false
as_test (some (some n)) = some true

then_some-test : (b : Bool) (n : ℕ) → as_test (some (then_some b n)) ≡ some b
then_some-test true n = refl
then_some-test false n = refl

or_starts_with-Decides :
    (b : Bool) (n : ℕ) (later : Option PathMatcherResult) (P Q : Type 0)
    → (b ≡ true) ↔ P
    → Decides (as_test later) Q
    → Decides (as_test (or_starts_with b n later)) (P ⊎ Q)
or_starts_with-Decides true n later P Q (to, from) d = (λ h. inl (to refl), λ s. refl)
or_starts_with-Decides false n none P Q f d = d
or_starts_with-Decides false n (some none) P Q (to, from) (to', from') =
    (λ h. ground arith, λ s. elim s [ inl p ↦ from p | inr q ↦ from' q ])
or_starts_with-Decides false n (some (some m)) P Q f (to', from') = (λ h. inr (to' refl), λ s. refl)

module _ (ic : Bool) (path : List ℕ) (a : IsAscii path) where
  prefix-Decides :
      (p : List ℕ)
      → Decides
          (as_test (matched_up_to (length p) (starts_with (matcher_on ic path) p)))
          (HasPrefix (folded ic p) (folded ic path))
  prefix-Decides p =
      rw
        (
          starts_with-folded ic p path a,
          then_some-test (is_prefix (folded ic p) (folded ic path)) (length p),
        )
        (is_prefix_iff (folded ic p) (folded ic path))

  equals_iff :
      (p : List ℕ) → (equals (matcher_on ic path) p ≡ true) ↔ (folded ic path ≡ folded ic p)
  equals_iff p = rw (equals-folded ic p path) (list_eq_iff (folded ic path) (folded ic p))

  base_lem :
      (psp : List ℕ)
      → IsAscii psp
      → 0 < length psp
      → without_separator psp ≡ some (take (length psp - 1) psp)
  unfolding without_separator
  base_lem [] b h = absurd (omega arith)
  base_lem (c ∷ psp) b h =
      slice_ascii (c ∷ psp) 0 (length psp) b (omega arith)
      ∙ ap (λ (n : ℕ). some (take n (c ∷ psp))) (omega arith)

  pub specifier-Decides :
      (s : PathSpecifier)
      → IsUsable s
      → Decides (as_test (match_specifier (matcher_on ic path) s)) (PathMeaning s ic path)
  unfolding match_specifier separated_match
  specifier-Decides (prefix p) u = prefix-Decides p
  specifier-Decides (exact p) u =
      rw (then_some-test (equals (matcher_on ic path) p) (length p)) (equals_iff p)
  specifier-Decides (regex r) u = rw (then_some-test (r path) (length path)) ((λ h. h, λ h. h))
  specifier-Decides (path_separated_prefix psp) (b, h) = rw (base_lem psp b h) (
      or_starts_with-Decides (equals (matcher_on ic path) (take (length psp - 1) psp))
        (length psp - 1) (matched_up_to (length psp) (starts_with (matcher_on ic path) psp))
        (folded ic path ≡ folded ic (take (length psp - 1) psp))
        (HasPrefix (folded ic psp) (folded ic path)) (equals_iff (take (length psp - 1) psp))
        (prefix-Decides psp))

abbrev pub ParameterMeaning : QueryParameterMatchSpecifier → Option (List ℕ) → Type 0
ParameterMeaning (present_match wanted) value = is_present value ≡ wanted
ParameterMeaning (string_match m) value =
    (v : List ℕ) × (value ≡ some v) × Meaning m.pattern m.ignore_case v

abbrev unwrap : List ℕ → Option (List ℕ) → List ℕ
unwrap d none = d
unwrap d (some s) = s

pub parameter-Decides :
    (s : QueryParameterMatchSpecifier) (value : Option (List ℕ))
    → Readable value
    → Decides (parameter_matches s value) (ParameterMeaning s value)
unfolding parameter_matches
parameter-Decides (present_match wanted) none r = ground arith
parameter-Decides (present_match wanted) (some v) r = ground arith
parameter-Decides (string_match m) none r = (λ h. ground arith, λ (v, e, q). absurd (ground arith))
parameter-Decides (string_match m) (some v) r =
    map-Decides (Meaning m.pattern m.ignore_case v)
      ((w : List ℕ) × (some v ≡ some w) × Meaning m.pattern m.ignore_case w) (matches m v)
      (λ q. (v, refl, q))
      (λ (w, e, q). subst (Meaning m.pattern m.ignore_case) (sym (ap (unwrap v) e)) q)
      (matches_lem m v r)
