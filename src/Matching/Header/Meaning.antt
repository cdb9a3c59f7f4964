-- ===== src/Matching/Header/Meaning.antt =====
-- What a header matcher means.
use orion.Base.{
  ℕ, ◌≡◌, true, false, List, [], ◌∷◌, Option, none, some, all, list_eq, if◌then◌else◌, arith, inl,
  inr, ◌⊎◌, Bool-cases, &&-eq-true,
}
use orion.Base.Decides.{
  inverted, or_both, Decides, Inverted, inverted-Decides, or_else-Decides, or_both-Decides,
  or_nothing-Decides, if-Decides,
}
use orion.Matching.Text.Defs.{matches}
use orion.Matching.Text.Parts.{IsAscii}
use orion.Matching.Text.Meaning.{Meaning, matches_lem}
use orion.Matching.Header.Defs.{
  HeaderNames, method, path, scheme, normal_header, HeaderMatcher, Uri, HeaderMap, is_visible,
  to_str, get_all, matches_value, any_value, text_match, values_match, path_of, scheme_of,
  is_match_on, is_match,
}

visible-IsAscii : (s : List ℕ) → all is_visible s ≡ true → IsAscii s
visible-IsAscii [] h = tt
visible-IsAscii (b ∷ s) h =
    let (v, vs) = &&-eq-true (is_visible b) (all is_visible s) h in
    (ground arith, visible-IsAscii s vs)

abbrev pub Readable : Option (List ℕ) → Type 0
Readable none = Unit
Readable (some s) = IsAscii s

to_str-Readable : (value : List ℕ) → Readable (to_str value)
to_str-Readable value = elim (Bool-cases (all is_visible value)) [
  | inl h ↦ rw h (visible-IsAscii value h)
  | inr h ↦ rw h tt
]

abbrev AllReadable : List (Option (List ℕ)) → Type 0
AllReadable [] = Unit
AllReadable (v ∷ vs) = Readable v × AllReadable vs

get_all-Readable : (name : List ℕ) (headers : HeaderMap) → AllReadable (get_all name headers)
unfolding get_all
get_all-Readable name [] = tt
get_all-Readable name ((n, value) ∷ headers) = elim (Bool-cases (list_eq n name)) [
  | inl h ↦ rw h (to_str-Readable value, get_all-Readable name headers)
  | inr h ↦ rw h (get_all-Readable name headers)
]

abbrev pub as_values : Option (List ℕ) → List (Option (List ℕ))
as_values none = []
as_values (some s) = some s ∷ []

-- What is true of some value that can be read.
module _ (m : HeaderMatcher) where
  abbrev pub Matches : List ℕ → Type 0
  Matches = Meaning m.header_matcher.pattern m.header_matcher.ignore_case

  abbrev pub MatchesValue : Option (List ℕ) → Type 0
  MatchesValue none = ⊥
  MatchesValue (some s) = Matches s

  abbrev pub AnyMatches : List (Option (List ℕ)) → Type 0
  AnyMatches [] = ⊥
  AnyMatches (v ∷ vs) = MatchesValue v ⊎ AnyMatches vs

  -- The values that are there, or none: then the empty text stands for them, or nothing matches.
  abbrev pub Holds : List (Option (List ℕ)) → Type 0
  Holds [] = (m.treat_missing_header_as_empty ≡ true) × Inverted m.invert_match (Matches [])
  Holds (v ∷ vs) = Inverted m.invert_match (AnyMatches (v ∷ vs))

  abbrev pub HeaderMeaning : HeaderNames → Option (List ℕ) → Option Uri → HeaderMap → Type 0
  HeaderMeaning method verb uri headers = Holds (as_values verb)
  HeaderMeaning path verb uri headers = Holds (as_values (path_of uri))
  HeaderMeaning scheme verb uri headers = Holds (as_values (scheme_of uri))
  HeaderMeaning (normal_header name) verb uri headers = Holds (get_all name headers)

  value-Decides : (v : Option (List ℕ)) → Readable v → Decides (matches_value m v) (MatchesValue v)
  unfolding matches_value
  value-Decides none r = (λ h. ground arith, λ h. elim h [ ])
  value-Decides (some s) r = matches_lem m.header_matcher s r

  any_value-Decides :
      (vs : List (Option (List ℕ))) → AllReadable vs → Decides (any_value m vs) (AnyMatches vs)
  unfolding any_value
  any_value-Decides [] r = (λ h. ground arith, λ h. elim h [ ])
  any_value-Decides (v ∷ vs) (r, rs) =
      or_else-Decides (MatchesValue v) (AnyMatches vs) (matches_value m v) (any_value m vs)
        (value-Decides v r) (any_value-Decides vs rs)

  missing-Decides :
      Decides
        (if m.treat_missing_header_as_empty
          then inverted m.invert_match (matches m.header_matcher [])
          else some false)
        (Holds [])
  missing-Decides =
      if-Decides (Inverted m.invert_match (Matches [])) m.treat_missing_header_as_empty
        (inverted m.invert_match (matches m.header_matcher []))
        (inverted-Decides (Matches []) m.invert_match (matches m.header_matcher [])
          (matches_lem m.header_matcher [] tt))

  values-Decides :
      (vs : List (Option (List ℕ))) → AllReadable vs → Decides (values_match m vs) (Holds vs)
  unfolding values_match
  values-Decides [] r = missing-Decides
  values-Decides (v ∷ vs) (r, rs) =
      inverted-Decides (AnyMatches (v ∷ vs)) m.invert_match
        (or_both (matches_value m v) (any_value m vs))
        (or_both-Decides (MatchesValue v) (AnyMatches vs) (matches_value m v) (any_value m vs)
          (value-Decides v r) (any_value-Decides vs rs))

  text-Decides : (t : Option (List ℕ)) → Readable t → Decides (text_match m t) (Holds (as_values t))
  unfolding text_match
  text-Decides none r = missing-Decides
  text-Decides (some s) r =
      inverted-Decides (AnyMatches (some s ∷ [])) m.invert_match (matches m.header_matcher s) (
        or_nothing-Decides (Matches s) (matches m.header_matcher s)
          (matches_lem m.header_matcher s r))

  is_match_on-Decides :
      (name : HeaderNames) (verb : Option (List ℕ)) (uri : Option Uri) (headers : HeaderMap)
      → Readable verb
      → Readable (path_of uri)
      → Readable (scheme_of uri)
      → Decides (is_match_on m name verb uri headers) (HeaderMeaning name verb uri headers)
  unfolding is_match_on
  is_match_on-Decides method verb uri headers v p s = text-Decides verb v
  is_match_on-Decides path verb uri headers v p s = text-Decides (path_of uri) p
  is_match_on-Decides scheme verb uri headers v p s = text-Decides (scheme_of uri) s
  is_match_on-Decides (normal_header name) verb uri headers v p s =
      values-Decides (get_all name headers) (get_all-Readable name headers)

-- On a request line of ASCII characters no header matcher panics, and it is true exactly when one
-- of the values under its name that can be read matches its pattern, or, inverted, when none of
-- those that are there does; where there is no value at all, the empty text stands for one if the
-- matcher says so, and otherwise it is false, inverted or not.
pub is_match_lem :
    (m : HeaderMatcher) (verb : Option (List ℕ)) (uri : Option Uri) (headers : HeaderMap)
    → Readable verb
    → Readable (path_of uri)
    → Readable (scheme_of uri)
    → Decides (is_match m verb uri headers) (HeaderMeaning m m.header_name verb uri headers)
unfolding is_match
is_match_lem m = is_match_on-Decides m m.header_name
