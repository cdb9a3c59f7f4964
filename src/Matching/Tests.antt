-- ===== src/Matching/Tests.antt =====
-- Matchers at work.
use orion.Base.{ℕ, ◌≡◌, true, false, List, [], ◌∷◌, none, arith}
use orion.Base.Decides.{Decides}
use orion.Matching.Text.Defs.{StringMatcher, prefix, suffix, containing, matches}
use orion.Matching.Text.Meaning.{Meaning, matches_lem}
use orion.Matching.Text.Boundaries.{nonempty_panics}
use orion.Matching.Header.Defs.{HeaderMatcher, normal_header, HeaderMap, is_match}
use orion.Matching.Header.Meaning.{HeaderMeaning, is_match_lem}

abbrev text : List ℕ
text = b'/' ∷ b'A' ∷ b'p' ∷ b'i' ∷ []

abbrev matcher : StringMatcher
matcher = record { ignore_case = true; pattern = containing (b'P' ∷ b'I' ∷ []) }

matches_example : Decides (matches matcher text) (Meaning (containing (b'P' ∷ b'I' ∷ [])) true text)
matches_example =
    matches_lem matcher text (omega arith, (omega arith, (omega arith, (omega arith, tt))))

nonempty_panics_example :
    (matches
        (record { ignore_case = true; pattern = prefix (b'/' ∷ b'v' ∷ []) })
        (b'a' ∷ 0xc3 ∷ 0xa9 ∷ [])
      ≡ none)
    × (matches
          (record { ignore_case = true; pattern = suffix (b'/' ∷ b'v' ∷ []) })
          (0xc3 ∷ 0xa9 ∷ b'a' ∷ [])
        ≡ none)
nonempty_panics_example = nonempty_panics b'/' (b'v' ∷ [])

abbrev header : HeaderMatcher
header = record {
  header_name = normal_header (b'x' ∷ []);
  invert_match = true;
  treat_missing_header_as_empty = false;
  header_matcher = matcher;
}

abbrev headers : HeaderMap
headers = (b'x' ∷ [], text) ∷ (b'y' ∷ [], []) ∷ []

is_match_example :
    Decides
      (is_match header none none headers)
      (HeaderMeaning header (normal_header (b'x' ∷ [])) none none headers)
is_match_example = is_match_lem header none none headers tt tt tt
