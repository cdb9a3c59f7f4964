-- ===== src/Matching/Header/Defs.antt =====
-- `HeaderMatcher` of header_matcher.rs. A header map is the list of its names and values, names in
-- lower case, values as bytes.
use orion.Base.{
  ℕ, Bool, false, ◌&&◌, ◌||◌, List, [], ◌∷◌, Option, none, some, all, list_eq, ltb, leb, ◌==◌,
  if◌then◌else◌,
}
use orion.Base.Decides.{inverted, or_else, or_both}
use orion.Matching.Text.Defs.{StringMatcher, matches}

pub data HeaderNames : Type 0 where
  method path scheme : HeaderNames
  normal_header : List ℕ → HeaderNames

pub record HeaderMatcher : Type 0 where
  pub header_name : HeaderNames
  pub invert_match : Bool
  pub treat_missing_header_as_empty : Bool
  pub header_matcher : StringMatcher

pub record Uri : Type 0 where
  pub path : List ℕ
  pub scheme : Option (List ℕ)
  pub host : Option (List ℕ)
  pub query : Option (List ℕ)

abbrev pub HeaderMap : Type 0
HeaderMap = List (List ℕ × List ℕ)

-- `HeaderValue::to_str`: visible ASCII, spaces and tabs.
abbrev pub is_visible : ℕ → Bool
is_visible b = (leb 32 b && ltb b 127) || b == 9

abbrev pub to_str : List ℕ → Option (List ℕ)
to_str value = if all is_visible value then some value else none

unfoldable pub get_all : List ℕ → HeaderMap → List (Option (List ℕ))
get_all name [] = []
get_all name ((n, value) ∷ headers) =
    let rest = get_all name headers in if list_eq n name then to_str value ∷ rest else rest

abbrev pub path_of : Option Uri → Option (List ℕ)
path_of none = none
path_of (some uri) = some uri.path

abbrev pub scheme_of : Option Uri → Option (List ℕ)
scheme_of none = none
scheme_of (some uri) = uri.scheme

module _ (m : HeaderMatcher) where
  unfoldable pub matches_value : Option (List ℕ) → Option Bool
  unfolding matches
  matches_value none = some false
  matches_value (some s) = matches m.header_matcher s

  unfoldable pub any_value : List (Option (List ℕ)) → Option Bool
  unfolding matches_value
  any_value [] = some false
  any_value (v ∷ vs) = or_else (matches_value v) (any_value vs)

  -- The arms for a text that may be missing.
  unfoldable pub text_match : Option (List ℕ) → Option Bool
  unfolding matches
  text_match none =
      if m.treat_missing_header_as_empty
      then inverted m.invert_match (matches m.header_matcher [])
      else some false
  text_match (some s) = inverted m.invert_match (matches m.header_matcher s)

  unfoldable pub values_match : List (Option (List ℕ)) → Option Bool
  unfolding any_value matches_value matches
  values_match [] =
      if m.treat_missing_header_as_empty
      then inverted m.invert_match (matches m.header_matcher [])
      else some false
  values_match (first ∷ rest) =
      inverted m.invert_match (or_both (matches_value first) (any_value rest))

  unfoldable pub is_match_on : HeaderNames → Option (List ℕ) → Option Uri → HeaderMap → Option Bool
  unfolding text_match values_match get_all
  is_match_on method verb uri headers = text_match verb
  is_match_on path verb uri headers = text_match (path_of uri)
  is_match_on scheme verb uri headers = text_match (scheme_of uri)
  is_match_on (normal_header name) verb uri headers = values_match (get_all name headers)

  unfoldable pub is_match : Option (List ℕ) → Option Uri → HeaderMap → Option Bool
  unfolding is_match_on
  is_match = is_match_on m.header_name

pub record Request : Type 0 where
  pub method : List ℕ
  pub uri : Uri
  pub headers : HeaderMap

unfoldable pub request_matches : HeaderMatcher → Request → Option Bool
unfolding is_match
request_matches m request = is_match m (some request.method) (some request.uri) request.headers

unfoldable pub response_matches : HeaderMatcher → HeaderMap → Option Bool
unfolding is_match
response_matches m headers = is_match m none none headers
