-- ===== src/Routing/Route/Meaning.antt =====
-- Which requests a route matches.
use orion.Base.{
  ℕ, ◌≡◌, ◌↔◌, refl, sym, ◌∙◌, Bool, true, false, List, [], ◌∷◌, Option, none, some, All, list_eq,
  arith, inl, inr, Bool-cases,
}
use orion.Base.Decides.{Decides, and_then-Decides}
use orion.Matching.Text.Parts.{IsAscii}
use orion.Matching.Text.Meaning.{list_eq_iff}
use orion.Matching.Header.Defs.{HeaderMatcher, Request, request_matches}
use orion.Matching.Header.Meaning.{Readable, HeaderMeaning, is_match_lem}
use orion.Routing.Route.Defs.{
  PathMatcher, PathMatcherResult, path_matches, QueryParameterMatcher, QueryParser, param_value,
  query_matches, RouteMatch, RouteMatchResult, path_matched, matched, request_path, path_or_root,
  all_headers, all_parameters, with_parameters, with_headers, with_path, matched_path, match_path,
  match_method, match_request,
}
use orion.Routing.Route.Specifier.{
  specifier-Decides, IsUsable, PathMeaning, as_test, ParameterMeaning, parameter-Decides,
}

-- The texts of a request that its matchers look at are ASCII, the decoded query values included.
pub record AsciiRequest (parse : QueryParser) (m : RouteMatch) (request : Request) : Type 0 where
  pub method : IsAscii request.method
  pub path : IsAscii request.uri.path
  pub scheme : Readable request.uri.scheme
  pub query : All (λ qm. Readable (param_value parse qm.name request.uri.query)) m.query_parameters

abbrev pub PathPart : Option PathMatcher → Request → Type 0
PathPart none request = Unit
PathPart (some pm) request = PathMeaning pm.specifier pm.ignore_case (request_path request.uri)

abbrev pub UsablePath : Option PathMatcher → Type 0
UsablePath none = Unit
UsablePath (some pm) = IsUsable pm.specifier

abbrev pub MethodPart : Option (List ℕ) → Request → Type 0
MethodPart none request = Unit
MethodPart (some method) request = request.method ≡ method

abbrev pub HeaderPart : Request → HeaderMatcher → Type 0
HeaderPart request hm =
    HeaderMeaning hm hm.header_name (some request.method) (some request.uri) request.headers

abbrev pub QueryPart : QueryParser → Request → QueryParameterMatcher → Type 0
QueryPart parse request qm =
    ParameterMeaning qm.match_specifier (param_value parse qm.name request.uri.query)

-- A result that is not a panic, and that matches exactly under a condition.
abbrev pub MatchDecides : Option RouteMatchResult → Type 0 → Type 0
MatchDecides none P = ⊥
MatchDecides (some r) P = (matched r ≡ true) ↔ P

map-MatchDecides :
    (P Q : Type 0) (o : Option RouteMatchResult)
    → (P → Q)
    → (Q → P)
    → MatchDecides o P
    → MatchDecides o Q
map-MatchDecides P Q none f g d = d
map-MatchDecides P Q (some r) f g (to, from) = (λ h. f (to h), λ q. from (g q))

as_test_iff :
    (r : PathMatcherResult) (P : Type 0)
    → Decides (as_test (some r)) P
    → (path_matched (some r) ≡ true) ↔ P
as_test_iff none P d = d
as_test_iff (some n) P d = d

path_or_root-IsAscii : (s : List ℕ) → IsAscii s → IsAscii (path_or_root s)
path_or_root-IsAscii [] a = (omega arith, tt)
path_or_root-IsAscii (b ∷ s) a = a

module _ (parse : QueryParser) (m : RouteMatch) (request : Request)
    (ascii : AsciiRequest parse m request) where
  abbrev Headers : Type 0
  Headers = All (HeaderPart request) m.headers

  abbrev Queries : Type 0
  Queries = All (QueryPart parse request) m.query_parameters

  headers-Decides :
      (hms : List HeaderMatcher)
      → Decides (all_headers parse m request hms) (All (HeaderPart request) hms)
  unfolding all_headers request_matches
  headers-Decides [] = (λ h. tt, λ u. refl)
  headers-Decides (hm ∷ hms) =
      and_then-Decides (HeaderPart request hm) (All (HeaderPart request) hms)
        (request_matches hm request) (all_headers parse m request hms)
        (is_match_lem hm (some request.method) (some request.uri) request.headers ascii.method
          ascii.path ascii.scheme)
        (headers-Decides hms)

  parameters-Decides :
      (qms : List QueryParameterMatcher)
      → All (λ qm. Readable (param_value parse qm.name request.uri.query)) qms
      → Decides (all_parameters parse m request qms) (All (QueryPart parse request) qms)
  unfolding all_parameters query_matches
  parameters-Decides [] r = (λ h. tt, λ u. refl)
  parameters-Decides (qm ∷ qms) (r, rs) =
      and_then-Decides (QueryPart parse request qm) (All (QueryPart parse request) qms)
        (query_matches parse qm request.uri.query) (all_parameters parse m request qms)
        (parameter-Decides qm.match_specifier (param_value parse qm.name request.uri.query) r)
        (parameters-Decides qms rs)

  -- The headers and the query behind a path that matches, `b` and `c` being what they come to.
  with_parameters-Decides :
      (pm : Option PathMatcherResult)
      → path_matched pm ≡ true
      → (c : Option Bool) → Decides c Queries
      → MatchDecides (with_parameters parse m request pm c) Queries
  with_parameters-Decides pm e none d = d
  with_parameters-Decides pm e (some true) (to, from) = (λ h. to refl, λ q. e)
  with_parameters-Decides pm e (some false) (to, from) = (λ h. ground arith, λ q. from q)

  with_headers-Decides :
      (pm : Option PathMatcherResult)
      → path_matched pm ≡ true
      → (c : Option Bool) → Decides c Headers
      → MatchDecides (with_headers parse m request pm c) (Headers × Queries)
  unfolding with_headers
  with_headers-Decides pm e none d = d
  with_headers-Decides pm e (some false) (to, from) = (λ h. ground arith, λ (x, y). from x)
  with_headers-Decides pm e (some true) (to, from) =
      map-MatchDecides Queries (Headers × Queries)
        (with_parameters parse m request pm (all_parameters parse m request m.query_parameters))
        (λ q. (to refl, q)) (λ (x, q). q)
        (with_parameters-Decides pm e (all_parameters parse m request m.query_parameters)
          (parameters-Decides m.query_parameters ascii.query))

  with_path-Decides :
      (pm : Option PathMatcherResult)
      → MatchDecides (with_path parse m request pm) ((path_matched pm ≡ true) × Headers × Queries)
  unfolding with_path
  with_path-Decides pm = elim (Bool-cases (path_matched pm)) [
    | inl e ↦ rw e (
        map-MatchDecides (Headers × Queries) ((◌≡◌ {A = Bool} true true) × Headers × Queries)
          (with_headers parse m request pm (all_headers parse m request m.headers))
          (λ (x, y). (refl, x, y)) (λ (z, x, y). (x, y))
          (with_headers-Decides pm e (all_headers parse m request m.headers)
            (headers-Decides m.headers)))
    | inr e ↦ rw e ((λ h. ground arith, λ (z, x, y). z))
  ]

  matched_path-Decides :
      (r : Option PathMatcherResult) (P : Type 0)
      → Decides (as_test r) P
      → MatchDecides (matched_path parse m request r) (P × Headers × Queries)
  matched_path-Decides none P d = d
  matched_path-Decides (some r) P d =
      map-MatchDecides ((path_matched (some r) ≡ true) × Headers × Queries) (P × Headers × Queries)
        (with_path parse m request (some r)) (λ (z, x, y). ((as_test_iff r P d).0 z, x, y))
        (λ (p, x, y). ((as_test_iff r P d).1 p, x, y)) (with_path-Decides (some r))

  match_path-Decides :
      (pm : Option PathMatcher)
      → UsablePath pm
      → MatchDecides (match_path parse m request pm) (PathPart pm request × Headers × Queries)
  unfolding match_path path_matches
  match_path-Decides none u =
      map-MatchDecides ((◌≡◌ {A = Bool} true true) × Headers × Queries) (Unit × Headers × Queries)
        (with_path parse m request none) (λ (z, x, y). (tt, x, y)) (λ (z, x, y). (refl, x, y))
        (with_path-Decides none)
  match_path-Decides (some pm) u =
      matched_path-Decides (path_matches pm (request_path request.uri))
        (PathMeaning pm.specifier pm.ignore_case (request_path request.uri))
        (specifier-Decides pm.ignore_case (request_path request.uri)
          (path_or_root-IsAscii request.uri.path ascii.path) pm.specifier u)

  match_method-Decides :
      (o : Option (List ℕ))
      → UsablePath m.path_matcher
      → MatchDecides
          (match_method parse m request o)
          (MethodPart o request × PathPart m.path_matcher request × Headers × Queries)
  unfolding match_method
  match_method-Decides none u =
      map-MatchDecides (PathPart m.path_matcher request × Headers × Queries)
        (Unit × PathPart m.path_matcher request × Headers × Queries)
        (match_path parse m request m.path_matcher) (λ (p, x, y). (tt, p, x, y))
        (λ (z, p, x, y). (p, x, y)) (match_path-Decides m.path_matcher u)
  match_method-Decides (some method) u =
      let (to, from) = list_eq_iff request.method method in
      elim (Bool-cases (list_eq request.method method)) [
        | inl e ↦ rw e (
            map-MatchDecides (PathPart m.path_matcher request × Headers × Queries)
              ((request.method ≡ method) × PathPart m.path_matcher request × Headers × Queries)
              (match_path parse m request m.path_matcher) (λ (p, x, y). (to e, p, x, y))
              (λ (z, p, x, y). (p, x, y)) (match_path-Decides m.path_matcher u))
        | inr e ↦ rw e ((λ h. ground arith, λ (z, p, x, y). sym e ∙ from z))
      ]

-- A route whose path-separated prefix, if it has one, is ASCII and not empty matches an ASCII
-- request, without a panic, exactly when its method, its path, all its headers and all its query
-- parameters match, each as its matcher means it.
pub match_request_lem :
    (parse : QueryParser) (m : RouteMatch) (request : Request)
    → AsciiRequest parse m request
    → UsablePath m.path_matcher
    → MatchDecides (match_request parse m request) (
        MethodPart m.method_matcher request
        × PathPart m.path_matcher request
        × All (HeaderPart request) m.headers
        × All (QueryPart parse request) m.query_parameters)
unfolding match_request
match_request_lem parse m request a u = match_method-Decides parse m request a m.method_matcher u
