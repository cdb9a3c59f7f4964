-- ===== src/Routing/Route/NoPath.antt =====
-- A request without a path, which is matched as if it had the path "/".
use orion.Base.{
  ℕ, ◌≡◌, refl, sym, ap, subst, ◌∙◌, Bool, true, false, List, [], ◌∷◌, Option, none, some, list_eq,
  arith, inl, inr, Bool-cases,
}
use orion.Matching.Text.Defs.{starts_with, slice}
use orion.Matching.Text.Meaning.{matcher_on}
use orion.Matching.Header.Defs.{Request}
use orion.Routing.Route.Defs.{
  prefix, PathMatcher, PathMatcherResult, match_specifier, path_matches, path_matched, path_range,
  RouteMatch, RouteMatchResult, matched, matched_range, request_path, path_or_root, matched_path,
  QueryParser, with_parameters, with_headers, with_path, match_path, match_method, match_request,
  prefix_rewrite, panicked, new_prefix, apply,
}

-- A result that has matched has the range of the path.
abbrev Ranges : Option ℕ → Option RouteMatchResult → Type 0
Ranges range none = Unit
Ranges range (some r) = matched r ≡ true → matched_range r ≡ range

root_matches :
    (ic : Bool) → match_specifier (matcher_on ic (b'/' ∷ [])) (prefix (b'/' ∷ [])) ≡ some (some 1)
unfolding match_specifier starts_with slice
root_matches true = refl
root_matches false = refl

module _ (parse : QueryParser) (m : RouteMatch) (request : Request) where
  parameters-Ranges :
      (pm : Option PathMatcherResult) (b : Option Bool)
      → Ranges (path_range pm) (with_parameters parse m request pm b)
  parameters-Ranges pm none = tt
  parameters-Ranges pm (some b) = λ h. refl

  headers-Ranges :
      (pm : Option PathMatcherResult) (b : Option Bool)
      → Ranges (path_range pm) (with_headers parse m request pm b)
  unfolding with_headers
  headers-Ranges pm none = tt
  headers-Ranges pm (some false) = λ h. ground arith
  headers-Ranges pm (some true) = parameters-Ranges pm _

  path-Ranges :
      (pm : Option PathMatcherResult) → Ranges (path_range pm) (with_path parse m request pm)
  unfolding with_path
  path-Ranges pm = elim (Bool-cases (path_matched pm)) [
    | inl e ↦ rw e (headers-Ranges pm _)
    | inr e ↦ rw e (λ h. ground arith)
  ]

  root_prefix :
      (pm : PathMatcher)
      → pm.specifier ≡ prefix (b'/' ∷ [])
      → path_matches pm (b'/' ∷ []) ≡ some (some 1)
  unfolding path_matches
  root_prefix pm e = rw e (root_matches pm.ignore_case)

  module _ (pm : PathMatcher) (e : m.path_matcher ≡ some pm) (f : pm.specifier ≡ prefix (b'/' ∷ []))
      (n : request.uri.path ≡ []) where
    match_path-Ranges : Ranges (some 1) (match_path parse m request m.path_matcher)
    unfolding match_path
    match_path-Ranges =
        let whole : path_matches pm (request_path request.uri) ≡ some (some 1) =
          ap (λ (s : List ℕ). path_matches pm (path_or_root s)) n ∙ root_prefix pm f in
        let behind : Ranges (some 1) (match_path parse m request (some pm)) =
          subst (λ q. Ranges (some 1) (matched_path parse m request q)) (sym whole)
            (path-Ranges (some (some 1))) in
        subst (λ o. Ranges (some 1) (match_path parse m request o)) (sym e) behind

    match_method-Ranges : (o : Option (List ℕ)) → Ranges (some 1) (match_method parse m request o)
    unfolding match_method
    match_method-Ranges none = match_path-Ranges
    match_method-Ranges (some method) = elim (Bool-cases (list_eq request.method method)) [
      | inl q ↦ rw q match_path-Ranges
      | inr q ↦ rw q (λ h. ground arith)
    ]

    match_request-Ranges : Ranges (some 1) (match_request parse m request)
    unfolding match_request
    match_request-Ranges = match_method-Ranges m.method_matcher

-- A request without a path, such as a CONNECT, that matches a route by the prefix "/" is matched as
-- if "/" were its path, of which the whole is said to be matched; and to rewrite that prefix panics,
-- whatever the rest of the route and the replacement are.
pub prefix_rewrite_panics :
    (parse : QueryParser) (m : RouteMatch) (request : Request) (pm : PathMatcher)
    (r : RouteMatchResult) (path_and_query : List ℕ → Option (List ℕ)) (replacement : List ℕ)
    → m.path_matcher ≡ some pm
    → pm.specifier ≡ prefix (b'/' ∷ [])
    → request.uri.path ≡ []
    → match_request parse m request ≡ some r
    → matched r ≡ true
    → (matched_range r ≡ some 1)
      × (apply path_and_query (prefix_rewrite replacement) request.uri r ≡ panicked)
unfolding apply
prefix_rewrite_panics parse m request pm r path_and_query replacement e f n h t =
    let range : matched_range r ≡ some 1 =
      subst (Ranges (some 1)) h (match_request-Ranges parse m request pm e f n) t in
    (
      range,
      subst
          (λ u.
            new_prefix path_and_query replacement u request.uri.query (matched_range r) ≡ panicked)
          (sym n) (rw range refl),
    )
