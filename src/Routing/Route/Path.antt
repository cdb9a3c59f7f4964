-- ===== src/Routing/Route/Path.antt =====
-- The part of the path that a route matches, and its rewrite.
use orion.Base.{
  ℕ, min, ◌-◌, ◌≤◌, ◌≡◌, ◌≢◌, refl, sym, ap, subst, ◌∙◌, Bool, true, false, List, [], ◌∷◌, ◌++◌,
  Option, none, some, length, drop, list_eq, list_eq_lem, arith, inl, inr, Bool-cases, length-map,
  length-append, length-take, ◌⊎◌, any, ◌==◌, ==_iff,
}
use orion.Base.Decides.{Any, any_iff}
use orion.Matching.Text.Defs.{equals, starts_with, lower, is_prefix, slice}
use orion.Matching.Text.Parts.{folded, IsAscii, is_prefix_iff, boundary_ascii}
use orion.Matching.Text.Meaning.{matcher_on, equals-folded, starts_with-folded}
use orion.Matching.Header.Defs.{Request}
use orion.Routing.Host.Defs.{then_some}
use orion.Routing.Route.Defs.{
  PathSpecifier, prefix, exact, path_separated_prefix, regex, PathMatcher, PathMatcherResult,
  matched_up_to, without_separator, separated_match, match_specifier, path_matches, RouteMatch,
  RouteMatchResult, path_matched, path_range, matched_range, request_path, path_or_root,
  QueryParser, with_parameters, with_headers, with_path, matched_path, match_path, match_method,
  match_request, prefix_rewrite, parsed, with_query, apply,
}

length-folded : (ic : Bool) (s : List ℕ) → length (folded ic s) ≡ length s
length-folded true s = length-map s lower
length-folded false s = refl

-- Nothing is matched, or a part of the path.
abbrev Within : List ℕ → Option PathMatcherResult → Type 0
Within path none = Unit
Within path (some none) = Unit
Within path (some (some n)) = n ≤ length path

then_some-Within :
    (path : List ℕ) (b : Bool) (n : ℕ)
    → (b ≡ true → n ≤ length path)
    → Within path (some (then_some b n))
then_some-Within path true n h = h refl
then_some-Within path false n h = tt

equals-length :
    (ic : Bool) (p path : List ℕ) → equals (matcher_on ic path) p ≡ true → length p ≡ length path
equals-length ic p path h =
    let e = list_eq_lem (folded ic path) (folded ic p) (sym (equals-folded ic p path) ∙ h) in
    sym (length-folded ic p) ∙ sym (ap length e) ∙ length-folded ic path

starts_with-Within :
    (ic : Bool) (p path : List ℕ)
    → IsAscii path
    → Within path (matched_up_to (length p) (starts_with (matcher_on ic path) p))
starts_with-Within ic p path a = rw (starts_with-folded ic p path a) (
    then_some-Within path (is_prefix (folded ic p) (folded ic path)) (length p) (λ h.
      let (r, e) = (is_prefix_iff (folded ic p) (folded ic path)).0 h in
      let l = ap length e ∙ length-append (folded ic p) r in
      omega (arith, length-folded ic p, length-folded ic path)))

separated-Within :
    (ic : Bool) (psp path : List ℕ) (base : Option (List ℕ))
    → IsAscii path
    → ((b : List ℕ) → base ≡ some b → length b ≡ length psp - 1)
    → Within path (separated_match (matcher_on ic path) psp base)
unfolding separated_match
separated-Within ic psp path none a h = tt
separated-Within ic psp path (some base) a h =
    elim (Bool-cases (equals (matcher_on ic path) base)) [
      | inl e ↦ let l = equals-length ic base path e in let m = h base refl in rw e (omega arith)
      | inr e ↦ rw e (starts_with-Within ic psp path a)
    ]

slice-length :
    (s : List ℕ) (n : ℕ) (b : List ℕ) → slice s 0 n ≡ some b → length b ≡ min n (length s)
unfolding slice
slice-length s n b e = ground (arith, length-take n s)

base-length : (psp b : List ℕ) → without_separator psp ≡ some b → length b ≡ length psp - 1
unfolding without_separator
base-length [] b e = absurd (ground arith)
base-length (c ∷ psp) b e = let l = slice-length (c ∷ psp) (length psp) b e in omega arith

specifier-Within :
    (ic : Bool) (s : PathSpecifier) (path : List ℕ)
    → IsAscii path
    → Within path (match_specifier (matcher_on ic path) s)
unfolding match_specifier
specifier-Within ic (prefix p) path a = starts_with-Within ic p path a
specifier-Within ic (exact p) path a =
    then_some-Within path (equals (matcher_on ic path) p) (length p)
      (λ h. let l = equals-length ic p path h in omega arith)
specifier-Within ic (path_separated_prefix psp) path a =
    separated-Within ic psp path (without_separator psp) a (base-length psp)
specifier-Within ic (regex r) path a =
    then_some-Within path (r path) (length path) (λ h. omega arith)

-- What a result says of a path: its range lies in it.
abbrev InPath : List ℕ → Option ℕ → Type 0
InPath path none = Unit
InPath path (some n) = n ≤ length path

abbrev RangeInPath : List ℕ → Option RouteMatchResult → Type 0
RangeInPath path none = Unit
RangeInPath path (some r) = InPath path (matched_range r)

module _ (parse : QueryParser) (m : RouteMatch) (request : Request)
    (ascii : IsAscii (request_path request.uri)) where
  abbrev path : List ℕ
  path = request_path request.uri

  parameters_range :
      (pm : Option PathMatcherResult) (b : Option Bool)
      → InPath path (path_range pm)
      → RangeInPath path (with_parameters parse m request pm b)
  parameters_range pm none h = tt
  parameters_range pm (some b) h = h

  headers_range :
      (pm : Option PathMatcherResult) (b : Option Bool)
      → InPath path (path_range pm)
      → RangeInPath path (with_headers parse m request pm b)
  unfolding with_headers
  headers_range pm none h = tt
  headers_range pm (some false) h = tt
  headers_range pm (some true) h = parameters_range pm _ h

  path_result_range :
      (pm : Option PathMatcherResult)
      → InPath path (path_range pm)
      → RangeInPath path (with_path parse m request pm)
  unfolding with_path
  path_result_range pm h = elim (Bool-cases (path_matched pm)) [
    | inl e ↦ rw e (headers_range pm _ h)
    | inr e ↦ rw e tt
  ]

  matched_path_range :
      (r : Option PathMatcherResult)
      → Within path r
      → RangeInPath path (matched_path parse m request r)
  matched_path_range none h = tt
  matched_path_range (some none) h = path_result_range (some none) tt
  matched_path_range (some (some n)) h = path_result_range (some (some n)) h

  match_path_range : (pm : Option PathMatcher) → RangeInPath path (match_path parse m request pm)
  unfolding match_path path_matches
  match_path_range none = path_result_range none tt
  match_path_range (some pm) =
      matched_path_range (path_matches pm path)
        (specifier-Within pm.ignore_case pm.specifier path ascii)

  match_method_range : (o : Option (List ℕ)) → RangeInPath path (match_method parse m request o)
  unfolding match_method
  match_method_range none = match_path_range m.path_matcher
  match_method_range (some method) = elim (Bool-cases (list_eq request.method method)) [
    | inl e ↦ rw e (match_path_range m.path_matcher)
    | inr e ↦ rw e tt
  ]

  match_request_range : RangeInPath path (match_request parse m request)
  unfolding match_request
  match_request_range = match_method_range m.method_matcher

path_or_root_lem : (s : List ℕ) → s ≢ [] → path_or_root s ≡ s
path_or_root_lem [] n = absurd (n refl)
path_or_root_lem (b ∷ s) n = refl

-- Which text a new path makes with the old query: a query of its own stands behind its question mark,
-- and otherwise the old query is added behind one.
abbrev pub MakesText : Option (List ℕ) → List ℕ → List ℕ → Type 0
MakesText none new_path text = text ≡ new_path
MakesText (some query) new_path text =
    (Any (λ b. b'?' ≡ b) new_path × (text ≡ new_path))
    ⊎ (¬ Any (λ b. b'?' ≡ b) new_path × (text ≡ new_path ++ (b'?' ∷ query)))

with_query-MakesText :
    (path_and_query : List ℕ → Option (List ℕ)) (query : Option (List ℕ)) (new_path : List ℕ)
    → (text : List ℕ) × MakesText query new_path text
      × (with_query path_and_query query new_path ≡ parsed path_and_query (path_and_query text))
with_query-MakesText path_and_query none new_path = (new_path, refl, refl)
with_query-MakesText path_and_query (some query) new_path =
    let (to, from) = any_iff (◌==◌ b'?') (λ b. b'?' ≡ b) new_path (λ b. ==_iff b'?' b) in
    elim (Bool-cases (any (◌==◌ b'?') new_path)) [
      | inl e ↦ (new_path, inl (to e, refl), rw e refl)
      | inr e ↦ (new_path ++ (b'?' ∷ query), inr (λ a. ground (arith, from a), refl), rw e refl)
    ]

-- A request with an ASCII path that matches a route can be rewritten without a panic: what is
-- matched lies in the path, only that part is replaced, and the query is kept unless the new path has
-- a question mark, and then it is dropped. The text that this makes is what is parsed.
pub prefix_rewrite_lem :
    (parse : QueryParser) (m : RouteMatch) (request : Request) (r : RouteMatchResult)
    (path_and_query : List ℕ → Option (List ℕ)) (replacement : List ℕ) (end : ℕ)
    → IsAscii request.uri.path
    → request.uri.path ≢ []
    → match_request parse m request ≡ some r
    → matched_range r ≡ some end
    → (end ≤ length request.uri.path)
      × ((text : List ℕ) × MakesText request.uri.query
            (replacement ++ drop end request.uri.path)
            text
          × (apply path_and_query (prefix_rewrite replacement) request.uri r
              ≡ parsed path_and_query (path_and_query text)))
unfolding apply
prefix_rewrite_lem parse m request r path_and_query replacement end a n h q =
    let same = path_or_root_lem request.uri.path n in
    let ascii : IsAscii (request_path request.uri) = subst IsAscii (sym same) a in
    let range : InPath (request_path request.uri) (matched_range r) =
      subst (RangeInPath (request_path request.uri)) h
        (match_request_range parse m request ascii) in
    let within : end ≤ length request.uri.path =
      subst (λ s. InPath s (some end)) same (subst (InPath (request_path request.uri)) q range) in
    let bound = boundary_ascii request.uri.path end a within in
    let new_path = replacement ++ drop end request.uri.path in
    let (text, makes, e) = with_query-MakesText path_and_query request.uri.query new_path in
    (within, (text, makes, rw (q, bound) e))
