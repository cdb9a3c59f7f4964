-- ===== src/Routing/Route/Defs.antt =====
-- `RouteMatch` of orion-configuration/src/config/network_filters/http_connection_manager/route.rs, and
-- `match_request_route` of orion-lib/src/listeners/http_connection_manager.rs. `none` around a result
-- is a panic.
use orion.Base.{
  ℕ, ◌-◌, Bool, true, false, not, xor, ◌&&◌, List, [], ◌∷◌, ◌++◌, Option, none, some, length, drop,
  any, list_eq, ◌==◌, if◌then◌else◌,
}
use orion.Base.Decides.{and_then}
use orion.Matching.Text.Defs.{
  CaseSensitive, StringMatcher, equals, starts_with, matches, is_char_boundary, slice,
}
use orion.Matching.Header.Defs.{HeaderMatcher, Uri, Request, request_matches}
use orion.Routing.Host.Defs.{VirtualHost, select_virtual_host, then_some}

pub data PathSpecifier : Type 0 where
  prefix exact path_separated_prefix : List ℕ → PathSpecifier
  regex : (List ℕ → Bool) → PathSpecifier

pub record PathMatcher : Type 0 where
  pub specifier : PathSpecifier
  pub ignore_case : Bool

-- The end of what is matched, from the start of the path.
abbrev pub PathMatcherResult : Type 0
PathMatcherResult = Option ℕ

abbrev pub matched_up_to : ℕ → Option Bool → Option PathMatcherResult
matched_up_to n none = none
matched_up_to n (some b) = some (then_some b n)

-- `psp[..psp.len() - 1]`
unfoldable pub without_separator : List ℕ → Option (List ℕ)
unfolding slice
without_separator [] = none
without_separator (b ∷ psp) = slice (b ∷ psp) 0 (length psp)

abbrev pub or_starts_with : Bool → ℕ → Option PathMatcherResult → Option PathMatcherResult
or_starts_with true n later = some (some n)
or_starts_with false n later = later

unfoldable pub separated_match : CaseSensitive → List ℕ → Option (List ℕ) → Option PathMatcherResult
unfolding equals starts_with
separated_match c psp none = none
separated_match c psp (some base) =
    or_starts_with (equals c base) (length psp - 1) (matched_up_to (length psp) (starts_with c psp))

unfoldable pub match_specifier : CaseSensitive → PathSpecifier → Option PathMatcherResult
unfolding equals starts_with separated_match without_separator
match_specifier c (exact s) = some (then_some (equals c s) (length s))
match_specifier c (prefix p) = matched_up_to (length p) (starts_with c p)
match_specifier c (path_separated_prefix psp) = separated_match c psp (without_separator psp)
match_specifier c (regex r) = some (then_some (r c.text) (length c.text))

unfoldable pub path_matches : PathMatcher → List ℕ → Option PathMatcherResult
unfolding match_specifier
path_matches m path =
    match_specifier (record { sensitive = not m.ignore_case; text = path }) m.specifier

pub data QueryParameterMatchSpecifier : Type 0 where
  present_match : Bool → QueryParameterMatchSpecifier
  string_match : StringMatcher → QueryParameterMatchSpecifier

pub record QueryParameterMatcher : Type 0 where
  pub name : List ℕ
  pub match_specifier : QueryParameterMatchSpecifier

-- `form_urlencoded::parse` of the crate `url` is a parameter: the decoded pairs of a query.
abbrev pub QueryParser : Type 0
QueryParser = List ℕ → List (List ℕ × List ℕ)

abbrev pub find_parameter : List ℕ → List (List ℕ × List ℕ) → Option (List ℕ)
find_parameter name [] = none
find_parameter name ((key, value) ∷ pairs) =
    if list_eq key name then some value else find_parameter name pairs

abbrev pub param_value : QueryParser → List ℕ → Option (List ℕ) → Option (List ℕ)
param_value parse name none = none
param_value parse name (some query) = find_parameter name (parse query)

abbrev pub is_present : Option (List ℕ) → Bool
is_present none = false
is_present (some v) = true

unfoldable pub parameter_matches : QueryParameterMatchSpecifier → Option (List ℕ) → Option Bool
unfolding matches
parameter_matches (present_match should_be_present) value =
    some (not (xor (is_present value) should_be_present))
parameter_matches (string_match m) none = some false
parameter_matches (string_match m) (some value) = matches m value

unfoldable pub query_matches : QueryParser → QueryParameterMatcher → Option (List ℕ) → Option Bool
unfolding parameter_matches
query_matches parse m query = parameter_matches m.match_specifier (param_value parse m.name query)

-- The method of a `MethodSpecifier`, by its name.
pub record RouteMatch : Type 0 where
  pub path_matcher : Option PathMatcher
  pub method_matcher : Option (List ℕ)
  pub headers : List HeaderMatcher
  pub query_parameters : List QueryParameterMatcher

pub record RouteMatchResult : Type 0 where
  pub path_match : Option PathMatcherResult
  pub headers_matched : Bool
  pub query_parameters_matched : Bool

abbrev pub path_matched : Option PathMatcherResult → Bool
path_matched none = true
path_matched (some none) = false
path_matched (some (some up_to)) = true

abbrev pub matched : RouteMatchResult → Bool
matched r = r.headers_matched && r.query_parameters_matched && path_matched r.path_match

-- The end of `0..up_to`.
abbrev pub path_range : Option PathMatcherResult → Option ℕ
path_range none = none
path_range (some inner) = inner

abbrev pub matched_range : RouteMatchResult → Option ℕ
matched_range r = if r.headers_matched then path_range r.path_match else none

-- The path of the crate `http` is "/" where the request has none.
abbrev pub path_or_root : List ℕ → List ℕ
path_or_root [] = b'/' ∷ []
path_or_root (b ∷ path) = b ∷ path

abbrev pub request_path : Uri → List ℕ
request_path uri = path_or_root uri.path

module _ (parse : QueryParser) (m : RouteMatch) (request : Request) where
  unfoldable pub all_headers : List HeaderMatcher → Option Bool
  unfolding request_matches
  all_headers [] = some true
  all_headers (hm ∷ hms) = and_then (request_matches hm request) (all_headers hms)

  unfoldable pub all_parameters : List QueryParameterMatcher → Option Bool
  unfolding query_matches
  all_parameters [] = some true
  all_parameters (qm ∷ qms) =
      and_then (query_matches parse qm request.uri.query) (all_parameters qms)

  -- The last two parts, once the path is known.
  abbrev pub with_parameters : Option PathMatcherResult → Option Bool → Option RouteMatchResult
  with_parameters path none = none
  with_parameters path (some b) =
      some (record { path_match = path; headers_matched = true; query_parameters_matched = b })

  abbrev pub failed_at : Option PathMatcherResult → Option RouteMatchResult
  failed_at path =
      some (record { path_match = path; headers_matched = false; query_parameters_matched = false })

  unfoldable pub with_headers : Option PathMatcherResult → Option Bool → Option RouteMatchResult
  unfolding all_parameters
  with_headers path none = none
  with_headers path (some false) = failed_at path
  with_headers path (some true) = with_parameters path (all_parameters m.query_parameters)

  unfoldable pub with_path : Option PathMatcherResult → Option RouteMatchResult
  unfolding all_headers with_headers
  with_path path =
      if path_matched path then with_headers path (all_headers m.headers) else failed_at path

  abbrev pub matched_path : Option PathMatcherResult → Option RouteMatchResult
  matched_path none = none
  matched_path (some r) = with_path (some r)

  unfoldable pub match_path : Option PathMatcher → Option RouteMatchResult
  unfolding path_matches with_path
  match_path none = with_path none
  match_path (some pm) = matched_path (path_matches pm (request_path request.uri))

  unfoldable pub match_method : Option (List ℕ) → Option RouteMatchResult
  unfolding match_path
  match_method none = match_path m.path_matcher
  match_method (some method) =
      if list_eq request.method method then match_path m.path_matcher else failed_at none

  unfoldable pub match_request : Option RouteMatchResult
  unfolding match_method
  match_request = match_method m.method_matcher

-- The first route that matches, with its result. The filters look at the routes of the host in turn.
module _ {R : Type 0} (route_match : R → RouteMatch) (parse : QueryParser) (request : Request) where
  abbrev pub or_next :
      R
      → Option RouteMatchResult
      → Option (Option (R × RouteMatchResult))
      → Option (Option (R × RouteMatchResult))
  or_next route none later = none
  or_next route (some r) later = if matched r then some (some (route, r)) else later

  unfoldable pub find_route : List R → Option (Option (R × RouteMatchResult))
  unfolding match_request
  find_route [] = some none
  find_route (route ∷ routes) =
      or_next route (match_request parse (route_match route) request) (find_route routes)

  abbrev pub routes_of : Option (VirtualHost R) → Option (Option (R × RouteMatchResult))
  routes_of none = some none
  routes_of (some vh) = find_route vh.routes

  unfoldable pub match_request_route :
      (List ℕ → Option (List ℕ)) → List (VirtualHost R) → Option (Option (R × RouteMatchResult))
  unfolding find_route select_virtual_host
  match_request_route authority_host virtual_hosts =
      routes_of (select_virtual_host authority_host request virtual_hosts)

-- `PathRewriteSpecifier::apply`. A regular expression that replaces nothing is `none`, and
-- `path_and_query` is `PathAndQuery::from_str` of the crate `http`, an error where it fails.
pub data PathRewriteSpecifier : Type 0 where
  full_path : List ℕ → PathRewriteSpecifier
  prefix_rewrite : List ℕ → PathRewriteSpecifier
  regex_rewrite : (List ℕ → Option (List ℕ)) → PathRewriteSpecifier

pub data Rewritten : Type 0 where
  unchanged invalid_uri panicked : Rewritten
  rewritten : List ℕ → Rewritten

module _ (path_and_query : List ℕ → Option (List ℕ)) where
  abbrev pub parsed : Option (List ℕ) → Rewritten
  parsed none = invalid_uri
  parsed (some p) = rewritten p

  -- The query is kept unless the new path has its own.
  abbrev pub with_query : Option (List ℕ) → List ℕ → Rewritten
  with_query none new_path = parsed (path_and_query new_path)
  with_query (some query) new_path =
      if any (◌==◌ b'?') new_path
      then parsed (path_and_query new_path)
      else parsed (path_and_query (new_path ++ (b'?' ∷ query)))

  abbrev pub replaced : Option (List ℕ) → Option (List ℕ) → Rewritten
  replaced query none = unchanged
  replaced query (some new_path) = with_query query new_path

  -- `&old_path[matched_range.end..]`
  abbrev pub behind : List ℕ → List ℕ → Option (List ℕ) → ℕ → Rewritten
  behind replacement old_path old_query end =
      if is_char_boundary old_path end
      then with_query old_query (replacement ++ drop end old_path)
      else panicked

  abbrev pub new_prefix : List ℕ → List ℕ → Option (List ℕ) → Option ℕ → Rewritten
  new_prefix replacement old_path old_query none = unchanged
  new_prefix replacement old_path old_query (some end) = behind replacement old_path old_query end

  -- The old path is empty where the request has none.
  unfoldable pub apply : PathRewriteSpecifier → Uri → RouteMatchResult → Rewritten
  apply (full_path p) uri r = with_query uri.query p
  apply (regex_rewrite replace) uri r = replaced uri.query (replace uri.path)
  apply (prefix_rewrite replacement) uri r =
      new_prefix replacement uri.path uri.query (matched_range r)
