-- ===== src/Routing/Tests.antt =====
-- Routes of concrete requests.
use orion.Base.{ℕ, ◌≤◌, ◌≡◌, refl, true, false, List, [], ◌∷◌, none, some, arith, length}
use orion.Matching.Header.Defs.{Request}
use orion.Routing.Host.Defs.{
  wildcard, suffix, try_from_compact_str, try_prefix, serialize, VirtualHost, select_virtual_host,
  eval_lpm_request,
}
use orion.Routing.Host.Print.{serialize-try_from}
use orion.Routing.Host.Best.{SelectedHost, select_virtual_host_lem}
use orion.Routing.Route.Defs as Route
use orion.Routing.Route.Defs.{
  PathMatcher, RouteMatch, RouteMatchResult, matched_range, match_request, match_method, match_path,
  path_matches, match_specifier, with_path, with_headers, all_headers, all_parameters,
  prefix_rewrite, apply, rewritten, panicked,
}
use orion.Routing.Route.Meaning.{
  AsciiRequest, MatchDecides, MethodPart, PathPart, match_request_lem,
}
use orion.Routing.Route.Path.{prefix_rewrite_lem}
use orion.Routing.Route.NoPath.{prefix_rewrite_panics}
use orion.Matching.Text.Defs.{starts_with}

-- "*.a"
abbrev pattern_text : List ℕ
pattern_text = b'*' ∷ b'.' ∷ b'a' ∷ []

serialize-try_from_example : serialize (suffix (b'.' ∷ b'a' ∷ [])) ≡ pattern_text
unfolding try_from_compact_str try_prefix
serialize-try_from_example =
    serialize-try_from (λ s. true) pattern_text (suffix (b'.' ∷ b'a' ∷ [])) refl

abbrev request : Request
request = record {
  method = b'G' ∷ b'E' ∷ b'T' ∷ [];
  uri = record {
    path = b'/' ∷ b'a' ∷ b'/' ∷ b'b' ∷ [];
    scheme = none;
    host = some (b'w' ∷ b'.' ∷ b'a' ∷ []);
    query = none;
  };
  headers = [];
}

abbrev hosts : List (VirtualHost ℕ)
hosts =
    record { domains = wildcard ∷ []; routes = [] }
    ∷ record { domains = suffix (b'.' ∷ b'a' ∷ []) ∷ []; routes = [] }
    ∷ []

select_virtual_host_lem_example :
    SelectedHost
      (λ m. eval_lpm_request (λ s. none) m request)
      hosts
      (select_virtual_host (λ s. none) request hosts)
select_virtual_host_lem_example = select_virtual_host_lem (λ s. none) request hosts

-- Prefix "/a".
abbrev route : RouteMatch
route = record {
  path_matcher = some (record { specifier = Route.prefix (b'/' ∷ b'a' ∷ []); ignore_case = false });
  method_matcher = none;
  headers = [];
  query_parameters = [];
}

abbrev result : RouteMatchResult
result = record {
  path_match = some (some 2);
  headers_matched = true;
  query_parameters_matched = true;
}

prefix_rewrite_lem_example :
    (2 ≤ length request.uri.path)
    × ((text : List ℕ) × (text ≡ b'/' ∷ b'x' ∷ b'/' ∷ b'b' ∷ [])
        × (apply some (prefix_rewrite (b'/' ∷ b'x' ∷ [])) request.uri result ≡ rewritten text))
unfolding match_request match_method match_path path_matches match_specifier with_path with_headers
    all_headers all_parameters starts_with
prefix_rewrite_lem_example =
    prefix_rewrite_lem (λ q. []) route request result some (b'/' ∷ b'x' ∷ []) 2
      (omega arith, (omega arith, (omega arith, (omega arith, tt)))) (ground arith) refl refl

request_ascii : AsciiRequest (λ q. []) route request
request_ascii = record {
  method = (omega arith, (omega arith, (omega arith, tt)));
  path = (omega arith, (omega arith, (omega arith, (omega arith, tt))));
  scheme = tt;
  query = tt;
}

match_request_lem_example :
    MatchDecides
      (match_request (λ q. []) route request)
      (MethodPart none request × PathPart route.path_matcher request × Unit {0} × Unit {0})
match_request_lem_example = match_request_lem (λ q. []) route request request_ascii tt

-- The authority form has no path.
abbrev connect : Request
connect = record {
  method = b'C' ∷ [];
  uri = record { path = []; scheme = none; host = some (b'a' ∷ []); query = none };
  headers = [];
}

abbrev root_matcher : PathMatcher
root_matcher = record { specifier = Route.prefix (b'/' ∷ []); ignore_case = false }

abbrev root_route : RouteMatch
root_route = record {
  path_matcher = some root_matcher;
  method_matcher = some (b'C' ∷ []);
  headers = [];
  query_parameters = [];
}

abbrev root_result : RouteMatchResult
root_result = record {
  path_match = some (some 1);
  headers_matched = true;
  query_parameters_matched = true;
}

prefix_rewrite_panics_example :
    (matched_range root_result ≡ some 1)
    × (apply some (prefix_rewrite (b'/' ∷ b'x' ∷ [])) connect.uri root_result ≡ panicked)
unfolding match_request match_method match_path path_matches match_specifier with_path with_headers
    all_headers all_parameters starts_with
prefix_rewrite_panics_example =
    prefix_rewrite_panics (λ q. []) root_route connect root_matcher root_result some
      (b'/' ∷ b'x' ∷ []) refl refl refl refl refl
