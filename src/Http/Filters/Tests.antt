-- ===== src/Http/Filters/Tests.antt =====
-- Two virtual hosts whose routes match by the same rule; the route of the second denies all requests.
use orion.Base.{ℕ, zero, suc, ◌+◌, ◌≡◌, refl, true, false, List, [], ◌∷◌, none, some, nat_eq}
use orion.Matching.Header.Defs.{Request}
use orion.Listener.Rbac.Defs.{deny}
use orion.Http.Rbac.Defs.{
  Policy, HttpRbac, Permission, Principal, is_permitted, enforced_policy, enforce, is_applicable,
  has_principal,
}
use orion.Http.Filters.Defs.{
  Parts, HttpFilter, rate_limit, rbac, external_processor, rbac_override, FilteredRoute,
  per_route_http_filters, add_hosts, add_routes, add_route, filters_for,
}
use orion.Http.Filters.Loop.{
  Outside, reroute, responded, access_denied, apply_filters, run_filters, apply_request,
  apply_authorization_rules,
}
use orion.Http.Filters.Table.{filters_of_all, all_routes, per_route_http_filters_lem}

abbrev parts : Parts
parts = record {
  Match = ℕ;
  same = nat_eq;
  Limit = ℕ;
  External = ℕ;
  Base = ℕ;
  PerRoute = ℕ;
  external = λ base per_route. base + per_route;
}

abbrev limiter : HttpFilter parts
limiter = record {
  name = b'l' ∷ [];
  disabled = false;
  filter = some (rate_limit 7);
  base_config = none;
}

abbrev everyone : Policy
everyone = record { permissions = Permission.any ∷ []; principals = Principal.any ∷ [] }

abbrev deny_all : HttpRbac
deny_all = record { action = deny; policies = (b'n' ∷ [], everyone) ∷ [] }

abbrev open_route : FilteredRoute parts
open_route = record { route_match = 0; typed_per_filter_config = [] }

abbrev closed_route : FilteredRoute parts
closed_route = record {
  route_match = 0;
  typed_per_filter_config =
      (
        b'l' ∷ [],
        record { disabled = false; filter_settings = some (rbac_override (some deny_all)) },
      )
      ∷ [];
}

abbrev hosts : List (List (FilteredRoute parts))
hosts = (open_route ∷ []) ∷ (closed_route ∷ []) ∷ []

abbrev denying : HttpFilter parts
denying = record {
  name = b'l' ∷ [];
  disabled = false;
  filter = some (rbac deny_all);
  base_config = none;
}

per_route_http_filters_lem_example :
    filters_for parts 0 (per_route_http_filters parts hosts (limiter ∷ []))
    ≡ filters_of_all parts 0 (limiter ∷ []) (all_routes parts hosts)
per_route_http_filters_lem_example = per_route_http_filters_lem parts 0 hosts (limiter ∷ [])

-- The open route gets the filter of the closed one, too.
both_filters :
    filters_for parts 0 (per_route_http_filters parts hosts (limiter ∷ [])) ≡ limiter ∷ denying ∷ []
unfolding per_route_http_filters add_hosts add_routes add_route
both_filters = refl

abbrev request : Request
request = record {
  method = b'G' ∷ b'E' ∷ b'T' ∷ [];
  uri = record { path = b'/' ∷ []; scheme = none; host = none; query = none };
  headers = [];
}

abbrev processor : HttpFilter parts
processor = record {
  name = b'p' ∷ [];
  disabled = false;
  filter = some (external_processor 5);
  base_config = none;
}

-- The routes are updated while the processor is asked.
abbrev table : ℕ → List (ℕ × List (HttpFilter parts))
table zero = (0, processor ∷ limiter ∷ []) ∷ []
table (suc w) = (0, limiter ∷ denying ∷ []) ∷ []

abbrev outside : Outside parts
outside = record {
  World = ℕ;
  consume_one = λ limit w. (true, w + 1);
  processed = λ e req w. (reroute, (req, suc w));
  route_of = λ req. some 0;
  http_filters_per_route = table;
}

-- The second round goes on behind the processor, with the filters of the new table.
new_filter_denies :
    apply_filters parts outside 3 (some 0) 0 (request, 0) ≡ responded (access_denied (b'n' ∷ []))
unfolding apply_filters run_filters apply_request apply_authorization_rules is_permitted
    enforced_policy enforce is_applicable has_principal
new_filter_denies = refl

-- A request on the open route is denied by the filter of the closed one.
open_route_denied :
    apply_filters parts outside 3 (some 0) 0 (request, 1) ≡ responded (access_denied (b'n' ∷ []))
unfolding apply_filters run_filters apply_request apply_authorization_rules is_permitted
    enforced_policy enforce is_applicable has_principal
open_route_denied = refl
