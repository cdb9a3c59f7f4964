-- ===== src/Http/Filters/Defs.antt =====
-- `HttpFilter`, `FilterOverride` and `per_route_http_filters`. The configuration that an external
-- processor is made of again is a parameter, and so is the test whether two route matches are equal:
-- the table is a hash map under route matches.
use orion.Base.{ℕ, Bool, List, [], ◌∷◌, ◌++◌, Option, none, some, list_eq, if◌then◌else◌, Eq}
use orion.Http.Rbac.Defs.{HttpRbac}

-- `Limit` is a rate limiter; `External` is an external processor, which is made of its configuration
-- and the settings of a route.
pub record Parts : Type 1 where
  pub Match : Type 0
  pub same : Eq Match
  pub Limit : Type 0
  pub External : Type 0
  pub Base : Type 0
  pub PerRoute : Type 0
  pub external : Base → PerRoute → External

pub data HttpFilterValue (p : Parts) : Type 0 where
  rate_limit : p.Limit → HttpFilterValue p
  rbac : HttpRbac → HttpFilterValue p
  external_processor : p.External → HttpFilterValue p
  ignored peer_metadata set_filter_state : HttpFilterValue p

-- `base_config` is what the external processor was configured with.
pub record HttpFilter (p : Parts) : Type 0 where
  pub name : List ℕ
  pub disabled : Bool
  pub filter : Option (HttpFilterValue p)
  pub base_config : Option p.Base

pub data FilterConfigOverride (p : Parts) : Type 0 where
  local_rate_limit : p.Limit → FilterConfigOverride p
  rbac_override : Option HttpRbac → FilterConfigOverride p
  external_override : p.PerRoute → FilterConfigOverride p

pub record FilterOverride (p : Parts) : Type 0 where
  pub disabled : Bool
  pub filter_settings : Option (FilterConfigOverride p)

-- What of a route the filters are made from.
pub record FilteredRoute (p : Parts) : Type 0 where
  pub route_match : p.Match
  pub typed_per_filter_config : List (List ℕ × FilterOverride p)

module _ (p : Parts) where
  abbrev pub external_of : p.PerRoute → Option p.Base → Option (HttpFilterValue p)
  external_of per_route none = none
  external_of per_route (some base) = some (external_processor (p.external base per_route))

  abbrev pub value_of : Option (FilterConfigOverride p) → Option p.Base → Option (HttpFilterValue p)
  value_of none base = none
  value_of (some (local_rate_limit limit)) base = some (rate_limit limit)
  value_of (some (rbac_override (some rules))) base = some (rbac rules)
  value_of (some (rbac_override none)) base = none
  value_of (some (external_override per_route)) base = external_of per_route base

  abbrev pub from_filter_override : FilterOverride p → Option p.Base → Option (HttpFilterValue p)
  from_filter_override o base = value_of o.filter_settings base

  -- `typed_per_filter_config.get`
  abbrev pub override_for : List ℕ → List (List ℕ × FilterOverride p) → Option (FilterOverride p)
  override_for name [] = none
  override_for name ((n, o) ∷ overrides) =
      let rest = override_for name overrides in if list_eq n name then some o else rest

  abbrev pub with_override : HttpFilter p → Option (FilterOverride p) → HttpFilter p
  with_override f none = f
  with_override f (some o) = record {
    name = f.name;
    disabled = o.disabled;
    filter = from_filter_override o f.base_config;
    base_config = f.base_config;
  }

  abbrev pub effective_filter : FilteredRoute p → HttpFilter p → HttpFilter p
  effective_filter route f = with_override f (override_for f.name route.typed_per_filter_config)

  -- `entry(…).or_default().push(…)`
  abbrev pub push_filter :
      p.Match
      → HttpFilter p
      → List (p.Match × List (HttpFilter p))
      → List (p.Match × List (HttpFilter p))
  push_filter m f [] = (m, f ∷ []) ∷ []
  push_filter m f ((k, fs) ∷ table) =
      let rest = push_filter m f table in
      if p.same.beq k m then (k, fs ++ (f ∷ [])) ∷ table else (k, fs) ∷ rest

  unfoldable pub add_route :
      FilteredRoute p
      → List (HttpFilter p)
      → List (p.Match × List (HttpFilter p))
      → List (p.Match × List (HttpFilter p))
  add_route route [] table = table
  add_route route (f ∷ filters) table =
      add_route route filters (push_filter route.route_match (effective_filter route f) table)

  unfoldable pub add_routes :
      List (HttpFilter p)
      → List (FilteredRoute p)
      → List (p.Match × List (HttpFilter p))
      → List (p.Match × List (HttpFilter p))
  unfolding add_route
  add_routes filters [] table = table
  add_routes filters (route ∷ routes) table =
      add_routes filters routes (add_route route filters table)

  unfoldable pub add_hosts :
      List (HttpFilter p)
      → List (List (FilteredRoute p))
      → List (p.Match × List (HttpFilter p))
      → List (p.Match × List (HttpFilter p))
  unfolding add_routes
  add_hosts filters [] table = table
  add_hosts filters (routes ∷ hosts) table =
      add_hosts filters hosts (add_routes filters routes table)

  -- The virtual hosts by their routes.
  unfoldable pub per_route_http_filters :
      List (List (FilteredRoute p)) → List (HttpFilter p) → List (p.Match × List (HttpFilter p))
  unfolding add_hosts
  per_route_http_filters hosts hcm_filters = add_hosts hcm_filters hosts []

  -- What `get` finds, where a missing entry is no filter.
  abbrev pub filters_for : p.Match → List (p.Match × List (HttpFilter p)) → List (HttpFilter p)
  filters_for m [] = []
  filters_for m ((k, fs) ∷ table) =
      let rest = filters_for m table in if p.same.beq k m then fs else rest
