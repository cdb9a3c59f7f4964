-- ===== src/Http/Filters/Table.antt =====
-- Which filters a request meets.
use mathlib.Core.List.{append_assoc, append-nil}
use orion.Base.{
  ◌≡◌, refl, sym, ap, ◌∙◌, Bool, true, false, List, [], ◌∷◌, ◌++◌, map, if◌then◌else◌, Bool-cases,
  inl, inr, arith,
}
use orion.Http.Filters.Defs.{
  Parts, HttpFilter, FilteredRoute, effective_filter, push_filter, add_route, add_routes, add_hosts,
  per_route_http_filters, filters_for,
}

module _ (p : Parts) where
  abbrev Filters : Type 0
  Filters = List (HttpFilter p)

  abbrev Route : Type 0
  Route = FilteredRoute p

  abbrev pub own_filters : Filters → Route → Filters
  own_filters filters route = map (effective_filter p route) filters

  -- The filters of every route that matches by the same rule, one route behind the other.
  abbrev pub filters_of_all : p.Match → Filters → List Route → Filters
  filters_of_all m filters [] = []
  filters_of_all m filters (route ∷ routes) =
      let rest = filters_of_all m filters routes in
      if p.same.beq route.route_match m then own_filters filters route ++ rest else rest

  abbrev pub all_routes : List (List Route) → List Route
  all_routes [] = []
  all_routes (routes ∷ hosts) = routes ++ all_routes hosts

  same_entry :
      (a : Bool) (fs rest : Filters) (f : HttpFilter p)
      → (if a then fs ++ (f ∷ []) else rest)
        ≡ (if a then (if a then fs else rest) ++ (f ∷ []) else if a then fs else rest)
  same_entry true fs rest f = refl
  same_entry false fs rest f = refl

  other_entry :
      (a b : Bool) (fs rest rest' : Filters) (f : HttpFilter p)
      → (a ≡ true → b ≡ false)
      → rest' ≡ (if b then rest ++ (f ∷ []) else rest)
      → (if a then fs else rest')
        ≡ (if b then (if a then fs else rest) ++ (f ∷ []) else if a then fs else rest)
  other_entry true b fs rest rest' f h e = rw (h refl) refl
  other_entry false b fs rest rest' f h e = e

  only_one_equal :
      (j k m : p.Match) → p.same.beq j k ≡ false → p.same.beq j m ≡ true → p.same.beq k m ≡ false
  only_one_equal j k m n e = elim (Bool-cases (p.same.beq k m)) [
    | inl same ↦
        let jk : p.same.beq j k ≡ true =
          (p.same.beq_iff j k).1 ((p.same.beq_iff j m).0 e ∙ sym ((p.same.beq_iff k m).0 same)) in
        absurd (ground arith)
    | inr h ↦ h
  ]

  filters_for-push_filter :
      (m k : p.Match) (f : HttpFilter p) (table : List (p.Match × Filters))
      → filters_for p m (push_filter p k f table)
        ≡ (if p.same.beq k m then filters_for p m table ++ (f ∷ []) else filters_for p m table)
  filters_for-push_filter m k f [] = refl
  filters_for-push_filter m k f ((j, fs) ∷ table) = elim (Bool-cases (p.same.beq j k)) [
    | inl e ↦
        rw (e, sym ((p.same.beq_iff j k).0 e))
          (same_entry (p.same.beq j m) fs (filters_for p m table) f)
    | inr n ↦ rw n (
        other_entry (p.same.beq j m) (p.same.beq k m) fs (filters_for p m table)
          (filters_for p m (push_filter p k f table)) f (only_one_equal j k m n)
          (filters_for-push_filter m k f table))
  ]

  step :
      (b : Bool) (old rest : Filters) (f : HttpFilter p)
      → (if b
          then (if b then old ++ (f ∷ []) else old) ++ rest
          else if b
          then old ++ (f ∷ [])
          else old)
        ≡ (if b then old ++ (f ∷ rest) else old)
  step true old rest f = append_assoc old (f ∷ []) rest
  step false old rest f = refl

  nothing_added : (b : Bool) (old : Filters) → old ≡ (if b then old ++ [] else old)
  nothing_added true old = sym (append-nil old)
  nothing_added false old = refl

  filters_for-add_route :
      (m : p.Match) (route : Route) (filters : Filters) (table : List (p.Match × Filters))
      → filters_for p m (add_route p route filters table) ≡ (
          if p.same.beq route.route_match m
          then filters_for p m table ++ own_filters filters route
          else filters_for p m table)
  unfolding add_route
  filters_for-add_route m route [] table =
      nothing_added (p.same.beq route.route_match m) (filters_for p m table)
  filters_for-add_route m route (f ∷ filters) table =
      filters_for-add_route m route filters
        (push_filter p route.route_match (effective_filter p route f) table)
      ∙ ap
          (λ (fs : Filters).
            if p.same.beq route.route_match m then fs ++ own_filters filters route else fs)
          (filters_for-push_filter m route.route_match (effective_filter p route f) table)
      ∙ step (p.same.beq route.route_match m) (filters_for p m table) (own_filters filters route)
          (effective_filter p route f)

  regroup :
      (b : Bool) (old own rest : Filters)
      → (if b then old ++ own else old) ++ rest ≡ old ++ (if b then own ++ rest else rest)
  regroup true old own rest = append_assoc old own rest
  regroup false old own rest = refl

  filters_for-add_routes :
      (m : p.Match) (filters : Filters) (routes : List Route) (table : List (p.Match × Filters))
      → filters_for p m (add_routes p filters routes table)
        ≡ filters_for p m table ++ filters_of_all m filters routes
  unfolding add_routes
  filters_for-add_routes m filters [] table = sym (append-nil (filters_for p m table))
  filters_for-add_routes m filters (route ∷ routes) table =
      filters_for-add_routes m filters routes (add_route p route filters table)
      ∙ ap (λ (fs : Filters). fs ++ filters_of_all m filters routes)
          (filters_for-add_route m route filters table)
      ∙ regroup (p.same.beq route.route_match m) (filters_for p m table) (own_filters filters route)
          (filters_of_all m filters routes)

  prepend :
      (b : Bool) (own rest more : Filters)
      → (if b then own ++ (rest ++ more) else rest ++ more)
        ≡ (if b then own ++ rest else rest) ++ more
  prepend true own rest more = sym (append_assoc own rest more)
  prepend false own rest more = refl

  filters_of_all-append :
      (m : p.Match) (filters : Filters) (routes others : List Route)
      → filters_of_all m filters (routes ++ others)
        ≡ filters_of_all m filters routes ++ filters_of_all m filters others
  filters_of_all-append m filters [] others = refl
  filters_of_all-append m filters (route ∷ routes) others =
      ap
        (λ (fs : Filters).
          if p.same.beq route.route_match m then own_filters filters route ++ fs else fs)
        (filters_of_all-append m filters routes others)
      ∙ prepend (p.same.beq route.route_match m) (own_filters filters route)
          (filters_of_all m filters routes) (filters_of_all m filters others)

  filters_for-add_hosts :
      (m : p.Match) (filters : Filters) (hosts : List (List Route))
      (table : List (p.Match × Filters))
      → filters_for p m (add_hosts p filters hosts table)
        ≡ filters_for p m table ++ filters_of_all m filters (all_routes hosts)
  unfolding add_hosts
  filters_for-add_hosts m filters [] table = sym (append-nil (filters_for p m table))
  filters_for-add_hosts m filters (routes ∷ hosts) table =
      filters_for-add_hosts m filters hosts (add_routes p filters routes table)
      ∙ ap (λ (fs : Filters). fs ++ filters_of_all m filters (all_routes hosts))
          (filters_for-add_routes m filters routes table)
      ∙ append_assoc (filters_for p m table) (filters_of_all m filters routes)
          (filters_of_all m filters (all_routes hosts))
      ∙ ap (◌++◌ (filters_for p m table))
          (sym (filters_of_all-append m filters routes (all_routes hosts)))

  -- A request on a route meets the filters of every route of every virtual host that has an equal
  -- match, each with its own overrides, one route behind the other: not those of its own route alone.
  pub per_route_http_filters_lem :
      (m : p.Match) (hosts : List (List Route)) (filters : Filters)
      → filters_for p m (per_route_http_filters p hosts filters)
        ≡ filters_of_all m filters (all_routes hosts)
  unfolding per_route_http_filters
  per_route_http_filters_lem m hosts filters = filters_for-add_hosts m filters hosts []
