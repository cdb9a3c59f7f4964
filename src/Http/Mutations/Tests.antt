-- ===== src/Http/Mutations/Tests.antt =====
-- A route that overwrites what its configuration adds.
use orion.Base.{ℕ, ◌≡◌, true, false, List, [], ◌∷◌}
use orion.Matching.Header.Defs.{HeaderMap}
use orion.Http.Concrete.{listed}
use orion.Http.Mutations.Defs.{
  append_if_exists_or_add, overwrite_if_exists, HeaderAppendAction, HeaderModifier, mutate_headers,
}
use orion.Http.Mutations.Names.{mutate_headers_lem}

abbrev writing : HeaderAppendAction → List ℕ → HeaderModifier
writing action value = record {
  remove = [];
  add =
      record {
        header = record { key = b'x' ∷ []; value = value };
        append_action = action;
        keep_empty_value = false;
      }
      ∷ [];
}

abbrev config : HeaderModifier
config = writing append_if_exists_or_add (b'c' ∷ [])

abbrev host : HeaderModifier
host = writing append_if_exists_or_add []

abbrev route : HeaderModifier
route = writing overwrite_if_exists (b'r' ∷ [])

abbrev headers : HeaderMap
headers = (b'x' ∷ [], b'o' ∷ []) ∷ (b'y' ∷ [], b'o' ∷ []) ∷ []

-- The host's empty value takes all values away, so that the route finds nothing to overwrite.
mutate_headers_lem_example :
    listed.values (b'x' ∷ []) (mutate_headers listed true config host route headers) ≡ []
mutate_headers_lem_example = mutate_headers_lem listed true config host route (b'x' ∷ []) headers

-- The other way round, the configuration adds its value last.
mutations_reversed :
    listed.values (b'x' ∷ []) (mutate_headers listed false config host route headers)
    ≡ (b'c' ∷ []) ∷ []
mutations_reversed = mutate_headers_lem listed false config host route (b'x' ∷ []) headers
