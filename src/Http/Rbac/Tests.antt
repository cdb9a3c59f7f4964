-- ===== src/Http/Rbac/Tests.antt =====
-- A rule about a header.
use orion.Base.{ℕ, ◌≡◌, ◌↔◌, Bool, true, false, Option, List, [], ◌∷◌, none, some, arith}
use orion.Matching.Text.Defs.{containing}
use orion.Matching.Header.Defs.{HeaderMatcher, normal_header, Request}
use orion.Listener.Rbac.Defs.{allow}
use orion.Http.Rbac.Defs.{Permission, Principal, HttpRbac, is_permitted}
use orion.Http.Rbac.First.{First, Permits, is_permitted_lem}

abbrev with_token : HeaderMatcher
with_token = record {
  header_name = normal_header (b'x' ∷ []);
  invert_match = false;
  treat_missing_header_as_empty = false;
  header_matcher = record { ignore_case = false; pattern = containing (b't' ∷ []) };
}

abbrev rules : HttpRbac
rules = record {
  action = allow;
  policies =
      (
        b'a' ∷ [],
        record { permissions = Permission.header with_token ∷ []; principals = Principal.any ∷ [] },
      )
      ∷ [];
}

abbrev request : Request
request = record {
  method = b'G' ∷ [];
  uri = record { path = b'/' ∷ []; scheme = none; host = none; query = none };
  headers = (b'x' ∷ [], b't' ∷ []) ∷ [];
}

is_permitted_lem_example :
    (b : Bool) × (o : Option (List ℕ)) × First request rules.policies o
    × (is_permitted request rules ≡ some (b, o))
    × ((b ≡ true) ↔ Permits request allow rules.policies)
is_permitted_lem_example = is_permitted_lem request rules ((omega arith, tt), (omega arith, tt), tt)
