-- ===== src/Http/Rbac/Defs.antt =====
-- `HttpRbac` of orion-configuration/src/config/network_filters/http_connection_manager/http_filters/http_rbac.rs.
-- A map of policies is the list of its pairs in the order of the keys. `none` around a result is a
-- panic.
use orion.Base.{ℕ, Bool, true, List, [], ◌∷◌, Option, none, some}
use orion.Matching.Header.Defs.{HeaderMatcher, Request, request_matches}
use orion.Listener.Rbac.Defs.{Action, any_of, both, found, with_action}

pub data Permission : Type 0 where
  any : Permission
  header : HeaderMatcher → Permission

pub data Principal : Type 0 where
  any : Principal
  header : HeaderMatcher → Principal

pub record Policy : Type 0 where
  pub permissions : List Permission
  pub principals : List Principal

pub record HttpRbac : Type 0 where
  pub action : Action
  pub policies : List (List ℕ × Policy)

unfoldable pub is_applicable : Request → Permission → Option Bool
unfolding request_matches
is_applicable req Permission.any = some true
is_applicable req (Permission.header h) = request_matches h req

unfoldable pub has_principal : Request → Principal → Option Bool
unfolding request_matches
has_principal req Principal.any = some true
has_principal req (Principal.header h) = request_matches h req

unfoldable pub enforce : Request → Policy → Option Bool
unfolding is_applicable has_principal
enforce req p =
    both (any_of (is_applicable req) p.permissions) (any_of (has_principal req) p.principals)

unfoldable pub enforced_policy : Request → List (List ℕ × Policy) → Option (Option (List ℕ))
unfolding enforce
enforced_policy req [] = some none
enforced_policy req ((id, p) ∷ policies) = found id (enforce req p) (enforced_policy req policies)

unfoldable pub is_permitted : Request → HttpRbac → Option (Bool × Option (List ℕ))
unfolding enforced_policy
is_permitted req rbac = with_action rbac.action (enforced_policy req rbac.policies)
