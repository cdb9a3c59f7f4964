-- ===== src/Listener/Rbac/Defs.antt =====
-- `NetworkRbac` of orion-configuration/src/config/network_filters/network_rbac.rs, and `apply_rbac` of
-- orion-lib/src/listeners/filterchain.rs. A map of policies is the list of its pairs in the order of
-- the keys. `none` around a result is a panic.
use orion.Base.{ℕ, Bool, true, false, ◌&&◌, List, [], ◌∷◌, Option, none, some, ltb, leb, ◌==◌}
use orion.Base.Decides.{or_else}
use orion.Matching.Text.Defs.{StringMatcher, matches}
use orion.Net.{SocketAddr, DownstreamConnectionMetadata, local_address, peer_address}
use orion.Listener.FilterChain.Match.{IpNet}

pub data Action : Type 0 where
  allow deny : Action

pub data Permission : Type 0 where
  any : Permission
  destination_ip : IpNet → Permission
  destination_port : ℕ → Permission
  destination_port_range : ℕ → ℕ → Permission
  server_name : StringMatcher → Permission

pub data Principal : Type 0 where
  any : Principal
  downstream_remote_ip : IpNet → Principal

pub record Policy : Type 0 where
  pub permissions : List Permission
  pub principals : List Principal

pub record NetworkRbac : Type 0 where
  pub action : Action
  pub policies : List (List ℕ × Policy)

pub record NetworkContext : Type 0 where
  pub destination : SocketAddr
  pub downstream : SocketAddr
  pub server_name : Option (List ℕ)

abbrev pub name_matches : StringMatcher → Option (List ℕ) → Option Bool
name_matches matcher none = some false
name_matches matcher (some name) = matches matcher name

unfoldable pub is_applicable : NetworkContext → Permission → Option Bool
is_applicable ctx Permission.any = some true
is_applicable ctx (destination_ip ip) = some (ip.contains ctx.destination.ip)
is_applicable ctx (destination_port port) = some (ctx.destination.port == port)
is_applicable ctx (destination_port_range start end) =
    some (leb start ctx.destination.port && ltb ctx.destination.port end)
is_applicable ctx (Permission.server_name matcher) = name_matches matcher ctx.server_name

unfoldable pub has_principal : NetworkContext → Principal → Option Bool
has_principal ctx Principal.any = some true
has_principal ctx (downstream_remote_ip ip) = some (ip.contains ctx.downstream.ip)

-- `iter().any(…)`
abbrev pub any_of : {A : Type 0} → (A → Option Bool) → List A → Option Bool
any_of test [] = some false
any_of test (x ∷ xs) = or_else (test x) (any_of test xs)

-- Both are computed before they are joined.
abbrev pub both : Option Bool → Option Bool → Option Bool
both none b = none
both (some a) none = none
both (some a) (some b) = some (a && b)

unfoldable pub enforce : NetworkContext → Policy → Option Bool
unfolding is_applicable has_principal
enforce ctx p =
    both (any_of (is_applicable ctx) p.permissions) (any_of (has_principal ctx) p.principals)

-- The first policy that is enforced, by its id.
abbrev pub found : List ℕ → Option Bool → Option (Option (List ℕ)) → Option (Option (List ℕ))
found id none later = none
found id (some true) later = some (some id)
found id (some false) later = later

unfoldable pub enforced_policy : NetworkContext → List (List ℕ × Policy) → Option (Option (List ℕ))
unfolding enforce
enforced_policy ctx [] = some none
enforced_policy ctx ((id, p) ∷ policies) = found id (enforce ctx p) (enforced_policy ctx policies)

abbrev pub permitted_by : Action → Option (List ℕ) → Bool
permitted_by allow none = false
permitted_by allow (some id) = true
permitted_by deny none = true
permitted_by deny (some id) = false

abbrev pub with_action : Action → Option (Option (List ℕ)) → Option (Bool × Option (List ℕ))
with_action action none = none
with_action action (some policy) = some (permitted_by action policy, policy)

unfoldable pub is_permitted : NetworkContext → NetworkRbac → Option (Bool × Option (List ℕ))
unfolding enforced_policy
is_permitted ctx rbac = with_action rbac.action (enforced_policy ctx rbac.policies)

-- Whether the stream is handed on: every filter permits it.
abbrev pub and_permitted : Option (Bool × Option (List ℕ)) → Option Bool → Option Bool
and_permitted none later = none
and_permitted (some (true, id)) later = later
and_permitted (some (false, id)) later = some false

unfoldable pub all_permit : NetworkContext → List NetworkRbac → Option Bool
unfolding is_permitted
all_permit ctx [] = some true
all_permit ctx (rbac ∷ rbacs) = and_permitted (is_permitted ctx rbac) (all_permit ctx rbacs)

abbrev pub network_context :
    {P K : Type 0} → DownstreamConnectionMetadata P K → Option (List ℕ) → NetworkContext
network_context metadata name = record {
  destination = local_address metadata;
  downstream = peer_address metadata;
  server_name = name;
}

unfoldable pub apply_rbac :
    {P K : Type 0}
    → List NetworkRbac
    → DownstreamConnectionMetadata P K
    → Option (List ℕ)
    → Option Bool
unfolding all_permit
apply_rbac rbacs metadata name = all_permit (network_context metadata name) rbacs
