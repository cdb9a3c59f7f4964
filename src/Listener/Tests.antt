-- ===== src/Listener/Tests.antt =====
-- A selection among three chains.
use mathlib.Core.List.{Permᴰ}
use orion.Base.{ℕ, ◌==◌, ◌≡◌, refl, false, List, [], ◌∷◌, none, some}
use orion.Base.Decides.{Decides}
use orion.Net.{v4, v6, SocketAddr, DownstreamConnectionMetadata, socket}
use orion.Listener.Rbac.Defs.{
  NetworkRbac, deny, destination_port_range, downstream_remote_ip, network_context, apply_rbac,
}
use orion.Listener.Rbac.Meaning.{Permits, apply_rbac_lem}
use orion.Listener.FilterChain.Match.{
  FilterChainMatch, IpNet, ssl, matches_destination_port, matches_destination_ip,
  matches_server_name, matches_detected_transport_protocol, matches_source_ip, matches_source_port,
  maximum,
}
use orion.Listener.FilterChain.Select.{
  selected, select, select_filterchain, match_all, match_subitem, initial, possible_chains, scan,
  trim, best_match,
}
use orion.Listener.FilterChain.Outcome.{
  Outcome, Winner, select_filterchain_lem, select_filterchain-perm,
}

-- A chain for a port or for any, with the names of its networks.
abbrev any_port : FilterChainMatch
any_port = record {
  destination_port = none;
  destination_prefix_ranges = [];
  server_names = [];
  source_prefix_ranges = [];
  source_ports = [];
  transport_protocol = [];
}

abbrev for_port : ℕ → FilterChainMatch
for_port p = record any_port { destination_port = some p }

abbrev chains : List (FilterChainMatch × ℕ)
chains = (any_port, 0) ∷ (for_port 443, 1) ∷ (for_port 80, 2) ∷ []

abbrev swapped : List (FilterChainMatch × ℕ)
swapped = (for_port 443, 1) ∷ (any_port, 0) ∷ (for_port 80, 2) ∷ []

abbrev client : SocketAddr
client = record { ip = v4 1; port = 5000 }

abbrev server : SocketAddr
server = record { ip = v4 2; port = 443 }

-- The chain for port 443 is the one.
port_wins : select_filterchain chains client server none ssl ≡ selected (for_port 443, 1)
unfolding select_filterchain select match_all match_subitem initial possible_chains scan trim
    best_match matches_destination_port matches_destination_ip matches_server_name
    matches_detected_transport_protocol matches_source_ip matches_source_port maximum
port_wins = refl

select_filterchain_lem_example :
    Outcome chains
      (Winner client server none ssl chains)
      (select_filterchain chains client server none ssl)
select_filterchain_lem_example = select_filterchain_lem client server none ssl chains

select_filterchain-perm_example :
    select_filterchain chains client server none ssl
    ≡ select_filterchain swapped client server none ssl
select_filterchain-perm_example =
    select_filterchain-perm client server none ssl chains swapped (Permᴰ.swap refl refl)

-- Deny all that comes from address 1.
abbrev from_client : IpNet
from_client = record { contains = λ a. elim a [ v4 n ↦ n == 1 | v6 n ↦ false ]; prefix_len = 32 }

abbrev rule : NetworkRbac
rule = record {
  action = deny;
  policies =
      (
        [],
        record {
          permissions = destination_port_range 400 500 ∷ [];
          principals = downstream_remote_ip from_client ∷ [];
        },
      )
      ∷ [];
}

abbrev connection : DownstreamConnectionMetadata ℕ ℕ
connection = socket client server none

apply_rbac_lem_example :
    Decides
      (apply_rbac (rule ∷ []) connection none)
      (Permits (network_context connection none) deny rule.policies × Unit {0})
apply_rbac_lem_example = apply_rbac_lem (rule ∷ []) connection none tt
