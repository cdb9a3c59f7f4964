-- ===== src/Http/Tests.antt =====
-- Requests through a proxy at the edge and one behind it.
use orion.Base.{ℕ, ◌≡◌, refl, true, false, List, [], ◌∷◌, Option, some}
use orion.Net.{v4, SocketAddr}
use orion.Matching.Header.Defs.{HeaderMap}
use orion.Http.Headers.{
  connection, upgrade, x_forwarded_for, x_envoy_external_address, x_envoy_internal,
}
use orion.Http.Concrete.{listed, binary}
use orion.Http.Preflight.Defs.{apply_preflight_functions}
use orion.Http.Preflight.Stripped.{Handled, apply_preflight_functions_lem}
use orion.Http.Forwarded.Defs.{
  XffSettings, xff_ips, determine_trusted_client_address, append_hop_to_xff, parse_all, split, trim,
  trim_start, trim_end,
}
use orion.Http.Forwarded.Process.{existing_xff, process_xff_headers}
use orion.Http.Forwarded.Trusted.{determine_trusted_client_address_lem}
use orion.Http.Forwarded.Chain.{append_all, trusted_through_chain}
use orion.Http.Forwarded.Edge.{external_is_marked}

-- 8.8.8.8, and two addresses that are small.
abbrev external_peer : SocketAddr
external_peer = record { ip = v4 0x08080808; port = 443 }

abbrev edge_settings : XffSettings
edge_settings = record {
  use_remote_address = true;
  skip_xff_append = false;
  xff_num_trusted_hops = 0;
}

abbrev inner_settings : XffSettings
inner_settings = record {
  use_remote_address = false;
  skip_xff_append = false;
  xff_num_trusted_hops = 1;
}

-- Two lines, of which the second is 401, and a claim of being internal.
abbrev two_lines : HeaderMap
two_lines =
    (x_forwarded_for, b'4' ∷ b'1' ∷ b',' ∷ b'x' ∷ [])
    ∷ (x_envoy_internal, b't' ∷ b'r' ∷ b'u' ∷ b'e' ∷ [])
    ∷ (x_forwarded_for, b'4' ∷ b'0' ∷ b'1' ∷ [])
    ∷ []

abbrev written : Option (List ℕ)
written = some (b'4' ∷ b'1' ∷ b',' ∷ b'x' ∷ [])

second_line_unseen : existing_xff listed two_lines ≡ written
second_line_unseen = refl

read_addresses : xff_ips binary written ≡ v4 1 ∷ []
unfolding xff_ips parse_all split trim trim_start trim_end
read_addresses = refl

determine_trusted_client_address_lem_example :
    determine_trusted_client_address binary written external_peer inner_settings
    ≡ some (v4 0x08080808, false)
unfolding xff_ips parse_all split trim trim_start trim_end
determine_trusted_client_address_lem_example =
    determine_trusted_client_address_lem binary written external_peer inner_settings

trusted_through_chain_example :
    determine_trusted_client_address binary
      (append_all binary written (v4 7 ∷ v4 9 ∷ []))
      external_peer
      inner_settings
    ≡ some (v4 7, false)
trusted_through_chain_example =
    trusted_through_chain binary written (v4 7) (v4 9 ∷ []) external_peer inner_settings refl

external_is_marked_example :
    (m' : HeaderMap) × (process_xff_headers listed binary external_peer edge_settings two_lines
      ≡ some m')
    × (listed.values x_envoy_internal m' ≡ [])
    × (listed.values x_envoy_external_address m' ≡ binary.to_string (v4 0x08080808) ∷ [])
    × (listed.values x_forwarded_for m' ≡ append_hop_to_xff binary written (v4 0x08080808) ∷ [])
external_is_marked_example = external_is_marked listed binary external_peer false 0 two_lines refl

apply_preflight_functions_lem_example :
    Handled listed (b'G' ∷ b'E' ∷ b'T' ∷ []) ((connection, upgrade) ∷ two_lines) x_forwarded_for (
      apply_preflight_functions listed
        (b'G' ∷ b'E' ∷ b'T' ∷ [])
        ((connection, upgrade) ∷ two_lines))
apply_preflight_functions_lem_example =
    apply_preflight_functions_lem listed (b'G' ∷ b'E' ∷ b'T' ∷ [])
      ((connection, upgrade) ∷ two_lines) x_forwarded_for
