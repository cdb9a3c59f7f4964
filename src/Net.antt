-- ===== src/Net.antt =====
-- Addresses, and the metadata of a downstream connection
-- (orion-lib/src/listeners/filter_state.rs). An address is the number that its bytes spell.
use orion.Base.{ℕ, List, Option, none, some}

pub data IpAddr : Type 0 where
  v4 v6 : ℕ → IpAddr

pub record SocketAddr : Type 0 where
  pub ip : IpAddr
  pub port : ℕ

-- `Protocol` is the type of the crate `ppp`, and `TlvKey` its TLV type. A map is a list of pairs.
pub data DownstreamConnectionMetadata (Protocol TlvKey : Type 0) : Type 0 where
  socket :
      SocketAddr → SocketAddr → Option SocketAddr → DownstreamConnectionMetadata Protocol TlvKey
  proxy_protocol :
      SocketAddr
      → SocketAddr
      → Protocol
      → List (TlvKey × List ℕ)
      → SocketAddr
      → SocketAddr
      → DownstreamConnectionMetadata Protocol TlvKey
  tlv :
      SocketAddr
      → List (ℕ × List ℕ)
      → SocketAddr
      → SocketAddr
      → DownstreamConnectionMetadata Protocol TlvKey

module _ {Protocol TlvKey : Type 0} where
  abbrev pub peer_address : DownstreamConnectionMetadata Protocol TlvKey → SocketAddr
  peer_address (socket peer local original) = peer
  peer_address (proxy_protocol peer destination protocol tlvs proxy_peer proxy_local) = peer
  peer_address (tlv destination tlvs proxy_peer proxy_local) = proxy_peer

  abbrev pub local_address : DownstreamConnectionMetadata Protocol TlvKey → SocketAddr
  local_address (socket peer local original) = local
  local_address (proxy_protocol peer destination protocol tlvs proxy_peer proxy_local) = destination
  local_address (tlv destination tlvs proxy_peer proxy_local) = destination

  abbrev pub original_destination_address :
      DownstreamConnectionMetadata Protocol TlvKey → SocketAddr
  original_destination_address (socket peer local (some destination)) = destination
  original_destination_address (socket peer local none) = local
  original_destination_address
        (proxy_protocol peer destination protocol tlvs proxy_peer proxy_local) =
      destination
  original_destination_address (tlv destination tlvs proxy_peer proxy_local) = destination
