-- ===== src/Transport/ProxyProtocol/Metadata.antt =====
-- From a header to the metadata of the connection: `extract_metadata` and `try_read_proxy_header` of
-- orion-lib/src/transport/proxy_protocol.rs.
use orion.Base.{
  ℕ, ◌-◌, Bool, true, List, [], ◌∷◌, ◌++◌, Option, none, some, length, replicate, any,
  if◌then◌else◌,
}
use orion.Transport.ProxyProtocol.Defs.{
  read_buffer_len, TlvType, tlv_type_of, tlv_type_eq, ProxyProtocolPassThroughTlvs,
  DownstreamProxyProtocolConfig, Endpoints, V1Addresses, V2Addresses, HeaderResult, Ppp,
  DetectedHeader, PolicyAction, ReadError, apply_policy, include_all, include, tcp4, tcp6, unknown,
  ipv4, ipv6, unix, unspecified, v1_header, v1_error, v2_header, v2_error, detected_v1, detected_v2,
  detected_none, proceed, reject, transparent_passthrough, policy, unix_unsupported, v1_malformed,
  v2_malformed,
}
use orion.Net.{IpAddr, v4, v6, SocketAddr, DownstreamConnectionMetadata, socket, proxy_protocol}
use orion.Transport.Stream.Defs.{put_back}
use orion.Transport.Rewind.Defs.{
  RewindableHeadAsyncStream, head_buffering_read_only_mode, into_stream, into_rewound_stream,
}
use orion.Transport.Rewind.Replay.{bytes, left}
use orion.Transport.ProxyProtocol.Header.{HeaderRead, detected, failed, panicked, read_header_bytes}

-- The addresses of a parsed header: source and destination, none, or a kind that is an error.
pub data Found : Type 0 where
  pair : SocketAddr → SocketAddr → Found
  no_addresses not_supported : Found

abbrev endpoints : (ℕ → IpAddr) → Endpoints → Found
endpoints ip e =
    pair (record { ip = ip e.source_address; port = e.source_port })
      (record { ip = ip e.destination_address; port = e.destination_port })

abbrev pub v1_addresses : V1Addresses → Found
v1_addresses (tcp4 e) = endpoints v4 e
v1_addresses (tcp6 e) = endpoints v6 e
v1_addresses unknown = no_addresses

abbrev pub v2_addresses : V2Addresses → Found
v2_addresses (ipv4 e) = endpoints v4 e
v2_addresses (ipv6 e) = endpoints v6 e
v2_addresses unix = not_supported
v2_addresses unspecified = no_addresses

-- A map from TLV types, as a list with one pair for each key.
abbrev pub TlvMap : Type 0
TlvMap = List (TlvType × List ℕ)

unfoldable pub insert : TlvType → List ℕ → TlvMap → TlvMap
insert k v [] = (k, v) ∷ []
insert k v ((j, w) ∷ m) = if tlv_type_eq j k then (k, v) ∷ m else (j, w) ∷ insert k v m

abbrev pub should_pass_through : ProxyProtocolPassThroughTlvs → TlvType → Bool
should_pass_through config tlv_type = elim config.match_type [
  | include_all ↦ true
  | include ↦ any (tlv_type_eq tlv_type) config.tlv_types
]

-- The loop over `header.tlvs().flatten()`.
unfoldable pub pass_tlvs :
    ProxyProtocolPassThroughTlvs → List (Option (ℕ × List ℕ)) → TlvMap → TlvMap
unfolding insert
pass_tlvs config [] data_map = data_map
pass_tlvs config (none ∷ tlvs) data_map = pass_tlvs config tlvs data_map
pass_tlvs config (some (kind, value) ∷ tlvs) data_map = pass_tlvs config tlvs (
    if should_pass_through config (tlv_type_of kind)
    then insert (tlv_type_of kind) value data_map
    else data_map)

abbrev pub tlv_data : Option ProxyProtocolPassThroughTlvs → List (Option (ℕ × List ℕ)) → TlvMap
tlv_data none tlvs = []
tlv_data (some config) tlvs = pass_tlvs config tlvs []

module _ (ppp : Ppp) where
  abbrev pub Metadata : Type 0
  Metadata = DownstreamConnectionMetadata ppp.Protocol TlvType

  -- The metadata of an accepted connection with what is left of its stream, an error, or a panic.
  pub data Served : Type 0 where
    served : Metadata → List ℕ → Served
    refused : ReadError → Served
    crashed : Served

  pub data Extracted : Type 0 where
    metadata : Metadata → Extracted
    bad_header : ReadError → Extracted

  found_metadata : ppp.Protocol → TlvMap → SocketAddr → SocketAddr → Found → Extracted
  found_metadata protocol tlvs peer local (pair source destination) =
      metadata (proxy_protocol source destination protocol tlvs peer local)
  found_metadata protocol tlvs peer local no_addresses = metadata (socket peer local none)
  found_metadata protocol tlvs peer local not_supported = bad_header unix_unsupported

  unfoldable pub extract_metadata :
      DownstreamProxyProtocolConfig
      → HeaderResult ppp.Protocol
      → SocketAddr
      → SocketAddr
      → Extracted
  unfolding found_metadata
  extract_metadata config (v1_header addresses) peer local =
      found_metadata ppp.stream [] peer local (v1_addresses addresses)
  extract_metadata config v1_error peer local = bad_header v1_malformed
  extract_metadata config (v2_header protocol addresses tlvs) peer local =
      found_metadata protocol (tlv_data config.pass_through_tlvs tlvs) peer local
        (v2_addresses addresses)
  extract_metadata config v2_error peer local = bad_header v2_malformed

  -- The whole array: what was read, and zeros.
  abbrev pub padded : List ℕ → List ℕ
  padded bs = bs ++ replicate (read_buffer_len - length bs) 0

  abbrev pub buffered_data : DetectedHeader → List ℕ → List ℕ
  buffered_data (detected_v2 (some extra)) bs = extra
  buffered_data (detected_v2 none) bs = padded bs
  buffered_data detected_v1 bs = padded bs
  buffered_data detected_none bs = padded bs

  with_rest : List ℕ → Extracted → Served
  with_rest rest (metadata m) = served m rest
  with_rest rest (bad_header e) = refused e

  -- The rewindable stream, once the header has been read.
  abbrev pub consumed : List ℕ → List ℕ → RewindableHeadAsyncStream
  consumed bs rest = head_buffering_read_only_mode (put_back rest []) bs

  -- What is served are the bytes that the stream handed on still gives.
  unfoldable pub serve :
      DownstreamProxyProtocolConfig
      → SocketAddr
      → SocketAddr
      → DetectedHeader
      → List ℕ
      → List ℕ
      → PolicyAction
      → Served
  unfolding with_rest extract_metadata
  serve config local peer header bs rest reject = refused policy
  serve config local peer header bs rest transparent_passthrough =
      served (socket peer local none) (bytes (left (into_rewound_stream (consumed bs rest))))
  serve config local peer header bs rest proceed =
      with_rest (bytes (into_stream (consumed bs rest)))
        (extract_metadata config (ppp.parse (buffered_data header bs)) peer local)

  unfoldable pub serve_read :
      DownstreamProxyProtocolConfig → SocketAddr → SocketAddr → HeaderRead → Served
  unfolding serve apply_policy
  serve_read config local peer (detected header bs rest) =
      serve config local peer header bs rest (apply_policy config header)
  serve_read config local peer (failed e) = refused e
  serve_read config local peer panicked = crashed

  unfoldable pub try_read_proxy_header :
      DownstreamProxyProtocolConfig → List ℕ → SocketAddr → SocketAddr → Served
  unfolding serve_read read_header_bytes
  try_read_proxy_header config s local peer = serve_read config local peer (read_header_bytes ppp s)
