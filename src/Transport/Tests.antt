-- ===== src/Transport/Tests.antt =====
-- Streams that exercise the filters.
use orion.Base.{ℕ, ◌≡◌, refl, true, List, [], ◌∷◌, ◌++◌, none, arith, replicate}
use orion.Net.{v4, SocketAddr, socket, tlv}
use orion.Transport.Stream.Defs.{arrive, Stream, flat}
use orion.Transport.Tlv.Defs.{default, new}
use orion.Transport.Tlv.Process.{accepted, rejected, process_stream, read_and_parse_tlv, rounds}
use orion.Transport.Tlv.Total.{Ends, read_and_parse_tlv_total}
use orion.Transport.Tlv.Packet.{ipv4_address, ipv4_packet, Refused-header}
use orion.Transport.ProxyProtocol.Defs.{
  apply_policy, Ppp, DownstreamProxyProtocolConfig, v2_error, detected_none,
}
use orion.Transport.ProxyProtocol.Header.{read_exact, read_header_bytes, panicked}
use orion.Transport.ProxyProtocol.Metadata.{served, try_read_proxy_header}
use orion.Transport.ProxyProtocol.Reading.{v2_header_read}
use orion.Transport.ProxyProtocol.Conserving.{passthrough_keeps_stream}

abbrev local : SocketAddr
local = record { ip = v4 0x7f000001; port = 9000 }

abbrev peer : SocketAddr
peer = record { ip = v4 0x0a000001; port = 40000 }

-- 10.0.0.2:8080, and the end marker.
abbrev address_bytes : List ℕ
address_bytes = 1 ∷ 0 ∷ 0 ∷ 0 ∷ 6 ∷ 10 ∷ 0 ∷ 0 ∷ 2 ∷ 31 ∷ 144 ∷ 0xfe ∷ []

abbrev packet : Stream
packet = arrive address_bytes ∷ arrive (0 ∷ 0 ∷ 0 ∷ 0 ∷ 72 ∷ []) ∷ []

read_and_parse_tlv_total_example : Ends 256 (read_and_parse_tlv (rounds 256) (new 256) packet)
read_and_parse_tlv_total_example = read_and_parse_tlv_total 256 packet

ipv4_packet_example :
    (s' : Stream) × (process_stream {Protocol = ℕ} {TlvKey = ℕ} default packet local peer
      ≡ accepted s' (tlv (ipv4_address 10 0 0 2 31 144) [] peer local))
    × (flat s' ≡ 0 ∷ 0 ∷ 0 ∷ 0 ∷ 72 ∷ [])
ipv4_packet_example =
    ipv4_packet ℕ ℕ packet local peer 10 0 0 2 31 144 (0 ∷ 0 ∷ 0 ∷ 0 ∷ 72 ∷ [])
      (omega arith, (omega arith, tt)) refl

Refused-header_example :
    process_stream {Protocol = ℕ} {TlvKey = ℕ} default
      (arrive (2 ∷ 0 ∷ 0 ∷ []) ∷ arrive (0 ∷ 1 ∷ 7 ∷ []) ∷ [])
      local
      peer
    ≡ rejected
Refused-header_example =
    Refused-header ℕ ℕ (arrive (2 ∷ 0 ∷ 0 ∷ []) ∷ arrive (0 ∷ 1 ∷ 7 ∷ []) ∷ []) local peer 2 0 0 0 1
      (7 ∷ []) (omega arith, (omega arith, tt)) refl (ground arith)

-- The prefixes of the protocol, and a parser that finds no header.
abbrev ppp : Ppp
ppp = record {
  Protocol = ℕ;
  stream = 0;
  v1_prefix = b'P' ∷ b'R' ∷ b'O' ∷ b'X' ∷ b'Y' ∷ [];
  v2_prefix = 13 ∷ 10 ∷ 13 ∷ 10 ∷ 0 ∷ 13 ∷ 10 ∷ 81 ∷ 85 ∷ 73 ∷ 84 ∷ 10 ∷ [];
  parse = λ bs. v2_error;
}

-- A header that states 512 bytes behind its fixed part.
abbrev long_header : List ℕ
long_header = ppp.v2_prefix ++ (0x21 ∷ 0x11 ∷ 2 ∷ 0 ∷ replicate 512 7)

v2_header_read_example : read_header_bytes ppp long_header ≡ panicked
v2_header_read_example = v2_header_read ppp long_header (omega arith) refl refl 512 refl

abbrev get_request : List ℕ
get_request =
    b'G' ∷ b'E' ∷ b'T' ∷ b' ' ∷ b'/' ∷ b' ' ∷ b'H' ∷ b'T' ∷ b'T' ∷ b'P' ∷ b'/' ∷ b'1' ∷ b'.' ∷ b'1'
    ∷ 13 ∷ 10 ∷ []

abbrev lenient : DownstreamProxyProtocolConfig
lenient = record {
  allow_requests_without_proxy_protocol = true;
  disallowed_versions = [];
  pass_through_tlvs = none;
}

passthrough_keeps_stream_example :
    try_read_proxy_header ppp lenient get_request local peer
    ≡ served (socket peer local none) get_request
unfolding read_header_bytes read_exact apply_policy
passthrough_keeps_stream_example =
    passthrough_keeps_stream ppp lenient get_request local peer detected_none get_request [] refl
      refl
