-- ===== src/Transport/Tlv/Defs.antt =====
-- orion-lib/src/transport/tlv_listener_filter.rs. `usize` is unbounded here: every length is at
-- most the limit and a few bytes more (`Tlv.Total`). An index past the end of the buffer panics.
use orion.Base.{ℕ, ◌+◌, Bool, ◌||◌, List, [], Option, none, some, length, ltb, ◌==◌, if◌then◌else◌}
use orion.Net.{IpAddr, v4, v6, SocketAddr}
use orion.Transport.Stream.Defs.{from_be, slice}

abbrev pub tlv_type_len : ℕ
tlv_type_len = 1

abbrev pub tlv_length_len : ℕ
tlv_length_len = 4

abbrev pub tlv_type_service_address : ℕ
tlv_type_service_address = 0x1

abbrev pub tlv_type_ending : ℕ
tlv_type_ending = 0xfe

abbrev pub tlv_type_service_address_ipv4_len : ℕ
tlv_type_service_address_ipv4_len = 6

abbrev pub tlv_type_service_address_ipv6_len : ℕ
tlv_type_service_address_ipv6_len = 18

abbrev pub max_tlv_length : ℕ
max_tlv_length = 256

pub data TlvParseState : Type 0 where
  type_and_length content : TlvParseState

pub data ReadOrParseState : Type 0 where
  done error skip_filter : ReadOrParseState

pub record TlvListenerFilter : Type 0 where
  pub state : TlvParseState
  pub expected_length : ℕ
  pub index : ℕ
  pub content_length : ℕ
  pub max_length : ℕ
  pub buffer : List ℕ

unfoldable pub new : ℕ → TlvListenerFilter
new max_length = record {
  state = type_and_length;
  expected_length = tlv_type_len + tlv_length_len;
  index = 0;
  content_length = 0;
  max_length = max_length;
  buffer = [];
}

-- `TlvListenerFilter::default()`, the one that a listener uses.
unfoldable pub default : TlvListenerFilter
unfolding new
default = new max_tlv_length

-- `none` is the error "not enough data".
unfoldable pub read_u32_be : List ℕ → ℕ → Option ℕ
read_u32_be buffer offset =
    if ltb (length buffer) (offset + 4) then none else some (from_be (slice buffer offset 4) 0)

unfoldable pub read_u16_be : List ℕ → ℕ → Option ℕ
read_u16_be buffer offset =
    if ltb (length buffer) (offset + 2) then none else some (from_be (slice buffer offset 2) 0)

unfoldable pub validate_service_address_length : ℕ → Bool
validate_service_address_length content_length =
    content_length == tlv_type_service_address_ipv4_len
    || content_length == tlv_type_service_address_ipv6_len

abbrev address : IpAddr → Option ℕ → Option SocketAddr
address ip none = none
address ip (some port) = some (record { ip = ip; port = port })

unfoldable pub parse_ipv4_address : List ℕ → ℕ → Option SocketAddr
unfolding read_u16_be
parse_ipv4_address buffer content_start =
    if ltb (length buffer) (content_start + 6)
    then none
    else address (v4 (from_be (slice buffer content_start 4) 0))
        (read_u16_be buffer (content_start + 4))

unfoldable pub parse_ipv6_address : List ℕ → ℕ → Option SocketAddr
unfolding read_u16_be
parse_ipv6_address buffer content_start =
    if ltb (length buffer) (content_start + 18)
    then none
    else address (v6 (from_be (slice buffer content_start 16) 0))
        (read_u16_be buffer (content_start + 16))

-- Where the bytes of the header are not there yet, only the expectation grows.
abbrev await_header : TlvListenerFilter → TlvListenerFilter
await_header f = record f { expected_length = f.index + tlv_type_len + tlv_length_len }

abbrev header_missing : TlvListenerFilter → Bool
header_missing f = ltb f.expected_length (f.index + tlv_type_len + tlv_length_len)

service_address_content : TlvListenerFilter → ℕ → TlvListenerFilter × ReadOrParseState
unfolding validate_service_address_length
service_address_content f content_length =
    let f' = record f {
      expected_length = f.index + tlv_type_len + tlv_length_len + content_length;
    } in
    if validate_service_address_length content_length
    then if ltb f.max_length f'.expected_length then (f', error) else (
      record f' {
        content_length = content_length;
        index = f.index + (tlv_type_len + tlv_length_len);
        state = content;
      },
      done,
    )
    else (f, error)

unfoldable pub process_service_address_tlv :
    TlvListenerFilter → TlvListenerFilter × ReadOrParseState
unfolding read_u32_be service_address_content
process_service_address_tlv f =
    if header_missing f
    then (await_header f, done)
    else (elim (read_u32_be f.buffer (f.index + 1)) [
      | none ↦ (f, error)
      | some content_length ↦ service_address_content f content_length
    ])

unfoldable pub process_ending_tlv : TlvListenerFilter → TlvListenerFilter × ReadOrParseState
unfolding read_u32_be
process_ending_tlv f =
    if header_missing f
    then (await_header f, done)
    else (elim (read_u32_be f.buffer (f.index + 1)) [
      | none ↦ (f, error)
      | some end_length ↦ if end_length == 0 then (f, done) else (f, error)
    ])

unfoldable pub process_tlv_content : TlvListenerFilter → TlvListenerFilter × ReadOrParseState
process_tlv_content f = (
  record f {
    expected_length = f.expected_length + tlv_type_len;
    index = f.index + f.content_length;
    state = type_and_length;
  },
  done,
)
