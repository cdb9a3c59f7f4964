-- ===== src/Transport/Tlv/Process.antt =====
-- The loops of orion-lib/src/transport/tlv_listener_filter.rs: reading, parsing, and the search for
-- the address in what was read. Each loop takes fuel; `Tlv.Total` shows how much is enough.
use orion.Base.{
  ℕ, zero, suc, ◌+◌, ◌-◌, ◌*◌, List, [], ◌∷◌, ◌++◌, Option, none, some, length, get_elem?, min, ltb,
  leb, ◌==◌, if◌then◌else◌,
}
use orion.Net.{SocketAddr, DownstreamConnectionMetadata, socket, tlv}
use orion.Transport.Stream.Defs.{Stream, Outcome, got, would_block, failed, read}
use orion.Transport.Tlv.Defs.{
  TlvListenerFilter, TlvParseState, type_and_length, content, ReadOrParseState, done, error,
  skip_filter, tlv_type_service_address, tlv_type_ending, tlv_type_len, tlv_length_len,
  tlv_type_service_address_ipv4_len, tlv_type_service_address_ipv6_len, process_service_address_tlv,
  process_ending_tlv, process_tlv_content, read_u32_be, parse_ipv4_address, parse_ipv6_address,
}

-- How a loop ends: with its state, the filter and the rest of the stream, or not at all.
pub data Run : Type 0 where
  finished : ReadOrParseState → TlvListenerFilter → Stream → Run
  panicked out_of_fuel : Run

-- One read asks for what is missing, 512 bytes at most.
abbrev pub read_size : TlvListenerFilter → ℕ
read_size f = min (f.expected_length - length f.buffer) 512

-- What the loop does with a read; `next` is its next round.
unfoldable pub after_read :
    (TlvListenerFilter → Stream → Run) → TlvListenerFilter → Outcome × Stream → Run
after_read next f (got [], s) =
    if leb f.expected_length (length f.buffer) then finished done f s else finished skip_filter f s
after_read next f (got (b ∷ rest), s) = next (record f { buffer = f.buffer ++ (b ∷ rest) }) s
after_read next f (would_block, s) = finished skip_filter f s
after_read next f (failed, s) = finished error f s

unfoldable pub read_required_data : ℕ → TlvListenerFilter → Stream → Run
unfolding after_read
read_required_data zero f s = out_of_fuel
read_required_data (suc k) f s =
    if ltb (length f.buffer) f.expected_length
    then after_read (read_required_data k) f (read (read_size f) s)
    else finished done f s

pub data Parsed : Type 0 where
  again : TlvListenerFilter → Parsed
  stop : ReadOrParseState → TlvListenerFilter → Parsed
  out_of_bounds : Parsed

abbrev pub proceed : TlvListenerFilter × ReadOrParseState → Parsed
proceed (f, done) = again f
proceed (f, error) = stop error f
proceed (f, skip_filter) = stop skip_filter f

-- `self.buffer[self.index]`, and the dispatch on the type byte.
unfoldable pub parse_type : TlvListenerFilter → Option ℕ → Parsed
unfolding process_service_address_tlv process_ending_tlv
parse_type f none = out_of_bounds
parse_type f (some tlv_type) =
    if tlv_type == tlv_type_service_address
    then proceed (process_service_address_tlv f)
    else if tlv_type == tlv_type_ending
    then (let (f', state) = process_ending_tlv f in stop state f')
    else stop error f

unfoldable pub parse_state : TlvParseState → TlvListenerFilter → Parsed
unfolding parse_type process_tlv_content
parse_state type_and_length f = parse_type f (get_elem? f.buffer f.index)
parse_state content f = proceed (process_tlv_content f)

-- One round of the loop, after its read.
unfoldable pub parse : TlvListenerFilter → Parsed
unfolding parse_state
parse f = parse_state f.state f

-- What the loop does after a round's parsing, and after its read; `next` is the next round.
unfoldable pub after_parse : (TlvListenerFilter → Stream → Run) → Stream → Parsed → Run
after_parse next s (again f) = next f s
after_parse next s (stop state f) = finished state f s
after_parse next s out_of_bounds = panicked

unfoldable pub after_required : (TlvListenerFilter → Stream → Run) → Run → Run
unfolding after_parse parse
after_required next (finished done f s) = after_parse next s (parse f)
after_required next (finished error f s) = finished error f s
after_required next (finished skip_filter f s) = finished skip_filter f s
after_required next panicked = panicked
after_required next out_of_fuel = out_of_fuel

unfoldable pub read_and_parse_tlv : ℕ → TlvListenerFilter → Stream → Run
unfolding after_required
read_and_parse_tlv zero f s = out_of_fuel
read_and_parse_tlv (suc k) f s =
    after_required (read_and_parse_tlv k)
      (read_required_data (suc (f.expected_length - length f.buffer)) f s)

-- The address that a TLV at `content_start` holds.
service_address : List ℕ → ℕ → ℕ → Option SocketAddr
unfolding parse_ipv4_address parse_ipv6_address
service_address buffer content_start content_length =
    if content_length == tlv_type_service_address_ipv4_len
    then parse_ipv4_address buffer content_start
    else if content_length == tlv_type_service_address_ipv6_len
    then parse_ipv6_address buffer content_start
    else none

-- The loop of `extract_original_destination`, at `current_index`.
unfoldable pub extract_from : ℕ → List ℕ → ℕ → Option SocketAddr
unfolding service_address read_u32_be
extract_from zero buffer i = none
extract_from (suc k) buffer i =
    let content_start = i + tlv_type_len + tlv_length_len in
    let at : ℕ → ℕ → Option SocketAddr = (λ tlv_type content_length.
      if ltb (length buffer) (content_start + content_length)
      then none
      else elim (if tlv_type == tlv_type_service_address
          then service_address buffer content_start content_length
          else none) [
            | some addr ↦ some addr
            | none ↦ extract_from k buffer (i + (tlv_type_len + tlv_length_len + content_length))
          ]) in
    if leb content_start (length buffer)
    then (elim (get_elem? buffer i) [
      | none ↦ none
      | some tlv_type ↦
          if tlv_type == tlv_type_ending
          then none
          else (elim (read_u32_be buffer (i + tlv_type_len)) [
            | none ↦ none
            | some content_length ↦ at tlv_type content_length
          ])
    ])
    else none

unfoldable pub extract_original_destination : TlvListenerFilter → Option SocketAddr
unfolding extract_from
extract_original_destination f = extract_from (suc (length f.buffer)) f.buffer 0

-- Enough rounds for a limit of `max_length` bytes.
abbrev pub rounds : ℕ → ℕ
rounds max_length = 2 * max_length + 3

pub data Processed (Metadata : Type 0) : Type 0 where
  accepted : Stream → Metadata → Processed Metadata
  rejected faulted : Processed Metadata

module _ {Protocol TlvKey : Type 0} where
  -- `process_stream`: the connection's metadata and what is left of the stream, or an error.
  unfoldable pub process_stream :
      TlvListenerFilter
      → Stream
      → SocketAddr
      → SocketAddr
      → Processed (DownstreamConnectionMetadata Protocol TlvKey)
  process_stream f s local peer = elim (read_and_parse_tlv (rounds f.max_length) f s) [
    | finished state f' s' ↦ (elim state [
      | done ↦ (elim (extract_original_destination f') [
        | some original_dest ↦ accepted s' (tlv original_dest [] peer local)
        | none ↦ accepted s' (socket peer local none)
      ])
      | error ↦ rejected
      | skip_filter ↦ accepted s' (socket peer local none)
    ])
    | panicked ↦ faulted
    | out_of_fuel ↦ faulted
  ]
