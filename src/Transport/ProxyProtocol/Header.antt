-- ===== src/Transport/ProxyProtocol/Header.antt =====
-- Detecting and reading a header: `read_header_bytes` of orion-lib/src/transport/proxy_protocol.rs.
use orion.Base.{
  ℕ, zero, suc, ◌+◌, ◌-◌, ◌*◌, Bool, ◌&&◌, List, [], ◌∷◌, ◌++◌, Option, none, some, length, list_eq,
  take, drop, get_or, ltb, leb, ◌==◌, if◌then◌else◌,
}
use orion.Transport.ProxyProtocol.Defs.{
  v1_prefix_len, v1_max_length, v2_prefix_len, v2_minimum_len, v2_length_index, read_buffer_len,
  Ppp, DetectedHeader, ReadError, detected_v1, detected_v2, detected_none, unexpected_eof,
  terminator_not_found,
}

-- What was written to the buffer, and the rest of the stream; an error; or a panic.
pub data HeaderRead : Type 0 where
  detected : DetectedHeader → List ℕ → List ℕ → HeaderRead
  failed : ReadError → HeaderRead
  panicked : HeaderRead

-- The line of a version 1 header behind the byte `last`, with `n` bytes allowed.
pub data Line : Type 0 where
  ended : List ℕ → List ℕ → Line
  closed overlong : Line

abbrev pub longer : ℕ → Line → Line
longer b (ended line rest) = ended (b ∷ line) rest
longer b closed = closed
longer b overlong = overlong

unfoldable pub read_line : ℕ → ℕ → List ℕ → Line
read_line zero last s = overlong
read_line (suc n) last [] = closed
read_line (suc n) last (b ∷ s) =
    if last == b'\r' && b == b'\n' then ended (b ∷ []) s else longer b (read_line n b s)

-- All that is missing of `n` bytes is an error.
unfoldable pub read_exact : ℕ → List ℕ → Option (List ℕ × List ℕ)
read_exact n s = if ltb (length s) n then none else some (take n s, drop n s)

unfoldable pub v1_read : List ℕ → Line → HeaderRead
v1_read head (ended line rest) = detected detected_v1 (head ++ line) rest
v1_read head closed = failed unexpected_eof
v1_read head overlong = failed terminator_not_found

-- A slice of a vector of `n` bytes that ends behind it panics, before anything is read.
abbrev pub slice_end_ok : ℕ → ℕ → Bool
slice_end_ok n end = leb end n

unfoldable pub v2_body : List ℕ → ℕ → Option (List ℕ × List ℕ) → HeaderRead
v2_body head full_length none = failed unexpected_eof
v2_body head full_length (some (body, rest)) = detected (detected_v2 none) (head ++ body) rest

unfoldable pub extended_body : List ℕ → List ℕ → Option (List ℕ × List ℕ) → HeaderRead
extended_body head dynamic_buffer none = failed unexpected_eof
extended_body head dynamic_buffer (some (body, rest)) =
    detected (detected_v2 (some (dynamic_buffer ++ body))) (head ++ body) rest

unfoldable pub extended_read : List ℕ → ℕ → List ℕ → List ℕ → HeaderRead
unfolding extended_body
extended_read head full_length dynamic_buffer s =
    if slice_end_ok (length dynamic_buffer) full_length
    then extended_body head dynamic_buffer (read_exact (full_length - v2_minimum_len) s)
    else panicked

-- `head` is the fixed part of a version 2 header. The extended buffer has its capacity reserved, and
-- holds the fixed part only when it is sliced.
unfoldable pub v2_read : List ℕ → List ℕ → HeaderRead
unfolding v2_body extended_read
v2_read head s =
    let full_length =
      v2_minimum_len
      + (get_or head v2_length_index 0 * 256 + get_or head (v2_length_index + 1) 0) in
    if ltb read_buffer_len full_length
    then extended_read head full_length (take v2_minimum_len head) s
    else v2_body head full_length (read_exact (full_length - v2_minimum_len) s)

module _ (ppp : Ppp) where
  unfoldable pub v2_or_none : List ℕ → Option (List ℕ × List ℕ) → HeaderRead
  unfolding v2_read
  v2_or_none head none = failed unexpected_eof
  v2_or_none head (some (more, s)) =
      let head' = head ++ more in
      if list_eq (take v2_prefix_len head') ppp.v2_prefix
      then v2_read head' s
      else detected detected_none head' s

  unfoldable pub head_read : Option (List ℕ × List ℕ) → HeaderRead
  unfolding v2_or_none v1_read read_line
  head_read none = failed unexpected_eof
  head_read (some (head, s)) =
      if list_eq head ppp.v1_prefix
      then v1_read head
          (read_line (v1_max_length - v1_prefix_len) (get_or head (v1_prefix_len - 1) 0) s)
      else v2_or_none head (read_exact (v2_minimum_len - v1_prefix_len) s)

  unfoldable pub read_header_bytes : List ℕ → HeaderRead
  unfolding head_read
  read_header_bytes s = head_read (read_exact v1_prefix_len s)
