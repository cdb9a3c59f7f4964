-- ===== src/Health/Payload/Defs.antt =====
-- `PayloadMatcher` of orion-lib/src/clusters/health/checkers/tcp/mod.rs. A read that would block is
-- pending for ever, until the timeout of the check.
use orion.Base.{
  ℕ, zero, suc, ◌+◌, ◌-◌, ◌*◌, ◌%◌, ◌^◌, Bool, true, false, ◌||◌, List, [], ◌∷◌, ◌++◌, Option, none,
  some, length, take, drop, leb, ltb, ◌==◌, min, if◌then◌else◌,
}
use orion.Matching.Text.Defs.{find_text}
use orion.Transport.Stream.Defs.{
  Stream, arrive, block, fail, put_back, Outcome, got, would_block, failed, read,
}

abbrev pub is_empty : List ℕ → Bool
is_empty [] = true
is_empty (b ∷ bs) = false

abbrev pub payload_size : List (List ℕ) → ℕ
payload_size [] = 0
payload_size (p ∷ payloads) = length p + payload_size payloads

abbrev pub added : ℕ → Option ℕ → Option ℕ
added index none = none
added index (some payload_index) = some (index + payload_index)

-- The index behind one round of the loop; none is `return false`. The position of the first window
-- that is the payload is that of the payload as a part of the text.
unfoldable pub next_index : List ℕ → ℕ → List ℕ → Option ℕ
unfolding find_text
next_index buffer index payload =
    if is_empty payload
    then some index
    else if leb index (length buffer)
    then added index (find_text payload (drop index buffer) 0)
    else none

abbrev pub go_on : Option ℕ → (ℕ → Bool) → Bool
go_on none next = false
go_on (some index) next = next index

unfoldable pub matches_from : List ℕ → List (List ℕ) → ℕ → Bool
unfolding next_index
matches_from buffer [] index = true
matches_from buffer (p ∷ payloads) index =
    go_on (next_index buffer index p) (matches_from buffer payloads)

unfoldable pub matches : List ℕ → List (List ℕ) → Bool
unfolding matches_from
matches buffer payloads = matches_from buffer payloads 0

-- What a read comes to: the buffer behind it, and the stream that is left.
pub data Received : Type 0 where
  done : List ℕ → Stream → Received
  error pending panicked : Received

-- `read_exact` of `n` bytes, a read that fills them in part being followed by another.
unfoldable pub recv_exact : ℕ → List ℕ → Stream → Received
recv_exact n buffer [] = if n == 0 then done buffer [] else error
recv_exact n buffer (arrive bs ∷ s) =
    let later = recv_exact (n - length bs) (buffer ++ bs) s in
    if leb n (length bs)
    then done (buffer ++ take n bs) (put_back (drop n bs) s)
    else if is_empty bs
    then error
    else later
recv_exact n buffer (block ∷ s) = if n == 0 then done buffer (block ∷ s) else pending
recv_exact n buffer (fail ∷ s) = if n == 0 then done buffer (fail ∷ s) else error

abbrev pub received : List ℕ → Outcome × Stream → Received
received buffer (got [], s) = error
received buffer (got (b ∷ bs), s) = done (buffer ++ b ∷ bs) s
received buffer (would_block, s) = pending
received buffer (failed, s) = error

-- The buffer gets a new length, and the slice behind its old one is read into; the slice panics
-- where the new length is less.
abbrev pub resized : List ℕ → ℕ → Stream → Received
resized buffer new_size s =
    if ltb new_size (length buffer)
    then Received.panicked
    else received buffer (read (new_size - length buffer) s)

-- `max` is `MAX_PAYLOAD_BUFFER_SIZE`. The sum of the sizes wraps: a release has no overflow checks.
unfoldable pub recv_at_most : ℕ → ℕ → List ℕ → Stream → Received
recv_at_most max bytes_to_read buffer s =
    if leb max (length buffer) || bytes_to_read == 0
    then error
    else resized buffer (min max ((length buffer + bytes_to_read) % 2 ^ 64)) s

-- What a check comes to, with the buffer that it has read.
pub data Verdict : Type 0 where
  matched : List ℕ → Verdict
  refused waiting panicked out_of_fuel : Verdict

abbrev pub behind : Received → (List ℕ → Stream → Verdict) → Verdict
behind (done buffer s) next = next buffer s
behind error next = refused
behind pending next = waiting
behind Received.panicked next = Verdict.panicked

abbrev pub usize_max : ℕ
usize_max = 0xffff_ffff_ffff_ffff

unfoldable pub match_loop : ℕ → List (List ℕ) → ℕ → ℕ → List ℕ → Stream → Verdict
match_loop max payloads zero more_bytes buffer s = out_of_fuel
match_loop max payloads (suc fuel) more_bytes buffer s =
    let later =
      behind (recv_at_most max more_bytes buffer s)
        (match_loop max payloads fuel (min (more_bytes * 2) usize_max)) in
    if matches buffer payloads then matched buffer else later

unfoldable pub try_match : ℕ → List (List ℕ) → ℕ → Stream → Verdict
try_match max payloads fuel s =
    if payload_size payloads == 0
    then matched []
    else behind (recv_exact (payload_size payloads) [] s) (match_loop max payloads fuel 1024)
