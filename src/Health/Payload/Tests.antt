-- ===== src/Health/Payload/Tests.antt =====
-- Payloads in what a peer sends in two pieces.
use orion.Base.{ℕ, zero, suc, ◌≤◌, ◌≡◌, ◌↔◌, refl, true, List, [], ◌∷◌, arith}
use orion.Matching.Text.Defs.{find_text}
use orion.Transport.Stream.Defs.{Stream, arrive, IsArriving}
use orion.Health.Payload.Defs.{
  payload_size, matches, matches_from, next_index, matched, refused, panicked, try_match,
  recv_exact, match_loop, recv_at_most,
}
use orion.Health.Payload.Places.{Placed, matches-Placed, once_is_enough}
use orion.Health.Payload.Loop.{Says, try_match_lem}

abbrev ok : List ℕ
ok = b'o' ∷ b'k' ∷ []

abbrev answer : List ℕ
answer = b'!' ∷ b'o' ∷ b'k' ∷ b'!' ∷ []

abbrev pieces : Stream
pieces = arrive (b'!' ∷ b'o' ∷ []) ∷ arrive (b'k' ∷ b'!' ∷ []) ∷ []

abbrev expected : List (List ℕ)
expected = ok ∷ (b'!' ∷ []) ∷ []

matches-Placed_example : (matches answer expected ≡ true) ↔ Placed answer expected 0
matches-Placed_example = matches-Placed answer expected

once_is_enough_example : matches answer (ok ∷ ok ∷ []) ≡ true
once_is_enough_example = once_is_enough answer ok 2 1 (b'!' ∷ [], refl)

found_in_pieces : try_match 1024 expected 1025 pieces ≡ matched answer
unfolding try_match recv_exact match_loop recv_at_most matches matches_from next_index find_text
found_in_pieces = refl

try_match_lem_example :
    Says 1024 expected answer
      (IsArriving pieces × (payload_size expected ≤ 4))
      (try_match 1024 expected 1025 pieces)
try_match_lem_example = try_match_lem 1024 expected 1025 pieces (omega arith) (omega arith)

-- A peer that sends the same byte again and again, one in each piece.
abbrev one_by_one : ℕ → Stream
one_by_one zero = []
one_by_one (suc n) = arrive (b'!' ∷ []) ∷ one_by_one n

-- The 55th read behind the payload asks for so many bytes that the sum of the sizes wraps.
slow_peer_panics : try_match 0x100000 (ok ∷ []) 0x100001 (one_by_one 60) ≡ panicked
unfolding try_match recv_exact match_loop recv_at_most matches matches_from next_index find_text
slow_peer_panics = refl

-- With 53 reads behind the payload, the stream has ended before.
end_of_stream : try_match 0x100000 (ok ∷ []) 0x100001 (one_by_one 55) ≡ refused
unfolding try_match recv_exact match_loop recv_at_most matches matches_from next_index find_text
end_of_stream = refl
