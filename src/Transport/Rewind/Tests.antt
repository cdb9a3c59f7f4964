-- ===== src/Transport/Rewind/Tests.antt =====
-- An acceptor that reads twice and finds no name.
use orion.Base.{ℕ, ◌≡◌, refl, List, [], ◌∷◌, none}
use orion.Transport.Stream.Defs.{Stream, arrive}
use orion.Transport.Rewind.Defs.{
  full_replay_mode, poll_read, poll_write, inner_write, refused_while_replaying,
}
use orion.Transport.Rewind.Inspector.{
  Acceptor, ready, wants, handshake, accept, success_no_sni, inspect_client_hello,
}
use orion.Transport.Rewind.Replay.{bytes, outcomes, rewindable_outcomes, inspected_stream_whole}

abbrev two_reads : Acceptor
two_reads = wants 2 (λ first. wants 3 (λ second. ready (handshake none)))

abbrev hello : Stream
hello = arrive (b'h' ∷ b'e' ∷ b'l' ∷ []) ∷ arrive (b'l' ∷ b'o' ∷ []) ∷ []

inspected : inspect_client_hello two_reads hello ≡ (
  success_no_sni,
  full_replay_mode (arrive (b'l' ∷ b'o' ∷ []) ∷ []) (b'h' ∷ b'e' ∷ b'l' ∷ []) 0,
)
unfolding inspect_client_hello accept poll_read
inspected = refl

no_write_before_the_end :
    poll_write (full_replay_mode [] (b'h' ∷ b'e' ∷ b'l' ∷ []) 1) [] ≡ refused_while_replaying
unfolding poll_write
no_write_before_the_end = refl

write_behind_the_end :
    poll_write (full_replay_mode [] (b'h' ∷ b'e' ∷ b'l' ∷ []) 3) [] ≡ inner_write []
unfolding poll_write
write_behind_the_end = refl

inspected_stream_whole_example :
    (s' : Stream) × (bytes s' ≡ bytes hello)
    × ((ns : List ℕ)
        → rewindable_outcomes ns (inspect_client_hello two_reads hello).1 ≡ outcomes ns s')
inspected_stream_whole_example = inspected_stream_whole two_reads hello
