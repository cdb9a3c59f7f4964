-- ===== src/Transport/Rewind/Defs.antt =====
-- `RewindableHeadAsyncStream` of orion-lib/src/utils/rewindable_stream.rs. Of the stream inside only
-- the reads are modelled; what is written, flushed or shut down is refused, nothing, or its own.
use orion.Base.{ℕ, ◌+◌, min, List, [], ◌++◌, length, take, drop, ltb, leb, if◌then◌else◌}
use orion.Transport.Stream.Defs.{Stream, Outcome, got, would_block, failed, read}

pub data RewindableHeadAsyncStream : Type 0 where
  head_buffering_read_only_mode : Stream → List ℕ → RewindableHeadAsyncStream
  full_replay_mode : Stream → List ℕ → ℕ → RewindableHeadAsyncStream

abbrev pub new : Stream → RewindableHeadAsyncStream
new inner = head_buffering_read_only_mode inner []

abbrev pub into_stream : RewindableHeadAsyncStream → Stream
into_stream (head_buffering_read_only_mode inner buffer) = inner
into_stream (full_replay_mode inner replay_buffer read_pos) = inner

abbrev pub into_rewound_stream : RewindableHeadAsyncStream → RewindableHeadAsyncStream
into_rewound_stream (head_buffering_read_only_mode inner buffer) = full_replay_mode inner buffer 0
into_rewound_stream (full_replay_mode inner replay_buffer read_pos) =
    full_replay_mode inner replay_buffer read_pos

abbrev pub buffered : List ℕ → Outcome × Stream → Outcome × RewindableHeadAsyncStream
buffered buffer (got bs, inner) = (got bs, head_buffering_read_only_mode inner (buffer ++ bs))
buffered buffer (would_block, inner) = (would_block, head_buffering_read_only_mode inner buffer)
buffered buffer (failed, inner) = (failed, head_buffering_read_only_mode inner buffer)

abbrev pub passed_on : List ℕ → ℕ → Outcome × Stream → Outcome × RewindableHeadAsyncStream
passed_on replay_buffer read_pos (o, inner) = (o, full_replay_mode inner replay_buffer read_pos)

abbrev pub replayed : List ℕ → ℕ → ℕ → Stream → Outcome × RewindableHeadAsyncStream
replayed replay_buffer read_pos to_copy inner = (
  got (take to_copy (drop read_pos replay_buffer)),
  full_replay_mode inner replay_buffer (read_pos + to_copy),
)

-- A read with room for `n` bytes.
unfoldable pub poll_read : ℕ → RewindableHeadAsyncStream → Outcome × RewindableHeadAsyncStream
poll_read n (head_buffering_read_only_mode inner buffer) = buffered buffer (read n inner)
poll_read n (full_replay_mode inner replay_buffer read_pos) =
    if ltb read_pos (length replay_buffer)
    then replayed replay_buffer read_pos (min (length (drop read_pos replay_buffer)) n) inner
    else passed_on replay_buffer read_pos (read n inner)

-- What becomes of a write: it is the inner stream's, or it is refused.
pub data Write : Type 0 where
  inner_write : List ℕ → Write
  refused_while_buffering refused_while_replaying : Write

unfoldable pub poll_write : RewindableHeadAsyncStream → List ℕ → Write
poll_write (head_buffering_read_only_mode inner buffer) bs = refused_while_buffering
poll_write (full_replay_mode inner replay_buffer read_pos) bs =
    if leb (length replay_buffer) read_pos then inner_write bs else refused_while_replaying

-- A flush and a shutdown are the inner stream's, or there is nothing to do.
pub data Effect : Type 0 where
  inner_effect nothing_to_do : Effect

abbrev pub poll_flush : RewindableHeadAsyncStream → Effect
poll_flush (head_buffering_read_only_mode inner buffer) = nothing_to_do
poll_flush (full_replay_mode inner replay_buffer read_pos) = inner_effect

abbrev pub poll_shutdown : RewindableHeadAsyncStream → Effect
poll_shutdown (head_buffering_read_only_mode inner buffer) = inner_effect
poll_shutdown (full_replay_mode inner replay_buffer read_pos) = inner_effect
