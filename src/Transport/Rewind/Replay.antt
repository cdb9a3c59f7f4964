-- ===== src/Transport/Rewind/Replay.antt =====
-- A rewound stream is the stream from its beginning.
use mathlib.Core.List.{append_assoc, append-nil}
use orion.Base.{
  ℕ, zero, suc, ◌+◌, ◌≤◌, ◌<◌, subst, ◌≡◌, refl, sym, ap, ◌∙◌, min, List, [], ◌∷◌, ◌++◌, length,
  take, drop, ltb, take-append-drop, drop-drop, length-drop, inl, inr, Bool-cases, arith,
}
use orion.Transport.Stream.Defs.{
  arrive, block, fail, Stream, Outcome, got, would_block, failed, put_back, read,
}
use orion.Transport.Rewind.Defs.{
  RewindableHeadAsyncStream, head_buffering_read_only_mode, full_replay_mode, new,
  into_rewound_stream, buffered, poll_read,
}
use orion.Transport.Rewind.Inspector.{Acceptor, ready, wants, accept, inspect_client_hello}

-- All bytes of a stream, past what blocks and fails in between.
abbrev pub bytes : Stream → List ℕ
bytes [] = []
bytes (arrive bs ∷ s) = bs ++ bytes s
bytes (block ∷ s) = bytes s
bytes (fail ∷ s) = bytes s

pub bytes-put_back : (bs : List ℕ) (s : Stream) → bytes (put_back bs s) ≡ bs ++ bytes s
bytes-put_back [] s = refl
bytes-put_back (b ∷ bs) s = refl

-- The stream that is left for a reader.
abbrev pub left : RewindableHeadAsyncStream → Stream
left (head_buffering_read_only_mode inner buffer) = inner
left (full_replay_mode inner replay_buffer read_pos) = put_back (drop read_pos replay_buffer) inner

-- What reads come to, one behind the other.
abbrev pub outcomes : List ℕ → Stream → List Outcome
outcomes [] s = []
outcomes (n ∷ ns) s = (read n s).0 ∷ outcomes ns (read n s).1

abbrev pub rewindable_outcomes : List ℕ → RewindableHeadAsyncStream → List Outcome
rewindable_outcomes [] st = []
rewindable_outcomes (n ∷ ns) st = (poll_read n st).0 ∷ rewindable_outcomes ns (poll_read n st).1

take-min : (n : ℕ) (bs : List ℕ) → take (min (length bs) n) bs ≡ take n bs
take-min zero bs = ap (λ (k : ℕ). take k bs) {y = 0} (omega arith)
take-min (suc n) [] = ap (λ (k : ℕ). take {A = ℕ} k []) {y = 0} (omega arith)
take-min (suc n) (b ∷ bs) =
    ap (λ (k : ℕ). take k (b ∷ bs)) {y = suc (min (length bs) n)} (omega arith)
    ∙ ap (◌∷◌ b) (take-min n bs)

drop-min : (n : ℕ) (bs : List ℕ) → drop (min (length bs) n) bs ≡ drop n bs
drop-min zero bs = ap (λ (k : ℕ). drop k bs) {y = 0} (omega arith)
drop-min (suc n) [] = ap (λ (k : ℕ). drop {A = ℕ} k []) {y = 0} (omega arith)
drop-min (suc n) (b ∷ bs) =
    ap (λ (k : ℕ). drop k (b ∷ bs)) {y = suc (min (length bs) n)} (omega arith) ∙ drop-min n bs

drop_none : (n : ℕ) (bs : List ℕ) → length bs ≤ n → drop n bs ≡ []
drop_none zero [] h = refl
drop_none zero (b ∷ bs) h = elim h [ ]
drop_none (suc n) [] h = refl
drop_none (suc n) (b ∷ bs) h = drop_none n bs (omega arith)

read-put_back :
    (n : ℕ) (bs : List ℕ) (s : Stream)
    → 0 < length bs
    → read n (put_back bs s) ≡ (got (take n bs), put_back (drop n bs) s)
read-put_back n [] s h = elim h [ ]
read-put_back n (b ∷ bs) s h = refl

abbrev as_left : Outcome × RewindableHeadAsyncStream → Outcome × Stream
as_left r = (r.0, left r.1)

buffered-left : (buffer : List ℕ) (r : Outcome × Stream) → as_left (buffered buffer r) ≡ r
buffered-left buffer (got bs, s) = refl
buffered-left buffer (would_block, s) = refl
buffered-left buffer (failed, s) = refl

poll_read-left :
    (n : ℕ) (st : RewindableHeadAsyncStream) → as_left (poll_read n st) ≡ read n (left st)
unfolding poll_read
poll_read-left n (head_buffering_read_only_mode inner buffer) = buffered-left buffer (read n inner)
poll_read-left n (full_replay_mode inner rb pos) = elim (Bool-cases (ltb pos (length rb))) [
  | inl more ↦ rw more (
      ap (λ (bs : List ℕ). (got bs, put_back (drop (pos + min (length (drop pos rb)) n) rb) inner))
        (take-min n (drop pos rb))
      ∙ ap (λ (bs : List ℕ). (got (take n (drop pos rb)), put_back bs inner))
          (sym (drop-drop pos (min (length (drop pos rb)) n) rb) ∙ drop-min n (drop pos rb))
      ∙ sym (read-put_back n (drop pos rb) inner (ground (arith, length-drop pos rb))))
  | inr all ↦ rw (all, drop_none pos rb (ground arith)) refl
]

rewindable_outcomes-left :
    (ns : List ℕ) (st : RewindableHeadAsyncStream)
    → rewindable_outcomes ns st ≡ outcomes ns (left st)
rewindable_outcomes-left [] st = refl
rewindable_outcomes-left (n ∷ ns) st =
    ap (◌∷◌ (poll_read n st).0) (rewindable_outcomes-left ns (poll_read n st).1)
    ∙ ap (λ (r : Outcome × Stream). r.0 ∷ outcomes ns r.1) (poll_read-left n st)

-- While the head is buffered, the buffer and what is left are the whole stream.
abbrev Whole : List ℕ → RewindableHeadAsyncStream → Type 0
Whole s (head_buffering_read_only_mode inner buffer) = buffer ++ bytes inner ≡ s
Whole s (full_replay_mode inner replay_buffer read_pos) = ⊥

read-Whole :
    (n : ℕ) (inner : Stream) (buffer : List ℕ)
    → Whole (buffer ++ bytes inner) (buffered buffer (read n inner)).1
read-Whole n [] buffer = append-nil (buffer ++ [])
read-Whole n (arrive bs ∷ s) buffer =
    append_assoc buffer (take n bs) (bytes (put_back (drop n bs) s))
    ∙ ap (◌++◌ buffer) (
        ap (◌++◌ (take n bs)) (bytes-put_back (drop n bs) s)
        ∙ sym (append_assoc (take n bs) (drop n bs) (bytes s))
        ∙ ap (λ (cs : List ℕ). cs ++ bytes s) (take-append-drop n bs))
read-Whole n (block ∷ s) buffer = refl
read-Whole n (fail ∷ s) buffer = refl

poll_read-Whole :
    (n : ℕ) (s : List ℕ) (st : RewindableHeadAsyncStream) → Whole s st → Whole s (poll_read n st).1
unfolding poll_read
poll_read-Whole n s (head_buffering_read_only_mode inner buffer) w =
    subst (λ (t : List ℕ). Whole t (buffered buffer (read n inner)).1) w (read-Whole n inner buffer)
poll_read-Whole n s (full_replay_mode inner replay_buffer read_pos) w = absurd w

accept-Whole :
    (a : Acceptor) (s : List ℕ) (st : RewindableHeadAsyncStream)
    → Whole s st
    → Whole s (accept a st).1
unfolding accept
accept-Whole (ready a) s st w = w
accept-Whole (wants n next) s st w =
    accept-Whole (next (poll_read n st).0) s (poll_read n st).1 (poll_read-Whole n s st w)

rewound-Whole :
    (s : List ℕ) (st : RewindableHeadAsyncStream)
    → Whole s st
    → bytes (left (into_rewound_stream st)) ≡ s
rewound-Whole s (head_buffering_read_only_mode inner buffer) w = bytes-put_back buffer inner ∙ w
rewound-Whole s (full_replay_mode inner replay_buffer read_pos) w = absurd w

-- Whatever the acceptor reads to find the server name, the stream that is handed on has all bytes of
-- the connection, and any reads of it, of any sizes, come to what they would on a plain stream with
-- those bytes.
pub inspected_stream_whole :
    (acceptor : Acceptor) (s : Stream)
    → (s' : Stream) × (bytes s' ≡ bytes s)
      × ((ns : List ℕ)
          → rewindable_outcomes ns (inspect_client_hello acceptor s).1 ≡ outcomes ns s')
unfolding inspect_client_hello
inspected_stream_whole acceptor s =
    let st = (accept acceptor (new s)).1 in
    (
      left (into_rewound_stream st),
      rewound-Whole (bytes s) st (accept-Whole acceptor (bytes s) (new s) refl),
      λ ns. rewindable_outcomes-left ns (into_rewound_stream st),
    )
