-- ===== src/Transport/Stream/Defs.antt =====
-- The byte stream of a connection, as the reads of a filter meet it: what arrives in one piece, a
-- read that would block, and a failure. After the last event the peer has closed.
use orion.Base.{ℕ, ◌+◌, ◌*◌, ◌<◌, List, [], ◌∷◌, ◌++◌, length, take, drop}

pub data Event : Type 0 where
  arrive : List ℕ → Event
  block fail : Event

abbrev pub Stream : Type 0
Stream = List Event

pub data Outcome : Type 0 where
  got : List ℕ → Outcome
  would_block failed : Outcome

-- What a read leaves of a piece stays at the front.
abbrev pub put_back : List ℕ → Stream → Stream
put_back [] s = s
put_back (b ∷ bs) s = arrive (b ∷ bs) ∷ s

-- `read` into a buffer of `n` bytes. No byte is `Ok(0)`.
abbrev pub read : ℕ → Stream → Outcome × Stream
read n [] = (got [], [])
read n (arrive bs ∷ s) = (got (take n bs), put_back (drop n bs) s)
read n (block ∷ s) = (would_block, s)
read n (fail ∷ s) = (failed, s)

-- The bytes that are on their way, where every piece has some.
abbrev pub flat : Stream → List ℕ
flat [] = []
flat (arrive bs ∷ s) = bs ++ flat s
flat (block ∷ s) = []
flat (fail ∷ s) = []

abbrev pub IsArriving : Stream → Type 0
IsArriving [] = Unit
IsArriving (arrive bs ∷ s) = (0 < length bs) × IsArriving s
IsArriving (block ∷ s) = ⊥
IsArriving (fail ∷ s) = ⊥

-- A number from its bytes, the highest first: `from_be_bytes`.
abbrev pub from_be : List ℕ → ℕ → ℕ
from_be [] acc = acc
from_be (b ∷ bs) acc = from_be bs (acc * 256 + b)

-- A slice of `n` bytes at `i`, where the buffer reaches that far.
abbrev pub slice : List ℕ → ℕ → ℕ → List ℕ
slice bs i n = take n (drop i bs)
