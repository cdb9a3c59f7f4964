-- ===== src/Health/Payload/Loop.antt =====
-- The loop of the matcher ends, and finds the payloads exactly if they have arrived.
use mathlib.Core.List.{append_assoc, append-nil}
use orion.Base.{
  ℕ, zero, suc, ◌+◌, ◌-◌, ◌*◌, ◌%◌, ◌^◌, ◌⊎◌, ltb, length-take, ◌≤◌, ◌<◌, ◌≡◌, refl, sym, ap, subst,
  ◌∙◌, false, List, [], ◌∷◌, ◌++◌, length, take, drop, min, leb, ◌==◌, arith, length-append,
  take-append-drop, Bool-cases, inl, inr,
}
use orion.Transport.Stream.Defs.{Stream, arrive, block, fail, put_back, read, flat, IsArriving}
use orion.Transport.Stream.Laws.{flat-put_back, put_back-IsArriving}
use orion.Health.Payload.Defs.{
  is_empty, payload_size, matches, recv_exact, received, recv_at_most, Verdict, matched, refused,
  waiting, out_of_fuel, behind, usize_max, match_loop, try_match,
}
use orion.Health.Payload.Places.{Placed, matches-Placed}

-- What a verdict says of all the bytes `whole`, where `Arr` says that they all arrive.
abbrev pub Says : ℕ → List (List ℕ) → List ℕ → Type 0 → Verdict → Type 0
Says max payloads whole Arr (matched buffer) =
    Placed buffer payloads 0 × ((r : List ℕ) × (whole ≡ buffer ++ r))
Says max payloads whole Arr refused = Arr → length whole ≤ max → ¬ Placed whole payloads 0
Says max payloads whole Arr waiting = ¬ Arr
Says max payloads whole Arr Verdict.panicked = payload_size payloads + 54 ≤ length whole
Says max payloads whole Arr out_of_fuel = ⊥

-- A number doubled some times.
abbrev twice : ℕ → ℕ → ℕ
twice zero m = m
twice (suc j) m = twice j (m * 2)

twice_mono : (j m n : ℕ) → m ≤ n → twice j m ≤ twice j n
twice_mono zero m n h = h
twice_mono (suc j) m n h = twice_mono j (m * 2) (n * 2) (omega arith)

le-twice : (j m : ℕ) → m ≤ twice j m
le-twice zero m = omega arith
le-twice (suc j) m = omega (arith, le-twice j (m * 2))

no_rest : (buffer rest : List ℕ) → length rest ≤ 0 → buffer ++ rest ≡ buffer
no_rest buffer [] h = append-nil buffer
no_rest buffer (b ∷ rest) h = elim h [ ]

regroup :
    (m : ℕ) (bs : List ℕ) (s : Stream) → take m bs ++ flat (put_back (drop m bs) s) ≡ bs ++ flat s
regroup m bs s =
    rw (flat-put_back, ← append_assoc (take m bs) (drop m bs) (flat s), take-append-drop m bs)

module _ (max : ℕ) (payloads : List (List ℕ)) (whole : List ℕ) (Arr : Type 0)
    (small : max ≤ 2 ^ 63) where
  -- The request for more bytes is small, or as many reads have been made as it takes to grow, each of a
  -- byte at least.
  abbrev Grown : ℕ → List ℕ → Type 0
  Grown more_bytes buffer =
      ((j : ℕ) × (twice j more_bytes ≤ 2 ^ 63)
        × (payload_size payloads + 54 ≤ suc j + length buffer))
      ⊎ (payload_size payloads + 54 ≤ length buffer)

  grow :
      (m : ℕ) (buffer : List ℕ) (b : ℕ) (bs : List ℕ)
      → Grown m buffer
      → Grown (min (m * 2) usize_max) (buffer ++ b ∷ bs)
  grow m buffer b bs (inl (zero, t, l)) = inr (omega (arith, length-append buffer (b ∷ bs)))
  grow m buffer b bs (inl (suc j, t, l)) = inl (
    j,
    omega (arith, twice_mono j (min (m * 2) usize_max) (m * 2) (omega arith)),
    omega (arith, length-append buffer (b ∷ bs)),
  )
  grow m buffer b bs (inr l) = inr (omega (arith, length-append buffer (b ∷ bs)))

  no_wrap :
      (m : ℕ) (buffer : List ℕ)
      → Grown m buffer
      → length buffer < max
      → (min max ((length buffer + m) % 2 ^ 64)) < length buffer
      → payload_size payloads + 54 ≤ length buffer
  no_wrap m buffer (inl (j, t, l)) h k = absurd (omega (arith, le-twice j m))
  no_wrap m buffer (inr l) h k = l

  -- The bytes read and those on their way are all the bytes.
  record Reading (buffer : List ℕ) (s : Stream) : Type 0 where
    bytes : buffer ++ flat s ≡ whole
    arriving : Arr → IsArriving s

  not_in_buffer :
      (buffer : List ℕ) (s : Stream)
      → Reading buffer s
      → matches buffer payloads ≡ false
      → length (flat s) ≤ 0
      → ¬ Placed whole payloads 0
  not_in_buffer buffer s v f h q =
      let same : whole ≡ buffer = sym v.bytes ∙ no_rest buffer (flat s) h in
      ground (arith, (matches-Placed buffer payloads).1 (subst (λ t. Placed t payloads 0) same q))

  -- A read of some bytes: it adds some, or says that none are left.
  read-Says :
      (m : ℕ) (buffer : List ℕ) (s : Stream) (next : List ℕ → Stream → Verdict)
      → 0 < m
      → Reading buffer s
      → matches buffer payloads ≡ false
      → ((b : ℕ) (bs : List ℕ) (s' : Stream)
          → Reading (buffer ++ b ∷ bs) s'
          → Says max payloads whole Arr (next (buffer ++ b ∷ bs) s'))
      → Says max payloads whole Arr (behind (received buffer (read m s)) next)
  read-Says m buffer [] next h v f k = λ a l. not_in_buffer buffer [] v f (omega arith)
  read-Says m buffer (block ∷ s) next h v f k = λ a. v.arriving a
  read-Says m buffer (fail ∷ s) next h v f k = λ a. absurd (v.arriving a)
  read-Says zero buffer (arrive bs ∷ s) next h v f k = elim h [ ]
  read-Says (suc m) buffer (arrive [] ∷ s) next h v f k =
      λ a. absurd (omega (arith, (v.arriving a).0))
  read-Says (suc m) buffer (arrive (b ∷ bs) ∷ s) next h v f k =
      k b (take m bs) (put_back (drop m bs) s) (record {
        bytes =
            append_assoc buffer (b ∷ take m bs) (flat (put_back (drop m bs) s))
            ∙ ap (λ t. buffer ++ b ∷ t) (regroup m bs s)
            ∙ v.bytes;
        arriving = λ a. put_back-IsArriving (drop m bs) s (v.arriving a).1;
      })

  full-Says :
      (buffer : List ℕ) (s : Stream)
      → Reading buffer s
      → matches buffer payloads ≡ false
      → max ≤ length buffer
      → Says max payloads whole Arr refused
  full-Says buffer s v f h = λ a l.
      not_in_buffer buffer s v f (omega (arith, ap length v.bytes, length-append buffer (flat s)))

  recv_at_most-Says :
      (n : ℕ) (buffer : List ℕ) (s : Stream) (next : List ℕ → Stream → Verdict)
      → 0 < n
      → n ≤ usize_max
      → Grown n buffer
      → Reading buffer s
      → matches buffer payloads ≡ false
      → ((b : ℕ) (bs : List ℕ) (s' : Stream)
          → length buffer < max
          → Reading (buffer ++ b ∷ bs) s'
          → Says max payloads whole Arr (next (buffer ++ b ∷ bs) s'))
      → Says max payloads whole Arr (behind (recv_at_most max n buffer s) next)
  unfolding recv_at_most
  recv_at_most-Says n buffer s next p q g v f k = elim (Bool-cases (leb max (length buffer))) [
    | inl full ↦ rw full (full-Says buffer s v f (ground arith))
    | inr room ↦
        let some_bytes : (n == 0) ≡ false = ground arith in
        let new_size = min max ((length buffer + n) % 2 ^ 64) in
        rw (room, some_bytes)
          (elim (Bool-cases (ltb new_size (length buffer))) [
            | inl less ↦
                let l = no_wrap n buffer g (ground arith) (ground arith) in
                rw less (omega (arith, ap length v.bytes, length-append buffer (flat s)))
            | inr more ↦ rw more (
                read-Says (new_size - length buffer) buffer s next (ground arith) v f
                  (λ b bs s'. k b bs s' (ground arith)))
          ])
  ]

  -- With more rounds than bytes that still fit, the loop says something.
  match_loop-Says :
      (fuel more_bytes : ℕ) (buffer : List ℕ) (s : Stream)
      → Reading buffer s
      → 0 < more_bytes
      → more_bytes ≤ usize_max
      → Grown more_bytes buffer
      → max - length buffer < fuel
      → Says max payloads whole Arr (match_loop max payloads fuel more_bytes buffer s)
  unfolding match_loop
  match_loop-Says zero more_bytes buffer s v p q g h = elim h [ ]
  match_loop-Says (suc fuel) more_bytes buffer s v p q g h =
      elim (Bool-cases (matches buffer payloads)) [
        | inl t ↦ rw t ((matches-Placed buffer payloads).0 t, ((flat s, sym v.bytes)))
        | inr f ↦ rw f (
            recv_at_most-Says more_bytes buffer s
              (match_loop max payloads fuel (min (more_bytes * 2) usize_max)) p q g v f
              (λ b bs s' l v'.
                match_loop-Says fuel (min (more_bytes * 2) usize_max) (buffer ++ b ∷ bs) s' v'
                  (omega arith) (omega arith) (grow more_bytes buffer b bs g)
                  (omega (arith, length-append buffer (b ∷ bs)))))
      ]

  recv_exact-Says :
      (n : ℕ) (buffer : List ℕ) (s : Stream) (next : List ℕ → Stream → Verdict)
      → Reading buffer s
      → (Arr → n ≤ length (flat s))
      → ((b : List ℕ) (s' : Stream)
          → length b ≡ length buffer + n
          → Reading b s'
          → Says max payloads whole Arr (next b s'))
      → Says max payloads whole Arr (behind (recv_exact n buffer s) next)
  unfolding recv_exact
  recv_exact-Says n buffer [] next v h k = elim (Bool-cases (n == 0)) [
    | inl e ↦ rw e (k buffer [] (ground arith) v)
    | inr e ↦ rw e (λ a l. absurd (ground (arith, h a)))
  ]
  recv_exact-Says n buffer (block ∷ s) next v h k = elim (Bool-cases (n == 0)) [
    | inl e ↦ rw e (k buffer (block ∷ s) (ground arith) v)
    | inr e ↦ rw e (λ a. v.arriving a)
  ]
  recv_exact-Says n buffer (fail ∷ s) next v h k = elim (Bool-cases (n == 0)) [
    | inl e ↦ rw e (k buffer (fail ∷ s) (ground arith) v)
    | inr e ↦ rw e (λ a. absurd (v.arriving a))
  ]
  recv_exact-Says n buffer (arrive bs ∷ s) next v h k = elim (Bool-cases (leb n (length bs))) [
    | inl e ↦ rw e (
        k (buffer ++ take n bs) (put_back (drop n bs) s)
          (ground (arith, length-append buffer (take n bs), length-take n bs))
          (record {
            bytes =
                append_assoc buffer (take n bs) (flat (put_back (drop n bs) s))
                ∙ ap (λ t. buffer ++ t) (regroup n bs s)
                ∙ v.bytes;
            arriving = λ a. put_back-IsArriving (drop n bs) s (v.arriving a).1;
          }))
    | inr e ↦ rw e (elim (Bool-cases (is_empty bs)) [
      | inl none_left ↦ rw none_left (λ a l. absurd (ground (arith, (v.arriving a).0)))
      | inr some_left ↦ rw some_left (
          recv_exact-Says (n - length bs) (buffer ++ bs) s next
            (record {
              bytes = append_assoc buffer bs (flat s) ∙ v.bytes;
              arriving = λ a. (v.arriving a).1;
            })
            (λ a. omega (arith, h a, length-append bs (flat s)))
            (λ b s' l. k b s' (ground (arith, l, length-append buffer bs))))
    ])
  ]

nothing_expected :
    (s : List ℕ) (payloads : List (List ℕ)) → payload_size payloads ≡ 0 → Placed s payloads 0
nothing_expected s [] h = tt
nothing_expected s ([] ∷ payloads) h =
    (0, omega arith, (drop 0 s, refl), nothing_expected s payloads (omega arith))
nothing_expected s ((b ∷ p) ∷ payloads) h = absurd (omega arith)

-- The check ends within its rounds, whatever the peer sends, if its buffer may hold 2 ^ 63 bytes at
-- most. If it finds the payloads, they stand in the bytes read, which are the first ones of the peer.
-- It panics only if the peer sends at least 54 bytes more than the payloads have. And if at least as
-- many bytes as the payloads have arrive, no more than the buffer may hold, and it does not panic, it
-- finds the payloads if they stand there.
pub try_match_lem :
    (max : ℕ) (payloads : List (List ℕ)) (fuel : ℕ) (s : Stream)
    → max ≤ 2 ^ 63
    → max < fuel
    → Says max payloads
        (flat s)
        (IsArriving s × (payload_size payloads ≤ length (flat s)))
        (try_match max payloads fuel s)
unfolding try_match
try_match_lem max payloads fuel s small h = elim (Bool-cases (payload_size payloads == 0)) [
  | inl e ↦ rw e (nothing_expected [] payloads (ground arith), (flat s, refl))
  | inr e ↦ rw e (
      recv_exact-Says max payloads (flat s)
        (IsArriving s × (payload_size payloads ≤ length (flat s))) small (payload_size payloads) []
        s (match_loop max payloads fuel 1024) (record { bytes = refl; arriving = λ a. a.0 })
        (λ a. a.1)
        (λ b s' l v.
          match_loop-Says max payloads (flat s)
            (IsArriving s × (payload_size payloads ≤ length (flat s))) small fuel 1024 b s' v
            (omega arith) (omega arith) (inl (53, omega arith, omega (arith, l))) (omega arith)))
]
