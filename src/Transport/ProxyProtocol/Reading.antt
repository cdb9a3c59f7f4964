-- ===== src/Transport/ProxyProtocol/Reading.antt =====
-- What the reader takes from the stream.
use orion.Base.{
  list_eq, list_eq_refl, ℕ, ◌+◌, ◌-◌, ◌*◌, ◌≤◌, ◌<◌, ◌≡◌, refl, ◌∙◌, true, false, List, none, some,
  length, take, drop, get_or, ltb, leb, if◌then◌else◌, arith, inl, inr, Bool-cases,
  take-append-take, drop-drop, take-take, get_or-take, length-take, length-drop,
}
use orion.Transport.ProxyProtocol.Defs.{Ppp, detected_v2, unexpected_eof, v2_length_index}
use orion.Transport.ProxyProtocol.Header.{
  HeaderRead, detected, failed, panicked, read_header_bytes, head_read, v2_or_none, v2_read,
  v2_body, extended_read, head_read, v2_or_none, v2_read, v2_body, extended_read, read_exact,
}

pub read_exact-some :
    (n : ℕ) (s : List ℕ) → n ≤ length s → read_exact n s ≡ some (take n s, drop n s)
unfolding read_exact
read_exact-some n s h = ground arith

read_exact-none : (n : ℕ) (s : List ℕ) → length s < n → read_exact n s ≡ none
unfolding read_exact
read_exact-none n s h = ground arith

-- The part of a version 2 header behind its fixed 16 bytes, as the header states it.
abbrev pub stated_length : List ℕ → ℕ
stated_length s = get_or s v2_length_index 0 * 256 + get_or s (v2_length_index + 1) 0

stated_length-take : (s : List ℕ) → stated_length (take 16 s) ≡ stated_length s
stated_length-take s = rw (get_or-take 14 16 s 0 (omega arith), get_or-take 15 16 s 0 (omega arith))

v2_read-short :
    (head s : List ℕ) (n : ℕ)
    → stated_length head ≡ n
    → 16 + n ≤ 512
    → v2_read head s ≡ v2_body head (16 + n) (read_exact n s)
unfolding v2_read
v2_read-short head s n e h =
    let fits : ltb 512 (16 + n) ≡ false = ground arith in
    let body : 16 + n - 16 ≡ n = omega arith in rw (e, fits, body)

v2_read-long :
    (head s : List ℕ) (n : ℕ) → stated_length head ≡ n → 512 < 16 + n → v2_read head s ≡ panicked
unfolding v2_read extended_read
v2_read-long head s n e h =
    let exceeds : ltb 512 (16 + n) ≡ true = ground arith in
    let outside : leb (16 + n) (length (take 16 head)) ≡ false =
      ground (arith, length-take 16 head) in
    rw (e, exceeds, outside)

-- What reading a version 2 header of `n` bytes in all comes to.
abbrev pub v2_header_outcome : ℕ → List ℕ → HeaderRead
v2_header_outcome n s =
    if ltb 512 n
    then panicked
    else if ltb (length s) n
    then failed unexpected_eof
    else detected (detected_v2 none) (take n s) (drop n s)

v2_body-outcome :
    (n : ℕ) (s : List ℕ)
    → 16 ≤ length s
    → v2_body (take 16 s) (16 + n) (read_exact n (drop 16 s)) ≡ (
        if ltb (length s) (16 + n)
        then failed unexpected_eof
        else detected (detected_v2 none) (take (16 + n) s) (drop (16 + n) s))
unfolding v2_body
v2_body-outcome n s h = elim (Bool-cases (ltb (length s) (16 + n))) [
  | inl cut ↦ rw (cut, read_exact-none n (drop 16 s) (ground (arith, length-drop 16 s)))
  | inr whole ↦ rw (
    whole,
    read_exact-some n (drop 16 s) (ground (arith, length-drop 16 s)),
    take-append-take 16 n s,
    drop-drop 16 n s,
  )
]

module _ (ppp : Ppp) (s : List ℕ) (fixed : 16 ≤ length s)
    (not_v1 : list_eq (take 5 s) ppp.v1_prefix ≡ false) (v2 : take 12 s ≡ ppp.v2_prefix) where
  fixed_part : read_header_bytes ppp s ≡ v2_read (take 16 s) (drop 16 s)
  unfolding read_header_bytes head_read v2_or_none
  fixed_part = rw (
    read_exact-some 5 s (omega arith),
    not_v1,
    read_exact-some 11 (drop 5 s) (omega (arith, length-drop 5 s)),
    take-append-take 5 11 s,
    drop-drop 5 11 s,
    take-take 12 16 s (omega arith),
    v2,
    list_eq_refl ppp.v2_prefix,
  )

  -- A version 2 header with `n` bytes behind its fixed part is read to its stated end and not
  -- beyond, and a stream that ends before is an error; but a header of more than 512 bytes makes the
  -- reader panic, whatever follows it.
  pub v2_header_read :
      (n : ℕ) → stated_length s ≡ n → read_header_bytes ppp s ≡ v2_header_outcome (16 + n) s
  v2_header_read n e = elim (Bool-cases (ltb 512 (16 + n))) [
    | inl long ↦
        fixed_part ∙ v2_read-long (take 16 s) (drop 16 s) n stated (ground arith) ∙ rw long refl
    | inr short ↦
        fixed_part
        ∙ v2_read-short (take 16 s) (drop 16 s) n stated (ground arith)
        ∙ rw short (v2_body-outcome n s fixed)
  ]
    where
      stated : stated_length (take 16 s) ≡ n
      stated = stated_length-take s ∙ e
