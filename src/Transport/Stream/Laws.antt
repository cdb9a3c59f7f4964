-- ===== src/Transport/Stream/Laws.antt =====
-- Reading a stream piece by piece is reading its bytes.
use mathlib.Core.List.{append_assoc}
use orion.Base.{
  ℕ, zero, suc, ◌+◌, ◌-◌, ◌≤◌, ◌≡◌, refl, ap, ◌∙◌, List, [], ◌∷◌, ◌++◌, length, take, drop,
  take-append-drop, arith, length-append, length-take, length-take,
}
use orion.Transport.Stream.Defs.{Stream, put_back, flat, IsArriving}

pub flat-put_back : (bs : List ℕ) (s : Stream) → flat (put_back bs s) ≡ bs ++ flat s
flat-put_back [] s = refl
flat-put_back (b ∷ bs) s = refl

pub put_back-IsArriving : (bs : List ℕ) (s : Stream) → IsArriving s → IsArriving (put_back bs s)
put_back-IsArriving [] s h = h
put_back-IsArriving (b ∷ bs) s h = (omega arith, h)

-- `take` and `drop` past a first part.
pub take-append_le :
    (n : ℕ) (xs ys : List ℕ) → length xs ≤ n → take n (xs ++ ys) ≡ xs ++ take (n - length xs) ys
take-append_le n [] ys h = ap (λ (k : ℕ). take k ys) (omega arith)
take-append_le zero (x ∷ xs) ys h = elim h [ ]
take-append_le (suc n) (x ∷ xs) ys h =
    ap (◌∷◌ x)
      (take-append_le n xs ys (omega arith) ∙ ap (λ (k : ℕ). xs ++ take k ys) (omega arith))

pub drop-append_le :
    (n : ℕ) (xs ys : List ℕ) → length xs ≤ n → drop n (xs ++ ys) ≡ drop (n - length xs) ys
drop-append_le n [] ys h = ap (λ (k : ℕ). drop k ys) (omega arith)
drop-append_le zero (x ∷ xs) ys h = elim h [ ]
drop-append_le (suc n) (x ∷ xs) ys h =
    drop-append_le n xs ys (omega arith) ∙ ap (λ (k : ℕ). drop k ys) (omega arith)

-- A read of `m ≤ n` bytes out of the first piece, and then of the rest of the `n`.
module _ (n m : ℕ) (bs : List ℕ) (s : Stream) (h : m ≤ n) where
  abbrev pub rest_length : ℕ
  rest_length = n - length (take m bs)

  regroup : bs ++ flat s ≡ take m bs ++ flat (put_back (drop m bs) s)
  regroup =
      rw (flat-put_back, ← append_assoc (take m bs) (drop m bs) (flat s), take-append-drop m bs)

  pub take-read :
      take n (bs ++ flat s) ≡ take m bs ++ take rest_length (flat (put_back (drop m bs) s))
  take-read =
      ap (take n) regroup
      ∙ take-append_le n (take m bs) (flat (put_back (drop m bs) s))
          (omega (arith, length-take m bs))

  pub drop-read : drop n (bs ++ flat s) ≡ drop rest_length (flat (put_back (drop m bs) s))
  drop-read =
      ap (drop n) regroup
      ∙ drop-append_le n (take m bs) (flat (put_back (drop m bs) s))
          (omega (arith, length-take m bs))

  pub length-read :
      length (bs ++ flat s) ≡ length (take m bs) + length (flat (put_back (drop m bs) s))
  length-read = ap length regroup ∙ length-append (take m bs) (flat (put_back (drop m bs) s))
