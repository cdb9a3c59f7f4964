-- ===== src/Matching/Text/Boundaries.antt =====
-- Matchers without case slice a text at places that need not be those of characters.
use orion.Base.{
  ℕ, zero, suc, ◌+◌, ◌-◌, ◌≤◌, ◌≡◌, refl, ap, ◌∙◌, ◌&&◌, true, false, List, [], ◌∷◌, ◌++◌, none,
  some, length, replicate, get_elem?, length-append, length-replicate, leb, arith,
}
use orion.Matching.Text.Defs.{
  prefix, suffix, matches, matches_pattern, starts_with, ends_with, slice, is_char_boundary,
}

-- The letter "é" in its two bytes.
abbrev pub accented : List ℕ
accented = 0xc3 ∷ 0xa9 ∷ []

second_byte : (k b : ℕ) → get_elem? (replicate k b ++ accented) (suc k) ≡ some 0xa9
second_byte zero b = refl
second_byte (suc k) b = second_byte k b

length_in_front : (k b : ℕ) → length (replicate k b ++ accented) ≡ suc (suc k)
length_in_front k b = length-append (replicate k b) accented ∙ omega (arith, length-replicate k b)

inside_last : (k b : ℕ) → is_char_boundary (replicate k b ++ accented) (suc k) ≡ false
inside_last k b = rw (second_byte k b) (ground arith)

-- The text of a letter as often as is wanted, and "é" behind it or in front of it.
abbrev pub behind_letters : ℕ → List ℕ
behind_letters k = replicate k b'a' ++ accented

abbrev pub before_letters : ℕ → List ℕ
before_letters k = accented ++ replicate k b'a'

prefix_outside :
    (p s : List ℕ)
    → length p ≤ length s
    → is_char_boundary s (length p) ≡ false
    → matches (record { ignore_case = true; pattern = prefix p }) s ≡ none
unfolding matches matches_pattern starts_with slice
prefix_outside p s h b =
    let fits : leb (length p) (length s) ≡ true = ground arith in
    let inside : (is_char_boundary s 0 && is_char_boundary s (0 + length p)) ≡ false =
      ground arith in
    rw (fits, inside) refl

suffix_outside :
    (p s : List ℕ)
    → length p ≤ length s
    → is_char_boundary s (length s - length p) ≡ false
    → matches (record { ignore_case = true; pattern = suffix p }) s ≡ none
unfolding matches matches_pattern ends_with slice
suffix_outside p s h b =
    let fits : leb (length p) (length s) ≡ true = ground arith in
    let outside : (is_char_boundary s (length s - length p)
          && is_char_boundary s ((length s - length p) + length p))
        ≡ false =
      ground arith in
    rw (fits, outside) refl

letters : (k : ℕ) → length (before_letters k) ≡ suc (suc k)
letters k = ap (λ (n : ℕ). suc (suc n)) (length-replicate {A = ℕ} k b'a')

inside_first :
    (b k : ℕ) (p : List ℕ)
    → length p ≡ k
    → is_char_boundary (before_letters k) (length (before_letters k) - length (b ∷ p)) ≡ false
inside_first b k p h =
    ap (is_char_boundary (before_letters k)) {y = 1} (omega (arith, letters k)) ∙ ground arith

-- No prefix and no suffix but the empty one is safe to match without its case: on the text of one
-- letter less than it has bytes, and then "é", the matcher of a prefix panics, and on that of "é" and
-- then these letters the matcher of a suffix.
pub nonempty_panics :
    (b : ℕ) (p : List ℕ)
    → (matches (record { ignore_case = true; pattern = prefix (b ∷ p) }) (behind_letters (length p))
        ≡ none)
      × (matches
            (record { ignore_case = true; pattern = suffix (b ∷ p) })
            (before_letters (length p))
          ≡ none)
nonempty_panics b p = (
  prefix_outside (b ∷ p) (behind_letters (length p))
      (omega (arith, length_in_front (length p) b'a')) (inside_last (length p) b'a'),
  suffix_outside (b ∷ p) (before_letters (length p)) (omega (arith, letters (length p)))
      (inside_first b (length p) p refl),
)
