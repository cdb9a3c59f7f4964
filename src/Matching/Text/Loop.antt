-- ===== src/Matching/Text/Loop.antt =====
-- :The loop of the search that ignores case, in a text of ASCII characters.
use orion.Base.{
  ℕ, zero, suc, ◌+◌, ◌-◌, ◌≤◌, ◌≡◌, refl, sym, ap, ◌∙◌, Bool, true, false, List, [], ◌∷◌, Option,
  none, some, map, length, take, drop, if◌then◌else◌, arith, length-map, length-drop,
}
use orion.Matching.Text.Defs.{
  lower, slice, is_prefix, find_text, eq_slice, found_at, find_insensitive,
}
use orion.Matching.Text.Parts.{IsAscii, slice_ascii, find_text-short}

take-map : (n : ℕ) (f : ℕ → ℕ) (xs : List ℕ) → take n (map f xs) ≡ map f (take n xs)
take-map zero f xs = refl
take-map (suc n) f [] = refl
take-map (suc n) f (x ∷ xs) = ap (◌∷◌ (f x)) (take-map n f xs)

pub drop-map : (n : ℕ) (f : ℕ → ℕ) (xs : List ℕ) → drop n (map f xs) ≡ map f (drop n xs)
drop-map zero f xs = refl
drop-map (suc n) f [] = refl
drop-map (suc n) f (x ∷ xs) = drop-map n f xs

-- One place of the loop, in a text without characters of several bytes.
pub eq_slice-ascii :
    (p text : List ℕ) (i : ℕ)
    → IsAscii text
    → i + length p ≤ length text
    → eq_slice p (slice text i (length p))
      ≡ some (is_prefix (map lower p) (map lower (drop i text)))
eq_slice-ascii p text i a h =
    rw
      (
        slice_ascii text i (length p) a h,
        length-map p lower,
        take-map (length p) lower (drop i text),
      )
      refl

found_at-some :
    (b : Bool) (i : ℕ) (later : Option ℕ)
    → found_at i (some b) (some later) ≡ some (if b then some i else later)
found_at-some true i later = refl
found_at-some false i later = refl

drop-suc : (i : ℕ) (xs : List ℕ) (c : ℕ) (t : List ℕ) → drop i xs ≡ c ∷ t → drop (suc i) xs ≡ t
drop-suc zero [] c t e = absurd (ground (arith, ap length e))
drop-suc zero (x ∷ xs) c t e = ap (drop 1) e
drop-suc (suc i) [] c t e = absurd (ground (arith, ap length e))
drop-suc (suc i) (x ∷ xs) c t e = drop-suc i xs c t e

-- The loop is the search in what both texts are without their case.
pub find_insensitive_lem :
    (p text t : List ℕ) (k i : ℕ)
    → IsAscii text
    → drop i text ≡ t
    → i ≤ length text
    → i + k ≡ suc (length text - length p)
    → length p ≤ length text
    → find_insensitive p text k i ≡ some (find_text (map lower p) (map lower t) i)
unfolding find_insensitive find_text
find_insensitive_lem p text t zero i a e b h l =
    let d : length t ≡ length text - i = sym (ap length e) ∙ length-drop i text in
    ap some (
      sym (
        find_text-short (map lower p) (map lower t) i
          (omega (arith, length-map p lower, length-map t lower))))
find_insensitive_lem p text [] (suc k) i a e b h l =
    let d : 0 ≡ length text - i = sym (ap length e) ∙ length-drop i text in
    let last : k ≡ 0 = omega arith in
    rw (eq_slice-ascii p text i a (omega arith), e, last)
      (found_at-some (is_prefix (map lower p) []) i none)
find_insensitive_lem p text (c ∷ t) (suc k) i a e b h l =
    let more : suc (length t) ≡ length text - i = sym (ap length e) ∙ length-drop i text in
    rw
      (
        eq_slice-ascii p text i a (omega arith),
        e,
        find_insensitive_lem p text t k (suc i) a (drop-suc i text c t e) (omega arith)
            (omega arith) l,
      )
      (found_at-some (is_prefix (map lower p) (map lower (c ∷ t))) i
        (find_text (map lower p) (map lower t) (suc i)))
