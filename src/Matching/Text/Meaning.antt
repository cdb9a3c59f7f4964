-- ===== src/Matching/Text/Meaning.antt =====
-- What a string matcher means, and that it computes that.
use orion.Base.{
  ℕ, zero, suc, ◌-◌, ◌≤◌, ◌≡◌, ◌↔◌, refl, ap, ◌∙◌, Bool, true, false, not, List, [], ◌∷◌, some, map,
  length, take, drop, list_eq, list_eq_refl, list_eq_lem, leb, arith, length-map, length-drop,
  Bool-cases, inl, inr,
}
use orion.Base.Decides.{Decides}
use orion.Matching.Text.Defs.{
  lower, is_prefix, is_suffix, find_text, CaseSensitive, equals, starts_with, ends_with, find,
  is_some, contains, StringMatcherPattern, exact, prefix, suffix, containing, regex, StringMatcher,
  matches_pattern, matches,
}
use orion.Matching.Text.Parts.{
  IsAscii, folded, HasPrefix, HasSuffix, Contains, is_prefix_iff, is_suffix_iff, find_text_iff,
  is_prefix-short, find_text-short,
}
use orion.Matching.Text.Loop.{drop-map, eq_slice-ascii, find_insensitive_lem}

take-all : (n : ℕ) (xs : List ℕ) → length xs ≤ n → take n xs ≡ xs
take-all zero [] h = refl
take-all zero (x ∷ xs) h = elim h [ ]
take-all (suc n) [] h = refl
take-all (suc n) (x ∷ xs) h = ap (◌∷◌ x) (take-all n xs (omega arith))

abbrev pub matcher_on : Bool → List ℕ → CaseSensitive
matcher_on ic text = record { sensitive = not ic; text = text }

pub equals-folded :
    (ic : Bool) (p text : List ℕ)
    → equals (matcher_on ic text) p ≡ list_eq (folded ic text) (folded ic p)
unfolding equals
equals-folded true p text = refl
equals-folded false p text = refl

pub starts_with-folded :
    (ic : Bool) (p text : List ℕ)
    → IsAscii text
    → starts_with (matcher_on ic text) p ≡ some (is_prefix (folded ic p) (folded ic text))
unfolding starts_with
starts_with-folded false p text a = refl
starts_with-folded true p text a = elim (Bool-cases (leb (length p) (length text))) [
  | inl fits ↦ rw fits (eq_slice-ascii p text 0 a (ground arith))
  | inr long ↦
      rw
        (
          long,
          is_prefix-short (map lower p) (map lower text)
              (ground (arith, length-map p lower, length-map text lower)),
        )
        refl
]

ends_with-folded :
    (ic : Bool) (p text : List ℕ)
    → IsAscii text
    → ends_with (matcher_on ic text) p ≡ some (is_suffix (folded ic p) (folded ic text))
unfolding ends_with
ends_with-folded false p text a = refl
ends_with-folded true p text a = elim (Bool-cases (leb (length p) (length text))) [
  | inl fits ↦
      rw (fits, length-map p lower, length-map text lower, fits)
        (eq_slice-ascii p text (length text - length p) a (ground arith)
          ∙ rw
              (
                length-map p lower,
                ← drop-map (length text - length p) lower text,
                take-all (length p) (drop (length text - length p) (map lower text)) (
                    omega (
                      arith,
                      length-drop (length text - length p) (map lower text),
                      length-map text lower,
                    )),
              )
              refl)
  | inr long ↦ rw (long, length-map p lower, length-map text lower, long) refl
]

find-folded :
    (ic : Bool) (p text : List ℕ)
    → IsAscii text
    → find (matcher_on ic text) p ≡ some (find_text (folded ic p) (folded ic text) 0)
unfolding find
find-folded false p text a = refl
find-folded true p text a = elim (Bool-cases (leb (length p) (length text))) [
  | inl fits ↦
      rw
        (
          fits,
          find_insensitive_lem p text text (suc (length text - length p)) 0 a refl (omega arith)
              (omega arith) (ground arith),
        )
        refl
  | inr long ↦
      rw
        (
          long,
          find_text-short (map lower p) (map lower text) 0
              (ground (arith, length-map p lower, length-map text lower)),
        )
        refl
]

pub contains-folded :
    (ic : Bool) (p text : List ℕ)
    → IsAscii text
    → contains (matcher_on ic text) p ≡ some (is_some (find_text (folded ic p) (folded ic text) 0))
unfolding contains
contains-folded ic p text a = rw (find-folded ic p text a) refl

abbrev pub Meaning : StringMatcherPattern → Bool → List ℕ → Type 0
Meaning (exact p) ic s = folded ic s ≡ folded ic p
Meaning (prefix p) ic s = HasPrefix (folded ic p) (folded ic s)
Meaning (suffix p) ic s = HasSuffix (folded ic p) (folded ic s)
Meaning (containing p) ic s = Contains (folded ic p) (folded ic s)
Meaning (regex r) ic s = r s ≡ true

pub list_eq_iff : (xs ys : List ℕ) → (list_eq xs ys ≡ true) ↔ (xs ≡ ys)
list_eq_iff xs ys = (list_eq_lem xs ys, λ e. rw e (list_eq_refl ys))

pattern_lem :
    (ic : Bool) (pattern : StringMatcherPattern) (s : List ℕ)
    → IsAscii s
    → Decides (matches_pattern (matcher_on ic s) pattern) (Meaning pattern ic s)
unfolding matches_pattern
pattern_lem ic (exact p) s a = rw (equals-folded ic p s) (list_eq_iff (folded ic s) (folded ic p))
pattern_lem ic (prefix p) s a =
    rw (starts_with-folded ic p s a) (is_prefix_iff (folded ic p) (folded ic s))
pattern_lem ic (suffix p) s a =
    rw (ends_with-folded ic p s a) (is_suffix_iff (folded ic p) (folded ic s))
pattern_lem ic (containing p) s a =
    rw (contains-folded ic p s a) (find_text_iff (folded ic p) (folded ic s) 0)
pattern_lem ic (regex r) s a = (λ h. h, λ h. h)

-- On a text of ASCII characters no matcher panics, and it is true exactly when the text, without
-- its case where the matcher ignores case, is the pattern, or begins with it, ends with it, or has it
-- as a part, as the kind of the matcher says; or when the regular expression matches all of it.
pub matches_lem :
    (m : StringMatcher) (s : List ℕ)
    → IsAscii s
    → Decides (matches m s) (Meaning m.pattern m.ignore_case s)
unfolding matches
matches_lem m s a = pattern_lem m.ignore_case m.pattern s a
