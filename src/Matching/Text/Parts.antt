-- ===== src/Matching/Text/Parts.antt =====
-- :Parts of a text: the tests of the standard library decide them.
use orion.Base.{
  ℕ, zero, suc, ◌+◌, ◌-◌, ◌≤◌, ◌<◌, ◌≡◌, ◌↔◌, refl, sym, ap, ◌∙◌, Bool, true, false, List, [], ◌∷◌,
  ◌++◌, Option, none, some, map, length, take, drop, list_eq, list_eq_refl, list_eq_lem, leb,
  if◌then◌else◌, All, arith, length-append, take-append-drop, Bool-cases, inl, inr, ◌⊎◌, &&-eq-true,
}
use orion.Matching.Text.Defs.{
  lower, is_char_boundary, slice, is_prefix, is_suffix, find_text, is_some,
}

abbrev pub IsAscii : List ℕ → Type 0
IsAscii = All (λ b. b < 128)

pub boundary_ascii : (s : List ℕ) (i : ℕ) → IsAscii s → i ≤ length s → is_char_boundary s i ≡ true
boundary_ascii [] zero a h = refl
boundary_ascii [] (suc i) a h = elim h [ ]
boundary_ascii (x ∷ s) zero (a, as') h = ground arith
boundary_ascii (x ∷ s) (suc i) (a, as') h = ground (arith, boundary_ascii s i as' (omega arith))

pub slice_ascii :
    (s : List ℕ) (i n : ℕ) → IsAscii s → i + n ≤ length s → slice s i n ≡ some (take n (drop i s))
unfolding slice
slice_ascii s i n a h =
    rw (boundary_ascii s i a (omega arith), boundary_ascii s (i + n) a (omega arith)) refl

-- A text as the matcher compares it.
abbrev pub folded : Bool → List ℕ → List ℕ
folded ignore_case s = if ignore_case then map lower s else s

-- Parts of a text.
abbrev pub HasPrefix : List ℕ → List ℕ → Type 0
HasPrefix p s = (r : List ℕ) × (s ≡ p ++ r)

abbrev pub HasSuffix : List ℕ → List ℕ → Type 0
HasSuffix p s = (r : List ℕ) × (s ≡ r ++ p)

abbrev pub Contains : List ℕ → List ℕ → Type 0
Contains p s = (before : List ℕ) × (after : List ℕ) × (s ≡ before ++ (p ++ after))

take-append : (xs ys : List ℕ) → take (length xs) (xs ++ ys) ≡ xs
take-append [] ys = refl
take-append (x ∷ xs) ys = ap (◌∷◌ x) (take-append xs ys)

drop-append : (xs ys : List ℕ) → drop (length xs) (xs ++ ys) ≡ ys
drop-append [] ys = refl
drop-append (x ∷ xs) ys = drop-append xs ys

pub is_prefix_iff : (p s : List ℕ) → (is_prefix p s ≡ true) ↔ HasPrefix p s
is_prefix_iff p s = (
  λ h. (
    drop (length p) s,
    sym (take-append-drop (length p) s)
        ∙ ap (λ t. t ++ drop (length p) s) (sym (list_eq_lem p (take (length p) s) h)),
  ),
  λ (r, e). rw (e, take-append p r) (list_eq_refl p),
)

pub is_suffix_iff : (p s : List ℕ) → (is_suffix p s ≡ true) ↔ HasSuffix p s
is_suffix_iff p s = (
  λ h.
      let (l, e) =
        &&-eq-true (leb (length p) (length s)) (list_eq p (drop (length s - length p) s)) h in
      (
        take (length s - length p) s,
        sym (take-append-drop (length s - length p) s)
            ∙ ap (◌++◌ (take (length s - length p) s))
                (sym (list_eq_lem p (drop (length s - length p) s) e)),
      ),
  λ (r, e).
      let l : length s ≡ length r + length p = ap length e ∙ length-append r p in
      let n : length s - length p ≡ length r = omega arith in
      let same : list_eq p (drop (length s - length p) s) ≡ true =
        rw (n, e, drop-append r p) (list_eq_refl p) in
      ground arith,
)

is_some-if :
    (b : Bool) (i : ℕ) (later : Option ℕ)
    → (is_some (if b then some i else later) ≡ true) ↔ ((b ≡ true) ⊎ (is_some later ≡ true))
is_some-if true i later = (λ h. inl refl, λ h. refl)
is_some-if false i later = (λ h. inr h, λ h. elim h [ inl e ↦ ground arith | inr e ↦ e ])

Contains-nil : (p : List ℕ) → Contains p [] → HasPrefix p []
Contains-nil p ([], after, e) = (after, e)
Contains-nil p (c ∷ before, after, e) = absurd (ground (arith, ap length e))

Contains-cons :
    (p : List ℕ) (b : ℕ) (s : List ℕ) → Contains p (b ∷ s) → HasPrefix p (b ∷ s) ⊎ Contains p s
Contains-cons p b s ([], after, e) = inl (after, e)
Contains-cons p b s (c ∷ before, after, e) = inr (before, after, ap (drop 1) e)

-- The search of the standard library finds a part exactly when there is one.
pub find_text_iff : (p s : List ℕ) (i : ℕ) → (is_some (find_text p s i) ≡ true) ↔ Contains p s
unfolding find_text
find_text_iff p [] i =
    let (to, from) = is_some-if (is_prefix p []) i none in
    let (has, of) = is_prefix_iff p [] in
    (
      λ h. elim (to h) [ inl e ↦ let (r, d) = has e in ([], r, d) | inr e ↦ ground arith ],
      λ c. from (inl (of (Contains-nil p c))),
    )
find_text_iff p (b ∷ s) i =
    let (to, from) = is_some-if (is_prefix p (b ∷ s)) i (find_text p s (suc i)) in
    let (has, of) = is_prefix_iff p (b ∷ s) in
    let (has_later, of_later) = find_text_iff p s (suc i) in
    (
      λ h. elim (to h) [
        | inl e ↦ let (r, d) = has e in ([], r, d)
        | inr e ↦ let (before, after, d) = has_later e in (b ∷ before, after, ap (◌∷◌ b) d)
      ],
      λ c. elim (Contains-cons p b s c) [
        | inl q ↦ from (inl (of q))
        | inr q ↦ from (inr (of_later q))
      ],
    )

-- A text that is shorter than the part has no place for it.
pub is_prefix-short : (p s : List ℕ) → length s < length p → is_prefix p s ≡ false
is_prefix-short p s h = elim (Bool-cases (is_prefix p s)) [
  | inl e ↦
      let (r, d) = (is_prefix_iff p s).0 e in
      let l : length s ≡ length p + length r = ap length d ∙ length-append p r in
      absurd (omega arith)
  | inr e ↦ e
]

pub find_text-short : (p s : List ℕ) (i : ℕ) → length s < length p → find_text p s i ≡ none
unfolding find_text
find_text-short p [] i h = rw (is_prefix-short p [] h) refl
find_text-short p (b ∷ s) i h =
    rw (is_prefix-short p (b ∷ s) h) (find_text-short p s (suc i) (omega arith))
