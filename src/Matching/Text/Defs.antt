-- ===== src/Matching/Text/Defs.antt =====
-- `CaseSensitive` and `StringMatcher` of orion-configuration/src/config/core.rs. A text is its
-- bytes in UTF-8. A slice of it that does not end at the bounds of characters panics: `none`.
use orion.Base.{
  ℕ, zero, suc, ◌+◌, ◌-◌, Bool, true, false, not, ◌&&◌, ◌||◌, List, [], ◌∷◌, Option, none, some,
  map, length, take, drop, get_elem?, list_eq, ltb, leb, if◌then◌else◌,
}

abbrev pub lower : ℕ → ℕ
lower b = if leb b'A' b && leb b b'Z' then b + 32 else b

abbrev pub eq_ignore_ascii_case : List ℕ → List ℕ → Bool
eq_ignore_ascii_case xs ys = list_eq (map lower xs) (map lower ys)

-- A byte that continues a character is one of 0x80..0xbf.
abbrev starts_character : Option ℕ → Bool
starts_character none = true
starts_character (some b) = ltb b 0x80 || leb 0xc0 b

abbrev pub is_char_boundary : List ℕ → ℕ → Bool
is_char_boundary s i = leb i (length s) && starts_character (get_elem? s i)

-- `&s[i..i + n]`
unfoldable pub slice : List ℕ → ℕ → ℕ → Option (List ℕ)
slice s i n =
    if is_char_boundary s i && is_char_boundary s (i + n) then some (take n (drop i s)) else none

-- The methods of the standard library on texts.
abbrev pub is_prefix : List ℕ → List ℕ → Bool
is_prefix p s = list_eq p (take (length p) s)

abbrev pub is_suffix : List ℕ → List ℕ → Bool
is_suffix p s = leb (length p) (length s) && list_eq p (drop (length s - length p) s)

unfoldable pub find_text : List ℕ → List ℕ → ℕ → Option ℕ
find_text needle [] i = if is_prefix needle [] then some i else none
find_text needle (b ∷ s) i =
    let later = find_text needle s (suc i) in if is_prefix needle (b ∷ s) then some i else later

pub record CaseSensitive : Type 0 where
  pub sensitive : Bool
  pub text : List ℕ

unfoldable pub equals : CaseSensitive → List ℕ → Bool
equals c b = if c.sensitive then list_eq c.text b else eq_ignore_ascii_case c.text b

-- `prefix.eq_ignore_ascii_case` of a slice.
abbrev pub eq_slice : List ℕ → Option (List ℕ) → Option Bool
eq_slice b none = none
eq_slice b (some part) = some (eq_ignore_ascii_case b part)

unfoldable pub starts_with : CaseSensitive → List ℕ → Option Bool
unfolding slice
starts_with c prefix =
    if c.sensitive
    then some (is_prefix prefix c.text)
    else if leb (length prefix) (length c.text)
    then eq_slice prefix (slice c.text 0 (length prefix))
    else some false

unfoldable pub ends_with : CaseSensitive → List ℕ → Option Bool
unfolding slice
ends_with c suffix =
    if c.sensitive
    then some (is_suffix suffix c.text)
    else if leb (length suffix) (length c.text)
    then eq_slice suffix (slice c.text (length c.text - length suffix) (length suffix))
    else some false

-- The loop over the places `i`, with `k` of them left.
abbrev pub found_at : ℕ → Option Bool → Option (Option ℕ) → Option (Option ℕ)
found_at i none later = none
found_at i (some true) later = some (some i)
found_at i (some false) later = later

unfoldable pub find_insensitive : List ℕ → List ℕ → ℕ → ℕ → Option (Option ℕ)
unfolding slice
find_insensitive needle text zero i = some none
find_insensitive needle text (suc k) i =
    found_at i (eq_slice needle (slice text i (length needle)))
      (find_insensitive needle text k (suc i))

unfoldable pub find : CaseSensitive → List ℕ → Option (Option ℕ)
unfolding find_insensitive find_text
find c needle =
    if c.sensitive
    then some (find_text needle c.text 0)
    else if leb (length needle) (length c.text)
    then find_insensitive needle c.text (suc (length c.text - length needle)) 0
    else some none

abbrev pub is_some : Option ℕ → Bool
is_some none = false
is_some (some i) = true

abbrev pub found_in : Option (Option ℕ) → Option Bool
found_in none = none
found_in (some r) = some (is_some r)

unfoldable pub contains : CaseSensitive → List ℕ → Option Bool
unfolding find
contains c needle = found_in (find c needle)

-- A compiled pattern is what it does: `matches_full`.
pub data StringMatcherPattern : Type 0 where
  exact prefix suffix containing : List ℕ → StringMatcherPattern
  regex : (List ℕ → Bool) → StringMatcherPattern

pub record StringMatcher : Type 0 where
  pub ignore_case : Bool
  pub pattern : StringMatcherPattern

unfoldable pub matches_pattern : CaseSensitive → StringMatcherPattern → Option Bool
unfolding equals starts_with ends_with contains
matches_pattern c (exact s) = some (equals c s)
matches_pattern c (prefix p) = starts_with c p
matches_pattern c (suffix p) = ends_with c p
matches_pattern c (containing needle) = contains c needle
matches_pattern c (regex r) = some (r c.text)

unfoldable pub matches : StringMatcher → List ℕ → Option Bool
unfolding matches_pattern
matches m to_match =
    matches_pattern (record { sensitive = not m.ignore_case; text = to_match }) m.pattern
