-- ===== src/Health/Payload/Places.antt =====
-- Which buffers match a list of payloads.
use orion.Base.{
  ℕ, zero, suc, ◌+◌, ◌-◌, ◌≤◌, ◌<◌, ◌≡◌, ◌↔◌, refl, sym, ap, subst, ◌∙◌, Bool, true, false, List,
  [], ◌∷◌, Option, none, some, length, drop, replicate, drop-drop, length-drop, leb, if◌then◌else◌,
  arith, Bool-cases, inl, inr,
}
use orion.Matching.Text.Defs.{is_prefix, find_text}
use orion.Matching.Text.Parts.{HasPrefix, is_prefix_iff}
use orion.Health.Payload.Defs.{is_empty, added, next_index, go_on, matches_from, matches}

abbrev pub OccursAt : List ℕ → List ℕ → ℕ → Type 0
OccursAt p s j = HasPrefix p (drop j s)

-- The payloads stand in the buffer, each at a place that is not before that of the one in front.
abbrev pub Placed : List ℕ → List (List ℕ) → ℕ → Type 0
Placed s [] i = Unit
Placed s (p ∷ payloads) i = (j : ℕ) × (i ≤ j) × OccursAt p s j × Placed s payloads j

Placed-mono :
    (s : List ℕ) (payloads : List (List ℕ)) (i j : ℕ)
    → i ≤ j
    → Placed s payloads j
    → Placed s payloads i
Placed-mono s [] i j h q = tt
Placed-mono s (p ∷ payloads) i j h (k, l, o, q) = (k, omega arith, o, q)

-- The first place of a payload.
abbrev IsFirst : List ℕ → List ℕ → ℕ → Option ℕ → Type 0
IsFirst p s i none = (j : ℕ) → ¬ OccursAt p s j
IsFirst p s i (some k) = (j : ℕ) × (k ≡ i + j) × OccursAt p s j × ((m : ℕ) → OccursAt p s m → j ≤ m)

nowhere_in_nil : (x : ℕ) (p : List ℕ) (j : ℕ) → ¬ OccursAt (x ∷ p) [] j
nowhere_in_nil x p zero (r, e) = ground arith
nowhere_in_nil x p (suc j) (r, e) = ground arith

not_here : (p s : List ℕ) → is_prefix p s ≡ false → ¬ HasPrefix p s
not_here p s t h = ground (arith, (is_prefix_iff p s).1 h)

-- Behind a first byte where the payload does not stand.
behind :
    (p : List ℕ) (b : ℕ) (s : List ℕ) (Q : ℕ → Type 0)
    → is_prefix p (b ∷ s) ≡ false
    → ((j : ℕ) → OccursAt p s j → Q (suc j))
    → (j : ℕ) → OccursAt p (b ∷ s) j
    → Q j
behind p b s Q t h zero o = absurd (not_here p (b ∷ s) t o)
behind p b s Q t h (suc j) o = h j o

IsFirst-cons :
    (p : List ℕ) (b : ℕ) (s : List ℕ) (i : ℕ) (t : Bool) (later : Option ℕ)
    → is_prefix p (b ∷ s) ≡ t
    → IsFirst p s (suc i) later
    → IsFirst p (b ∷ s) i (if t then some i else later)
IsFirst-cons p b s i true later e h =
    (0, omega arith, (is_prefix_iff p (b ∷ s)).0 e, λ m o. omega arith)
IsFirst-cons p b s i false none e h = behind p b s (λ j. ⊥) e h
IsFirst-cons p b s i false (some k) e (j, q, o, least) =
    (suc j, omega arith, o, behind p b s (λ m. suc j ≤ m) e (λ m n. omega (arith, least m n)))

find_text-IsFirst : (p s : List ℕ) (i : ℕ) → is_empty p ≡ false → IsFirst p s i (find_text p s i)
unfolding find_text
find_text-IsFirst [] s i h = absurd (ground arith)
find_text-IsFirst (x ∷ p) [] i h = nowhere_in_nil x p
find_text-IsFirst (x ∷ p) (b ∷ s) i h =
    IsFirst-cons (x ∷ p) b s i (is_prefix (x ∷ p) (b ∷ s)) (find_text (x ∷ p) s (suc i)) refl
      (find_text-IsFirst (x ∷ p) s (suc i) h)

-- The index behind a round is the first place of the payload that is not before the index.
abbrev IsNext : List ℕ → List ℕ → ℕ → Option ℕ → Type 0
IsNext p s i none = (j : ℕ) → i ≤ j → ¬ OccursAt p s j
IsNext p s i (some k) = (i ≤ k) × OccursAt p s k × ((m : ℕ) → i ≤ m → OccursAt p s m → k ≤ m)

OccursAt-drop : (p s : List ℕ) (i j : ℕ) → OccursAt p (drop i s) j ↔ OccursAt p s (i + j)
OccursAt-drop p s i j =
    (λ (r, e). (r, sym (drop-drop i j s) ∙ e), λ (r, e). (r, drop-drop i j s ∙ e))

added-IsNext :
    (p s : List ℕ) (i : ℕ) (o : Option ℕ) → IsFirst p (drop i s) 0 o → IsNext p s i (added i o)
added-IsNext p s i none h =
    λ j l q. h (j - i) ((OccursAt-drop p s i (j - i)).1 (subst (OccursAt p s) (omega arith) q))
added-IsNext p s i (some k) (j, e, o, least) = (
  omega arith,
  subst (OccursAt p s) (omega arith) ((OccursAt-drop p s i j).0 o),
  λ m l q. omega (
    arith,
    least (m - i) ((OccursAt-drop p s i (m - i)).1 (subst (OccursAt p s) (omega arith) q)),
  ),
)

occurs_inside : (x : ℕ) (p s : List ℕ) (j : ℕ) → OccursAt (x ∷ p) s j → j < length s
occurs_inside x p s j (r, e) = omega (arith, ap length e, length-drop j s)

next_index-IsNext : (p s : List ℕ) (i : ℕ) → IsNext p s i (next_index s i p)
unfolding next_index
next_index-IsNext [] s i = (omega arith, (drop i s, refl), λ m l q. l)
next_index-IsNext (x ∷ p) s i = elim (Bool-cases (leb i (length s))) [
  | inl h ↦ rw h (
      added-IsNext (x ∷ p) s i (find_text (x ∷ p) (drop i s) 0)
        (find_text-IsFirst (x ∷ p) (drop i s) 0 refl))
  | inr h ↦ rw h (λ j l q. ground (arith, occurs_inside x p s j q))
]

go_on-Placed :
    (p s : List ℕ) (payloads : List (List ℕ)) (i : ℕ) (o : Option ℕ) (next : ℕ → Bool)
    → IsNext p s i o
    → ((k : ℕ) → (next k ≡ true) ↔ Placed s payloads k)
    → (go_on o next ≡ true) ↔ Placed s (p ∷ payloads) i
go_on-Placed p s payloads i none next n h = (λ e. ground arith, λ (j, l, q, r). absurd (n j l q))
go_on-Placed p s payloads i (some k) next (l, q, least) h = (
  λ e. (k, l, q, (h k).0 e),
  λ (j, l', q', r). (h k).1 (Placed-mono s payloads k j (least j l' q') r),
)

matches_from-Placed :
    (s : List ℕ) (payloads : List (List ℕ)) (i : ℕ)
    → (matches_from s payloads i ≡ true) ↔ Placed s payloads i
unfolding matches_from
matches_from-Placed s [] i = (λ h. tt, λ u. refl)
matches_from-Placed s (p ∷ payloads) i =
    go_on-Placed p s payloads i (next_index s i p) (matches_from s payloads)
      (next_index-IsNext p s i) (matches_from-Placed s payloads)

-- A buffer matches exactly if the payloads stand in it one behind the other, each at a place that is
-- not before that of the one in front; two of them may overlap, or stand at the same place.
pub matches-Placed :
    (buffer : List ℕ) (payloads : List (List ℕ))
    → (matches buffer payloads ≡ true) ↔ Placed buffer payloads 0
unfolding matches
matches-Placed buffer payloads = matches_from-Placed buffer payloads 0

Placed-replicate : (s p : List ℕ) (n i j : ℕ) → i ≤ j → OccursAt p s j → Placed s (replicate n p) i
Placed-replicate s p zero i j h o = tt
Placed-replicate s p (suc n) i j h o = (j, h, o, Placed-replicate s p n j j (omega arith) o)

-- A payload that is expected several times is found if it stands there once.
pub once_is_enough :
    (buffer p : List ℕ) (n j : ℕ) → OccursAt p buffer j → matches buffer (replicate n p) ≡ true
once_is_enough buffer p n j o =
    (matches-Placed buffer (replicate n p)).1 (Placed-replicate buffer p n 0 j (omega arith) o)
