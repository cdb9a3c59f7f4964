-- ===== src/Base/Decides.antt =====
-- Tests that may panic, and what they decide. `none` is a panic.
use mathlib.Core.Path.{◌≡◌, refl}
use mathlib.Core.Logic.{◌↔◌, ◌⊎◌, inl, inr}
use mathlib.Core.Bool.{Bool, true, false, ◌||◌}
use mathlib.Core.List.{List, [], ◌∷◌}
use mathlib.Core.Option.{Option, none, some}
use native.Mathlib.Omega.{arith}
use orion.Base.Tests.{if◌then◌else◌, xor}
use orion.Base.Lists.{any}

-- A match, inverted; a panic stays one.
abbrev pub inverted : Bool → Option Bool → Option Bool
inverted invert none = none
inverted invert (some matched) = some (xor matched invert)

abbrev pub or_else : Option Bool → Option Bool → Option Bool
or_else none later = none
or_else (some true) later = some true
or_else (some false) later = later

-- `first_result | any(…)`: the rest is looked at in any case.
abbrev pub or_both : Option Bool → Option Bool → Option Bool
or_both none b = none
or_both (some a) none = none
or_both (some a) (some b) = some (a || b)

-- A result that is not a panic, and that is true exactly under a condition.
abbrev pub Decides : Option Bool → Type 0 → Type 0
Decides none P = ⊥
Decides (some b) P = (b ≡ true) ↔ P

abbrev pub Inverted : Bool → Type 0 → Type 0
Inverted false P = P
Inverted true P = ¬ P

module _ (P : Type 0) where
  pub inverted-Decides :
      (invert : Bool) (o : Option Bool)
      → Decides o P
      → Decides (inverted invert o) (Inverted invert P)
  inverted-Decides invert none d = d
  inverted-Decides false (some true) (to, from) = (λ h. to refl, λ p. refl)
  inverted-Decides false (some false) (to, from) = (λ h. ground arith, λ p. from p)
  inverted-Decides true (some true) (to, from) = (λ h. ground arith, λ n. absurd (n (to refl)))
  inverted-Decides true (some false) (to, from) = (λ h p. ground (arith, from p), λ n. refl)

  pub or_else-Decides :
      (Q : Type 0) (o later : Option Bool)
      → Decides o P
      → Decides later Q
      → Decides (or_else o later) (P ⊎ Q)
  or_else-Decides Q none later d e = d
  or_else-Decides Q (some true) later (to, from) e = (λ h. inl (to refl), λ s. refl)
  or_else-Decides Q (some false) none d e = e
  or_else-Decides Q (some false) (some b) (to, from) (to', from') =
      (λ h. inr (to' h), λ s. elim s [ inl p ↦ absurd (ground (arith, from p)) | inr q ↦ from' q ])

  pub or_both-Decides :
      (Q : Type 0) (o later : Option Bool)
      → Decides o P
      → Decides later Q
      → Decides (or_both o later) (P ⊎ Q)
  or_both-Decides Q none later d e = d
  or_both-Decides Q (some true) none d e = e
  or_both-Decides Q (some true) (some b) (to, from) e = (λ h. inl (to refl), λ s. refl)
  or_both-Decides Q (some false) none d e = e
  or_both-Decides Q (some false) (some b) (to, from) (to', from') =
      (λ h. inr (to' h), λ s. elim s [ inl p ↦ absurd (ground (arith, from p)) | inr q ↦ from' q ])

  pub or_nothing-Decides : (o : Option Bool) → Decides o P → Decides o (P ⊎ ⊥)
  or_nothing-Decides none d = d
  or_nothing-Decides (some b) (to, from) =
      (λ h. inl (to h), λ s. elim s [ inl p ↦ from p | inr q ↦ absurd q ])

  pub if-Decides :
      (t : Bool) (o : Option Bool)
      → Decides o P
      → Decides (if t then o else some false) ((t ≡ true) × P)
  if-Decides true none d = d
  if-Decides true (some b) (to, from) = (λ h. (refl, to h), λ (e, p). from p)
  if-Decides false o d = (λ h. ground arith, λ (e, p). e)

abbrev pub Any : {A : Type 0} → (A → Type 0) → List A → Type 0
Any P [] = ⊥
Any P (x ∷ xs) = P x ⊎ Any P xs

pub or_iff :
    (a b : Bool) (P Q : Type 0) → (a ≡ true) ↔ P → (b ≡ true) ↔ Q → ((a || b) ≡ true) ↔ (P ⊎ Q)
or_iff true b P Q (to, from) e = (λ h. inl (to refl), λ s. refl)
or_iff false b P Q (to, from) (to', from') =
    (λ h. inr (to' h), λ s. elim s [ inl p ↦ absurd (ground (arith, from p)) | inr q ↦ from' q ])

pub any_iff :
    {A : Type 0} (p : A → Bool) (P : A → Type 0) (xs : List A)
    → ((x : A) → (p x ≡ true) ↔ P x)
    → (any p xs ≡ true) ↔ Any P xs
any_iff p P [] h = (λ e. ground arith, λ q. absurd q)
any_iff p P (x ∷ xs) h = or_iff (p x) (any p xs) (P x) (Any P xs) (h x) (any_iff p P xs h)

-- What is not so can be left out.
pub absent-Decides : (P Q : Type 0) (o : Option Bool) → ¬ P → Decides o Q → Decides o (P ⊎ Q)
absent-Decides P Q none n d = d
absent-Decides P Q (some b) n (to, from) =
    (λ h. inr (to h), λ s. elim s [ inl p ↦ absurd (n p) | inr q ↦ from q ])

abbrev pub and_then : Option Bool → Option Bool → Option Bool
and_then none later = none
and_then (some false) later = some false
and_then (some true) later = later

pub and_then-Decides :
    (P Q : Type 0) (o later : Option Bool)
    → Decides o P
    → Decides later Q
    → Decides (and_then o later) (P × Q)
and_then-Decides P Q none later d e = d
and_then-Decides P Q (some true) none d e = e
and_then-Decides P Q (some true) (some b) (to, from) (to', from') =
    (λ h. (to refl, to' h), λ (p, q). from' q)
and_then-Decides P Q (some false) later (to, from) e = (λ h. ground arith, λ (p, q). from p)

pub map-Decides : (P Q : Type 0) (o : Option Bool) → (P → Q) → (Q → P) → Decides o P → Decides o Q
map-Decides P Q none f g d = d
map-Decides P Q (some b) f g (to, from) = (λ h. f (to h), λ q. from (g q))
