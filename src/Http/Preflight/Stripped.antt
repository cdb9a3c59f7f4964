-- ===== src/Http/Preflight/Stripped.antt =====
-- Which requests are refused, and which headers the others keep.
use mathlib.Core.List.{head?}
use orion.Base.{
  ℕ, ◌≡◌, refl, ap, ◌∙◌, Bool, true, false, ◌||◌, ◌⊎◌, inl, inr, List, [], ◌∷◌, Option, none, some,
  any, list_eq, if◌then◌else◌, arith, Bool-cases,
}
use orion.Http.Headers.{Headers, connection, values-remove}
use orion.Http.Preflight.Defs.{
  hop_by_hop_headers, is_upgrade_connection, connect, Refusal, connect_not_permitted,
  refused_upgrade, readable, filter_disallowed_requests, remove_all, strip_hop_headers, checked,
  apply_preflight_functions,
}

abbrev UpgradeRefused : Option (List ℕ) → Type 0
UpgradeRefused value = (v : List ℕ) × (value ≡ some v) × (is_upgrade_connection v ≡ true)

abbrev Agrees : Option Refusal → Type 0 → Type 0
Agrees none P = ¬ P
Agrees (some refusal) P = P

abbrev unwrap : List ℕ → Option (List ℕ) → List ℕ
unwrap d none = d
unwrap d (some s) = s

refused_upgrade-Agrees :
    (value : Option (List ℕ)) → Agrees (refused_upgrade value) (UpgradeRefused value)
refused_upgrade-Agrees none = λ (v, e, u). absurd (ground arith)
refused_upgrade-Agrees (some s) = elim (Bool-cases (is_upgrade_connection s)) [
  | inl h ↦ rw h (s, refl, h)
  | inr h ↦ rw h (λ (v, e, u).
      let k : is_upgrade_connection s ≡ true = ap is_upgrade_connection (ap (unwrap s) e) ∙ u in
      ground arith)
]

other-Agrees : (Q : Type 0) (o : Option Refusal) → Agrees o Q → Agrees o ((false ≡ true) ⊎ Q)
other-Agrees Q none n = λ s. elim s [ inl e ↦ ground arith | inr q ↦ n q ]
other-Agrees Q (some refusal) q = inr q

first-Agrees :
    (b : Bool) (value : Option (List ℕ))
    → Agrees
        (if b then some connect_not_permitted else refused_upgrade value)
        ((b ≡ true) ⊎ UpgradeRefused value)
first-Agrees true value = inl refl
first-Agrees false value =
    other-Agrees (UpgradeRefused value) (refused_upgrade value) (refused_upgrade-Agrees value)

module _ (h : Headers) where
  -- A request with CONNECT, or whose first Connection header is an upgrade.
  abbrev pub IsDisallowed : List ℕ → h.Map → Type 0
  IsDisallowed method m =
      (list_eq method connect ≡ true) ⊎ UpgradeRefused (readable (head? (h.values connection m)))

  abbrev pub is_hop_by_hop : List ℕ → Bool
  is_hop_by_hop name = any (λ (n : List ℕ). list_eq n name) hop_by_hop_headers

  abbrev pub Handled : List ℕ → h.Map → List ℕ → Option Refusal × h.Map → Type 0
  Handled method m name (some refusal, m') = IsDisallowed method m × (m' ≡ m)
  Handled method m name (none, m') =
      ¬ IsDisallowed method m
      × (h.values name m' ≡ (if is_hop_by_hop name then [] else h.values name m))

  if_or :
      (a b : Bool) (vs : List (List ℕ))
      → (if b then [] else if a then [] else vs) ≡ (if a || b then [] else vs)
  if_or true true vs = refl
  if_or true false vs = refl
  if_or false b vs = refl

  values-remove_all :
      (names : List (List ℕ)) (name : List ℕ) (m : h.Map)
      → h.values name (remove_all h names m)
        ≡ (if any (λ (n : List ℕ). list_eq n name) names then [] else h.values name m)
  values-remove_all [] name m = refl
  values-remove_all (n ∷ names) name m =
      values-remove_all names name (h.remove n m)
      ∙ ap (λ (vs : List (List ℕ)). if any (λ (k : List ℕ). list_eq k name) names then [] else vs)
          (values-remove h n name m)
      ∙ if_or (list_eq n name) (any (λ (k : List ℕ). list_eq k name) names) (h.values name m)

  IsDisallowed-Agrees :
      (method : List ℕ) (m : h.Map)
      → Agrees (filter_disallowed_requests h method m) (IsDisallowed method m)
  unfolding filter_disallowed_requests
  IsDisallowed-Agrees method m =
      first-Agrees (list_eq method connect) (readable (head? (h.values connection m)))

  checked-Handled :
      (method : List ℕ) (m : h.Map) (name : List ℕ) (o : Option Refusal)
      → Agrees o (IsDisallowed method m)
      → Handled method m name (checked h o m)
  unfolding strip_hop_headers
  checked-Handled method m name none a = (a, values-remove_all hop_by_hop_headers name m)
  checked-Handled method m name (some refusal) a = (a, refl)

  -- A request is refused, with its headers as they are, exactly if it is a CONNECT or its first
  -- Connection header says upgrade, in any case; any other request keeps the values under every name
  -- in their order, but for the hop-by-hop headers, of which none is left.
  pub apply_preflight_functions_lem :
      (method : List ℕ) (m : h.Map) (name : List ℕ)
      → Handled method m name (apply_preflight_functions h method m)
  unfolding apply_preflight_functions
  apply_preflight_functions_lem method m name =
      checked-Handled method m name (filter_disallowed_requests h method m)
        (IsDisallowed-Agrees method m)
