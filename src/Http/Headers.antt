-- ===== src/Http/Headers.antt =====
-- What the code asks of the header map of the crate http: the values under a name in their order, the
-- removal of a name, the insertion of a value in place of all others, and that of one behind them.
use orion.Base.{
  ℕ, ◌≡◌, Bool, true, false, List, [], ◌∷◌, ◌++◌, list_eq, list_eq_lem, subst, if◌then◌else◌,
  Bool-cases, inl, inr,
}

pub record Headers : Type 1 where
  pub Map : Type 0
  pub values : List ℕ → Map → List (List ℕ)
  pub remove : List ℕ → Map → Map
  pub insert : List ℕ → List ℕ → Map → Map
  pub values_remove : (name : List ℕ) (m : Map) → values name (remove name m) ≡ []
  pub values_remove_other :
      (name other : List ℕ) (m : Map)
      → list_eq name other ≡ false
      → values other (remove name m) ≡ values other m
  pub values_insert : (name v : List ℕ) (m : Map) → values name (insert name v m) ≡ v ∷ []
  pub values_insert_other :
      (name other v : List ℕ) (m : Map)
      → list_eq name other ≡ false
      → values other (insert name v m) ≡ values other m
  pub append : List ℕ → List ℕ → Map → Map
  pub values_append :
      (name v : List ℕ) (m : Map) → values name (append name v m) ≡ values name m ++ (v ∷ [])
  pub values_append_other :
      (name other v : List ℕ) (m : Map)
      → list_eq name other ≡ false
      → values other (append name v m) ≡ values other m

-- `contains_key`
abbrev pub present : List (List ℕ) → Bool
present [] = false
present (v ∷ vs) = true

-- The values under any name when one is removed.
module _ (h : Headers) where
  pub values-remove :
      (n name : List ℕ) (m : h.Map)
      → h.values name (h.remove n m) ≡ (if list_eq n name then [] else h.values name m)
  values-remove n name m = elim (Bool-cases (list_eq n name)) [
    | inl e ↦ rw e (
        subst (λ (k : List ℕ). h.values k (h.remove n m) ≡ []) (list_eq_lem n name e)
          (h.values_remove n m))
    | inr e ↦ rw e (h.values_remove_other n name m e)
  ]

abbrev pub connection : List ℕ
connection = b'c' ∷ b'o' ∷ b'n' ∷ b'n' ∷ b'e' ∷ b'c' ∷ b't' ∷ b'i' ∷ b'o' ∷ b'n' ∷ []

abbrev pub proxy_authenticate : List ℕ
proxy_authenticate =
    b'p' ∷ b'r' ∷ b'o' ∷ b'x' ∷ b'y' ∷ b'-' ∷ b'a' ∷ b'u' ∷ b't' ∷ b'h' ∷ b'e' ∷ b'n' ∷ b't' ∷ b'i'
    ∷ b'c' ∷ b'a' ∷ b't' ∷ b'e' ∷ []

abbrev pub proxy_authorization : List ℕ
proxy_authorization =
    b'p' ∷ b'r' ∷ b'o' ∷ b'x' ∷ b'y' ∷ b'-' ∷ b'a' ∷ b'u' ∷ b't' ∷ b'h' ∷ b'o' ∷ b'r' ∷ b'i' ∷ b'z'
    ∷ b'a' ∷ b't' ∷ b'i' ∷ b'o' ∷ b'n' ∷ []

abbrev pub transfer_encoding : List ℕ
transfer_encoding =
    b't' ∷ b'r' ∷ b'a' ∷ b'n' ∷ b's' ∷ b'f' ∷ b'e' ∷ b'r' ∷ b'-' ∷ b'e' ∷ b'n' ∷ b'c' ∷ b'o' ∷ b'd'
    ∷ b'i' ∷ b'n' ∷ b'g' ∷ []

abbrev pub upgrade : List ℕ
upgrade = b'u' ∷ b'p' ∷ b'g' ∷ b'r' ∷ b'a' ∷ b'd' ∷ b'e' ∷ []

abbrev pub te : List ℕ
te = b't' ∷ b'e' ∷ []

abbrev pub trailer : List ℕ
trailer = b't' ∷ b'r' ∷ b'a' ∷ b'i' ∷ b'l' ∷ b'e' ∷ b'r' ∷ []

abbrev pub x_forwarded_for : List ℕ
x_forwarded_for =
    b'x' ∷ b'-' ∷ b'f' ∷ b'o' ∷ b'r' ∷ b'w' ∷ b'a' ∷ b'r' ∷ b'd' ∷ b'e' ∷ b'd' ∷ b'-' ∷ b'f' ∷ b'o'
    ∷ b'r' ∷ []

abbrev pub x_envoy_external_address : List ℕ
x_envoy_external_address =
    b'x' ∷ b'-' ∷ b'e' ∷ b'n' ∷ b'v' ∷ b'o' ∷ b'y' ∷ b'-' ∷ b'e' ∷ b'x' ∷ b't' ∷ b'e' ∷ b'r' ∷ b'n'
    ∷ b'a' ∷ b'l' ∷ b'-' ∷ b'a' ∷ b'd' ∷ b'd' ∷ b'r' ∷ b'e' ∷ b's' ∷ b's' ∷ []

abbrev pub x_envoy_internal : List ℕ
x_envoy_internal =
    b'x' ∷ b'-' ∷ b'e' ∷ b'n' ∷ b'v' ∷ b'o' ∷ b'y' ∷ b'-' ∷ b'i' ∷ b'n' ∷ b't' ∷ b'e' ∷ b'r' ∷ b'n'
    ∷ b'a' ∷ b'l' ∷ []
