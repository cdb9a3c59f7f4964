-- ===== src/Http/Forwarded/Writes.antt =====
-- The values under a name when another is written, and the values that can be written.
use orion.Base.{
  ℕ, ◌≡◌, refl, Bool, true, false, List, [], ◌∷◌, ◌++◌, Option, none, some, All, all, list_eq,
  if◌then◌else◌, arith, inl, inr, Bool-cases,
}
use orion.Net.{IpAddr}
use orion.Matching.Header.Defs.{to_str, is_visible}
use orion.Http.Headers.{Headers, x_envoy_internal}
use orion.Http.Preflight.Defs.{readable}
use orion.Http.Forwarded.Defs.{IsPlain, AddrText, append_hop_to_xff}
use orion.Http.Forwarded.Process.{false_text, set_if, mark_internal}

pub Plain-visible : (s : List ℕ) → All IsPlain s → all is_visible s ≡ true
Plain-visible [] h = refl
Plain-visible (b ∷ s) ((low, high), hs) = ground (arith, Plain-visible s hs)

pub to_str-visible : (s : List ℕ) → all is_visible s ≡ true → to_str s ≡ some s
to_str-visible s h = rw h refl

visible-append :
    (s t : List ℕ)
    → all is_visible s ≡ true
    → all is_visible t ≡ true
    → all is_visible (s ++ t) ≡ true
visible-append [] t h k = k
visible-append (b ∷ s) t h k = ground (arith, visible-append s t)

abbrev pub Visible : Option (List ℕ) → Type 0
Visible none = Unit
Visible (some s) = all is_visible s ≡ true

pub readable-Visible : (o : Option (List ℕ)) → Visible (readable o)
readable-Visible none = tt
readable-Visible (some s) = elim (Bool-cases (all is_visible s)) [
  | inl h ↦ rw h h
  | inr h ↦ rw h tt
]

pub to_str-append_hop :
    (text : AddrText) (o : Option (List ℕ)) (ip : IpAddr)
    → Visible o
    → to_str (append_hop_to_xff text o ip) ≡ some (append_hop_to_xff text o ip)
unfolding append_hop_to_xff
to_str-append_hop text none ip h =
    to_str-visible (text.to_string ip) (Plain-visible (text.to_string ip) (text.to_string_plain ip))
to_str-append_hop text (some []) ip h =
    to_str-visible (text.to_string ip) (Plain-visible (text.to_string ip) (text.to_string_plain ip))
to_str-append_hop text (some (b ∷ s)) ip h =
    let e : all is_visible (44 ∷ 32 ∷ text.to_string ip) ≡ true =
      Plain-visible (text.to_string ip) (text.to_string_plain ip) in
    to_str-visible ((b ∷ s) ++ (44 ∷ 32 ∷ text.to_string ip))
      (visible-append (b ∷ s) (44 ∷ 32 ∷ text.to_string ip) h e)

module _ (h : Headers) where
  pub values-set_if :
      (t : Bool) (name v : List ℕ) (m : h.Map)
      → h.values name (set_if h t name (some v) m) ≡ (if t then v ∷ [] else h.values name m)
  values-set_if true name v m = h.values_insert name v m
  values-set_if false name v m = refl

  pub values-set_if_other :
      (t : Bool) (name other v : List ℕ) (m : h.Map)
      → list_eq name other ≡ false
      → h.values other (set_if h t name (some v) m) ≡ h.values other m
  values-set_if_other true name other v m n = h.values_insert_other name other v m n
  values-set_if_other false name other v m n = refl

  pub values-mark_false :
      (t : Bool) (m : h.Map)
      → h.values x_envoy_internal (mark_internal h false t m)
        ≡ (if t then false_text ∷ [] else h.values x_envoy_internal m)
  values-mark_false true m = h.values_insert x_envoy_internal false_text m
  values-mark_false false m = refl

  pub values-mark_false_other :
      (t : Bool) (other : List ℕ) (m : h.Map)
      → list_eq x_envoy_internal other ≡ false
      → h.values other (mark_internal h false t m) ≡ h.values other m
  values-mark_false_other true other m n =
      h.values_insert_other x_envoy_internal other false_text m n
  values-mark_false_other false other m n = refl
