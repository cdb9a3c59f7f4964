-- ===== src/Http/Concrete.antt =====
-- A header map as a list, and addresses written in binary digits: what the code asks of both can be.
use orion.Base.{
  ℕ, zero, suc, ◌+◌, ◌-◌, ◌*◌, ◌/◌, ◌%◌, ◌≤◌, ◌<◌, ◌≡◌, refl, ap, ◌∙◌, true, false, List, [], ◌∷◌,
  ◌++◌, Option, none, some, length, All, list_eq, list_eq_lem, list_eq_refl, ◌==◌, if◌then◌else◌,
  arith, inl, inr, Bool-cases,
}
use orion.Net.{IpAddr, v4, v6}
use orion.Matching.Header.Defs.{HeaderMap}
use orion.Http.Headers.{Headers}
use orion.Http.Forwarded.Defs.{IsPlain, AddrText}

abbrev values : List ℕ → HeaderMap → List (List ℕ)
values name [] = []
values name ((n, v) ∷ m) = let rest = values name m in if list_eq n name then v ∷ rest else rest

abbrev remove : List ℕ → HeaderMap → HeaderMap
remove name [] = []
remove name ((n, v) ∷ m) =
    let rest = remove name m in if list_eq n name then rest else (n, v) ∷ rest

pub values_remove : (name : List ℕ) (m : HeaderMap) → values name (remove name m) ≡ []
values_remove name [] = refl
values_remove name ((n, v) ∷ m) = elim (Bool-cases (list_eq n name)) [
  | inl e ↦ rw e (values_remove name m)
  | inr e ↦ rw (e, e) (values_remove name m)
]

apart :
    (n name other : List ℕ)
    → list_eq name other ≡ false
    → list_eq n name ≡ true
    → list_eq n other ≡ false
apart n name other h e = ap (λ (k : List ℕ). list_eq k other) (list_eq_lem n name e) ∙ h

pub values_remove_other :
    (name other : List ℕ) (m : HeaderMap)
    → list_eq name other ≡ false
    → values other (remove name m) ≡ values other m
values_remove_other name other [] h = refl
values_remove_other name other ((n, v) ∷ m) h = elim (Bool-cases (list_eq n name)) [
  | inl e ↦ rw (e, apart n name other h e) (values_remove_other name other m h)
  | inr e ↦ rw (e, values_remove_other name other m h) refl
]

abbrev insert : List ℕ → List ℕ → HeaderMap → HeaderMap
insert name v m = (name, v) ∷ remove name m

abbrev pub append : List ℕ → List ℕ → HeaderMap → HeaderMap
append name v m = m ++ ((name, v) ∷ [])

pub values_append :
    (name v : List ℕ) (m : HeaderMap) → values name (append name v m) ≡ values name m ++ (v ∷ [])
values_append name v [] = rw (list_eq_refl name) refl
values_append name v ((n, w) ∷ m) = elim (Bool-cases (list_eq n name)) [
  | inl e ↦ rw (e, values_append name v m) refl
  | inr e ↦ rw (e, values_append name v m) refl
]

pub values_append_other :
    (name other v : List ℕ) (m : HeaderMap)
    → list_eq name other ≡ false
    → values other (append name v m) ≡ values other m
values_append_other name other v [] h = rw h refl
values_append_other name other v ((n, w) ∷ m) h = rw (values_append_other name other v m h) refl

abbrev pub listed : Headers
listed = record {
  Map = HeaderMap;
  values = values;
  remove = remove;
  insert = insert;
  values_remove = values_remove;
  values_remove_other = values_remove_other;
  values_insert = λ name v m. rw (list_eq_refl name, values_remove name m) refl;
  values_insert_other = λ name other v m h. rw h (values_remove_other name other m h);
  append = append;
  values_append = values_append;
  values_append_other = values_append_other;
}

abbrev digits : ℕ → ℕ → List ℕ
digits zero n = []
digits (suc f) zero = []
digits (suc f) (suc n) = (48 + suc n % 2) ∷ digits f (suc n / 2)

abbrev number : List ℕ → ℕ
number [] = 0
number (b ∷ s) = (b - 48) + 2 * number s

number-digits : (f n : ℕ) → n ≤ f → number (digits f n) ≡ n
number-digits zero n h = omega arith
number-digits (suc f) zero h = refl
number-digits (suc f) (suc n) h = omega (arith, number-digits f (suc n / 2) (omega arith))

digits-Plain : (f n : ℕ) → All IsPlain (digits f n)
digits-Plain zero n = tt
digits-Plain (suc f) zero = tt
digits-Plain (suc f) (suc n) = ((omega arith, omega arith), digits-Plain f (suc n / 2))

abbrev to_string : IpAddr → List ℕ
to_string (v4 n) = b'4' ∷ digits n n
to_string (v6 n) = b'6' ∷ digits n n

abbrev parse : List ℕ → Option IpAddr
parse [] = none
parse (b ∷ s) =
    if b == b'4' then some (v4 (number s)) else if b == b'6' then some (v6 (number s)) else none

pub parse_to_string : (ip : IpAddr) → parse (to_string ip) ≡ some ip
parse_to_string (v4 n) = rw (number-digits n n (omega arith)) refl
parse_to_string (v6 n) = rw (number-digits n n (omega arith)) refl

pub to_string-IsPlain : (ip : IpAddr) → All IsPlain (to_string ip)
to_string-IsPlain (v4 n) = ((omega arith, omega arith), digits-Plain n n)
to_string-IsPlain (v6 n) = ((omega arith, omega arith), digits-Plain n n)

pub to_string_some : (ip : IpAddr) → 0 < length (to_string ip)
to_string_some (v4 n) = omega arith
to_string_some (v6 n) = omega arith

abbrev pub binary : AddrText
binary = record {
  parse = parse;
  to_string = to_string;
  parse_to_string = parse_to_string;
  to_string_plain = to_string-IsPlain;
  to_string_some = to_string_some;
}
