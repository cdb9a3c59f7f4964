-- ===== src/Http/Forwarded/Trusted.antt =====
-- Which address is trusted.
use mathlib.Core.List.{reverse, reverse-cons}
use orion.Base.{
  ℕ, zero, suc, ◌+◌, ◌-◌, ◌≤◌, ◌<◌, ◌≡◌, refl, sym, ap, ◌∙◌, Bool, true, false, not, ◌&&◌, List, [],
  ◌∷◌, ◌++◌, Option, some, length, get_elem?, get_or, length-append, ltb, leb, ◌==◌, if◌then◌else◌,
  arith, inl, inr, Bool-cases,
}
use orion.Net.{IpAddr, SocketAddr}
use orion.Http.Forwarded.Defs.{
  AddrText, XffSettings, with_single, from_right, trusted_of, xff_ips,
  determine_trusted_client_address,
}

module _ (d : IpAddr) where
  get_or-append_left :
      (xs ys : List IpAddr) (k : ℕ) → k < length xs → get_or (xs ++ ys) k d ≡ get_or xs k d
  get_or-append_left [] ys k h = elim h [ ]
  get_or-append_left (x ∷ xs) ys zero h = refl
  get_or-append_left (x ∷ xs) ys (suc k) h = get_or-append_left xs ys k (omega arith)

  pub get_or-append_end :
      (xs ys : List IpAddr) (x : IpAddr) → get_or (xs ++ (x ∷ ys)) (length xs) d ≡ x
  get_or-append_end [] ys x = refl
  get_or-append_end (y ∷ xs) ys x = get_or-append_end xs ys x

  get_or-beyond : (xs : List IpAddr) (k : ℕ) → length xs ≤ k → get_or xs k d ≡ d
  get_or-beyond [] k h = refl
  get_or-beyond (x ∷ xs) zero h = elim h [ ]
  get_or-beyond (x ∷ xs) (suc k) h = get_or-beyond xs k (omega arith)

pub length_of-reverse : (xs : List IpAddr) → length (reverse xs) ≡ length xs
length_of-reverse [] = refl
length_of-reverse (x ∷ xs) =
    ap length (reverse-cons x xs)
    ∙ length-append (reverse xs) (x ∷ [])
    ∙ omega (arith, length_of-reverse xs)

-- From the right is from the front of the reversed list.
module _ (d : IpAddr) where
  at_end :
      (xs : List IpAddr) (x : IpAddr) (k : ℕ)
      → k < suc (length xs)
      → (k < length xs → get_elem? xs (length xs - suc k) ≡ some (get_or (reverse xs) k d))
      → get_elem? (x ∷ xs) (length xs - k) ≡ some (get_or (reverse xs ++ (x ∷ [])) k d)
  at_end xs x k h earlier = elim (Bool-cases (ltb k (length xs))) [
    | inl e ↦
        ap (get_elem? (x ∷ xs)) {y = suc (length xs - suc k)} (ground arith)
        ∙ earlier (ground arith)
        ∙ ap some (
            sym
              (get_or-append_left d (reverse xs) (x ∷ []) k (ground (arith, length_of-reverse xs))))
    | inr e ↦
        ap (get_elem? (x ∷ xs)) {y = zero} (ground arith)
        ∙ ap some (
            sym (get_or-append_end d (reverse xs) [] x)
            ∙ ap (λ (i : ℕ). get_or (reverse xs ++ (x ∷ [])) i d)
                (ground (arith, length_of-reverse xs)))
  ]

  get_elem?-reverse :
      (xs : List IpAddr) (k : ℕ)
      → k < length xs
      → get_elem? xs (length xs - suc k) ≡ some (get_or (reverse xs) k d)
  get_elem?-reverse [] k h = elim h [ ]
  get_elem?-reverse (x ∷ xs) k h =
      ap (get_elem? (x ∷ xs)) (omega arith)
      ∙ at_end xs x k h (get_elem?-reverse xs k)
      ∙ ap (λ (ys : List IpAddr). some (get_or ys k d)) (sym (reverse-cons x xs))

  from_right_lem :
      (xs : List IpAddr) (k : ℕ) → from_right d xs (suc k) ≡ some (get_or (reverse xs) k d)
  from_right_lem xs k = elim (Bool-cases (leb (suc k) (length xs))) [
    | inl e ↦ rw e (get_elem?-reverse xs k (ground arith))
    | inr e ↦
        rw e (ap some (sym (get_or-beyond d (reverse xs) k (ground (arith, length_of-reverse xs)))))
  ]

-- How many addresses behind the trusted one are those of trusted proxies, the peer included.
abbrev pub hops : XffSettings → ℕ
hops settings = settings.xff_num_trusted_hops + (if settings.use_remote_address then 0 else 1)

-- Whether the only address is trusted because it is the only one.
abbrev pub only_one : List IpAddr → XffSettings → Bool
only_one ips settings =
    not settings.use_remote_address && (settings.xff_num_trusted_hops == 0 && length ips == 1)

more : (n : ℕ) → ltb 0 (suc n) ≡ true
more n = ground arith

not_none : (n : ℕ) → (suc n == 0) ≡ false
not_none n = ground arith

same : (n : ℕ) → n + 0 ≡ n
same n = omega arith

next : (n : ℕ) → n + 1 ≡ suc n
next n = omega arith

module _ (peer : IpAddr) (skip : Bool) where
  abbrev Trusts : Bool → ℕ → List IpAddr → Type 0
  Trusts use_remote n ips =
      let settings : XffSettings = record {
        use_remote_address = use_remote;
        skip_xff_append = skip;
        xff_num_trusted_hops = n;
      } in
      trusted_of ips peer settings
      ≡ some (get_or (peer ∷ reverse ips) (hops settings) peer, only_one ips settings)

  trusted_with : (use_remote : Bool) (n : ℕ) (ips : List IpAddr) → Trusts use_remote n ips
  trusted_with true zero ips = refl
  trusted_with true (suc n) [] = rw (more n, same (suc n)) refl
  trusted_with true (suc n) (x ∷ xs) =
      rw (more n, more (length xs), same (suc n))
        (ap (with_single false) (from_right_lem peer (x ∷ xs) n))
  trusted_with false zero [] = refl
  trusted_with false (suc n) [] = rw (not_none n, next (suc n)) refl
  trusted_with false zero (x ∷ xs) =
      rw (more (length xs))
        (ap (with_single (length (x ∷ xs) == 1)) (get_elem?-reverse peer (x ∷ xs) 0 (omega arith)))
  trusted_with false (suc n) (x ∷ xs) =
      rw (more n, more (length xs), not_none n, next (suc n))
        (ap (with_single false) (from_right_lem peer (x ∷ xs) (suc n)))

module _ (text : AddrText) where
  -- Never an index out of range: with the peer and the addresses of the header from the right as one
  -- list, the trusted address is the one behind as many as there are trusted hops, and behind the
  -- peer where its address is not used; and it is the peer where there are not so many. It counts
  -- as the only one only if neither hops are trusted nor the peer is used.
  pub determine_trusted_client_address_lem :
      (existing : Option (List ℕ)) (downstream : SocketAddr) (settings : XffSettings)
      → determine_trusted_client_address text existing downstream settings
        ≡ some (
          get_or (downstream.ip ∷ reverse (xff_ips text existing)) (hops settings) downstream.ip,
          only_one (xff_ips text existing) settings,
        )
  unfolding determine_trusted_client_address
  determine_trusted_client_address_lem existing downstream settings =
      trusted_with downstream.ip settings.skip_xff_append settings.use_remote_address
        settings.xff_num_trusted_hops (xff_ips text existing)
