-- ===== src/Http/Forwarded/Edge.antt =====
-- What a proxy at the edge, which uses the addresses of its peers, tells about an external client.
use mathlib.Core.List.{head?, reverse}
use orion.Base.{
  ℕ, ◌≡◌, refl, ap, ◌∙◌, Bool, true, false, not, ◌||◌, List, [], ◌∷◌, Option, some, get_or, list_eq,
  if◌then◌else◌, arith,
}
use orion.Net.{IpAddr, SocketAddr}
use orion.Http.Headers.{Headers, x_forwarded_for, x_envoy_external_address, x_envoy_internal}
use orion.Http.Forwarded.Defs.{
  AddrText, XffSettings, is_internal_ip, xff_ips, append_hop_to_xff,
  determine_trusted_client_address,
}
use orion.Http.Forwarded.Trusted.{hops, determine_trusted_client_address_lem}
use orion.Http.Forwarded.Process.{
  false_text, is_some, set_if, mark_internal, existing_xff, update_headers, with_trusted,
  process_xff_headers,
}
use orion.Http.Forwarded.Writes.{
  Visible, Plain-visible, to_str-visible, readable-Visible, to_str-append_hop, values-set_if,
  values-set_if_other, values-mark_false, values-mark_false_other,
}

if-not {ℓ} : {A : Type ℓ} (t : Bool) (x y : A) → (if not t then x else y) ≡ (if t then y else x)
if-not true x y = refl
if-not false x y = refl

or_false : (t : Bool) → (t || false) ≡ t
or_false t = ground arith

module _ (h : Headers) (text : AddrText) (downstream : SocketAddr) (skip : Bool)
    (trusted_hops : ℕ) where
  abbrev edge : XffSettings
  edge = record {
    use_remote_address = true;
    skip_xff_append = skip;
    xff_num_trusted_hops = trusted_hops;
  }

  abbrev trusted : Option (List ℕ) → IpAddr
  trusted existing =
      get_or (downstream.ip ∷ reverse (xff_ips text existing)) (hops edge) downstream.ip

  abbrev stripped : h.Map → h.Map
  stripped m = h.remove x_envoy_internal (h.remove x_envoy_external_address m)

  abbrev updated : Option (List ℕ) → IpAddr → h.Map → h.Map
  updated existing t m = mark_internal h false (not (is_some existing)) (
      set_if h (not (is_internal_ip t)) x_envoy_external_address (some (text.to_string t)) (
        set_if h (not skip) x_forwarded_for (some (append_hop_to_xff text existing downstream.ip))
          (stripped m)))

  values-stripped :
      (other : List ℕ) (m : h.Map)
      → list_eq x_envoy_internal other ≡ false
      → list_eq x_envoy_external_address other ≡ false
      → h.values other (stripped m) ≡ h.values other m
  values-stripped other m a b =
      h.values_remove_other x_envoy_internal other (h.remove x_envoy_external_address m) a
      ∙ h.values_remove_other x_envoy_external_address other m b

  values-stripped_external : (m : h.Map) → h.values x_envoy_external_address (stripped m) ≡ []
  values-stripped_external m =
      h.values_remove_other x_envoy_internal x_envoy_external_address
        (h.remove x_envoy_external_address m) refl
      ∙ h.values_remove x_envoy_external_address m

  update_stripped :
      (m : h.Map) (existing : Option (List ℕ)) (t : IpAddr)
      → Visible existing
      → is_internal_ip downstream.ip ≡ false
      → update_headers h text downstream edge existing (t, false) (stripped m)
        ≡ updated existing t m
  update_stripped m existing t v external =
      rw
        (
          external,
          values-stripped_external m,
          or_false (not (is_some existing)),
          to_str-append_hop text existing downstream.ip v,
          to_str-visible (text.to_string t)
              (Plain-visible (text.to_string t) (text.to_string_plain t)),
        )
        refl

  process_edge :
      (m : h.Map) (existing : Option (List ℕ))
      → Visible existing
      → is_internal_ip downstream.ip ≡ false
      → with_trusted h text downstream edge existing
          (determine_trusted_client_address text existing downstream edge)
          (stripped m)
        ≡ some (updated existing (trusted existing) m)
  process_edge m existing v external =
      rw (determine_trusted_client_address_lem text existing downstream edge)
        (ap some (update_stripped m existing (trusted existing) v external))

  process_updated :
      (m : h.Map)
      → is_internal_ip downstream.ip ≡ false
      → process_xff_headers h text downstream edge m
        ≡ some (updated (existing_xff h m) (trusted (existing_xff h m)) m)
  unfolding process_xff_headers
  process_updated m external =
      rw (external, values-stripped x_forwarded_for m refl refl)
        (process_edge m (existing_xff h m) (readable-Visible (head? (h.values x_forwarded_for m)))
          external)

  abbrev hop : Option (List ℕ) → List ℕ
  hop existing = append_hop_to_xff text existing downstream.ip

  -- The header map with the hop, and with the external address.
  abbrev level1 : Option (List ℕ) → h.Map → h.Map
  level1 existing m = set_if h (not skip) x_forwarded_for (some (hop existing)) (stripped m)

  abbrev level2 : Option (List ℕ) → IpAddr → h.Map → h.Map
  level2 existing t m =
      set_if h (not (is_internal_ip t)) x_envoy_external_address (some (text.to_string t))
        (level1 existing m)

  internal_of :
      (m : h.Map) (existing : Option (List ℕ)) (t : IpAddr)
      → h.values x_envoy_internal (updated existing t m)
        ≡ (if is_some existing then [] else false_text ∷ [])
  internal_of m existing t =
      let e : h.values x_envoy_internal (level2 existing t m) ≡ [] =
        values-set_if_other h (not (is_internal_ip t)) x_envoy_external_address x_envoy_internal
          (text.to_string t) (level1 existing m) refl
        ∙ values-set_if_other h (not skip) x_forwarded_for x_envoy_internal (hop existing)
            (stripped m) refl
        ∙ h.values_remove x_envoy_internal (h.remove x_envoy_external_address m) in
      values-mark_false h (not (is_some existing)) (level2 existing t m)
      ∙ ap (λ (vs : List (List ℕ)). if not (is_some existing) then false_text ∷ [] else vs) e
      ∙ if-not (is_some existing) (false_text ∷ []) []

  external_address_of :
      (m : h.Map) (existing : Option (List ℕ)) (t : IpAddr)
      → h.values x_envoy_external_address (updated existing t m)
        ≡ (if is_internal_ip t then [] else text.to_string t ∷ [])
  external_address_of m existing t =
      let e : h.values x_envoy_external_address (level1 existing m) ≡ [] =
        values-set_if_other h (not skip) x_forwarded_for x_envoy_external_address (hop existing)
          (stripped m) refl
        ∙ values-stripped_external m in
      values-mark_false_other h (not (is_some existing)) x_envoy_external_address
        (level2 existing t m) refl
      ∙ values-set_if h (not (is_internal_ip t)) x_envoy_external_address (text.to_string t)
          (level1 existing m)
      ∙ ap (λ (vs : List (List ℕ)). if not (is_internal_ip t) then text.to_string t ∷ [] else vs) e
      ∙ if-not (is_internal_ip t) (text.to_string t ∷ []) []

  forwarded_of :
      (m : h.Map) (existing : Option (List ℕ)) (t : IpAddr)
      → h.values x_forwarded_for (updated existing t m) ≡ (
          if skip
          then h.values x_forwarded_for m
          else append_hop_to_xff text existing downstream.ip ∷ [])
  forwarded_of m existing t =
      values-mark_false_other h (not (is_some existing)) x_forwarded_for (level2 existing t m) refl
      ∙ values-set_if_other h (not (is_internal_ip t)) x_envoy_external_address x_forwarded_for
          (text.to_string t) (level1 existing m) refl
      ∙ values-set_if h (not skip) x_forwarded_for (hop existing) (stripped m)
      ∙ ap (λ (vs : List (List ℕ)). if not skip then hop existing ∷ [] else vs)
          (values-stripped x_forwarded_for m refl refl)
      ∙ if-not skip (hop existing ∷ []) (h.values x_forwarded_for m)

  -- Where the address of the peer is used, and the peer is external: the headers are processed without
  -- a panic; x-envoy-internal is what the proxy says, false if no x-forwarded-for that can be read was
  -- there and nothing otherwise; x-envoy-external-address is the trusted address, if that is external;
  -- and x-forwarded-for is its first line with the address of the peer added and no other line, or
  -- as it was if the peer is not to be added.
  pub external_is_marked :
      (m : h.Map)
      → is_internal_ip downstream.ip ≡ false
      → (m' : h.Map) × (process_xff_headers h text downstream edge m ≡ some m')
        × (h.values x_envoy_internal m'
            ≡ (if is_some (existing_xff h m) then [] else false_text ∷ []))
        × (h.values x_envoy_external_address m' ≡ (
            if is_internal_ip (trusted (existing_xff h m))
            then []
            else text.to_string (trusted (existing_xff h m)) ∷ []))
        × (h.values x_forwarded_for m' ≡ (
            if skip
            then h.values x_forwarded_for m
            else append_hop_to_xff text (existing_xff h m) downstream.ip ∷ []))
  external_is_marked m external =
      let e = existing_xff h m in
      let t = trusted e in
      (
        updated e t m,
        process_updated m external,
        internal_of m e t,
        external_address_of m e t,
        forwarded_of m e t,
      )
