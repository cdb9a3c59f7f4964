-- ===== src/Http/Forwarded/Chain.antt =====
-- A request that has come through proxies, each of which has added the address of its peer.
use mathlib.Core.List.{append_assoc, reverse, reverse-cons, reverse-append}
use orion.Base.{
  ℕ, suc, ◌<◌, ◌≡◌, refl, sym, ap, ◌∙◌, List, [], ◌∷◌, ◌++◌, Option, none, some, length, get_or,
}
use orion.Net.{IpAddr, SocketAddr}
use orion.Http.Forwarded.Defs.{
  AddrText, XffSettings, xff_ips, determine_trusted_client_address, append_hop_to_xff,
}
use orion.Http.Forwarded.Addresses.{known, xff_ips-append_hop}
use orion.Http.Forwarded.Trusted.{
  hops, only_one, get_or-append_end, length_of-reverse, determine_trusted_client_address_lem,
}

module _ (text : AddrText) where
  -- What the header becomes behind proxies that add the addresses of their peers, one by one.
  abbrev pub append_all : Option (List ℕ) → List IpAddr → Option (List ℕ)
  append_all o [] = o
  append_all o (ip ∷ ips) = append_all (some (append_hop_to_xff text o ip)) ips

  known-Some : (s : List ℕ) → 0 < length s → known text (some s) ≡ xff_ips text (some s)
  known-Some [] h = elim h [ ]
  known-Some (b ∷ s) h = refl

  append_hop-Some :
      (o : Option (List ℕ)) (ip : IpAddr)
      → known text (some (append_hop_to_xff text o ip))
        ≡ xff_ips text (some (append_hop_to_xff text o ip))
  unfolding append_hop_to_xff
  append_hop-Some none ip = known-Some (text.to_string ip) (text.to_string_some ip)
  append_hop-Some (some []) ip = known-Some (text.to_string ip) (text.to_string_some ip)
  append_hop-Some (some (b ∷ s)) ip = refl

  xff_ips-append_all :
      (o : Option (List ℕ)) (ip : IpAddr) (ips : List IpAddr)
      → xff_ips text (append_all o (ip ∷ ips)) ≡ known text o ++ (ip ∷ ips)
  xff_ips-append_all o ip [] = xff_ips-append_hop text o ip
  xff_ips-append_all o ip (next_ip ∷ ips) =
      xff_ips-append_all (some (append_hop_to_xff text o ip)) next_ip ips
      ∙ ap (λ (xs : List IpAddr). xs ++ (next_ip ∷ ips))
          (append_hop-Some o ip ∙ xff_ips-append_hop text o ip)
      ∙ append_assoc (known text o) (ip ∷ []) (next_ip ∷ ips)

  behind :
      (others proxies : List IpAddr) (client peer : IpAddr)
      → get_or (peer ∷ reverse (others ++ (client ∷ proxies))) (suc (length proxies)) peer ≡ client
  behind others proxies client peer =
      ap (λ (xs : List IpAddr). get_or xs (length proxies) peer)
        (reverse-append others (client ∷ proxies)
          ∙ ap (λ (xs : List IpAddr). xs ++ reverse others) (reverse-cons client proxies)
          ∙ append_assoc (reverse proxies) (client ∷ []) (reverse others))
      ∙ ap (λ (i : ℕ). get_or (reverse proxies ++ (client ∷ reverse others)) i peer)
          (sym (length_of-reverse proxies))
      ∙ get_or-append_end peer (reverse proxies) (reverse others) client

  -- A request from a client comes through proxies, each of which adds the address of its peer to the
  -- header. Where the trusted hops are as many as these proxies, or one fewer if the address of the
  -- peer is not used, the trusted address is the client's, whatever the client itself wrote into
  -- the header.
  pub trusted_through_chain :
      (existing : Option (List ℕ)) (client : IpAddr) (proxies : List IpAddr)
      (downstream : SocketAddr) (settings : XffSettings)
      → hops settings ≡ suc (length proxies)
      → determine_trusted_client_address text
          (append_all existing (client ∷ proxies))
          downstream
          settings
        ≡ some (client, only_one (known text existing ++ (client ∷ proxies)) settings)
  trusted_through_chain existing client proxies downstream settings h =
      determine_trusted_client_address_lem text (append_all existing (client ∷ proxies)) downstream
        settings
      ∙ rw (xff_ips-append_all existing client proxies, h)
          (ap
            (λ (a : IpAddr).
              some (a, only_one (known text existing ++ (client ∷ proxies)) settings))
            (behind (known text existing) proxies client downstream.ip))
