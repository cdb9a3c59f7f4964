-- ===== src/Http/Forwarded/Defs.antt =====
-- `process_xff_headers` of http_modifiers.rs and what it calls. The text form of an address is the
-- standard library's: `parse` and `to_string`, which the code gives and takes. `none` around a
-- result is a panic.
use orion.Base.{
  ℕ, ◌+◌, ◌-◌, ◌/◌, ◌^◌, ◌<◌, ◌≡◌, Bool, false, not, ◌&&◌, ◌||◌, List, [], ◌∷◌, ◌++◌, Option, none,
  some, length, get_elem?, All, ltb, leb, ◌==◌, if◌then◌else◌,
}
use orion.Net.{IpAddr, v4, v6, SocketAddr}

-- Neither a blank, nor a comma, nor anything that is not ASCII.
abbrev pub IsPlain : ℕ → Type 0
IsPlain b = (44 < b) × (b < 127)

pub record AddrText : Type 0 where
  pub parse : List ℕ → Option IpAddr
  pub to_string : IpAddr → List ℕ
  pub parse_to_string : (ip : IpAddr) → parse (to_string ip) ≡ some ip
  pub to_string_plain : (ip : IpAddr) → All IsPlain (to_string ip)
  pub to_string_some : (ip : IpAddr) → 0 < length (to_string ip)

pub record XffSettings : Type 0 where
  pub use_remote_address : Bool
  pub skip_xff_append : Bool
  pub xff_num_trusted_hops : ℕ

-- The masks of the code are divisions: `segments()[0] & 0xfe00 == 0xfc00`.
abbrev pub is_internal_ip : IpAddr → Bool
is_internal_ip (v4 n) =
    (n / 2 ^ 24 == 10 || (n / 2 ^ 20 == 2753 || n / 2 ^ 16 == 49320)) || n / 2 ^ 24 == 127
is_internal_ip (v6 n) =
    n / 2 ^ 121 == 126 || (n == 0 || (n == 1 || (n / 2 ^ 121 == 126 || n / 2 ^ 118 == 1018)))

-- `split(',')`
abbrev pub onto_first : ℕ → List (List ℕ) → List (List ℕ)
onto_first b [] = (b ∷ []) ∷ []
onto_first b (p ∷ ps) = (b ∷ p) ∷ ps

unfoldable pub split : List ℕ → List (List ℕ)
split [] = [] ∷ []
split (b ∷ s) = let rest = split s in if b == 44 then [] ∷ rest else onto_first b rest

-- `trim`, on ASCII.
abbrev pub is_whitespace : ℕ → Bool
is_whitespace b = b == 32 || (leb 9 b && leb b 13)

unfoldable pub trim_start : List ℕ → List ℕ
trim_start [] = []
trim_start (b ∷ s) = let rest = trim_start s in if is_whitespace b then rest else b ∷ s

abbrev pub before_end : ℕ → List ℕ → List ℕ
before_end b [] = if is_whitespace b then [] else b ∷ []
before_end b (c ∷ s) = b ∷ c ∷ s

unfoldable pub trim_end : List ℕ → List ℕ
trim_end [] = []
trim_end (b ∷ s) = before_end b (trim_end s)

unfoldable pub trim : List ℕ → List ℕ
unfolding trim_start trim_end
trim s = trim_end (trim_start s)

abbrev pub parsed : Option IpAddr → List IpAddr → List IpAddr
parsed none ips = ips
parsed (some ip) ips = ip ∷ ips

abbrev pub with_single : Bool → Option IpAddr → Option (IpAddr × Bool)
with_single single none = none
with_single single (some ip) = some (ip, single)

-- The address at a place from the right, or that of the peer where there are not so many.
abbrev pub from_right : IpAddr → List IpAddr → ℕ → Option IpAddr
from_right peer ips required =
    if leb required (length ips) then get_elem? ips (length ips - required) else some peer

abbrev pub trusted_of : List IpAddr → IpAddr → XffSettings → Option (IpAddr × Bool)
trusted_of ips peer settings =
    if not settings.use_remote_address && ltb 0 (length ips)
    then if ltb 0 settings.xff_num_trusted_hops
      then with_single false (from_right peer ips (settings.xff_num_trusted_hops + 1))
      else with_single (length ips == 1) (get_elem? ips (length ips - 1))
    else if settings.use_remote_address
        && (ltb 0 settings.xff_num_trusted_hops && ltb 0 (length ips))
    then with_single false (from_right peer ips settings.xff_num_trusted_hops)
    else some (peer, false)

module _ (text : AddrText) where
  unfoldable pub parse_all : List (List ℕ) → List IpAddr
  unfolding trim
  parse_all [] = []
  parse_all (p ∷ ps) = parsed (text.parse (trim p)) (parse_all ps)

  unfoldable pub xff_ips : Option (List ℕ) → List IpAddr
  unfolding parse_all split
  xff_ips none = []
  xff_ips (some value) = parse_all (split value)

  unfoldable pub determine_trusted_client_address :
      Option (List ℕ) → SocketAddr → XffSettings → Option (IpAddr × Bool)
  unfolding xff_ips
  determine_trusted_client_address existing downstream settings =
      trusted_of (xff_ips existing) downstream.ip settings

  unfoldable pub append_hop_to_xff : Option (List ℕ) → IpAddr → List ℕ
  append_hop_to_xff none ip = text.to_string ip
  append_hop_to_xff (some []) ip = text.to_string ip
  append_hop_to_xff (some (b ∷ s)) ip = (b ∷ s) ++ (44 ∷ 32 ∷ text.to_string ip)
