-- ===== src/Listener/FilterChain/Match.antt =====
-- `FilterChainMatch` of orion-configuration/src/config/listener.rs: how well a filter chain matches
-- one aspect of a connection. A `u32` is unbounded here: a score is a number of bits of an address or
-- of dots in a name. A name that matches subdomains has its dot, since `from_str` keeps it.
use orion.Base.{
  ℕ, ◌-◌, Bool, true, false, List, [], ◌∷◌, Option, none, some, any, length, take, filter, list_eq,
  ltb, ◌==◌, if◌then◌else◌,
}
use orion.Matching.Text.Defs.{is_suffix}
use orion.Net.{IpAddr, v4, v6}

pub record ServerNameMatch : Type 0 where
  pub name : List ℕ
  pub match_subdomains : Bool

-- A network of the crate `ipnet`, as what is asked of it.
pub record IpNet : Type 0 where
  pub contains : IpAddr → Bool
  pub prefix_len : ℕ

pub record FilterChainMatch : Type 0 where
  pub destination_port : Option ℕ
  pub destination_prefix_ranges : List IpNet
  pub server_names : List ServerNameMatch
  pub source_prefix_ranges : List IpNet
  pub source_ports : List ℕ
  pub transport_protocol : List ℕ

pub data DetectedTransportProtocol : Type 0 where
  raw_buffer ssl : DetectedTransportProtocol

pub data MatchResult : Type 0 where
  failed_match no_rule : MatchResult
  matched : ℕ → MatchResult

-- `Ord for MatchResult`: is `a` greater than `b`. A lower score is the better match.
abbrev pub greater : MatchResult → MatchResult → Bool
greater (matched x) (matched y) = ltb x y
greater failed_match failed_match = false
greater no_rule no_rule = false
greater (matched x) other = true
greater no_rule failed_match = true
greater other (matched y) = false
greater failed_match no_rule = false

abbrev pub result_eq : MatchResult → MatchResult → Bool
result_eq failed_match failed_match = true
result_eq no_rule no_rule = true
result_eq (matched x) (matched y) = x == y
result_eq a b = false

-- `Iterator::max`, the last of equal ones; `none` when there is nothing.
abbrev pub best_of_two : MatchResult → Option MatchResult → MatchResult
best_of_two a none = a
best_of_two a (some b) = if greater a b then a else b

unfoldable pub maximum : List MatchResult → Option MatchResult
maximum [] = none
maximum (r ∷ rs) = some (best_of_two r (maximum rs))

abbrev pub unwrap_or_no_rule : Option MatchResult → MatchResult
unwrap_or_no_rule none = no_rule
unwrap_or_no_rule (some r) = r

unfoldable pub matches_destination_port : FilterChainMatch → ℕ → MatchResult
matches_destination_port m port = elim m.destination_port [
  | some destination ↦ if port == destination then matched 0 else failed_match
  | none ↦ no_rule
]

abbrev pub address_bits : IpAddr → ℕ
address_bits (v4 a) = 32
address_bits (v6 a) = 128

-- A network holds addresses of its own kind only, so its length is at most that of the address.
abbrev pub range_result : IpAddr → IpNet → MatchResult
range_result ip range =
    if range.contains ip then matched (address_bits ip - range.prefix_len) else failed_match

abbrev pub ranges_match : IpAddr → List IpNet → List MatchResult
ranges_match ip [] = []
ranges_match ip (range ∷ ranges) = range_result ip range ∷ ranges_match ip ranges

unfoldable pub matches_destination_ip : FilterChainMatch → IpAddr → MatchResult
unfolding maximum
matches_destination_ip m ip =
    unwrap_or_no_rule (maximum (ranges_match ip m.destination_prefix_ranges))

unfoldable pub matches_source_ip : FilterChainMatch → IpAddr → MatchResult
unfolding maximum
matches_source_ip m ip = unwrap_or_no_rule (maximum (ranges_match ip m.source_prefix_ranges))

-- The dots in the labels that stand for the `*`, with the one behind them.
abbrev pub wildcard_score : List ℕ → List ℕ → ℕ
wildcard_score server_name name =
    length (filter (◌==◌ b'.') (take (length server_name - (length name - 1)) server_name))

abbrev pub name_result : List ℕ → ServerNameMatch → MatchResult
name_result server_name m =
    if m.match_subdomains
    then (if is_suffix m.name server_name
        then matched (wildcard_score server_name m.name)
        else failed_match)
    else if list_eq server_name m.name
    then matched 0
    else failed_match

abbrev pub names_match : List ℕ → List ServerNameMatch → List MatchResult
names_match server_name [] = []
names_match server_name (m ∷ ms) = name_result server_name m ∷ names_match server_name ms

unfoldable pub matches_server_name : FilterChainMatch → List ℕ → MatchResult
unfolding maximum
matches_server_name m server_name =
    unwrap_or_no_rule (maximum (names_match server_name m.server_names))

-- `DetectedTransportProtocol::try_from`
abbrev pub protocol_name : DetectedTransportProtocol → List ℕ
protocol_name raw_buffer = b'r' ∷ b'a' ∷ b'w' ∷ b'_' ∷ b'b' ∷ b'u' ∷ b'f' ∷ b'f' ∷ b'e' ∷ b'r' ∷ []
protocol_name ssl = b's' ∷ b's' ∷ b'l' ∷ []

unfoldable pub matches_detected_transport_protocol :
    FilterChainMatch → DetectedTransportProtocol → MatchResult
matches_detected_transport_protocol m detected = elim m.transport_protocol [
  | [] ↦ no_rule
  | b ∷ bs ↦ if list_eq (b ∷ bs) (protocol_name detected) then matched 0 else failed_match
]

unfoldable pub matches_source_port : FilterChainMatch → ℕ → MatchResult
matches_source_port m port = elim m.source_ports [
  | [] ↦ no_rule
  | p ∷ ps ↦ if any (◌==◌ port) (p ∷ ps) then matched 0 else failed_match
]
