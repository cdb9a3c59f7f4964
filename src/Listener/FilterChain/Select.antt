-- ===== src/Listener/FilterChain/Select.antt =====
-- `select_filterchain` of orion-lib/src/listeners/listener.rs. The three vectors of the code, the
-- chains, the scratchpad and the chains still possible, are one list of rows.
use orion.Base.{ℕ, Bool, true, false, not, ◌||◌, List, [], ◌∷◌, Option, none, some, if◌then◌else◌}
use orion.Net.{SocketAddr}
use orion.Listener.FilterChain.Match.{
  FilterChainMatch, DetectedTransportProtocol, MatchResult, failed_match, no_rule, greater,
  result_eq, matches_destination_port, matches_destination_ip, matches_server_name,
  matches_detected_transport_protocol, matches_source_ip, matches_source_port,
}

pub record Row (C : Type 0) : Type 0 where
  pub chain : C
  pub score : MatchResult
  pub possible : Bool

-- What the function returns: the one chain that is left, none, or the error for several.
pub data Selected (C : Type 0) : Type 0 where
  selected : C → Selected C
  nothing several : Selected C

abbrev pub better : MatchResult → MatchResult → MatchResult
better result best = if greater result best then result else best

module _ {C : Type 0} where
  -- The first loop of `match_subitem`.
  abbrev pub marked : (C → MatchResult) → Row C → Row C
  marked function r = if r.possible then record r { score = function r.chain } else r

  unfoldable pub scan : (C → MatchResult) → List (Row C) → List (Row C)
  scan function [] = []
  scan function (r ∷ rows) = marked function r ∷ scan function rows

  unfoldable pub best_match : (C → MatchResult) → List (Row C) → MatchResult → MatchResult
  best_match function [] best = best
  best_match function (r ∷ rows) best =
      best_match function rows (if r.possible then better (function r.chain) best else best)

  -- The second loop.
  abbrev pub trimmed : MatchResult → Row C → Row C
  trimmed best r =
      if not (result_eq r.score best) || result_eq r.score failed_match
      then record r { possible = false }
      else r

  unfoldable pub trim : MatchResult → List (Row C) → List (Row C)
  trim best [] = []
  trim best (r ∷ rows) = trimmed best r ∷ trim best rows

  unfoldable pub match_subitem : (C → MatchResult) → List (Row C) → List (Row C)
  unfolding scan best_match trim
  match_subitem function rows = trim (best_match function rows failed_match) (scan function rows)

  unfoldable pub initial : List C → List (Row C)
  initial [] = []
  initial (c ∷ cs) = record { chain = c; score = no_rule; possible = true } ∷ initial cs

  unfoldable pub match_all : List (C → MatchResult) → List (Row C) → List (Row C)
  unfolding match_subitem
  match_all [] rows = rows
  match_all (f ∷ fs) rows = match_all fs (match_subitem f rows)

  unfoldable pub possible_chains : List (Row C) → List C
  possible_chains [] = []
  possible_chains (r ∷ rows) =
      if r.possible then r.chain ∷ possible_chains rows else possible_chains rows

  abbrev pub first_match : List C → Selected C
  first_match [] = nothing
  first_match (c ∷ []) = selected c
  first_match (c ∷ d ∷ cs) = several

  unfoldable pub select : List (C → MatchResult) → List C → Selected C
  unfolding match_all initial possible_chains
  select functions chains = first_match (possible_chains (match_all functions (initial chains)))

-- The six aspects in their order.
abbrev pub aspects :
    {T : Type 0}
    → SocketAddr
    → SocketAddr
    → List ℕ
    → DetectedTransportProtocol
    → List (FilterChainMatch × T → MatchResult)
aspects source destination server_name protocol =
    (λ c. matches_destination_port c.0 destination.port)
    ∷ (λ c. matches_destination_ip c.0 destination.ip)
    ∷ (λ c. matches_server_name c.0 server_name)
    ∷ (λ c. matches_detected_transport_protocol c.0 protocol)
    ∷ (λ c. matches_source_ip c.0 source.ip)
    ∷ (λ c. matches_source_port c.0 source.port)
    ∷ []

abbrev pub unwrap_or_empty : Option (List ℕ) → List ℕ
unwrap_or_empty none = []
unwrap_or_empty (some s) = s

-- `downstream_metadata` gives the two addresses.
unfoldable pub select_filterchain :
    {T : Type 0}
    → List (FilterChainMatch × T)
    → SocketAddr
    → SocketAddr
    → Option (List ℕ)
    → DetectedTransportProtocol
    → Selected (FilterChainMatch × T)
unfolding select
select_filterchain filter_chains source destination server_name protocol =
    select (aspects source destination (unwrap_or_empty server_name) protocol) filter_chains
