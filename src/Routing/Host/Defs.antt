-- ===== src/Routing/Host/Defs.antt =====
-- `MatchHost` of http_connection_manager.rs (orion-configuration), and `select_virtual_host` of
-- orion-lib/src/listeners/http_connection_manager.rs.
use orion.Base.{
  ℕ, Bool, ◌&&◌, List, [], ◌∷◌, ◌++◌, Option, none, some, length, filter, any, list_eq, ltb, ◌==◌,
  if◌then◌else◌,
}
use orion.Matching.Text.Defs.{is_prefix, is_suffix}
use orion.Matching.Header.Defs.{Request, Uri, get_all}

pub data MatchHost : Type 0 where
  wildcard : MatchHost
  prefix suffix exact : List ℕ → MatchHost

abbrev pub star : ℕ
star = b'*'

-- `strip_suffix` of one character, and the character it strips.
abbrev pub before : ℕ → Option (List ℕ) → Option (List ℕ)
before b none = none
before b (some r) = some (b ∷ r)

unfoldable pub strip_last : ℕ → List ℕ → Option (List ℕ)
strip_last c [] = none
strip_last c (b ∷ []) = if b == c then some [] else none
strip_last c (b ∷ d ∷ s) = before b (strip_last c (d ∷ s))

abbrev pub strip_first : ℕ → List ℕ → Option (List ℕ)
strip_first c [] = none
strip_first c (b ∷ s) = if b == c then some s else none

-- `is_header_value` is `HeaderValue::from_str` of the crate `http`. An error is `none`.
abbrev pub try_exact : List ℕ → Option MatchHost
try_exact value = if any (◌==◌ star) value then none else some (exact value)

abbrev pub try_suffix : List ℕ → Option (List ℕ) → Option MatchHost
try_suffix value none = try_exact value
try_suffix value (some host) = some (prefix host)

unfoldable pub try_prefix : List ℕ → Option (List ℕ) → Option MatchHost
unfolding strip_last
try_prefix value none = try_suffix value (strip_last star value)
try_prefix value (some host) = some (suffix host)

unfoldable pub try_from_compact_str : (List ℕ → Bool) → List ℕ → Option MatchHost
unfolding try_prefix
try_from_compact_str is_header_value value =
    if is_header_value value
    then (if list_eq value (star ∷ [])
        then some wildcard
        else if ltb 1 (length (filter (◌==◌ star) value))
        then none
        else try_prefix value (strip_first star value))
    else none

-- `Serialize for MatchHost`
abbrev pub serialize : MatchHost → List ℕ
serialize wildcard = star ∷ []
serialize (prefix host) = host ++ (star ∷ [])
serialize (suffix host) = star ∷ host
serialize (exact host) = host

-- In the order of its constructors, and then of the length.
pub data MatchHostScoreLpm : Type 0 where
  wildcard : MatchHostScoreLpm
  prefix suffix exact : ℕ → MatchHostScoreLpm

abbrev pub rank : MatchHostScoreLpm → ℕ
rank MatchHostScoreLpm.wildcard = 0
rank (MatchHostScoreLpm.prefix n) = 1
rank (MatchHostScoreLpm.suffix n) = 2
rank (MatchHostScoreLpm.exact n) = 3

abbrev pub matched_length : MatchHostScoreLpm → ℕ
matched_length MatchHostScoreLpm.wildcard = 0
matched_length (MatchHostScoreLpm.prefix n) = n
matched_length (MatchHostScoreLpm.suffix n) = n
matched_length (MatchHostScoreLpm.exact n) = n

-- `a < b`, as `derive(Ord)` makes it.
abbrev pub less : MatchHostScoreLpm → MatchHostScoreLpm → Bool
less a b =
    if rank a == rank b then ltb (matched_length a) (matched_length b) else ltb (rank a) (rank b)

abbrev pub unwrap_or : {A : Type 0} → Option A → A → A
unwrap_or none a = a
unwrap_or (some b) a = b

abbrev pub then_some : {A : Type 0} → Bool → A → Option A
then_some b a = if b then some a else none

unfoldable pub eval_lpm_host : MatchHost → List ℕ → Option MatchHostScoreLpm
unfolding strip_last
eval_lpm_host (exact h) host =
    then_some (list_eq h (unwrap_or (strip_last b'.' host) host))
      (MatchHostScoreLpm.exact (length h))
eval_lpm_host (suffix s) host =
    let stripped = unwrap_or (strip_last b'.' host) host in
    then_some (ltb (length s) (length stripped) && is_suffix s stripped)
      (MatchHostScoreLpm.suffix (length s))
eval_lpm_host (prefix p) host =
    then_some (ltb (length p) (length host) && is_prefix p host)
      (MatchHostScoreLpm.prefix (length p))
eval_lpm_host wildcard host = some MatchHostScoreLpm.wildcard

abbrev pub host_header : List ℕ
host_header = b'h' ∷ b'o' ∷ b's' ∷ b't' ∷ []

-- `authority_host` is what the crate `http` finds as the host of an authority.
abbrev pub header_host : (List ℕ → Option (List ℕ)) → List (Option (List ℕ)) → Uri → Option (List ℕ)
header_host authority_host [] uri = uri.host
header_host authority_host (none ∷ values) uri = none
header_host authority_host (some host ∷ values) uri = some (unwrap_or (authority_host host) host)

-- The host that a request is matched by.
unfoldable pub request_host : (List ℕ → Option (List ℕ)) → Request → Option (List ℕ)
unfolding get_all
request_host authority_host req =
    header_host authority_host (get_all host_header req.headers) req.uri

unfoldable pub eval_lpm_request :
    (List ℕ → Option (List ℕ)) → MatchHost → Request → Option MatchHostScoreLpm
unfolding request_host eval_lpm_host
eval_lpm_request authority_host m req = elim (request_host authority_host req) [
  | none ↦ none
  | some host ↦ eval_lpm_host m host
]

-- `Iterator::max` on scores that may be missing: `None` is below all others.
abbrev pub max_score :
    Option MatchHostScoreLpm → Option MatchHostScoreLpm → Option MatchHostScoreLpm
max_score none b = b
max_score (some a) none = some a
max_score (some a) (some b) = if less b a then some a else some b

unfoldable pub best_score :
    (MatchHost → Option MatchHostScoreLpm) → List MatchHost → Option MatchHostScoreLpm
best_score eval [] = none
best_score eval (domain ∷ domains) = max_score (eval domain) (best_score eval domains)

pub record VirtualHost (R : Type 0) : Type 0 where
  pub domains : List MatchHost
  pub routes : List R

module _ {R : Type 0} where
  -- `max_by_key`: of several with the greatest key, the last.
  abbrev pub keep_best :
      VirtualHost R
      → Option MatchHostScoreLpm
      → Option (VirtualHost R × MatchHostScoreLpm)
      → Option (VirtualHost R × MatchHostScoreLpm)
  keep_best vh none best = best
  keep_best vh (some score) none = some (vh, score)
  keep_best vh (some score) (some (other, s)) =
      if less score s then some (other, s) else some (vh, score)

  unfoldable pub max_host :
      (MatchHost → Option MatchHostScoreLpm)
      → List (VirtualHost R)
      → Option (VirtualHost R × MatchHostScoreLpm)
      → Option (VirtualHost R × MatchHostScoreLpm)
  unfolding best_score
  max_host eval [] best = best
  max_host eval (vh ∷ vhs) best = max_host eval vhs (keep_best vh (best_score eval vh.domains) best)

  abbrev pub first_of : Option (VirtualHost R × MatchHostScoreLpm) → Option (VirtualHost R)
  first_of none = none
  first_of (some (vh, score)) = some vh

  unfoldable pub select_virtual_host :
      (List ℕ → Option (List ℕ)) → Request → List (VirtualHost R) → Option (VirtualHost R)
  unfolding max_host eval_lpm_request
  select_virtual_host authority_host request virtual_hosts =
      first_of (max_host (λ m. eval_lpm_request authority_host m request) virtual_hosts none)
