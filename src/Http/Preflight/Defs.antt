-- ===== src/Http/Preflight/Defs.antt =====
-- `apply_preflight_functions` and `strip_trailers_headers` of http_modifiers.rs, and
-- `is_upgrade_connection` of upgrades.rs.
use mathlib.Core.List.{head?}
use orion.Base.{ℕ, Bool, List, [], ◌∷◌, Option, none, some, map, list_eq, if◌then◌else◌}
use orion.Matching.Text.Defs.{lower}
use orion.Matching.Header.Defs.{to_str}
use orion.Http.Headers.{
  Headers, connection, proxy_authenticate, proxy_authorization, transfer_encoding, upgrade, te,
  trailer,
}

abbrev pub hop_by_hop_headers : List (List ℕ)
hop_by_hop_headers =
    connection ∷ proxy_authenticate ∷ proxy_authorization ∷ transfer_encoding ∷ upgrade ∷ []

pub data Codec : Type 0 where
  http1 http2 : Codec

-- The value of a header that can be read is compared without its case.
abbrev pub is_upgrade_connection : List ℕ → Bool
is_upgrade_connection value = list_eq (map lower value) upgrade

abbrev pub connect : List ℕ
connect = b'C' ∷ b'O' ∷ b'N' ∷ b'N' ∷ b'E' ∷ b'C' ∷ b'T' ∷ []

abbrev trailers : List ℕ
trailers = b't' ∷ b'r' ∷ b'a' ∷ b'i' ∷ b'l' ∷ b'e' ∷ b'r' ∷ b's' ∷ []

-- Why a request is answered with 403.
pub data Refusal : Type 0 where
  connect_not_permitted upgrade_not_permitted : Refusal

abbrev pub refused_upgrade : Option (List ℕ) → Option Refusal
refused_upgrade none = none
refused_upgrade (some value) =
    if is_upgrade_connection value then some upgrade_not_permitted else none

abbrev pub readable : Option (List ℕ) → Option (List ℕ)
readable none = none
readable (some value) = to_str value

module _ (h : Headers) where
  unfoldable pub filter_disallowed_requests : List ℕ → h.Map → Option Refusal
  filter_disallowed_requests method headers =
      if list_eq method connect
      then some connect_not_permitted
      else refused_upgrade (readable (head? (h.values connection headers)))

  abbrev pub remove_all : List (List ℕ) → h.Map → h.Map
  remove_all [] headers = headers
  remove_all (name ∷ names) headers = remove_all names (h.remove name headers)

  unfoldable pub strip_hop_headers : h.Map → h.Map
  strip_hop_headers = remove_all hop_by_hop_headers

  abbrev pub checked : Option Refusal → h.Map → Option Refusal × h.Map
  checked (some refusal) headers = (some refusal, headers)
  checked none headers = (none, strip_hop_headers headers)

  unfoldable pub apply_preflight_functions : List ℕ → h.Map → Option Refusal × h.Map
  unfolding filter_disallowed_requests strip_hop_headers
  apply_preflight_functions method headers =
      checked (filter_disallowed_requests method headers) headers

  abbrev pub strip_te : Option (List ℕ) → h.Map → h.Map
  strip_te none headers = headers
  strip_te (some value) headers = if list_eq value trailers then headers else h.remove te headers

  unfoldable pub strip_trailers_headers : Codec → h.Map → h.Map
  strip_trailers_headers http1 headers = h.remove trailer (h.remove te headers)
  strip_trailers_headers http2 headers =
      let rest = h.remove trailer headers in strip_te (head? (h.values te rest)) rest
