-- ===== src/Http/Forwarded/Process.antt =====
-- `process_xff_headers` of http_modifiers.rs.
use mathlib.Core.List.{head?}
use orion.Base.{
  ℕ, Bool, true, false, not, ◌&&◌, ◌||◌, List, [], ◌∷◌, Option, none, some, if◌then◌else◌,
}
use orion.Net.{IpAddr, SocketAddr}
use orion.Matching.Header.Defs.{to_str}
use orion.Http.Headers.{
  Headers, present, x_forwarded_for, x_envoy_external_address, x_envoy_internal,
}
use orion.Http.Preflight.Defs.{readable}
use orion.Http.Forwarded.Defs.{
  AddrText, XffSettings, is_internal_ip, determine_trusted_client_address, append_hop_to_xff,
}

abbrev pub true_text : List ℕ
true_text = b't' ∷ b'r' ∷ b'u' ∷ b'e' ∷ []

abbrev pub false_text : List ℕ
false_text = b'f' ∷ b'a' ∷ b'l' ∷ b's' ∷ b'e' ∷ []

abbrev pub is_some : Option (List ℕ) → Bool
is_some none = false
is_some (some s) = true

module _ (h : Headers) where
  -- A value is inserted if `HeaderValue::from_str` takes it.
  abbrev pub set_if : Bool → List ℕ → Option (List ℕ) → h.Map → h.Map
  set_if false name value headers = headers
  set_if true name none headers = headers
  set_if true name (some value) headers = h.insert name value headers

  abbrev pub mark_internal : Bool → Bool → h.Map → h.Map
  mark_internal true other headers = h.insert x_envoy_internal true_text headers
  mark_internal false true headers = h.insert x_envoy_internal false_text headers
  mark_internal false false headers = headers

  abbrev pub strip_claims : SocketAddr → h.Map → h.Map
  strip_claims downstream headers =
      if not (is_internal_ip downstream.ip)
      then h.remove x_envoy_internal (h.remove x_envoy_external_address headers)
      else headers

  abbrev pub existing_xff : h.Map → Option (List ℕ)
  existing_xff headers = readable (head? (h.values x_forwarded_for headers))

  module _ (text : AddrText) (downstream : SocketAddr) (settings : XffSettings) where
    abbrev pub update_headers : Option (List ℕ) → IpAddr × Bool → h.Map → h.Map
    update_headers existing (trusted, single) headers =
        mark_internal
          ((settings.use_remote_address && (is_internal_ip downstream.ip && not (is_some existing)))
            || (single && is_internal_ip trusted))
          ((settings.use_remote_address
              && (not (is_internal_ip downstream.ip) && not (is_some existing)))
            || (single && not (is_internal_ip trusted)))
          (set_if
            (settings.use_remote_address
              && (not (present (h.values x_envoy_external_address headers))
                  && not (is_internal_ip trusted)))
            x_envoy_external_address (to_str (text.to_string trusted))
            (set_if (settings.use_remote_address && not settings.skip_xff_append) x_forwarded_for
              (to_str (append_hop_to_xff text existing downstream.ip)) headers))

    abbrev pub with_trusted : Option (List ℕ) → Option (IpAddr × Bool) → h.Map → Option h.Map
    with_trusted existing none headers = none
    with_trusted existing (some found) headers = some (update_headers existing found headers)

    abbrev pub process_stripped : h.Map → Option h.Map
    process_stripped headers =
        if not settings.use_remote_address && settings.skip_xff_append
        then some headers
        else with_trusted (existing_xff headers)
            (determine_trusted_client_address text (existing_xff headers) downstream settings)
            headers

    unfoldable pub process_xff_headers : h.Map → Option h.Map
    unfolding determine_trusted_client_address append_hop_to_xff
    process_xff_headers headers = process_stripped (strip_claims downstream headers)
