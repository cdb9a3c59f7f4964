-- ===== src/Transport/ProxyProtocol/Defs.antt =====
-- The reader of orion-lib/src/transport/proxy_protocol.rs. `read_exact` does not depend on the
-- pieces in which bytes arrive, so the stream is the list of the bytes up to its end; the rewindable
-- stream (orion-lib/src/utils/rewindable_stream.rs) keeps what was read of it. The array of 512 bytes
-- is what has been written to it from the left, with zeros behind.
use orion.Base.{ℕ, Bool, true, false, not, ◌&&◌, List, Option, any, ◌==◌, if◌then◌else◌}

abbrev pub v1_prefix_len : ℕ
v1_prefix_len = 5

abbrev pub v1_max_length : ℕ
v1_max_length = 107

abbrev pub v2_prefix_len : ℕ
v2_prefix_len = 12

abbrev pub v2_minimum_len : ℕ
v2_minimum_len = 16

abbrev pub v2_length_index : ℕ
v2_length_index = 14

abbrev pub read_buffer_len : ℕ
read_buffer_len = 512

-- orion-configuration/src/config/common.rs
pub data ProxyProtocolVersion : Type 0 where
  v1 v2 : ProxyProtocolVersion

pub data TlvType : Type 0 where
  custom : ℕ → TlvType
  no_op : TlvType

abbrev pub tlv_type_of : ℕ → TlvType
tlv_type_of kind = if kind == 0 then no_op else custom kind

abbrev pub tlv_type_eq : TlvType → TlvType → Bool
tlv_type_eq (custom a) (custom b) = a == b
tlv_type_eq no_op no_op = true
tlv_type_eq _ _ = false

abbrev pub version_eq : ProxyProtocolVersion → ProxyProtocolVersion → Bool
version_eq v1 v1 = true
version_eq v2 v2 = true
version_eq _ _ = false

-- orion-configuration/src/config/transport.rs and listener_filters.rs
pub data PassTlvMatchType : Type 0 where
  include_all include : PassTlvMatchType

pub record ProxyProtocolPassThroughTlvs : Type 0 where
  pub match_type : PassTlvMatchType
  pub tlv_types : List TlvType

pub record DownstreamProxyProtocolConfig : Type 0 where
  pub allow_requests_without_proxy_protocol : Bool
  pub disallowed_versions : List ProxyProtocolVersion
  pub pass_through_tlvs : Option ProxyProtocolPassThroughTlvs

-- What the crate `ppp` finds in the bytes of a header, as far as the reader looks at it. A TLV that
-- it cannot read is `none`.
pub record Endpoints : Type 0 where
  pub source_address : ℕ
  pub source_port : ℕ
  pub destination_address : ℕ
  pub destination_port : ℕ

pub data V1Addresses : Type 0 where
  tcp4 tcp6 : Endpoints → V1Addresses
  unknown : V1Addresses

pub data V2Addresses : Type 0 where
  ipv4 ipv6 : Endpoints → V2Addresses
  unix unspecified : V2Addresses

pub data HeaderResult (Protocol : Type 0) : Type 0 where
  v1_header : V1Addresses → HeaderResult Protocol
  v1_error : HeaderResult Protocol
  v2_header : Protocol → V2Addresses → List (Option (ℕ × List ℕ)) → HeaderResult Protocol
  v2_error : HeaderResult Protocol

-- The crate `ppp`, a parameter of the model: its constants, and its parser.
pub record Ppp : Type 1 where
  pub Protocol : Type 0
  pub stream : Protocol
  pub v1_prefix : List ℕ
  pub v2_prefix : List ℕ
  pub parse : List ℕ → HeaderResult Protocol

pub data DetectedHeader : Type 0 where
  detected_v1 : DetectedHeader
  detected_v2 : Option (List ℕ) → DetectedHeader
  detected_none : DetectedHeader

pub data PolicyAction : Type 0 where
  proceed reject transparent_passthrough : PolicyAction

pub data ReadError : Type 0 where
  unexpected_eof terminator_not_found policy unix_unsupported v1_malformed v2_malformed : ReadError

abbrev disallows : DownstreamProxyProtocolConfig → ProxyProtocolVersion → Bool
disallows config version = any (version_eq version) config.disallowed_versions

-- `should_reject_v1`, `should_reject_v2`.
abbrev pub should_reject : DownstreamProxyProtocolConfig → ProxyProtocolVersion → Bool
should_reject config version =
    disallows config version && not config.allow_requests_without_proxy_protocol

-- `should_allow_v1_transparent_passthrough`, `should_allow_v2_transparent_passthrough`.
abbrev pub should_pass : DownstreamProxyProtocolConfig → ProxyProtocolVersion → Bool
should_pass config version =
    disallows config version && config.allow_requests_without_proxy_protocol

version_policy : DownstreamProxyProtocolConfig → ProxyProtocolVersion → PolicyAction
version_policy config version =
    if should_reject config version
    then reject
    else if should_pass config version
    then transparent_passthrough
    else proceed

unfoldable pub apply_policy : DownstreamProxyProtocolConfig → DetectedHeader → PolicyAction
unfolding version_policy
apply_policy config detected_v1 = version_policy config v1
apply_policy config (detected_v2 extra) = version_policy config v2
apply_policy config detected_none =
    if config.allow_requests_without_proxy_protocol then transparent_passthrough else reject
