-- ===== src/Checker/Scope.antt =====
-- internal/checker/routing_trace.go: whether a section can handle a flow.
pub mod Proxy
pub mod Scan
pub mod Takes
pub mod Zapret
use purewrt.Prelude.{
  ℕ, Bool, true, false, not, ◌&&◌, ◌||◌, List, [], ◌∷◌, Option, none, some, Result, ok, err, ltb,
  ◌==◌, if◌then◌else◌, any,
}
use purewrt.Prelude.Int.{ℤ, pos, negsuc}
use purewrt.Text.{Text, codes, text_eq}
use purewrt.Text.Decimal.{itoa}
use purewrt.Config.Model.{
  Section, ZapretStrategy, ZapretProfile, Config, zapret_strategy_by_name, zapret_profile_by_name,
  is_empty,
}
use purewrt.Config.SectionMatch.{matches_protocol}
use purewrt.Config.Ports.{intersect_destination_ports}

pub record Flow : Type 0 where
  pub protocol : Text
  pub port : ℤ
  pub wan : Text

pub data FlowError : Type 0 where
  bad_protocol bad_port : FlowError

abbrev pub port_outside : ℤ → Bool
port_outside (pos n) = ltb 65535 n
port_outside (negsuc n) = true

unfoldable pub validate_flow : Flow → Result FlowError (Unit {0})
validate_flow f =
    if not (text_eq f.protocol [])
      && not (text_eq f.protocol (codes "tcp"))
      && not (text_eq f.protocol (codes "udp"))
    then err bad_protocol
    else if port_outside f.port
    then err bad_port
    else ok tt

-- The statuses that the trace writes as strings, and the reasons that go with them.
pub data Status : Type 0 where
  match skip conditional reject direct shadowed : Status

pub data Reason : Type 0 where
  global_exclusion unsupported_action protocol_mismatch tcp_only port_mismatch : Reason
  specify_flow blocks_quic flow_matches : Reason
  outside_strategies specify_wan wan_unclaimed strategy_matches : Reason
  family_disabled earlier_terminal earlier_conditional : Reason

-- `strconv.Itoa` on an `int`.
unfoldable pub itoa_int : ℤ → Text
itoa_int (pos n) = itoa n
itoa_int (negsuc n) = b'-' ∷ itoa (ℕ.suc n)

abbrev pub is_zero : ℤ → Bool
is_zero (pos n) = n == 0
is_zero (negsuc n) = false

abbrev pub is_port : ℤ → ℕ → Bool
is_port (pos n) p = n == p
is_port (negsuc n) p = false

unfoldable pub contains_string : List Text → Text → Bool
contains_string [] value = false
contains_string (s ∷ list) value = if text_eq s value then true else contains_string list value

-- `possible` and `wanMatch`.
pub record Claim : Type 0 where
  pub possible : Bool
  pub wan_match : Bool

-- Whether the port of the flow, if it is given, lies in the intersection `(ports, ok)`.
unfoldable pub port_passes : Flow → Text × Bool → Bool
port_passes f (ports, passes) =
    if not passes
    then false
    else if is_zero f.port
    then true
    else (intersect_destination_ports ports (itoa_int f.port)).1

-- The tests of the inner loop that `continue`: does this protocol of the strategy claim the flow?
unfoldable pub claims : Section → Flow → ZapretStrategy → Text → Bool
claims s f zs proto =
    if (not (text_eq f.protocol []) && not (text_eq proto f.protocol))
      || not (matches_protocol s proto)
    then false
    else port_passes f (
        intersect_destination_ports
          (if text_eq proto (codes "udp") then zs.udp_ports else zs.tcp_ports) s.destination_ports)

unfoldable pub wan_claims : Option ZapretProfile → Flow → Bool
unfolding contains_string
wan_claims none f = false
wan_claims (some p) f = elim p.interfaces [ [] ↦ true | i ∷ is ↦ contains_string (i ∷ is) f.wan ]

unfoldable pub scan_protocols :
    Section → Flow → ZapretStrategy → Option ZapretProfile → List Text → Claim → Claim
scan_protocols s f zs p [] k = k
scan_protocols s f zs p (proto ∷ protos) k = scan_protocols s f zs p protos (
    if claims s f zs proto
    then record { possible = true; wan_match = k.wan_match || wan_claims p f }
    else k)

unfoldable pub scan_strategies : Config → Section → Flow → List Text → Claim → Claim
scan_strategies c s f [] k = k
scan_strategies c s f (name ∷ names) k =
    scan_strategies c s f names (elim (zapret_strategy_by_name c name) [
      | none ↦ k
      | some zs ↦ scan_protocols s f zs (zapret_profile_by_name c zs.profile) zs.protocols k
    ])

abbrev pub no_claim : Claim
no_claim = record { possible = false; wan_match = false }

unfoldable pub zapret_scope : Flow → Claim → Status × Reason
zapret_scope f k =
    if not k.possible
    then (skip, outside_strategies)
    else if text_eq f.protocol [] || is_zero f.port || text_eq f.wan []
    then (conditional, specify_wan)
    else if not k.wan_match
    then (direct, wan_unclaimed)
    else (match, strategy_matches)

unfoldable pub proxy_scope : Section → Flow → Status × Reason
proxy_scope s f =
    if text_eq f.protocol []
      || (is_zero f.port
          && (not (text_eq s.destination_ports []) || text_eq s.udp_mode (codes "block_quic")))
    then (conditional, specify_flow)
    else if text_eq f.protocol (codes "udp")
        && is_port f.port 443
        && text_eq s.udp_mode (codes "block_quic")
    then (reject, blocks_quic)
    else (match, flow_matches)

-- The port test that stands before the two actions part.
abbrev pub port_excluded : Section → Flow → Bool
port_excluded s f =
    not (is_zero f.port)
    && not (intersect_destination_ports s.destination_ports (itoa_int f.port)).1

unfoldable pub section_flow_scope : Config → Section → Flow → Status × Reason
unfolding proxy_scope zapret_scope
section_flow_scope c s f =
    let proxy = text_eq s.action (codes "proxy") in
    if text_eq s.action (codes "direct") || text_eq s.action (codes "reject")
    then (match, global_exclusion)
    else if not proxy && not (text_eq s.action (codes "zapret"))
    then (skip, unsupported_action)
    else if not (text_eq f.protocol []) && not (matches_protocol s f.protocol)
    then (skip, protocol_mismatch)
    else if text_eq f.protocol (codes "udp") && proxy && text_eq s.udp_mode (codes "tcp_only")
    then (skip, tcp_only)
    else if port_excluded s f
    then (skip, port_mismatch)
    else if proxy
    then proxy_scope s f
    else zapret_scope f (scan_strategies c s f s.zapret_strategies no_claim)
