-- ===== src/Config/SectionMatch.antt =====
-- internal/config/section_match.go: what a section accepts by protocol.
use purewrt.Prelude.{Bool, true, not, ◌||◌, [], Result, ok, err, if◌then◌else◌}
use purewrt.Text.{Text, codes, text_eq}
use purewrt.Config.Model.{Section}
use purewrt.Config.Ports.{PortError, normalize_destination_ports}

-- `ValidateMatch` returns no value besides the error.
pub data MatchError : Type 0 where
  unsupported_protocol : Text → MatchError
  ports : PortError → MatchError

unfoldable pub is_routed : Section → Bool
is_routed s = text_eq s.action (codes "proxy") || text_eq s.action (codes "zapret")

unfoldable pub known_protocol : Text → Bool
known_protocol p =
    text_eq p []
    || text_eq p (codes "any")
    || text_eq p (codes "tcp")
    || text_eq p (codes "udp")
    || text_eq p (codes "tcp_udp")

unfoldable pub validate_match : Section → Result MatchError (Unit {0})
unfolding is_routed known_protocol
validate_match s =
    if not (is_routed s)
    then ok tt
    else if not (known_protocol s.match_protocol)
    then err (unsupported_protocol s.match_protocol)
    else elim (normalize_destination_ports s.destination_ports) [
      | ok _ ↦ ok tt
      | err e ↦ err (ports e)
    ]

unfoldable pub matches_protocol : Section → Text → Bool
unfolding is_routed
matches_protocol s protocol =
    if not (is_routed s)
    then true
    else if text_eq s.match_protocol [] || text_eq s.match_protocol (codes "any")
    then true
    else if text_eq s.match_protocol (codes "tcp_udp")
    then text_eq protocol (codes "tcp") || text_eq protocol (codes "udp")
    else text_eq s.match_protocol protocol
