-- ===== src/Checker/Scope/Proxy.antt =====
-- What the scope of a proxy section says of a flow whose protocol and port are known.
use purewrt.Prelude.{
  ℕ, ◌+◌, ◌≤◌, ◌≡◌, ◌≢◌, ◌∙◌, ap, refl, sym, Bool, true, false, not, ◌&&◌, List, [], ◌∷◌, arith, ok,
  err, Result, if◌then◌else◌, ◌==◌, Result-cases, inl, inr,
}
use purewrt.Prelude.Int.{pos}
use purewrt.Text.{Text, codes, text_eq}
use purewrt.Text.Decimal.{itoa}
use purewrt.Config.Model.{Section, Config}
use purewrt.Config.SectionMatch.{matches_protocol}
use purewrt.Config.Ports.{
  PortRange, PortError, parse_port_ranges, format_port_ranges, format_range,
  intersect_destination_ports,
}
use purewrt.Config.Ports.Print.{parse-format}
use purewrt.Config.Ports.Normal.{
  parse_port_ranges-Canonical, allows, Exact, intersect_destination_ports-Exact,
  intersect_destination_ports-err,
}
use purewrt.Config.Ports.Canonical.{Canonical}
use purewrt.Text.Parts.{join}
use purewrt.Checker.Scope.{Flow, Status, match, skip, reject, section_flow_scope, itoa_int}

abbrev one_port : ℕ → List PortRange
one_port p = record { first = p; last = p } ∷ []

format-one_port : (p : ℕ) → format_port_ranges (one_port p) ≡ itoa p
unfolding format_port_ranges format_range join
format-one_port p = ground arith

parse-itoa : (p : ℕ) → 1 ≤ p → p ≤ 65535 → parse_port_ranges (itoa p) ≡ ok (one_port p)
parse-itoa p h k =
    ap parse_port_ranges (sym (format-one_port p)) ∙ parse-format (one_port p) (omega arith, tt, tt)

-- Whether the ports of a section let a port through; a text that is not accepted lets none through.
abbrev pub ports_allow : Result PortError (List PortRange) → ℕ → Bool
ports_allow (err _) p = false
ports_allow (ok rs) p = allows rs p

first-allowed :
    (ar : List PortRange) (p : ℕ) (out : List PortRange)
    → Canonical out
    → ((q : ℕ) → allows out q ≡ (allows ar q && allows (one_port p) q))
    → true ≡ allows ar p
first-allowed ar p [] c same = ground (arith, same (p + 1))
first-allowed ar p (r ∷ rs) c same =
    let at_first : (r.first ≡ p) × (allows ar r.first ≡ true) = ground (arith, same r.first, c.0) in
    sym (at_first.1) ∙ ap (allows ar) at_first.0

Exact-flag :
    (ar : List PortRange) (p : ℕ) (t : Text × Bool) → Exact ar (one_port p) t → t.1 ≡ allows ar p
Exact-flag ar p (text, true) e =
    first-allowed ar p e.0 (parse_port_ranges-Canonical text e.0 e.1) e.2
Exact-flag ar p (text, false) e = ground (arith, e.1 p)

-- The test against one port, as the checker makes it.
pub intersect-itoa :
    (a : Text) (p : ℕ)
    → 1 ≤ p
    → p ≤ 65535
    → (intersect_destination_ports a (itoa p)).1 ≡ ports_allow (parse_port_ranges a) p
intersect-itoa a p h k = elim (Result-cases (parse_port_ranges a)) [
  | inl read ↦ rw read.1 (
      Exact-flag read.0 p (intersect_destination_ports a (itoa p)) (
        intersect_destination_ports-Exact a (itoa p) read.0 (one_port p) read.1 (parse-itoa p h k)))
  | inr bad ↦ rw (bad.1, intersect_destination_ports-err a (itoa p) bad.0 (inl bad.1))
]

is_proxy :
    (a : Text)
    → a ≡ codes "proxy"
    → (text_eq a (codes "proxy") ≡ true)
      × (text_eq a (codes "direct") ≡ false)
      × (text_eq a (codes "reject") ≡ false)
unfolding text_eq
is_proxy a h = rw h (refl, refl, refl)

pub not_blank : (a : Text) → a ≢ [] → text_eq a [] ≡ false
unfolding text_eq
not_blank [] h = absurd (h refl)
not_blank (c ∷ a) h = refl

-- What a proxy section does with a flow whose protocol and port are known, by the description of its
-- options.
pub proxy_handles : Section → Text → ℕ → Status
proxy_handles s protocol p =
    if not (matches_protocol s protocol)
    then skip
    else if text_eq protocol (codes "udp") && text_eq s.udp_mode (codes "tcp_only")
    then skip
    else if not (ports_allow (parse_port_ranges s.destination_ports) p)
    then skip
    else if text_eq protocol (codes "udp") && p == 443 && text_eq s.udp_mode (codes "block_quic")
    then reject
    else match

-- For a flow with a protocol and a port from 1 to 65535, a section whose action is `proxy` skips the
-- flow exactly when its protocol option, its TCP-only mode or its destination ports leave the flow
-- out, rejects it when it is QUIC on 443 and the section blocks QUIC, and matches it otherwise; it is
-- never conditional.
pub section_flow_scope-proxy :
    (c : Config) (s : Section) (f : Flow) (p : ℕ)
    → s.action ≡ codes "proxy"
    → f.protocol ≢ []
    → f.port ≡ pos p
    → 1 ≤ p
    → p ≤ 65535
    → (section_flow_scope c s f).0 ≡ proxy_handles s f.protocol p
unfolding section_flow_scope proxy_handles itoa_int
section_flow_scope-proxy c s f p action protocol port low high = ground (
  arith,
  is_proxy s.action action,
  not_blank f.protocol protocol,
  intersect-itoa s.destination_ports p low high,
)
