-- ===== src/Checker/Scope/Takes.antt =====
-- Whether a protocol of a strategy takes a flow whose protocol and port are known.
use purewrt.Prelude.{
  ℕ, ◌≤◌, ◌≡◌, ◌≢◌, ◌∙◌, refl, Bool, true, false, ◌&&◌, List, [], arith, if◌then◌else◌,
  Result-cases, inl, inr,
}
use purewrt.Prelude.Int.{pos}
use purewrt.Text.{Text, codes, text_eq}
use purewrt.Config.Model.{Section, ZapretStrategy}
use purewrt.Config.SectionMatch.{matches_protocol}
use purewrt.Config.Ports.{PortRange, parse_port_ranges, intersect_destination_ports}
use purewrt.Config.Ports.Normal.{
  allows, Exact, intersect_destination_ports-Exact, intersect_destination_ports-err,
}
use purewrt.Checker.Scope.{Flow, claims, port_passes, itoa_int}
use purewrt.Checker.Scope.Proxy.{ports_allow, intersect-itoa, not_blank}

-- The ports that a strategy gives for a protocol.
abbrev pub strategy_ports : ZapretStrategy → Text → Text
strategy_ports zs proto = if text_eq proto (codes "udp") then zs.udp_ports else zs.tcp_ports

Exact-allow :
    (f : Flow) (ar br : List PortRange) (p : ℕ) (t : Text × Bool)
    → f.port ≡ pos p
    → 1 ≤ p
    → p ≤ 65535
    → Exact ar br t
    → port_passes f t ≡ (allows ar p && allows br p)
unfolding port_passes itoa_int
Exact-allow f ar br p (text, true) port low high e =
    ground (arith, intersect-itoa text p low high, e.1, e.2 p)
Exact-allow f ar br p (text, false) port low high e = ground (arith, e.1 p)

port_passes_err : (f : Flow) → port_passes f ([], false) ≡ false
unfolding port_passes
port_passes_err f = refl

and_false : (b : Bool) → false ≡ (b && false)
and_false b = ground arith

-- A known port passes when both texts let it through.
port_passes-allow :
    (f : Flow) (a b : Text) (p : ℕ)
    → f.port ≡ pos p
    → 1 ≤ p
    → p ≤ 65535
    → port_passes f (intersect_destination_ports a b)
      ≡ (ports_allow (parse_port_ranges a) p && ports_allow (parse_port_ranges b) p)
port_passes-allow f a b p port low high = elim (Result-cases (parse_port_ranges a)) [
  | inr bad ↦ rw (bad.1, intersect_destination_ports-err a b bad.0 (inl bad.1)) (port_passes_err f)
  | inl ra ↦ elim (Result-cases (parse_port_ranges b)) [
    | inr bad ↦
        rw (bad.1, intersect_destination_ports-err a b bad.0 (inr bad.1))
          (port_passes_err f ∙ and_false (ports_allow (parse_port_ranges a) p))
    | inl rb ↦
        Exact-allow f ra.0 rb.0 p (intersect_destination_ports a b) port low high
          (intersect_destination_ports-Exact a b ra.0 rb.0 ra.1 rb.1)
        ∙ (rw (ra.1, rb.1))
  ]
]

-- A protocol of a strategy takes a flow of that protocol to a port that both the strategy's and the
-- section's ports let through.
unfoldable pub strategy_takes : Section → ZapretStrategy → Text → ℕ → Text → Bool
strategy_takes s zs protocol p proto =
    text_eq proto protocol
    && matches_protocol s proto
    && ports_allow (parse_port_ranges (strategy_ports zs proto)) p
    && ports_allow (parse_port_ranges s.destination_ports) p

pub claims-takes :
    (s : Section) (f : Flow) (zs : ZapretStrategy) (p : ℕ) (proto : Text)
    → f.protocol ≢ []
    → f.port ≡ pos p
    → 1 ≤ p
    → p ≤ 65535
    → claims s f zs proto ≡ strategy_takes s zs f.protocol p proto
unfolding claims strategy_takes
claims-takes s f zs p proto protocol port low high = ground (
  arith,
  not_blank f.protocol protocol,
  port_passes-allow f (strategy_ports zs proto) s.destination_ports p port low high,
)
