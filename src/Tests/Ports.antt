-- ===== src/Tests/Ports.antt =====
-- internal/config/section_match.go at concrete texts.
use purewrt.Prelude.{ℕ, ◌≡◌, ◌≢◌, ◌↔◌, refl, true, List, [], ◌∷◌, ok, err, arith}
use purewrt.Text.{Text, codes}
use purewrt.Text.Space.{trim_space}
use purewrt.Text.Decimal.{atoi, itoa}
use purewrt.Text.Parts.{split, join}
use purewrt.Config.Ports.{
  PortRange, invalid_port, parse_token, parse_tokens, format_range, format_port_ranges,
  intersect_parsed, parse_port_ranges, normalize_destination_ports, intersect_destination_ports,
  covers,
}
use purewrt.Config.Ports.Canonical.{Canonical}
use purewrt.Config.Ports.Normal.{
  parse_port_ranges-Canonical, covers-parse_port_ranges, normalize-roundtrip, normalize_unique,
  Exact, intersect_destination_ports-Exact,
}

abbrev range : ℕ → ℕ → PortRange
range a b = record { first = a; last = b }

abbrev mixed : Text
mixed = codes "443, 80-90,91,8000 - 8010"

abbrev mixed_ranges : List PortRange
mixed_ranges = range 80 91 ∷ range 443 443 ∷ range 8000 8010 ∷ []

mixed_read : parse_port_ranges mixed ≡ ok mixed_ranges
unfolding parse_port_ranges parse_token split trim_space atoi
mixed_read = refl

mixed_tokens :
    parse_tokens (split mixed b',')
    ≡ ok (range 443 443 ∷ range 80 90 ∷ range 91 91 ∷ range 8000 8010 ∷ [])
unfolding parse_tokens parse_token split trim_space atoi
mixed_tokens = refl

mixed_normal : normalize_destination_ports mixed ≡ ok (codes "80-91, 443, 8000-8010")
unfolding normalize_destination_ports parse_port_ranges parse_token split trim_space atoi
    format_port_ranges itoa join format_range
mixed_normal = refl

abbrev web : Text
web = codes " 442-8005 "

web_read : parse_port_ranges web ≡ ok (range 442 8005 ∷ [])
unfolding parse_port_ranges parse_token split trim_space atoi
web_read = refl

both : intersect_destination_ports mixed web ≡ (codes "443, 8000-8005", true)
unfolding intersect_destination_ports parse_port_ranges parse_token split trim_space atoi
    format_port_ranges itoa join intersect_parsed format_range
both = refl

abbrev broken : Text
broken = codes "80,none"

broken_read : parse_port_ranges broken ≡ err (invalid_port (codes "none"))
unfolding parse_port_ranges parse_token split trim_space atoi
broken_read = refl

mixed-not-blank : trim_space mixed ≢ []
unfolding trim_space
mixed-not-blank h = absurd (ground (arith, h))

parse_port_ranges-Canonical_example : Canonical mixed_ranges
parse_port_ranges-Canonical_example = parse_port_ranges-Canonical mixed mixed_ranges mixed_read

covers-parse_port_ranges_example :
    covers mixed_ranges 91
    ≡ covers (range 443 443 ∷ range 80 90 ∷ range 91 91 ∷ range 8000 8010 ∷ []) 91
covers-parse_port_ranges_example =
    covers-parse_port_ranges mixed
      (range 443 443 ∷ range 80 90 ∷ range 91 91 ∷ range 8000 8010 ∷ []) mixed_ranges
      mixed-not-blank mixed_tokens mixed_read 91

normalize-roundtrip_example :
    (parse_port_ranges (codes "80-91, 443, 8000-8010") ≡ parse_port_ranges mixed)
    × (normalize_destination_ports (codes "80-91, 443, 8000-8010")
        ≡ ok (codes "80-91, 443, 8000-8010"))
normalize-roundtrip_example = normalize-roundtrip mixed (codes "80-91, 443, 8000-8010") mixed_normal

normalize_unique_example :
    (normalize_destination_ports mixed ≡ normalize_destination_ports web)
    ↔ ((p : ℕ) → covers mixed_ranges p ≡ covers (range 442 8005 ∷ []) p)
normalize_unique_example =
    normalize_unique mixed web mixed_ranges (range 442 8005 ∷ []) mixed_read web_read

intersect_destination_ports-Exact_example :
    Exact mixed_ranges (range 442 8005 ∷ []) (intersect_destination_ports mixed web)
intersect_destination_ports-Exact_example =
    intersect_destination_ports-Exact mixed web mixed_ranges (range 442 8005 ∷ []) mixed_read
      web_read
