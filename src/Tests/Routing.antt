-- ===== src/Tests/Routing.antt =====
-- internal/checker/routing_trace.go at a configuration with a proxy section and a zapret section.
use mathlib.Core.List.{Perm}
use purewrt.Prelude.{◌≡◌, ◌≢◌, refl, true, false, List, [], ◌∷◌, arith}
use purewrt.Prelude.Int.{ℤ, pos}
use purewrt.Text.{Text, codes, text_eq}
use purewrt.Config.Model.{Section, Config, ZapretStrategy, ZapretProfile}
use purewrt.Checker.Scope.{Flow, section_flow_scope}
use purewrt.Checker.Scope.Proxy.{proxy_handles, section_flow_scope-proxy}
use purewrt.Checker.Scope.Zapret.{zapret_handles, section_flow_scope-zapret}
use purewrt.Checker.Trace.{routing_sections, trace_matches}
use purewrt.Checker.Trace.Order.{Routed, routing_sections-Routed}
use purewrt.Checker.Trace.FirstMatch.{reported, verdict, verdict_or_warned, trace_matches-verdict}

abbrev section_of : Text → Text → ℤ → Section
section_of name action priority = record {
  name = name;
  enabled = true;
  action = action;
  tproxy_port = 0;
  proxy_group = [];
  proxy_group_type = [];
  proxy_filter = [];
  proxy_exclude_filter = [];
  proxy_strategy = [];
  proxy_health_check_url = [];
  proxy_health_check_interval = 0;
  user_overridden_proxy_group = false;
  ipv4_enabled = true;
  ipv6_enabled = true;
  udp_mode = codes "block_quic";
  match_protocol = codes "any";
  destination_ports = codes "80,443";
  priority = priority;
  vpns = [];
  zapret_application_names = [];
  zapret_strategies = codes "web" ∷ [];
  source_cidr4 = [];
  source_cidr6 = [];
}

abbrev media : Section
media = section_of (codes "media") (codes "proxy") (pos 20)

abbrev video : Section
video = section_of (codes "video") (codes "zapret") (pos 10)

abbrev ads : Section
ads = section_of (codes "ads") (codes "reject") (pos 90)

abbrev web_strategy : ZapretStrategy
web_strategy = record {
  selector_mark = 0;
  library_blobs = [];
  candidate = [];
  name = codes "web";
  enabled = true;
  profile = codes "wan";
  queue_num = 0;
  protocols = codes "tcp" ∷ [];
  tcp_ports = codes "443";
  udp_ports = [];
  tcp_pkt_out = 0;
  tcp_pkt_in = 0;
  udp_pkt_out = 0;
  udp_pkt_in = 0;
  preset = [];
  params = [];
}

abbrev wan_profile : ZapretProfile
wan_profile = record {
  name = codes "wan";
  enabled = true;
  interfaces = codes "eth1" ∷ [];
  queue_num = 0;
  fw_mark = [];
  nfqws_bin = [];
  params = [];
  lua_bundle_dir = [];
  blobs = [];
}

abbrev pub home : Config
home = record {
  settings = record { resource_profile = []; ipv6 = true; ipv6_mode = codes "auto" };
  sections = media ∷ video ∷ ads ∷ [];
  zapret_profiles = wan_profile ∷ [];
  zapret_strategies = web_strategy ∷ [];
}

abbrev https : Flow
https = record { protocol = codes "tcp"; port = pos 443; wan = codes "eth1" }

tcp-not-blank : codes "tcp" ≢ []
tcp-not-blank h = absurd (ground (arith, h))

wan-not-blank : codes "eth1" ≢ []
wan-not-blank h = absurd (ground (arith, h))

section_flow_scope-proxy_example :
    (section_flow_scope home media https).0 ≡ proxy_handles media (codes "tcp") 443
section_flow_scope-proxy_example =
    section_flow_scope-proxy home media https 443 refl tcp-not-blank refl (omega arith)
      (omega arith)

section_flow_scope-zapret_example :
    (section_flow_scope home video https).0 ≡ zapret_handles home video https 443
section_flow_scope-zapret_example =
    section_flow_scope-zapret home video https 443 refl tcp-not-blank wan-not-blank refl
      (omega arith) (omega arith)

routing_sections-Routed_example :
    Routed (routing_sections (media ∷ video ∷ ads ∷ []))
    × Perm (routing_sections (media ∷ video ∷ ads ∷ [])) (media ∷ video ∷ ads ∷ [])
routing_sections-Routed_example = routing_sections-Routed (media ∷ video ∷ ads ∷ [])

-- The lists name the destination for the two sections that route.
abbrev named_by : Text → List Text
named_by name = elim (text_eq name (codes "ads")) [ true ↦ [] | false ↦ codes "list" ∷ [] ]

trace_matches-verdict_example :
    reported (trace_matches home https false named_by [])
    ≡ verdict_or_warned [] (verdict home https false named_by (routing_sections home.sections))
trace_matches-verdict_example = trace_matches-verdict home https false named_by []
