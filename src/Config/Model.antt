-- ===== src/Config/Model.antt =====
-- internal/config/model.go: the records that the modelled code reads, and the methods on them. Of
-- `Settings` the fields stand here that these methods read; numbers that are never negative are ℕ.
use purewrt.Prelude.{
  ℕ, ◌+◌, ◌*◌, ◌%◌, ◌^◌, Bool, true, false, not, ◌&&◌, ◌||◌, List, [], ◌∷◌, ◌++◌, Option, none,
  some, ◌==◌, if◌then◌else◌, any,
}
use purewrt.Prelude.Int.{ℤ}
use purewrt.Text.{Text, codes, text_eq}
use purewrt.Text.Space.{trim_space}
use purewrt.Text.Case.{to_lower}
use purewrt.Text.Parts.{split}

pub record Section : Type 0 where
  pub name : Text
  pub enabled : Bool
  pub action : Text
  pub tproxy_port : ℕ
  pub proxy_group : Text
  pub proxy_group_type : Text
  pub proxy_filter : Text
  pub proxy_exclude_filter : Text
  pub proxy_strategy : Text
  pub proxy_health_check_url : Text
  pub proxy_health_check_interval : ℕ
  pub user_overridden_proxy_group : Bool
  pub ipv4_enabled : Bool
  pub ipv6_enabled : Bool
  pub udp_mode : Text
  pub match_protocol : Text
  pub destination_ports : Text
  pub priority : ℤ
  pub vpns : List Text
  pub zapret_application_names : List Text
  pub zapret_strategies : List Text
  pub source_cidr4 : List Text
  pub source_cidr6 : List Text

pub record ZapretProfile : Type 0 where
  pub name : Text
  pub enabled : Bool
  pub interfaces : List Text
  pub queue_num : ℕ
  pub fw_mark : Text
  pub nfqws_bin : Text
  pub params : Text
  pub lua_bundle_dir : Text
  pub blobs : List Text

pub record ZapretStrategy : Type 0 where
  pub selector_mark : ℕ
  pub library_blobs : List Text
  pub candidate : Text
  pub name : Text
  pub enabled : Bool
  pub profile : Text
  pub queue_num : ℕ
  pub protocols : List Text
  pub tcp_ports : Text
  pub udp_ports : Text
  pub tcp_pkt_out : ℕ
  pub tcp_pkt_in : ℕ
  pub udp_pkt_out : ℕ
  pub udp_pkt_in : ℕ
  pub preset : Text
  pub params : Text

pub record Settings : Type 0 where
  pub resource_profile : Text
  pub ipv6 : Bool
  pub ipv6_mode : Text

pub record Config : Type 0 where
  pub settings : Settings
  pub sections : List Section
  pub zapret_profiles : List ZapretProfile
  pub zapret_strategies : List ZapretStrategy

unfoldable pub is_empty : Text → Bool
is_empty [] = true
is_empty (_ ∷ _) = false

unfoldable pub or_default : Text → Text → Text
unfolding is_empty
or_default s d = if is_empty s then d else s

-- The comma-separated parts of one list entry, with what was seen before.
unfoldable pub interface_parts : List Text → List Text → List Text
unfolding is_empty
interface_parts [] seen = seen
interface_parts (p ∷ ps) seen =
    let part = trim_space p in
    interface_parts ps
      (if is_empty part || any (text_eq part) seen then seen else seen ++ part ∷ [])

unfoldable pub interface_entries : List Text → List Text → List Text
unfolding interface_parts
interface_entries [] out = out
interface_entries (v ∷ vs) out = interface_entries vs (interface_parts (split v b',') out)

-- `seen` and `out` hold the same names, so one list stands for both.
unfoldable pub normalize_interface_list : List Text → List Text
unfolding interface_entries
normalize_interface_list entries = interface_entries entries []

unfoldable pub normalize_zapret_profile : ZapretProfile → ZapretProfile
unfolding or_default normalize_interface_list
normalize_zapret_profile p = record p {
  nfqws_bin = or_default p.nfqws_bin (codes "/usr/libexec/zapret/nfqws2");
  lua_bundle_dir = or_default p.lua_bundle_dir (codes "/usr/libexec/zapret/lua");
  fw_mark = or_default p.fw_mark (codes "0x40000000");
  interfaces = normalize_interface_list p.interfaces;
}

unfoldable pub enabled_profiles : List ZapretProfile → List ZapretProfile
unfolding is_empty
enabled_profiles [] = []
enabled_profiles (p ∷ ps) =
    let rest = enabled_profiles ps in
    if p.enabled && not (is_empty p.name) then normalize_zapret_profile p ∷ rest else rest

unfoldable pub find_profile : Text → List ZapretProfile → Option ZapretProfile
find_profile name [] = none
find_profile name (p ∷ ps) = if text_eq p.name name then some p else find_profile name ps

unfoldable pub zapret_profile_by_name : Config → Text → Option ZapretProfile
unfolding find_profile enabled_profiles
zapret_profile_by_name c name = find_profile name (enabled_profiles c.zapret_profiles)

abbrev pub zapret_queue_base : ℕ
zapret_queue_base = 200

abbrev pub or_number : ℕ → ℕ → ℕ
or_number n d = if n == 0 then d else n

abbrev pub default_protocols : List Text → List Text
default_protocols [] = codes "tcp" ∷ []
default_protocols (p ∷ ps) = p ∷ ps

-- `uint32(index+1) << 16` drops what does not fit in 32 bits.
unfoldable pub normalize_zapret_strategy_at : ZapretStrategy → ℕ → ZapretStrategy
unfolding or_default
normalize_zapret_strategy_at s index = record s {
  profile = or_default s.profile (codes "wan");
  queue_num = zapret_queue_base;
  selector_mark = or_number s.selector_mark ((index + 1) * 2 ^ 16 % 2 ^ 32);
  protocols = default_protocols s.protocols;
  tcp_pkt_out = or_number s.tcp_pkt_out 15;
  tcp_pkt_in = or_number s.tcp_pkt_in 6;
  udp_pkt_out = or_number s.udp_pkt_out 9;
}

-- The loop with its index `i`.
unfoldable pub find_strategy : Text → List ZapretStrategy → ℕ → Option ZapretStrategy
find_strategy name [] i = none
find_strategy name (s ∷ ss) i =
    if text_eq s.name name && s.enabled
    then some (normalize_zapret_strategy_at s i)
    else find_strategy name ss (i + 1)

unfoldable pub zapret_strategy_by_name : Config → Text → Option ZapretStrategy
unfolding find_strategy
zapret_strategy_by_name c name = find_strategy name c.zapret_strategies 0

unfoldable pub resource_profile : Config → Text
resource_profile c =
    let mode = to_lower (trim_space c.settings.resource_profile) in
    if text_eq mode (codes "low")
    then codes "low"
    else if text_eq mode (codes "high")
    then codes "high"
    else codes "standard"

unfoldable pub low_resource : Config → Bool
unfolding resource_profile
low_resource c = text_eq (resource_profile c) (codes "low")

unfoldable pub ipv6_routed : Config → Bool
unfolding low_resource
ipv6_routed c =
    let mode = to_lower (trim_space c.settings.ipv6_mode) in
    if text_eq mode (codes "on")
    then true
    else if text_eq mode (codes "off")
    then false
    else c.settings.ipv6 && not (low_resource c)

unfoldable pub find_section : Text → List Section → Option Section
find_section name [] = none
find_section name (s ∷ ss) = if text_eq s.name name then some s else find_section name ss

unfoldable pub section_by_name : Config → Text → Option Section
unfolding find_section
section_by_name c name = find_section name c.sections
