-- ===== src/Guard/Members.antt =====
-- Which nodes and groups the guard watches: `updateGuardGroups`, `updateGuardNodes`,
-- `updateGuardLatency` and `guardActiveNodes` of internal/manager/proxy_guard.go.
pub mod Watched
use purewrt.Prelude.{
  ℕ, Bool, true, false, not, ◌&&◌, ◌||◌, List, [], ◌∷◌, ◌++◌, Option, none, some, any, ltb, ◌==◌,
  if◌then◌else◌, map,
}
use purewrt.Prelude.Sort.{sort_by}
use purewrt.Text.Find.{has_prefix}
use purewrt.Text.{Text, codes, text_eq}
use purewrt.Text.Case.{to_lower}
use purewrt.Checker.Trace.{text_less}
use purewrt.Checker.Scope.{contains_string}
use purewrt.Guard.{Node, Nodes, Group, State, Limits, healthy, no_trouble, get_node, update_node}
use purewrt.Guard.Speed.{apply_latency}

-- internal/mihomoapi/client.go: what the guard reads of a proxy; `history` has the delays.
pub record Proxy : Type 0 where
  pub type : Text
  pub now : Text
  pub delay : ℕ
  pub provider_name : Text
  pub history : List ℕ
  pub all : List Text

abbrev pub Proxies : Type 0
Proxies = Text → Option Proxy

unfoldable pub is_proxy_guard_candidate : Text → Bool
is_proxy_guard_candidate name = has_prefix (codes "PureWRTGuardCandidate_") name

abbrev pub reserved_names : List Text
reserved_names =
    codes "DIRECT"
    ∷ codes "REJECT"
    ∷ codes "REJECT-DROP"
    ∷ codes "PASS"
    ∷ codes "COMPATIBLE"
    ∷ codes "GLOBAL"
    ∷ []

-- A proxy that the controller does not know has no list.
abbrev pub has_no_members : Option Proxy → Bool
has_no_members none = true
has_no_members (some px) = elim px.all [ [] ↦ true | _ ↦ false ]

unfoldable pub guard_eligible_member : Text → Proxies → Bool
unfolding is_proxy_guard_candidate contains_string
guard_eligible_member name proxies =
    if contains_string reserved_names name
    then false
    else if is_proxy_guard_candidate name
    then false
    else has_no_members (proxies name)

unfoldable pub eligible_members : Proxies → List Text → List Text
unfolding guard_eligible_member
eligible_members proxies [] = []
eligible_members proxies (name ∷ names) =
    let rest = eligible_members proxies names in
    if guard_eligible_member name proxies then name ∷ rest else rest

-- `state.Groups[group]`, with the last resorts that it had.
unfoldable pub old_last_resorts : List Group → Text → List Text
old_last_resorts [] name = []
old_last_resorts (g ∷ gs) name =
    if text_eq g.name name then g.last_resorts else old_last_resorts gs name

-- `candidate` is `ProxyGuardCandidateName`, a hash behind a fixed prefix.
unfoldable pub update_guard_groups : (Text → Text) → Proxies → List Group → List Text → List Group
unfolding eligible_members old_last_resorts
update_guard_groups candidate proxies old [] = []
update_guard_groups candidate proxies old (group ∷ groups) =
    let rest = update_guard_groups candidate proxies old groups in
    elim (proxies (candidate group)) [
      | none ↦ rest
      | some shadow ↦
          record {
            name = group;
            members = eligible_members proxies shadow.all;
            last_resorts = old_last_resorts old group;
          }
          ∷ rest
    ]

-- The set of members, as the list of the groups' members.
unfoldable pub watched_members : List Group → List Text
watched_members [] = []
watched_members (g ∷ gs) = g.members ++ watched_members gs

unfoldable pub guard_node_kind : Text → Text → Text
unfolding has_prefix
guard_node_kind name type =
    if has_prefix (codes "vpn_") name
    then codes "vpn"
    else if has_prefix (codes "friend_") name
    then codes "friend"
    else if not (text_eq type [])
    then to_lower type
    else codes "proxy"

unfoldable pub keep_members : List Text → Nodes → Nodes
keep_members members [] = []
keep_members members ((name, n) ∷ ns) =
    let rest = keep_members members ns in
    if contains_string members name then (name, n) ∷ rest else rest

abbrev pub new_node : Text → Node
new_node name = record {
  name = name;
  provider = [];
  kind = [];
  health = healthy;
  reason = no_trouble;
  latencies_ms = [];
  last_delay_ms = 0;
  jitter_ms = 0;
  last_down = 0;
  last_probe = 0;
  bad_streak = 0;
  recovery_streak = 0;
  quarantined_at = 0;
  retry_after = 0;
  last_seen = 0;
}

abbrev pub proxy_type : Option Proxy → Text
proxy_type none = []
proxy_type (some px) = px.type

abbrev pub proxy_provider : Option Proxy → Text
proxy_provider none = []
proxy_provider (some px) = px.provider_name

abbrev pub see : Proxies → ℕ → Text → Node → Node
see proxies now name n = record n {
  provider = proxy_provider (proxies name);
  kind = guard_node_kind name (proxy_type (proxies name));
  last_seen = now;
}

abbrev pub add_missing : Text → Nodes → Nodes
add_missing name ns = elim (get_node ns name) [
  | none ↦ ns ++ (name, new_node name) ∷ []
  | some _ ↦ ns
]

unfoldable pub see_members : Proxies → ℕ → List Text → Nodes → Nodes
see_members proxies now [] ns = ns
see_members proxies now (name ∷ names) ns =
    see_members proxies now names (update_node (see proxies now name) name (add_missing name ns))

unfoldable pub update_guard_nodes : Proxies → List Text → ℕ → Nodes → Nodes
unfolding keep_members see_members
update_guard_nodes proxies members now ns =
    see_members proxies now members (keep_members members ns)

abbrev pub last_of : List ℕ → ℕ
last_of [] = 0
last_of (x ∷ []) = x
last_of (x ∷ y ∷ xs) = last_of (y ∷ xs)

-- internal/manager/netcheck.go.
unfoldable pub proxy_delay_for : Proxies → Text → ℕ
proxy_delay_for proxies node = elim (proxies node) [
  | none ↦ 0
  | some px ↦ if ltb 0 px.delay then px.delay else last_of px.history
]

abbrev pub delay_of : Proxies → (Text → Option ℕ) → Text → ℕ
delay_of proxies delays name = elim (delays name) [
  | some d ↦ d
  | none ↦ proxy_delay_for proxies name
]

-- Every node is a member here, so the range over the members is one over the nodes.
unfoldable pub update_guard_latency : Proxies → (Text → Option ℕ) → ℕ → ℕ → Nodes → Nodes
unfolding apply_latency
update_guard_latency proxies delays max_jitter now [] = []
update_guard_latency proxies delays max_jitter now ((name, n) ∷ ns) =
    (name, apply_latency max_jitter now (delay_of proxies delays name) n)
    ∷ update_guard_latency proxies delays max_jitter now ns

-- `active[name] = true`.
abbrev pub add_name : Text → List Text → List Text
add_name name names = if contains_string names name then names else name ∷ names

unfoldable pub selected_members : Proxies → List Group → List Text → List Text
selected_members proxies [] active = active
selected_members proxies (g ∷ gs) active = selected_members proxies gs (elim (proxies g.name) [
  | none ↦ active
  | some p ↦ if contains_string g.members p.now then add_name p.now active else active
])

unfoldable pub chained_members : List Text → List Text → List Text → List Text
chained_members chains [] active = active
chained_members chains (member ∷ members) active =
    chained_members chains members
      (if contains_string chains member then add_name member active else active)

-- The members that the connections go through; a connection is the list of its chains.
unfoldable pub connected_members : List (List Text) → List Text → List Text → List Text
unfolding chained_members
connected_members [] members active = active
connected_members (chains ∷ connections) members active =
    connected_members connections members (chained_members chains members active)

-- `connections` is what the controller answers, none where it does not.
unfoldable pub guard_active_nodes : Proxies → Option (List (List Text)) → List Group → List Text
unfolding selected_members connected_members watched_members sort_by text_less
guard_active_nodes proxies connections gs =
    let active = selected_members proxies gs [] in
    sort_by text_less (elim connections [
      | none ↦ active
      | some conns ↦ connected_members conns (watched_members gs) active
    ])
