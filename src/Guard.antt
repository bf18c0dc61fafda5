-- ===== src/Guard.antt =====
-- internal/proxyguard/state.go: the health of the nodes and the groups that they serve, as the proxy
-- guard of internal/manager/proxy_guard.go keeps them.
pub mod Latency
pub mod Speed
pub mod LastResort
pub mod Choice
pub mod Run
pub mod Members
use purewrt.Prelude.{
  ℕ, ◌+◌, ◌*◌, ◌^◌, Bool, true, false, not, ◌&&◌, ◌||◌, List, [], ◌∷◌, Option, none, some, any, ltb,
  ◌==◌, if◌then◌else◌, map,
}
use purewrt.Prelude.Sort.{sort_by}
use purewrt.Text.{Text, text_eq}
use purewrt.Checker.Trace.{text_less}

-- The three values of `NodeState.State`.
pub data Health : Type 0 where
  healthy suspect quarantined : Health

-- The texts that the guard writes in `Reason`; `slow` has the throughput and the limit.
pub data Trouble : Type 0 where
  no_trouble : Trouble
  unstable_latency : ℕ → Trouble
  probe_failed : Text → Trouble
  slow : ℕ → ℕ → Trouble

-- Times are nanoseconds, the zero time is 0. A throughput is in bit/s, a thousandth of the code's
-- kbps. Delays are milliseconds, 0 where a test failed.
pub record Node : Type 0 where
  pub name : Text
  pub provider : Text
  pub kind : Text
  pub health : Health
  pub reason : Trouble
  pub latencies_ms : List ℕ
  pub last_delay_ms : ℕ
  pub jitter_ms : ℕ
  pub last_down : ℕ
  pub last_probe : ℕ
  pub bad_streak : ℕ
  pub recovery_streak : ℕ
  pub quarantined_at : ℕ
  pub retry_after : ℕ
  pub last_seen : ℕ

pub record Group : Type 0 where
  pub name : Text
  pub members : List Text
  pub last_resorts : List Text

-- A map is the list of its entries; `groups` stands in the order in which the code ranges over it.
abbrev pub Nodes : Type 0
Nodes = List (Text × Node)

pub record State : Type 0 where
  pub nodes : Nodes
  pub groups : List Group
  pub last_run : ℕ

-- The settings that the guard reads.
pub record Limits : Type 0 where
  pub min_down_kbps : ℕ
  pub max_jitter_ms : ℕ
  pub quarantine_seconds : ℕ
  pub active_probe_interval : ℕ
  pub fleet_probe_interval : ℕ
  pub min_members : ℕ

pub record Throughput : Type 0 where
  pub success : Bool
  pub down : ℕ
  pub bytes : ℕ
  pub error : Text

abbrev pub second : ℕ
second = 10 ^ 9

abbrev pub is_quarantined : Node → Bool
is_quarantined n = elim n.health [ quarantined ↦ true | _ ↦ false ]

-- `result.Kbps >= float64(minKbps)`.
abbrev pub fast_enough : ℕ → ℕ → Bool
fast_enough min_kbps down = not (ltb down (min_kbps * 1000))

abbrev pub get_node : Nodes → Text → Option Node
get_node [] name = none
get_node ((key, n) ∷ ns) name = if text_eq key name then some n else get_node ns name

-- A write through the pointer that `state.Nodes[name]` returned.
abbrev pub update_node : (Node → Node) → Text → Nodes → Nodes
update_node f name [] = []
update_node f name ((key, n) ∷ ns) =
    let rest = update_node f name ns in
    if text_eq key name then (key, f n) ∷ ns else (key, n) ∷ rest

unfoldable pub sorted_node_names : Nodes → List Text
unfolding sort_by text_less
sorted_node_names ns = sort_by text_less (map (λ entry. entry.0) ns)
