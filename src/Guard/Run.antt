-- ===== src/Guard/Run.antt =====
-- The probes of one run of `ProxyGuardRun`, from the state behind the latency sweep to the report.
pub mod Due
pub mod Budget
pub mod Phases
pub mod Waited
pub mod Fleet
pub mod Alternative
pub mod Search
pub mod Calm
pub mod Carried
pub mod Confirm
pub mod Recovery
use purewrt.Prelude.{
  ℕ, suc, ◌+◌, ◌-◌, ◌*◌, Bool, true, false, not, ◌&&◌, ◌||◌, List, [], ◌∷◌, ◌++◌, Option, none,
  some, any, ltb, ◌==◌, if◌then◌else◌, map,
}
use purewrt.Prelude.Sort.{sort_by}
use purewrt.Text.{Text, text_eq}
use purewrt.Checker.Trace.{text_less}
use purewrt.Checker.Scope.{contains_string}
use purewrt.Guard.{
  Node, Nodes, Group, State, Limits, Throughput, Health, healthy, suspect, quarantined, Trouble,
  no_trouble, second, is_quarantined, fast_enough, get_node, update_node, sorted_node_names,
}
use purewrt.Guard.Latency.{latency_unstable}
use purewrt.Guard.Speed.{apply_speed_result}
use purewrt.Guard.LastResort.{recompute_last_resorts}
use purewrt.Guard.Choice.{
  probe_due, is_candidate, older, candidates, rolling_probe_candidates, is_passing, passing_member,
  passing_alternative, is_alternative, alternative_members, alternatives, delay_or_far, nearer,
  or_empty, quarantine_until, fleet_interval, active_interval, recovered, quarantine, add_error,
}

abbrev pub max_probes : ℕ
max_probes = 3

pub record Transition : Type 0 where
  pub node : Text
  pub before : Health
  pub after : Health

-- The variables that the loops of a run share.
pub record Run : Type 0 where
  pub state : State
  pub probes : ℕ
  pub probe_bytes : ℕ
  pub probed : List Text
  pub urgent_limit : ℕ
  pub transitions : List Transition

abbrev pub with_nodes : (Nodes → Nodes) → Run → Run
with_nodes f r = record r { state = record r.state { nodes = f r.state.nodes } }

-- `download i name` is what the transfer through a node gives as the probe number `i` of the run.
module _ (lim : Limits) (now : ℕ) (download : ℕ → Text → Throughput × Option Text) where
  unfoldable pub probe : Text → Run → Option Throughput × Run
  probe name r =
      if not (ltb r.probes max_probes)
      then (none, r)
      else let (result, failure) = download r.probes name in
        (
          some (add_error result failure),
          record r {
            probed = name ∷ r.probed;
            probes = r.probes + 1;
            probe_bytes = r.probe_bytes + result.bytes;
          },
        )

  -- No fleet member is due any more.
  abbrev pub fleet_done : Run → Bool
  fleet_done r = elim (rolling_probe_candidates now (fleet_interval lim) r.probed r.state.nodes) [
    | [] ↦ true
    | _ ↦ false
  ]

  unfoldable pub release : Run → Run
  release r =
      if ltb r.urgent_limit max_probes && fleet_done r
      then record r { urgent_limit = max_probes }
      else r

  unfoldable pub urgent_probe : Text → Run → Option Throughput × Run
  unfolding probe release
  urgent_probe name r =
      if not (ltb (release r).probes (release r).urgent_limit)
      then (none, release r)
      else probe name (release r)

  abbrev pub measure : Text → Throughput → Run → Run
  measure name result =
      with_nodes
        (update_node (apply_speed_result lim.min_down_kbps lim.max_jitter_ms now result) name)

  abbrev pub leaves_quarantine : Node → Bool
  leaves_quarantine n = elim n.health [ healthy ↦ true | _ ↦ false ]

  unfoldable pub finish_recovery : Text → Node → Option Throughput × Run → Run
  unfolding recovered
  finish_recovery name n (none, r) = r
  finish_recovery name n (some result, r) =
      with_nodes (update_node (recovered lim now result) name) (
        if leaves_quarantine (recovered lim now result n)
        then record r {
          transitions =
              r.transitions ++ record { node = name; before = quarantined; after = healthy } ∷ [];
        }
        else r)

  -- The first loop: one quarantined member whose time has come.
  unfoldable pub recover : List Text → Run → Run
  unfolding urgent_probe finish_recovery
  recover [] r = r
  recover (name ∷ names) r =
      let rest = recover names r in
      elim (get_node r.state.nodes name) [
        | none ↦ rest
        | some n ↦
            if not (is_quarantined n) || ltb now n.retry_after
            then rest
            else finish_recovery name n (urgent_probe name r)
      ]

  abbrev pub skips_active : Run → Text → Node → Bool
  skips_active r name n =
      is_quarantined n
      || ((n.bad_streak == 0)
          && not (n.last_probe == 0)
          && ltb now (n.last_probe + active_interval lim))
      || contains_string r.probed name

  -- The second loop, over the members that carry traffic.
  unfoldable pub check_active : List Text → Run → Run
  unfolding urgent_probe active_interval
  check_active [] r = r
  check_active (name ∷ names) r =
      let (result, next) = urgent_probe name r in
      let rest = check_active names r in
      let done : Run = elim result [
        | none ↦ next
        | some t ↦ check_active names (measure name t next)
      ] in
      elim (get_node r.state.nodes name) [
        | none ↦ rest
        | some n ↦ if skips_active r name n then rest else done
      ]

  abbrev pub passes : Throughput → Bool
  passes t = t.success && fast_enough lim.min_down_kbps t.down

  unfoldable pub try_alternatives : Nodes → Run → Text × Run
  unfolding urgent_probe
  try_alternatives [] r = ([], r)
  try_alternatives ((name, n) ∷ ns) r =
      let (result, next) = urgent_probe n.name r in
      elim result [
        | none ↦ ([], next)
        | some t ↦
            let rest = try_alternatives ns (measure name t next) in
            if passes t then (n.name, measure name t next) else rest
      ]

  unfoldable pub probe_alternative : Text → Run → Text × Run
  unfolding alternatives sort_by try_alternatives
  probe_alternative bad r =
      try_alternatives (sort_by nearer (alternatives r.state.nodes bad r.state.groups [])) r

  unfoldable pub find_alternative : Text → Run → Text × Run
  unfolding passing_alternative
  find_alternative bad r =
      let probed_one = probe_alternative bad r in
      elim (or_empty (passing_alternative r.state.nodes bad lim.min_down_kbps now r.state.groups)) [
        | [] ↦ probed_one
        | c ∷ name ↦ (c ∷ name, r)
      ]

  unfoldable pub finish_confirm : Text → Node → Text × Run → Run
  unfolding quarantine
  finish_confirm name n ([], r) = r
  finish_confirm name n (c ∷ alternative, r) =
      with_nodes (update_node (quarantine lim now) name) (record r {
        transitions =
            r.transitions ++ record { node = name; before = n.health; after = quarantined } ∷ [];
      })

  abbrev pub is_confirmable : Node → Bool
  is_confirmable n = not (is_quarantined n) && not (ltb n.bad_streak 2)

  unfoldable pub confirm_node : Text → Run → Run
  unfolding find_alternative finish_confirm
  confirm_node name r = elim (get_node r.state.nodes name) [
    | none ↦ r
    | some n ↦ if is_confirmable n then finish_confirm name n (find_alternative name r) else r
  ]

  -- The third loop, over the suspects.
  unfoldable pub confirm : List Text → Run → Run
  unfolding confirm_node
  confirm [] r = r
  confirm (name ∷ names) r = confirm names (confirm_node name r)

  -- The last loop, over the candidates that were found before it.
  unfoldable pub fill : List Text → Run → Run
  unfolding probe
  fill [] r = r
  fill (name ∷ names) r =
      let (result, next) = probe name r in
      elim result [ none ↦ next | some t ↦ fill names (measure name t next) ]

  unfoldable pub start_run : State → Run
  start_run s = record {
    state = s;
    probes = 0;
    probe_bytes = 0;
    probed = [];
    urgent_limit = elim (rolling_probe_candidates now (fleet_interval lim) [] s.nodes) [
      | [] ↦ max_probes
      | _ ↦ max_probes - 1
    ];
    transitions = [];
  }

  -- The loops that leave the reserved probe alone.
  unfoldable pub urgent_phase : List Text → State → Run
  unfolding start_run recover check_active confirm sorted_node_names
  urgent_phase active s =
      let first = recover (sorted_node_names s.nodes) (start_run s) in
      let second_run = check_active active first in
      confirm (sorted_node_names second_run.state.nodes) second_run

  unfoldable pub run_probes : List Text → State → Run
  unfolding urgent_phase fill
  run_probes active s =
      let r = urgent_phase active s in
      fill (rolling_probe_candidates now (fleet_interval lim) r.probed r.state.nodes) r

  -- `now` as `LastRun`, and the last resorts of each group.
  unfoldable pub guard_run : List Text → State → Run
  unfolding run_probes
  guard_run active s =
      let r = run_probes active s in
      record r {
        state = record (recompute_last_resorts lim.min_members r.state) { last_run = now };
      }
