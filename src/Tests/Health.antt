-- ===== src/Tests/Health.antt =====
-- internal/manager/proxy_guard.go on a group of three members.
use mathlib.Core.List.{Perm}
use purewrt.Prelude.{
  ℕ, ◌+◌, ◌^◌, ◌≤◌, ◌≡◌, ◌≢◌, ◌⊎◌, refl, true, false, ◌&&◌, List, [], ◌∷◌, ◌++◌, Option, none, some,
  arith, max, min, length, map, All,
}
use purewrt.Text.{Text, codes, text_eq}
use purewrt.Checker.Scope.{contains_string}
use purewrt.Guard.{
  Node, Group, State, Limits, Throughput, Health, healthy, suspect, quarantined, no_trouble,
  is_quarantined,
}
use purewrt.Guard.Latency.{latency_unstable, latency_jitter, good_samples}
use purewrt.Guard.Latency.Spread.{is_in, latency_jitter-greatest}
use purewrt.Guard.Speed.{apply_speed_result}
use purewrt.Guard.LastResort.{recompute_group, available_members, quarantined_members, resort_less}
use purewrt.Guard.LastResort.Kept.{NoWorse, recompute_group-best}
use purewrt.Guard.Run.{
  urgent_phase, guard_run, confirm_node, recover, probe_alternative, start_run, is_confirmable,
}
use purewrt.Guard.Choice.{rolling_probe_candidates, fleet_interval}
use purewrt.Guard.Run.Alternative.{node_at}
use purewrt.Guard.Run.Search.{HasAlternative}
use purewrt.Guard.Run.Carried.{Grounds}
use purewrt.Guard.Run.Confirm.{confirm_node-alternative}
use purewrt.Guard.Run.Recovery.{recovers_by, recover-leaves}
use purewrt.Guard.Members.{Proxy}
use purewrt.Guard.Members.Watched.{present, refresh, refresh-watched}
use purewrt.Guard.Run.Waited.{WaitedLongest}
use purewrt.Guard.Run.Fleet.{guard_run-within, guard_run-fleet}

abbrev node_of : Text → Health → ℕ → ℕ → ℕ → Node
node_of name health bad_streak recovery_streak last_probe = record {
  name = name;
  provider = codes "list";
  kind = codes "vless";
  health = health;
  reason = no_trouble;
  latencies_ms = [];
  last_delay_ms = 80;
  jitter_ms = 5;
  last_down = 0;
  last_probe = last_probe;
  bad_streak = bad_streak;
  recovery_streak = recovery_streak;
  quarantined_at = 0;
  retry_after = 0;
  last_seen = 0;
}

-- `oslo` has failed twice, `rome` waits for its second clean probe, `bern` was never probed.
abbrev fleet : State
fleet = record {
  nodes =
      (codes "bern", node_of (codes "bern") healthy 0 0 0)
      ∷ (codes "oslo", node_of (codes "oslo") suspect 2 0 9)
      ∷ (codes "rome", node_of (codes "rome") quarantined 0 1 9)
      ∷ [];
  groups =
      record {
        name = codes "all";
        members = codes "bern" ∷ codes "oslo" ∷ codes "rome" ∷ [];
        last_resorts = [];
      }
      ∷ [];
  last_run = 0;
}

abbrev limits : Limits
limits = record {
  min_down_kbps = 100;
  max_jitter_ms = 300;
  quarantine_seconds = 600;
  active_probe_interval = 1800;
  fleet_probe_interval = 21600;
  min_members = 3;
}

abbrev clock_now : ℕ
clock_now = 10

clock_runs : clock_now ≢ 0
clock_runs h = absurd (ground (arith, h))

-- Every transfer is fast.
abbrev net : ℕ → Text → Throughput × Option Text
net i name = (record { success = true; down = 10 ^ 6; bytes = 1000; error = [] }, none)

guard_run-within_example : (guard_run limits clock_now net (codes "oslo" ∷ []) fleet).probes ≤ 3
guard_run-within_example =
    guard_run-within limits clock_now net (codes "oslo" ∷ []) fleet clock_runs

bern_due :
    rolling_probe_candidates clock_now
      (fleet_interval limits)
      (urgent_phase limits clock_now net [] fleet).probed
      (urgent_phase limits clock_now net [] fleet).state.nodes
    ≡ codes "bern" ∷ []
unfolding rolling_probe_candidates urgent_phase text_eq contains_string fleet_interval
    latency_unstable
bern_due = refl

guard_run-fleet_example :
    (contains_string (guard_run limits clock_now net [] fleet).probed (codes "bern") ≡ true)
    × WaitedLongest clock_now
        (fleet_interval limits)
        (urgent_phase limits clock_now net [] fleet).probed
        (urgent_phase limits clock_now net [] fleet).state.nodes
        (codes "bern")
guard_run-fleet_example =
    guard_run-fleet limits clock_now net [] fleet (codes "bern") [] clock_runs bern_due

oslo_goes :
    node_at is_quarantined
      (confirm_node limits clock_now net
        (codes "oslo")
        (start_run limits clock_now net fleet)).state.nodes
      (codes "oslo")
    ≡ true
unfolding confirm_node start_run text_eq contains_string probe_alternative rolling_probe_candidates
    fleet_interval
oslo_goes = refl

confirm_node-alternative_example :
    (node_at is_quarantined (start_run limits clock_now net fleet).state.nodes (codes "oslo")
      ≡ true)
    ⊎ ((codes "oslo" ≡ codes "oslo")
        × (node_at
              (is_confirmable limits clock_now net)
              (start_run limits clock_now net fleet).state.nodes
              (codes "oslo")
            ≡ true)
        × HasAlternative limits clock_now
            (codes "oslo")
            (confirm_node limits clock_now net
              (codes "oslo")
              (start_run limits clock_now net fleet)).state
        × Grounds limits clock_now net (codes "oslo") (start_run limits clock_now net fleet) (
            confirm_node limits clock_now net
              (codes "oslo")
              (start_run limits clock_now net fleet)))
confirm_node-alternative_example =
    confirm_node-alternative limits clock_now net (codes "oslo")
      (start_run limits clock_now net fleet) (codes "oslo") clock_runs oslo_goes

-- Every transfer fails, at a rate that would be fast enough.
abbrev broken_net : ℕ → Text → Throughput × Option Text
broken_net i name =
    (record { success = false; down = 10 ^ 6; bytes = 1000; error = codes "status 502" }, none)

-- Once `bern` is measured, the suspect `oslo` is quarantined in favour of it.
oslo_goes_anyway :
    node_at is_quarantined
      (urgent_phase limits clock_now broken_net (codes "bern" ∷ []) fleet).state.nodes
      (codes "oslo")
    ≡ true
unfolding confirm_node urgent_phase text_eq contains_string probe_alternative
    rolling_probe_candidates fleet_interval latency_unstable apply_speed_result
oslo_goes_anyway = refl

rome_waits :
    node_at is_quarantined (start_run limits clock_now net fleet).state.nodes (codes "rome") ≡ true
unfolding start_run text_eq
rome_waits = refl

rome_leaves :
    node_at is_quarantined
      (recover limits clock_now net
        (codes "rome" ∷ [])
        (start_run limits clock_now net fleet)).state.nodes
      (codes "rome")
    ≡ false
unfolding recover start_run text_eq rolling_probe_candidates contains_string fleet_interval
    latency_unstable
rome_leaves = refl

recover-leaves_example :
    recovers_by limits clock_now
      (net (start_run limits clock_now net fleet).probes (codes "rome")).0
      (start_run limits clock_now net fleet).state.nodes
      (codes "rome")
    ≡ true
recover-leaves_example =
    recover-leaves limits clock_now net (codes "rome" ∷ []) (start_run limits clock_now net fleet)
      (codes "rome") rome_waits rome_leaves

abbrev everyone : Group
everyone = record {
  name = codes "all";
  members = codes "bern" ∷ codes "oslo" ∷ codes "rome" ∷ [];
  last_resorts = [];
}

recompute_group-best_example :
    (available_members fleet.nodes everyone.members
        + length (recompute_group 3 fleet.nodes everyone).last_resorts
      ≡ max (available_members fleet.nodes everyone.members) (min 3 (length everyone.members)))
    × ((kept : List (Text × Node)) × (dropped : List (Text × Node)) × ((recompute_group 3
            fleet.nodes everyone).last_resorts
          ≡ map (λ entry. entry.0) kept)
        × Perm (kept ++ dropped) (quarantined_members fleet.nodes everyone.members)
        × All (λ x. All (λ z. resort_less z x ≡ false) dropped) kept
        × All (λ x. All (NoWorse x) dropped) kept)
recompute_group-best_example = recompute_group-best 3 fleet.nodes everyone

abbrev known_proxies : Text → Option Proxy
known_proxies name = none

abbrev delays : Text → Option ℕ
delays name = some 120

refresh-watched_example :
    (node_at present
        (refresh known_proxies delays (codes "rome" ∷ codes "kiev" ∷ []) 300 clock_now fleet.nodes)
        (codes "rome")
      ≡ contains_string (codes "rome" ∷ codes "kiev" ∷ []) (codes "rome"))
    × (node_at is_quarantined
          (refresh known_proxies delays
            (codes "rome" ∷ codes "kiev" ∷ [])
            300
            clock_now
            fleet.nodes)
          (codes "rome")
        ≡ (contains_string (codes "rome" ∷ codes "kiev" ∷ []) (codes "rome")
            && node_at is_quarantined fleet.nodes (codes "rome")))
refresh-watched_example =
    refresh-watched known_proxies delays (codes "rome" ∷ codes "kiev" ∷ []) 300 clock_now
      fleet.nodes (codes "rome")

abbrev window : List ℕ
window = 80 ∷ 0 ∷ 120 ∷ 95 ∷ []

window_good : good_samples window ≡ 80 ∷ 120 ∷ 95 ∷ []
unfolding good_samples
window_good = refl

latency_jitter-greatest_example :
    (120 ≤ 80 + latency_jitter window)
    × ((c : ℕ) × (d : ℕ) × (is_in c (good_samples window) ≡ true)
        × (is_in d (good_samples window) ≡ true)
        × (c ≡ d + latency_jitter window))
latency_jitter-greatest_example =
    latency_jitter-greatest window (rw window_good (omega arith)) 120 80 (rw window_good refl)
      (rw window_good refl)
