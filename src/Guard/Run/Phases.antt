-- ===== src/Guard/Run/Phases.antt =====
-- The loops of a run before the last one, and the slot of the fleet.
use purewrt.Prelude.{
  ℕ, ◌-◌, ◌≡◌, ◌≢◌, refl, not, List, [], ◌∷◌, ◌++◌, arith, Option, any, if◌then◌else◌,
}
use purewrt.Prelude.Sort.{sort_by}
use purewrt.Text.{Text}
use purewrt.Guard.{
  quarantined, Node, State, Limits, Throughput, update_node, get_node, sorted_node_names,
}
use purewrt.Guard.Run.{
  Run, max_probes, with_nodes, recover, check_active, probe_alternative, find_alternative,
  finish_confirm, is_confirmable, confirm_node, confirm, start_run, urgent_phase,
}
use purewrt.Guard.Choice.{
  is_candidate, rolling_probe_candidates, fleet_interval, quarantine, alternatives, nearer,
  passing_alternative, or_empty,
}
use purewrt.Guard.Run.Due.{is_nil, is_nil-rolling_probe_candidates, any_due-quarantine}
use purewrt.Guard.Run.Budget.{
  Reserved, Reserved-step, Reserved-known, Reserved-if, try_alternatives-Reserved, recover-Reserved,
  check_active-Reserved,
}

module _ (lim : Limits) (now : ℕ) (download : ℕ → Text → Throughput × Option Text)
    (clock : now ≢ 0) where
  find_alternative-Reserved :
      (bad : Text) (r : Run)
      → Reserved lim now r
      → Reserved lim now (find_alternative lim now download bad r).1
  unfolding find_alternative probe_alternative
  find_alternative-Reserved bad r v =
      go (or_empty (passing_alternative r.state.nodes bad lim.min_down_kbps now r.state.groups))
    where
      probed_one : Text × Run
      probed_one = probe_alternative lim now download bad r

      go :
          (name : Text)
          → Reserved lim now
              (elim name as (λ _. Text × Run) [ [] ↦ probed_one | c ∷ name ↦ (c ∷ name, r) ]).1
      go [] =
          try_alternatives-Reserved lim now download clock
            (sort_by nearer (alternatives r.state.nodes bad r.state.groups [])) r v
      go (c ∷ name) = v

  finish_confirm-Reserved :
      (name : Text) (n : Node) (m : Text × Run)
      → Reserved lim now m.1
      → Reserved lim now (finish_confirm lim now download name n m)
  unfolding finish_confirm
  finish_confirm-Reserved name n ([], r) v = v
  finish_confirm-Reserved name n (c ∷ alternative, r) v =
      Reserved-step lim now r (with_nodes (update_node (quarantine lim now) name) noted) v refl refl
        (any_due-quarantine lim now name r)
    where
      noted : Run
      noted = record r {
        transitions =
            r.transitions ++ record { node = name; before = n.health; after = quarantined } ∷ [];
      }

  confirm_node-Reserved :
      (name : Text) (r : Run)
      → Reserved lim now r
      → Reserved lim now (confirm_node lim now download name r)
  unfolding confirm_node
  confirm_node-Reserved name r v =
      Reserved-known lim now download clock
        (λ n.
          if is_confirmable lim now download n
          then finish_confirm lim now download name n (find_alternative lim now download name r)
          else r)
        (get_node r.state.nodes name) r v
        (λ n.
          Reserved-if lim now download clock (is_confirmable lim now download n)
            (finish_confirm lim now download name n (find_alternative lim now download name r)) r
            (finish_confirm-Reserved name n (find_alternative lim now download name r)
              (find_alternative-Reserved name r v))
            v)

  confirm-Reserved :
      (names : List Text) (r : Run)
      → Reserved lim now r
      → Reserved lim now (confirm lim now download names r)
  unfolding confirm
  confirm-Reserved [] r v = v
  confirm-Reserved (name ∷ names) r v =
      confirm-Reserved names (confirm_node lim now download name r) (confirm_node-Reserved name r v)

  start_run-Reserved : (s : State) → Reserved lim now (start_run lim now download s)
  unfolding start_run
  start_run-Reserved s =
      go (rolling_probe_candidates now (fleet_interval lim) [] s.nodes)
        (is_nil-rolling_probe_candidates now (fleet_interval lim) [] s.nodes)
    where
      started : List Text → Run
      started names = record {
        state = s;
        probes = 0;
        probe_bytes = 0;
        probed = [];
        urgent_limit = elim names [ [] ↦ max_probes | _ ↦ max_probes - 1 ];
        transitions = [];
      }

      go :
          (names : List Text)
          → is_nil names ≡ not (any (is_candidate now (fleet_interval lim) []) s.nodes)
          → Reserved lim now (started names)
      go [] e = record {
        within = omega arith;
        most = omega arith;
        kept = λ d. ground (arith, d, e);
      }
      go (c ∷ cs) e = record { within = omega arith; most = omega arith; kept = λ d. omega arith }

  pub urgent_phase-Reserved :
      (active : List Text) (s : State) → Reserved lim now (urgent_phase lim now download active s)
  unfolding urgent_phase
  urgent_phase-Reserved active s =
      confirm-Reserved (sorted_node_names second_run.state.nodes) second_run (
        check_active-Reserved lim now download clock active first (
          recover-Reserved lim now download clock (sorted_node_names s.nodes)
            (start_run lim now download s) (start_run-Reserved s)))
    where
      first : Run
      first = recover lim now download (sorted_node_names s.nodes) (start_run lim now download s)

      second_run : Run
      second_run = check_active lim now download active first
