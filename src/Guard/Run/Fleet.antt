-- ===== src/Guard/Run/Fleet.antt =====
-- Whom a run probes.
use purewrt.Prelude.{
  ℕ, ◌+◌, ◌≤◌, ◌≡◌, ◌≢◌, sym, ap, true, List, [], ◌∷◌, arith, Option, none, some, ltb, Bool-cases,
  inl, inr, subst,
}
use purewrt.Text.{Text, text_eq_refl}
use purewrt.Checker.Scope.{contains_string}
use purewrt.Guard.{State, Limits, Throughput}
use purewrt.Guard.Run.{Run, probe, measure, fill, urgent_phase, run_probes, guard_run}
use purewrt.Guard.Choice.{rolling_probe_candidates, fleet_interval}
use purewrt.Guard.Run.Due.{is_nil, is_nil-rolling_probe_candidates, any_due}
use purewrt.Guard.Run.Budget.{Reserved}
use purewrt.Guard.Run.Waited.{WaitedLongest, rolling_probe_candidates-WaitedLongest}
use purewrt.Guard.Run.Phases.{urgent_phase-Reserved}
use purewrt.Guard.Run.{add_error}

-- The last loop keeps within the budget, and whom it has probed stays probed.
module _ (lim : Limits) (now : ℕ) (download : ℕ → Text → Throughput × Option Text) where
  probe-within :
      (name : Text) (r : Run) → r.probes ≤ 3 → (probe lim now download name r).1.probes ≤ 3
  unfolding probe
  probe-within name r h = elim (Bool-cases (ltb r.probes 3)) [
    | inl t ↦ rw t (ground arith)
    | inr t ↦ rw t h
  ]

  fill-within :
      (names : List Text) (r : Run) → r.probes ≤ 3 → (fill lim now download names r).probes ≤ 3
  unfolding fill
  fill-within [] r h = h
  fill-within (name ∷ names) r h =
      go (probe lim now download name r) (probe-within name r h) (λ s. fill-within names s)
    where
      go :
          (m : Option Throughput × Run)
          → m.1.probes ≤ 3
          → ((s : Run) → s.probes ≤ 3 → (fill lim now download names s).probes ≤ 3)
          → (elim m.0 as (λ _. Run) [
            | none ↦ m.1
            | some t ↦ fill lim now download names (measure lim now download name t m.1)
          ]).probes
            ≤ 3
      go (none, r) h step = h
      go (some t, r) h step = step (measure lim now download name t r) h

  probe-probed :
      (x name : Text) (r : Run)
      → contains_string r.probed x ≡ true
      → contains_string (probe lim now download name r).1.probed x ≡ true
  unfolding probe contains_string
  probe-probed x name r h = elim (Bool-cases (ltb r.probes 3)) [
    | inl t ↦ rw t (ground (arith, h))
    | inr t ↦ rw t h
  ]

  fill-probed :
      (x : Text) (names : List Text) (r : Run)
      → contains_string r.probed x ≡ true
      → contains_string (fill lim now download names r).probed x ≡ true
  unfolding fill
  fill-probed x [] r h = h
  fill-probed x (name ∷ names) r h =
      go (probe lim now download name r) (probe-probed x name r h) (λ s. fill-probed x names s)
    where
      go :
          (m : Option Throughput × Run)
          → contains_string m.1.probed x ≡ true
          → ((s : Run)
              → contains_string s.probed x ≡ true
              → contains_string (fill lim now download names s).probed x ≡ true)
          → contains_string
              (elim m.0 as (λ _. Run) [
                | none ↦ m.1
                | some t ↦ fill lim now download names (measure lim now download name t m.1)
              ]).probed
              x
            ≡ true
      go (none, r) h step = h
      go (some t, r) h step = step (measure lim now download name t r) h

  -- What a probe leaves, where one is left.
  probe_made : Text → Run → Run
  probe_made name r = record r {
    probed = name ∷ r.probed;
    probes = r.probes + 1;
    probe_bytes = r.probe_bytes + (download r.probes name).0.bytes;
  }

  probe-some :
      (name : Text) (r : Run)
      → r.probes ≤ 2
      → probe lim now download name r ≡ (
        some (add_error (download r.probes name).0 (download r.probes name).1),
        probe_made name r,
      )
  unfolding probe probe_made
  probe-some name r h = rw made
    where
      made : ltb r.probes 3 ≡ true
      made = ground arith

  -- Where a probe is left, the first one of the list is probed.
  fill-first :
      (name : Text) (names : List Text) (r : Run)
      → r.probes ≤ 2
      → contains_string (fill lim now download (name ∷ names) r).probed name ≡ true
  unfolding fill probe_made
  fill-first name names r h =
      subst (λ m. contains_string (filled m).probed name ≡ true) (sym (probe-some name r h))
        (fill-probed name names
          (measure lim now download name
            (add_error (download r.probes name).0 (download r.probes name).1) (probe_made name r))
          listed)
    where
      filled : Option Throughput × Run → Run
      filled m = elim m.0 [
        | none ↦ m.1
        | some t ↦ fill lim now download names (measure lim now download name t m.1)
      ]

      listed : contains_string (name ∷ r.probed) name ≡ true
      listed = unfold contains_string in ground (arith, text_eq_refl name)

-- A run makes at most three probes, whatever the network answers.
pub guard_run-within :
    (lim : Limits) (now : ℕ) (download : ℕ → Text → Throughput × Option Text) (active : List Text)
    (s : State)
    → now ≢ 0
    → (guard_run lim now download active s).probes ≤ 3
unfolding guard_run run_probes
guard_run-within lim now download active s clock =
    fill-within lim now download
      (rolling_probe_candidates now (fleet_interval lim) r.probed r.state.nodes) r
      (omega (arith, v.within, v.most))
  where
    r : Run
    r = urgent_phase lim now download active s

    v : Reserved lim now r
    v = urgent_phase-Reserved lim now download clock active s

-- Recovery, active members and suspects never use up a run: if members of the fleet are still due
-- when these loops are done, whatever the network answered, then the run probes the first candidate,
-- and that is the one that has waited longest: no member that is due was probed before it, where who
-- was never probed counts as probed at time zero.
pub guard_run-fleet :
    (lim : Limits) (now : ℕ) (download : ℕ → Text → Throughput × Option Text) (active : List Text)
    (s : State) (name : Text) (names : List Text)
    → now ≢ 0
    → rolling_probe_candidates now
        (fleet_interval lim)
        (urgent_phase lim now download active s).probed
        (urgent_phase lim now download active s).state.nodes
      ≡ name ∷ names
    → (contains_string (guard_run lim now download active s).probed name ≡ true)
      × WaitedLongest now
          (fleet_interval lim)
          (urgent_phase lim now download active s).probed
          (urgent_phase lim now download active s).state.nodes
          name
unfolding guard_run run_probes
guard_run-fleet lim now download active s name names clock due = (
  rw due (fill-first lim now download name names r (omega (arith, v.within, v.kept still_due))),
  rolling_probe_candidates-WaitedLongest now (fleet_interval lim) r.probed r.state.nodes name names
      due,
)
  where
    r : Run
    r = urgent_phase lim now download active s

    v : Reserved lim now r
    v = urgent_phase-Reserved lim now download clock active s

    still_due : any_due lim now r ≡ true
    still_due = ground (
      arith,
      ap is_nil due,
      is_nil-rolling_probe_candidates now (fleet_interval lim) r.probed r.state.nodes,
    )
