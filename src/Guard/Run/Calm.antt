-- ===== src/Guard/Run/Calm.antt =====
-- What the search for an alternative leaves of the members' quarantine.
use purewrt.Prelude.{
  ℕ, ◌≡◌, subst, true, [], ◌∷◌, Option, none, some, if◌then◌else◌, Bool-cases, inl, inr,
}
use purewrt.Prelude.Sort.{sort_by}
use purewrt.Text.{Text}
use purewrt.Guard.{Nodes, Limits, Throughput, is_quarantined}
use purewrt.Guard.Speed.{apply_speed_result}
use purewrt.Guard.Run.{
  Run, urgent_probe, measure, passes, try_alternatives, probe_alternative, find_alternative,
}
use purewrt.Guard.Choice.{alternatives, nearer, passing_alternative, or_empty}
use purewrt.Guard.Run.Alternative.{node_at, node_at-update_back}
use purewrt.Guard.Run.Search.{apply_speed_result-quarantined, urgent_probe-state}

-- Whoever is quarantined in `s` was in `r`.
unfoldable pub Calm : (r s : Run) → Type 0
Calm r s =
    (key : Text)
    → node_at is_quarantined s.state.nodes key ≡ true
    → node_at is_quarantined r.state.nodes key ≡ true

module _ (lim : Limits) (now : ℕ) (download : ℕ → Text → Throughput × Option Text) where
  try_alternatives-Calm : (ns : Nodes) (r : Run) → Calm r (try_alternatives lim now download ns r).1
  unfolding try_alternatives Calm
  try_alternatives-Calm [] r = λ key e. e
  try_alternatives-Calm ((name, n) ∷ ns) r =
      go (urgent_probe lim now download n.name r) (urgent_probe-state lim now download n.name r)
        (λ s. try_alternatives-Calm ns s)
    where
      measured_calm :
          (t : Throughput) (s : Run)
          → s.state ≡ r.state
          → Calm r (measure lim now download name t s)
      measured_calm t s same key e =
          subst (λ u. node_at is_quarantined u.nodes key ≡ true) same
            (node_at-update_back is_quarantined
              (apply_speed_result lim.min_down_kbps lim.max_jitter_ms now t) name
              (apply_speed_result-quarantined lim.min_down_kbps lim.max_jitter_ms now t)
              s.state.nodes key e)

      go :
          (m : Option Throughput × Run)
          → m.1.state ≡ r.state
          → ((s : Run) → Calm s (try_alternatives lim now download ns s).1)
          → Calm r
              (elim m.0 as (λ _. Text × Run) [
                | none ↦ ([], m.1)
                | some t ↦
                    if passes lim now download t
                    then (n.name, measure lim now download name t m.1)
                    else try_alternatives lim now download ns (measure lim now download name t m.1)
              ]).1
      go (none, s) same step =
          λ key e. subst (λ u. node_at is_quarantined u.nodes key ≡ true) same e
      go (some t, s) same step = elim (Bool-cases (passes lim now download t)) [
        | inl p ↦ rw p (measured_calm t s same)
        | inr p ↦
            rw p
              (λ key e. measured_calm t s same key (step (measure lim now download name t s) key e))
      ]

  pub find_alternative-Calm :
      (bad : Text) (r : Run) → Calm r (find_alternative lim now download bad r).1
  unfolding find_alternative probe_alternative Calm
  find_alternative-Calm bad r =
      go (or_empty (passing_alternative r.state.nodes bad lim.min_down_kbps now r.state.groups))
    where
      probed_one : Text × Run
      probed_one = probe_alternative lim now download bad r

      go :
          (name : Text)
          → Calm r (elim name as (λ _. Text × Run) [ [] ↦ probed_one | c ∷ name ↦ (c ∷ name, r) ]).1
      go [] =
          try_alternatives-Calm (sort_by nearer (alternatives r.state.nodes bad r.state.groups []))
            r
      go (c ∷ name) = λ key e. e
