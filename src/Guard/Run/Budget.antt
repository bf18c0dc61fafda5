-- ===== src/Guard/Run/Budget.antt =====
-- The budget of probes of a run, and the slot of the fleet in it.
use purewrt.Prelude.{
  ℕ, ◌≤◌, ◌<◌, ◌≡◌, ◌≢◌, ◌∙◌, refl, Bool, true, false, not, ◌&&◌, ◌||◌, List, [], ◌∷◌, ◌++◌, arith,
  Option, none, some, ltb, if◌then◌else◌, Bool-cases, inl, inr,
}
use purewrt.Text.{Text}
use purewrt.Guard.{
  quarantined, healthy, Node, Nodes, Limits, Throughput, is_quarantined, update_node, get_node,
}
use purewrt.Guard.Speed.{apply_speed_result}
use purewrt.Guard.Run.{
  Run, leaves_quarantine, with_nodes, fleet_done, release, probe, urgent_probe, finish_recovery,
  recover, check_active, skips_active, measure, passes, try_alternatives,
}
use purewrt.Guard.Choice.{rolling_probe_candidates, fleet_interval, recovered}
use purewrt.Guard.Run.Due.{
  is_nil, is_nil-rolling_probe_candidates, any_due, any_due-measured, any_due-probed,
}

-- While a member of the fleet is due, the urgent loops may use all probes but one.
pub record Reserved (lim : Limits) (now : ℕ) (r : Run) : Type 0 where
  pub within : r.probes ≤ r.urgent_limit
  pub most : r.urgent_limit ≤ 3
  pub kept : any_due lim now r ≡ true → r.urgent_limit ≤ 2

-- What a step leaves of it: the counters, and no member that was not due before.
pub Reserved-step :
    (lim : Limits) (now : ℕ) (r s : Run)
    → Reserved lim now r
    → s.probes ≡ r.probes
    → s.urgent_limit ≡ r.urgent_limit
    → (any_due lim now s ≡ true → any_due lim now r ≡ true)
    → Reserved lim now s
Reserved-step lim now r s v p u d = record {
  within = omega (arith, v.within, p, u);
  most = omega (arith, v.most, u);
  kept = λ h. omega (arith, v.kept (d h), u);
}

apply_speed_result-last_probe :
    (min_kbps max_jitter now : ℕ) (t : Throughput) (n : Node)
    → (apply_speed_result min_kbps max_jitter now t n).last_probe ≡ now
unfolding apply_speed_result
apply_speed_result-last_probe min_kbps max_jitter now t n = ground arith

recovered-last_probe :
    (lim : Limits) (now : ℕ) (t : Throughput) (n : Node) → (recovered lim now t n).last_probe ≡ now
unfolding recovered
recovered-last_probe lim now t n = ground arith

module _ (lim : Limits) (now : ℕ) (download : ℕ → Text → Throughput × Option Text)
    (clock : now ≢ 0) where
  fleet_done-due : (r : Run) → fleet_done lim now download r ≡ not (any_due lim now r)
  fleet_done-due r =
      go (rolling_probe_candidates now (fleet_interval lim) r.probed r.state.nodes)
      ∙ is_nil-rolling_probe_candidates now (fleet_interval lim) r.probed r.state.nodes
    where
      go : (names : List Text) → (elim names [ [] ↦ true | _ ↦ false ]) ≡ is_nil names
      go [] = refl
      go (x ∷ xs) = refl

  release-Reserved : (r : Run) → Reserved lim now r → Reserved lim now (release lim now download r)
  unfolding release
  release-Reserved r v = elim (Bool-cases (ltb r.urgent_limit 3 && fleet_done lim now download r)) [
    | inl t ↦ rw t (record {
      within = omega (arith, v.within, v.most);
      most = omega arith;
      kept = λ h. ground (arith, h, t, fleet_done-due r);
    })
    | inr t ↦ rw t v
  ]

  probe-Reserved :
      (name : Text) (r : Run)
      → Reserved lim now r
      → r.probes < r.urgent_limit
      → Reserved lim now (probe lim now download name r).1
  unfolding probe
  probe-Reserved name r v h = elim (Bool-cases (ltb r.probes 3)) [
    | inl t ↦ rw t (record {
      within = omega (arith, h);
      most = v.most;
      kept = λ d. v.kept (any_due-probed lim now name r d);
    })
    | inr t ↦ rw t v
  ]

  pub urgent_probe-Reserved :
      (name : Text) (r : Run)
      → Reserved lim now r
      → Reserved lim now (urgent_probe lim now download name r).1
  unfolding urgent_probe
  urgent_probe-Reserved name r v = go (release lim now download r) (release-Reserved r v)
    where
      go :
          (s : Run)
          → Reserved lim now s
          → Reserved lim now
              (if not (ltb s.probes s.urgent_limit)
                then (none, s)
                else probe lim now download name s).1
      go s w = elim (Bool-cases (ltb s.probes s.urgent_limit)) [
        | inl t ↦ rw t (probe-Reserved name s w (ground arith))
        | inr t ↦ rw t w
      ]

  measured-Reserved :
      (f : Node → Node) (name : Text) (r : Run)
      → ((n : Node) → (f n).last_probe ≡ now)
      → Reserved lim now r
      → Reserved lim now (with_nodes (update_node f name) r)
  measured-Reserved f name r stamped v =
      Reserved-step lim now r (with_nodes (update_node f name) r) v refl refl
        (any_due-measured lim now f name r clock stamped)

  measure-Reserved :
      (name : Text) (t : Throughput) (r : Run)
      → Reserved lim now r
      → Reserved lim now (measure lim now download name t r)
  measure-Reserved name t r =
      measured-Reserved (apply_speed_result lim.min_down_kbps lim.max_jitter_ms now t) name r
        (apply_speed_result-last_probe lim.min_down_kbps lim.max_jitter_ms now t)

  finish_recovery-Reserved :
      (name : Text) (n : Node) (m : Option Throughput × Run)
      → Reserved lim now m.1
      → Reserved lim now (finish_recovery lim now download name n m)
  unfolding finish_recovery
  finish_recovery-Reserved name n (none, r) v = v
  finish_recovery-Reserved name n (some t, r) v =
      measured-Reserved (recovered lim now t) name
        (noted (leaves_quarantine lim now download (recovered lim now t n)))
        (recovered-last_probe lim now t)
        (go (leaves_quarantine lim now download (recovered lim now t n)))
    where
      noted : Bool → Run
      noted b =
          if b
          then record r {
            transitions =
                r.transitions ++ record { node = name; before = quarantined; after = healthy } ∷ [];
          }
          else r

      go : (b : Bool) → Reserved lim now (noted b)
      go true = Reserved-step lim now r (noted true) v refl refl (λ d. d)
      go false = v

  -- The conditional, the unknown node and the missing probe, as the loops split on them.
  pub Reserved-if :
      (b : Bool) (r s : Run)
      → Reserved lim now r
      → Reserved lim now s
      → Reserved lim now (if b then r else s)
  Reserved-if true r s v w = v
  Reserved-if false r s v w = w

  pub Reserved-known :
      (f : Node → Run) (o : Option Node) (r : Run)
      → Reserved lim now r
      → ((n : Node) → Reserved lim now (f n))
      → Reserved lim now (elim o [ none ↦ r | some n ↦ f n ])
  Reserved-known f none r v w = v
  Reserved-known f (some n) r v w = w n

  Reserved-probed :
      (f : Throughput → Run → Run) (m : Option Throughput × Run)
      → Reserved lim now m.1
      → ((t : Throughput) (s : Run) → Reserved lim now s → Reserved lim now (f t s))
      → Reserved lim now (elim m.0 [ none ↦ m.1 | some t ↦ f t m.1 ])
  Reserved-probed f (none, r) v w = v
  Reserved-probed f (some t, r) v w = w t r v

  pub recover-Reserved :
      (names : List Text) (r : Run)
      → Reserved lim now r
      → Reserved lim now (recover lim now download names r)
  unfolding recover
  recover-Reserved [] r v = v
  recover-Reserved (name ∷ names) r v =
      Reserved-known
        (λ n.
          if not (is_quarantined n) || ltb now n.retry_after
          then recover lim now download names r
          else finish_recovery lim now download name n (urgent_probe lim now download name r))
        (get_node r.state.nodes name) (recover lim now download names r)
        (recover-Reserved names r v)
        (λ n.
          Reserved-if (not (is_quarantined n) || ltb now n.retry_after)
            (recover lim now download names r)
            (finish_recovery lim now download name n (urgent_probe lim now download name r))
            (recover-Reserved names r v)
            (finish_recovery-Reserved name n (urgent_probe lim now download name r)
              (urgent_probe-Reserved name r v)))

  -- The rest of a round of the active loop that probes.
  active_probe : List Text → Text → Run → Run
  active_probe names name r = elim (urgent_probe lim now download name r).0 [
    | none ↦ (urgent_probe lim now download name r).1
    | some t ↦
        check_active lim now download names
          (measure lim now download name t (urgent_probe lim now download name r).1)
  ]

  pub check_active-Reserved :
      (names : List Text) (r : Run)
      → Reserved lim now r
      → Reserved lim now (check_active lim now download names r)
  unfolding check_active active_probe
  check_active-Reserved [] r v = v
  check_active-Reserved (name ∷ names) r v =
      Reserved-known
        (λ n.
          if skips_active lim now download r name n
          then check_active lim now download names r
          else active_probe names name r)
        (get_node r.state.nodes name) (check_active lim now download names r)
        (check_active-Reserved names r v)
        (λ n.
          Reserved-if (skips_active lim now download r name n)
            (check_active lim now download names r) (active_probe names name r)
            (check_active-Reserved names r v)
            (Reserved-probed
              (λ t s. check_active lim now download names (measure lim now download name t s))
              (urgent_probe lim now download name r) (urgent_probe-Reserved name r v)
              (λ t s w.
                check_active-Reserved names (measure lim now download name t s)
                  (measure-Reserved name t s w))))

  -- The same for the loop over alternatives, which also returns a name.
  Reserved-pair_if :
      (b : Bool) (x y : Text × Run)
      → Reserved lim now x.1
      → Reserved lim now y.1
      → Reserved lim now (if b then x else y).1
  Reserved-pair_if true x y v w = v
  Reserved-pair_if false x y v w = w

  Reserved-pair_probed :
      (f : Throughput → Run → Text × Run) (m : Option Throughput × Run)
      → Reserved lim now m.1
      → ((t : Throughput) (s : Run) → Reserved lim now s → Reserved lim now (f t s).1)
      → Reserved lim now (elim m.0 as (λ _. Text × Run) [ none ↦ ([], m.1) | some t ↦ f t m.1 ]).1
  Reserved-pair_probed f (none, r) v w = v
  Reserved-pair_probed f (some t, r) v w = w t r v

  pub try_alternatives-Reserved :
      (ns : Nodes) (r : Run)
      → Reserved lim now r
      → Reserved lim now (try_alternatives lim now download ns r).1
  unfolding try_alternatives
  try_alternatives-Reserved [] r v = v
  try_alternatives-Reserved ((name, n) ∷ ns) r v =
      Reserved-pair_probed
        (λ t s.
          if passes lim now download t
          then (n.name, measure lim now download name t s)
          else try_alternatives lim now download ns (measure lim now download name t s))
        (urgent_probe lim now download n.name r) (urgent_probe-Reserved n.name r v)
        (λ t s w.
          Reserved-pair_if (passes lim now download t) (n.name, measure lim now download name t s)
            (try_alternatives lim now download ns (measure lim now download name t s))
            (measure-Reserved name t s w)
            (try_alternatives-Reserved ns (measure lim now download name t s)
              (measure-Reserved name t s w)))
