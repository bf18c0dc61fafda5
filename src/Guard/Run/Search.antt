-- ===== src/Guard/Run/Search.antt =====
-- The search for a member that can take over from a suspect.
use purewrt.Prelude.{
  ℕ, ◌≡◌, ◌≢◌, ◌∙◌, refl, sym, subst, true, false, not, ◌&&◌, [], ◌∷◌, arith, Option, none, some,
  if◌then◌else◌, Bool-cases, inl, inr, All,
}
use purewrt.Prelude.Sort.{sort_by, All-sort_by}
use purewrt.Text.{Text, text_eq}
use purewrt.Guard.{
  Node, Nodes, State, Limits, Throughput, is_quarantined, fast_enough, update_node, get_node,
}
use purewrt.Guard.Speed.{apply_speed_result}
use purewrt.Guard.Run.{
  Run, with_nodes, release, probe, urgent_probe, measure, passes, try_alternatives,
  probe_alternative, find_alternative,
}
use purewrt.Guard.Choice.{
  is_passing, quarantine, alternatives, nearer, passing_alternative, or_empty,
}
use purewrt.Guard.Run.Alternative.{
  node_at, node_at-update_node, node_at-update_self, node_at-update_other, shares,
  passing_alternative-some, alternatives-All,
}

pub apply_speed_result-quarantined :
    (min_kbps max_jitter now : ℕ) (t : Throughput) (n : Node)
    → is_quarantined (apply_speed_result min_kbps max_jitter now t n) ≡ true
    → is_quarantined n ≡ true
unfolding apply_speed_result
apply_speed_result-quarantined min_kbps max_jitter now t n h = ground (arith, h)

apply_speed_result-passing :
    (min_kbps max_jitter now : ℕ) (t : Throughput) (bad key : Text) (n : Node)
    → now ≢ 0
    → text_eq key bad ≡ false
    → (t.success && fast_enough min_kbps t.down) ≡ true
    → is_quarantined n ≡ false
    → is_passing bad min_kbps now key (apply_speed_result min_kbps max_jitter now t n) ≡ true
unfolding apply_speed_result
apply_speed_result-passing min_kbps max_jitter now t bad key n clock other pass free = ground arith

-- Another member of a group of `bad`, free, with a probe within the last hour and a rate that was fast
-- enough; that the transfer succeeded is not asked.
abbrev pub HasAlternative : Limits → ℕ → Text → State → Type 0
HasAlternative lim now bad s =
    (key : Text) × (shares bad key s.groups ≡ true)
    × (node_at (is_passing bad lim.min_down_kbps now key) s.nodes key ≡ true)

-- A node that can be tried for `bad`.
abbrev Free : Text → State → Text × Node → Type 0
Free bad s (key, n) =
    (text_eq key bad ≡ false)
    × (shares bad key s.groups ≡ true)
    × (node_at (λ m. not (is_quarantined m)) s.nodes key ≡ true)

module _ (lim : Limits) (now : ℕ) (download : ℕ → Text → Throughput × Option Text) where
  pub urgent_probe-state :
      (name : Text) (r : Run) → (urgent_probe lim now download name r).1.state ≡ r.state
  unfolding urgent_probe probe release
  urgent_probe-state name r = ground arith

module _ (lim : Limits) (now : ℕ) (download : ℕ → Text → Throughput × Option Text)
    (clock : now ≢ 0) where
  Free-measure :
      (bad : Text) (name : Text) (t : Throughput) (r : Run) (ns : Nodes)
      → All (Free bad r.state) ns
      → All (Free bad (measure lim now download name t r).state) ns
  Free-measure bad name t r [] a = tt
  Free-measure bad name t r ((key, n) ∷ ns) (a, rest) = (
    (
      a.0,
      a.1,
      node_at-update_node (λ m. not (is_quarantined m)) (λ m. not (is_quarantined m))
          (apply_speed_result lim.min_down_kbps lim.max_jitter_ms now t) name
          (λ m h.
            ground (
              arith,
              h,
              apply_speed_result-quarantined lim.min_down_kbps lim.max_jitter_ms now t m,
            ))
          (λ m h. h) r.state.nodes key a.2,
    ),
    Free-measure bad name t r ns rest,
  )

  measure-HasAlternative :
      (bad key : Text) (t : Throughput) (r : Run) (n : Node)
      → passes lim now download t ≡ true
      → Free bad r.state (key, n)
      → HasAlternative lim now bad (measure lim now download key t r).state
  measure-HasAlternative bad key t r n pass free = (
    key,
    free.1,
    node_at-update_self (λ m. not (is_quarantined m)) (is_passing bad lim.min_down_kbps now key)
        (apply_speed_result lim.min_down_kbps lim.max_jitter_ms now t) key
        (λ m h.
          apply_speed_result-passing lim.min_down_kbps lim.max_jitter_ms now t bad key m clock
            free.0 pass (ground (arith, h)))
        r.state.nodes free.2,
  )

  -- What a search for an alternative returns: none, or one behind which there is an alternative.
  abbrev pub Found : Text → Text × Run → Type 0
  Found bad ([], r) = Unit {0}
  Found bad (c ∷ name, r) = HasAlternative lim now bad r.state

  Found-passed :
      (bad name : Text) (r : Run) → HasAlternative lim now bad r.state → Found bad (name, r)
  Found-passed bad [] r h = tt
  Found-passed bad (c ∷ name) r h = h

  try_alternatives-Found :
      (bad : Text) (ns : Nodes) (r : Run)
      → All (Free bad r.state) ns
      → Found bad (try_alternatives lim now download ns r)
  unfolding try_alternatives
  try_alternatives-Found bad [] r a = tt
  try_alternatives-Found bad ((name, n) ∷ ns) r (a, rest) =
      go (urgent_probe lim now download n.name r) (urgent_probe-state lim now download n.name r)
        (λ s b. try_alternatives-Found bad ns s b)
    where
      go :
          (m : Option Throughput × Run)
          → m.1.state ≡ r.state
          → ((s : Run)
              → All (Free bad s.state) ns
              → Found bad (try_alternatives lim now download ns s))
          → Found bad (elim m.0 as (λ _. Text × Run) [
            | none ↦ ([], m.1)
            | some t ↦
                if passes lim now download t
                then (n.name, measure lim now download name t m.1)
                else try_alternatives lim now download ns (measure lim now download name t m.1)
          ])
      go (none, s) same step = tt
      go (some t, s) same step = elim (Bool-cases (passes lim now download t)) [
        | inl e ↦ rw e (
            Found-passed bad n.name (measure lim now download name t s) (
              measure-HasAlternative bad name t s n e
                (subst (λ u. Free bad u (name, n)) (sym same) a)))
        | inr e ↦ rw e (
            step (measure lim now download name t s)
              (Free-measure bad name t s ns (subst (λ u. All (Free bad u) ns) (sym same) rest)))
      ]

  pub find_alternative-Found :
      (bad : Text) (r : Run) → Found bad (find_alternative lim now download bad r)
  unfolding find_alternative probe_alternative
  find_alternative-Found bad r =
      go (passing_alternative r.state.nodes bad lim.min_down_kbps now r.state.groups) refl
    where
      all_free : All (Free bad r.state) (alternatives r.state.nodes bad r.state.groups [])
      all_free =
          alternatives-All (Free bad r.state) r.state.nodes bad r.state.groups []
            (λ key n c found e. (ground (arith, e), c, rw (node_at, found) (ground (arith, e)))) tt

      probed_one : Text × Run
      probed_one = probe_alternative lim now download bad r

      probed_found : Found bad probed_one
      probed_found =
          try_alternatives-Found bad
            (sort_by nearer (alternatives r.state.nodes bad r.state.groups [])) r
            (All-sort_by nearer (Free bad r.state)
              (alternatives r.state.nodes bad r.state.groups []) all_free)

      go :
          (o : Option Text)
          → passing_alternative r.state.nodes bad lim.min_down_kbps now r.state.groups ≡ o
          → Found bad (elim (or_empty o) as (λ _. Text × Run) [
            | [] ↦ probed_one
            | c ∷ name ↦ (c ∷ name, r)
          ])
      go none e = probed_found
      go (some []) e = probed_found
      go (some (c ∷ name)) e =
          let (shared, passing) =
            passing_alternative-some r.state.nodes bad lim.min_down_kbps now r.state.groups
              (c ∷ name) e in
          (c ∷ name, shared, passing)

  pub quarantine-HasAlternative :
      (bad : Text) (r : Run)
      → HasAlternative lim now bad r.state
      → HasAlternative lim now bad (with_nodes (update_node (quarantine lim now) bad) r).state
  quarantine-HasAlternative bad r (key, shared, passing) = (
    key,
    shared,
    node_at-update_other (is_passing bad lim.min_down_kbps now key) (quarantine lim now) bad key
          (other (get_node r.state.nodes key) passing) r.state.nodes
        ∙ passing,
  )
    where
      other :
          (o : Option Node)
          → (elim o [ none ↦ false | some n ↦ is_passing bad lim.min_down_kbps now key n ]) ≡ true
          → text_eq key bad ≡ false
      other none h = cc
      other (some n) h = ground (arith, h)
