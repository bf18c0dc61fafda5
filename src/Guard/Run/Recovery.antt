-- ===== src/Guard/Run/Recovery.antt =====
-- The loop of `ProxyGuardRun` that checks a quarantined member: `recover`.
use purewrt.Prelude.{
  ℕ, ◌≡◌, ◌∙◌, refl, sym, ap, subst, Bool, true, false, not, ◌&&◌, ◌||◌, List, [], ◌∷◌, arith,
  Option, none, some, ltb, ◌==◌, if◌then◌else◌, Bool-cases, inl, inr,
}
use purewrt.Text.{Text, text_eq, text_eq_sound}
use purewrt.Guard.{
  Node, Nodes, Limits, Throughput, is_quarantined, fast_enough, update_node, get_node,
}
use purewrt.Guard.Latency.{latency_unstable}
use purewrt.Guard.Run.{Run, urgent_probe, finish_recovery, leaves_quarantine, recover}
use purewrt.Guard.Choice.{recovered}
use purewrt.Guard.Run.Alternative.{node_at, node_at-update_other}
use purewrt.Guard.Run.Search.{urgent_probe-state}
use purewrt.Guard.Run.Carried.{Measured, urgent_probe-Measured}

-- Quarantined, its time has come, and one clean probe stands.
abbrev pub may_recover : ℕ → Node → Bool
may_recover now n = is_quarantined n && not (ltb now n.retry_after) && not (n.recovery_streak == 0)

-- A transfer that succeeds and is fast enough, through a node of stable latency.
abbrev pub is_clean : Limits → Throughput → Node → Bool
is_clean lim t n =
    t.success
    && fast_enough lim.min_down_kbps t.down
    && not (latency_unstable n.latencies_ms lim.max_jitter_ms)

recovered-leaves :
    (lim : Limits) (now : ℕ) (t : Throughput) (n : Node)
    → is_quarantined n ≡ true
    → is_quarantined (recovered lim now t n) ≡ false
    → ((n.recovery_streak == 0) ≡ false) × (is_clean lim t n ≡ true)
unfolding recovered
recovered-leaves lim now t n q f = ground arith

-- Due for its check, with one clean check behind it and clean by the transfer `t`.
abbrev pub recovers_by : Limits → ℕ → Throughput → Nodes → Text → Bool
recovers_by lim now t ns key = node_at (λ n. may_recover now n && is_clean lim t n) ns key

recovers_by-same :
    (lim : Limits) (now : ℕ) (t d : Throughput) (ns : Nodes) (key : Text)
    → t.success ≡ d.success
    → t.down ≡ d.down
    → recovers_by lim now t ns key ≡ true
    → recovers_by lim now d ns key ≡ true
recovers_by-same lim now t d ns key a b h =
    subst (λ s. recovers_by lim now (record d { success = s }) ns key ≡ true) a
      (subst (λ k. recovers_by lim now (record t { down = k }) ns key ≡ true) b h)

node_at-update_here :
    (p : Node → Bool) (f : Node → Node) (name : Text) (ns : Nodes)
    → node_at p (update_node f name ns) name ≡ node_at (λ n. p (f n)) ns name
node_at-update_here p f name [] = refl
node_at-update_here p f name ((i, n) ∷ ns) = ground (arith, node_at-update_here p f name ns)

recovered-at :
    (lim : Limits) (now : ℕ) (t : Throughput) (name key : Text) (n : Node) (ns : Nodes)
    → get_node ns name ≡ some n
    → (not (is_quarantined n) || ltb now n.retry_after) ≡ false
    → node_at is_quarantined ns key ≡ true
    → node_at is_quarantined (update_node (recovered lim now t) name ns) key ≡ false
    → (key ≡ name) × (recovers_by lim now t ns key ≡ true)
recovered-at lim now t name key n ns known due q f = elim (Bool-cases (text_eq key name)) [
  | inl e ↦ (
    text_eq_sound key name e,
    subst (λ k. recovers_by lim now t ns k ≡ true) (sym (text_eq_sound key name e))
        (here (
          sym (node_at-update_here is_quarantined (recovered lim now t) name ns)
          ∙ subst
              (λ k. node_at is_quarantined (update_node (recovered lim now t) name ns) k ≡ false)
              (text_eq_sound key name e) f)),
  )
  | inr e ↦ absurd (
      ground (arith, q, f, node_at-update_other is_quarantined (recovered lim now t) name key e ns))
]
  where
    here :
        node_at (λ m. is_quarantined (recovered lim now t m)) ns name ≡ false
        → recovers_by lim now t ns name ≡ true
    here g =
        rw (node_at, known)
          (ground (arith, due, recovered-leaves lim now t n (ground (arith, due)) left))
      where
        left : is_quarantined (recovered lim now t n) ≡ false
        left = sym (rw (node_at, known) refl) ∙ g

module _ (lim : Limits) (now : ℕ) (download : ℕ → Text → Throughput × Option Text) where
  -- What left quarantine in a step recovered in it.
  Leaves : Text → Run → Run → Type 0
  Leaves key r s =
      node_at is_quarantined s.state.nodes key ≡ false
      → recovers_by lim now (download r.probes key).0 r.state.nodes key ≡ true

  finish_recovery-Leaves :
      (name key : Text) (n : Node) (r : Run) (m : Option Throughput × Run)
      → node_at is_quarantined r.state.nodes key ≡ true
      → m.1.state ≡ r.state
      → get_node r.state.nodes name ≡ some n
      → (not (is_quarantined n) || ltb now n.retry_after) ≡ false
      → Measured lim now download name r m
      → Leaves key r (finish_recovery lim now download name n m)
  unfolding finish_recovery Leaves
  finish_recovery-Leaves name key n r (none, s) q same known due measured =
      λ f. absurd (ground (arith, q, ap (λ u. node_at is_quarantined u.nodes key) same, f))
  finish_recovery-Leaves name key n r (some t, s) q same known due measured =
      elim (Bool-cases (leaves_quarantine lim now download (recovered lim now t n))) [
        | inl b ↦ rw b (λ f. here (moved f))
        | inr b ↦ rw b (λ f. here (moved f))
      ]
    where
      here :
          node_at is_quarantined (update_node (recovered lim now t) name r.state.nodes) key ≡ false
          → recovers_by lim now (download r.probes key).0 r.state.nodes key ≡ true
      here f =
          let (itself, clean) = recovered-at lim now t name key n r.state.nodes known due q f in
          recovers_by-same lim now t (download r.probes key).0 r.state.nodes key
            (measured.0 ∙ ap (λ k. (download r.probes k).0.success) (sym itself))
            (measured.1 ∙ ap (λ k. (download r.probes k).0.down) (sym itself)) clean

      moved :
          node_at is_quarantined (update_node (recovered lim now t) name s.state.nodes) key ≡ false
          → node_at is_quarantined (update_node (recovered lim now t) name r.state.nodes) key
            ≡ false
      moved f =
          subst
            (λ u.
              node_at is_quarantined (update_node (recovered lim now t) name u.nodes) key ≡ false)
            same f

-- A quarantined member that is free again behind the recovering loop was due for its check, one clean
-- check stood already, and the loop's own check of it, the next probe of the run, was clean: the
-- transfer succeeded and was fast enough, and the latency was stable.
pub recover-leaves :
    (lim : Limits) (now : ℕ) (download : ℕ → Text → Throughput × Option Text) (names : List Text)
    (r : Run) (key : Text)
    → node_at is_quarantined r.state.nodes key ≡ true
    → node_at is_quarantined (recover lim now download names r).state.nodes key ≡ false
    → recovers_by lim now (download r.probes key).0 r.state.nodes key ≡ true
unfolding recover Leaves
recover-leaves lim now download [] r key q f = absurd (ground (arith, q, f))
recover-leaves lim now download (name ∷ names) r key q f =
    go (get_node r.state.nodes name) refl (recover-leaves lim now download names r key q) f
  where
    go :
        (o : Option Node)
        → get_node r.state.nodes name ≡ o
        → Leaves lim now download key r (recover lim now download names r)
        → Leaves lim now download key r (elim o as (λ _. Run) [
          | none ↦ recover lim now download names r
          | some n ↦
              if not (is_quarantined n) || ltb now n.retry_after
              then recover lim now download names r
              else finish_recovery lim now download name n (urgent_probe lim now download name r)
        ])
    go none known step = step
    go (some n) known step = elim (Bool-cases (not (is_quarantined n) || ltb now n.retry_after)) [
      | inl t ↦ rw t step
      | inr t ↦ rw t (
          finish_recovery-Leaves lim now download name key n r
            (urgent_probe lim now download name r) q (urgent_probe-state lim now download name r)
            known t (urgent_probe-Measured lim now download name r))
    ]
