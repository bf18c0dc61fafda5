-- ===== src/Guard/Run/Carried.antt =====
-- The transfers that the search for an alternative makes itself.
use purewrt.Prelude.{
  ℕ, ◌+◌, ◌≤◌, ◌<◌, ◌≡◌, ◌⊎◌, refl, subst, true, false, not, ltb, [], ◌∷◌, arith, Option, none,
  some, if◌then◌else◌, Bool-cases, inl, inr, All,
}
use purewrt.Prelude.Sort.{sort_by, All-sort_by}
use purewrt.Text.{Text, text_eq}
use purewrt.Guard.{Node, Nodes, Limits, Throughput, is_quarantined, fast_enough, get_node}
use purewrt.Guard.Run.{
  Run, max_probes, release, probe, urgent_probe, measure, passes, try_alternatives,
  probe_alternative, find_alternative,
}
use purewrt.Guard.Choice.{alternatives, nearer, passing_alternative, or_empty, add_error}
use purewrt.Guard.Run.Alternative.{shares, passing_alternative-some, alternatives-All}
use purewrt.Guard.Run.Search.{HasAlternative}

add_error-success :
    (t : Throughput) (failure : Option Text) → (add_error t failure).success ≡ t.success
add_error-success t failure = ground arith

add_error-down : (t : Throughput) (failure : Option Text) → (add_error t failure).down ≡ t.down
add_error-down t failure = ground arith

-- A node that can be tried for `bad` in the run `r`.
abbrev Known : Text → Run → Text × Node → Type 0
Known bad r (key, n) =
    (get_node r.state.nodes key ≡ some n)
    × (shares bad key r.state.groups ≡ true)
    × (text_eq key bad ≡ false)
    × (is_quarantined n ≡ false)

module _ (lim : Limits) (now : ℕ) (download : ℕ → Text → Throughput × Option Text) where
  -- Between the runs `r` and `s` a transfer through another free member of a group of `bad` was made,
  -- succeeded and was fast enough.
  pub record Carried (bad : Text) (r s : Run) : Type 0 where
    pub key : Text
    pub member : Node
    pub number : ℕ
    pub known : get_node r.state.nodes key ≡ some member
    pub shared : shares bad key r.state.groups ≡ true
    pub other : text_eq key bad ≡ false
    pub free : is_quarantined member ≡ false
    pub made : (r.probes ≤ number) × (number < s.probes)
    pub success : (download number member.name).0.success ≡ true
    pub fast : fast_enough lim.min_down_kbps (download number member.name).0.down ≡ true

  Carried-probes :
      (bad : Text) (r s u : Run) → s.probes ≡ u.probes → Carried bad r s → Carried bad r u
  Carried-probes bad r s u e k = record {
    key = k.key;
    member = k.member;
    number = k.number;
    known = k.known;
    shared = k.shared;
    other = k.other;
    free = k.free;
    made = (k.made.0, omega (arith, k.made.1, e));
    success = k.success;
    fast = k.fast;
  }

  -- What a probe gives is the transfer of its number, up to the error text.
  abbrev pub Measured : Text → Run → Option Throughput × Run → Type 0
  Measured name r (none, s) = Unit {0}
  Measured name r (some t, s) =
      (t.success ≡ (download r.probes name).0.success)
      × (t.down ≡ (download r.probes name).0.down)
      × (s.probes ≡ r.probes + 1)

  probe-Measured : (name : Text) (r : Run) → Measured name r (probe lim now download name r)
  unfolding probe
  probe-Measured name r = elim (Bool-cases (not (ltb r.probes max_probes))) [
    | inl t ↦ rw t tt
    | inr t ↦ rw t (
      add_error-success (download r.probes name).0 (download r.probes name).1,
      add_error-down (download r.probes name).0 (download r.probes name).1,
      refl,
    )
  ]

  release-probes : (r : Run) → (release lim now download r).probes ≡ r.probes
  unfolding release
  release-probes r = ground arith

  pub urgent_probe-Measured :
      (name : Text) (r : Run) → Measured name r (urgent_probe lim now download name r)
  unfolding urgent_probe
  urgent_probe-Measured name r =
      elim (Bool-cases
        (not (ltb (release lim now download r).probes (release lim now download r).urgent_limit))) [
          | inl t ↦ rw t tt
          | inr t ↦ rw t (
              same (release lim now download r).probes (release-probes r)
                (probe lim now download name (release lim now download r))
                (probe-Measured name (release lim now download r)))
        ]
    where
      same :
          (i : ℕ)
          → i ≡ r.probes
          → (m : Option Throughput × Run) → Measured name (record r { probes = i }) m
          → Measured name r m
      same i e (none, s) k = tt
      same i e (some t, s) k = subst (λ j. Measured name (record r { probes = j }) (some t, s)) e k

  -- What a search that began at `r` returns: none, or one through which it made a transfer.
  abbrev Tried : Text → Run → Text × Run → Type 0
  Tried bad r ([], s) = Unit {0}
  Tried bad r (c ∷ name, s) = Carried bad r s

  try_alternatives-Tried :
      (bad : Text) (r : Run) (ns : Nodes) (s : Run)
      → r.probes ≤ s.probes
      → All (Known bad r) ns
      → Tried bad r (try_alternatives lim now download ns s)
  unfolding try_alternatives
  try_alternatives-Tried bad r [] s h a = tt
  try_alternatives-Tried bad r ((name, n) ∷ ns) s h (a, rest) =
      go (urgent_probe lim now download n.name s) (urgent_probe-Measured n.name s)
        (λ u k. try_alternatives-Tried bad r ns u k rest)
    where
      carried :
          (t : Throughput) (u : Run)
          → Measured n.name s (some t, u)
          → passes lim now download t ≡ true
          → Carried bad r u
      carried t u m p = record {
        key = name;
        member = n;
        number = s.probes;
        known = a.0;
        shared = a.1;
        other = a.2;
        free = a.3;
        made = (h, omega (arith, m.2));
        success = ground (arith, m.0, p);
        fast = ground (arith, m.1, p);
      }

      named : (found : Text) (u : Run) → Carried bad r u → Tried bad r (found, u)
      named [] u k = tt
      named (c ∷ found) u k = k

      go :
          (m : Option Throughput × Run)
          → Measured n.name s m
          → ((u : Run) → r.probes ≤ u.probes → Tried bad r (try_alternatives lim now download ns u))
          → Tried bad r (elim m.0 as (λ _. Text × Run) [
            | none ↦ ([], m.1)
            | some t ↦
                if passes lim now download t
                then (n.name, measure lim now download name t m.1)
                else try_alternatives lim now download ns (measure lim now download name t m.1)
          ])
      go (none, u) m step = tt
      go (some t, u) m step = elim (Bool-cases (passes lim now download t)) [
        | inl p ↦ rw p (
            named n.name (measure lim now download name t u)
              (carried t (measure lim now download name t u) m p))
        | inr p ↦ rw p (step (measure lim now download name t u) (omega (arith, h, m.2)))
      ]

  -- Why a search takes a member: it was known to be fast when the search began, or the search made a
  -- transfer through it.
  abbrev pub Grounds : Text → Run → Run → Type 0
  Grounds bad r s = HasAlternative lim now bad r.state ⊎ Carried bad r s

  pub Grounds-probes :
      (bad : Text) (r s u : Run) → s.probes ≡ u.probes → Grounds bad r s → Grounds bad r u
  Grounds-probes bad r s u e (inl k) = inl k
  Grounds-probes bad r s u e (inr k) = inr (Carried-probes bad r s u e k)

  -- What a search for an alternative returns: none, or one with grounds.
  abbrev pub Answered : Text → Run → Text × Run → Type 0
  Answered bad r ([], s) = Unit {0}
  Answered bad r (c ∷ name, s) = Grounds bad r s

  pub find_alternative-Answered :
      (bad : Text) (r : Run) → Answered bad r (find_alternative lim now download bad r)
  unfolding find_alternative probe_alternative
  find_alternative-Answered bad r =
      go (passing_alternative r.state.nodes bad lim.min_down_kbps now r.state.groups) refl
    where
      all_known : All (Known bad r) (alternatives r.state.nodes bad r.state.groups [])
      all_known =
          alternatives-All (Known bad r) r.state.nodes bad r.state.groups []
            (λ key n c found e. (found, c, ground (arith, e), ground (arith, e))) tt

      probed_one : Text × Run
      probed_one = probe_alternative lim now download bad r

      tried : Tried bad r probed_one
      tried =
          try_alternatives-Tried bad r
            (sort_by nearer (alternatives r.state.nodes bad r.state.groups [])) r (omega arith)
            (All-sort_by nearer (Known bad r) (alternatives r.state.nodes bad r.state.groups [])
              all_known)

      answered : (m : Text × Run) → Tried bad r m → Answered bad r m
      answered ([], s) k = tt
      answered (c ∷ name, s) k = inr k

      go :
          (o : Option Text)
          → passing_alternative r.state.nodes bad lim.min_down_kbps now r.state.groups ≡ o
          → Answered bad r (elim (or_empty o) as (λ _. Text × Run) [
            | [] ↦ probed_one
            | c ∷ name ↦ (c ∷ name, r)
          ])
      go none e = answered probed_one tried
      go (some []) e = answered probed_one tried
      go (some (c ∷ name)) e =
          let (shared, passing) =
            passing_alternative-some r.state.nodes bad lim.min_down_kbps now r.state.groups
              (c ∷ name) e in
          inl (c ∷ name, shared, passing)
