-- ===== src/Guard/Choice.antt =====
-- internal/manager/proxy_guard.go: whom a run probes, and what a recovery or a quarantine writes.
use purewrt.Prelude.{
  ℕ, ◌+◌, ◌*◌, Bool, true, false, not, ◌&&◌, ◌||◌, List, [], ◌∷◌, ◌++◌, Option, none, some, any,
  ltb, ◌==◌, if◌then◌else◌, map,
}
use purewrt.Prelude.Sort.{sort_by}
use purewrt.Text.{Text, text_eq}
use purewrt.Checker.Trace.{text_less}
use purewrt.Checker.Scope.{contains_string}
use purewrt.Guard.{
  Node, Nodes, Group, Limits, Throughput, healthy, quarantined, no_trouble, second, is_quarantined,
  fast_enough, get_node,
}
use purewrt.Guard.Latency.{latency_unstable}

-- Never probed, or longer ago than the interval.
abbrev pub probe_due : ℕ → ℕ → Node → Bool
probe_due now interval n = n.last_probe == 0 || not (ltb now (n.last_probe + interval))

abbrev pub is_candidate : ℕ → ℕ → List Text → Text × Node → Bool
is_candidate now interval already (name, n) =
    not (is_quarantined n) && not (contains_string already name) && probe_due now interval n

abbrev pub older : Text × Node → Text × Node → Bool
older (i, a) (j, b) =
    if (a.last_probe == 0) && not (b.last_probe == 0)
    then true
    else if not (a.last_probe == 0) && (b.last_probe == 0)
    then false
    else if not (a.last_probe == b.last_probe)
    then ltb a.last_probe b.last_probe
    else text_less i j

unfoldable pub candidates : ℕ → ℕ → List Text → Nodes → Nodes
candidates now interval already [] = []
candidates now interval already (entry ∷ ns) =
    let rest = candidates now interval already ns in
    if is_candidate now interval already entry then entry ∷ rest else rest

unfoldable pub rolling_probe_candidates : ℕ → ℕ → List Text → Nodes → List Text
unfolding candidates sort_by
rolling_probe_candidates now interval already ns =
    map (λ entry. entry.0) (sort_by older (candidates now interval already ns))

-- Another member than `bad`, free, with a probe within the last hour and a rate that was fast enough.
abbrev pub is_passing : Text → ℕ → ℕ → Text → Node → Bool
is_passing bad min_kbps now name n =
    not (text_eq name bad)
    && not (is_quarantined n)
    && not (n.last_probe == 0)
    && not (ltb (n.last_probe + 3600 * second) now)
    && fast_enough min_kbps n.last_down

unfoldable pub passing_member : Nodes → Text → ℕ → ℕ → List Text → Option Text
passing_member ns bad min_kbps now [] = none
passing_member ns bad min_kbps now (name ∷ names) =
    let rest = passing_member ns bad min_kbps now names in
    elim (get_node ns name) [
      | none ↦ rest
      | some n ↦ if is_passing bad min_kbps now name n then some name else rest
    ]

unfoldable pub passing_alternative : Nodes → Text → ℕ → ℕ → List Group → Option Text
unfolding passing_member
passing_alternative ns bad min_kbps now [] = none
passing_alternative ns bad min_kbps now (g ∷ gs) =
    let rest = passing_alternative ns bad min_kbps now gs in
    if contains_string g.members bad
    then elim (passing_member ns bad min_kbps now g.members) [ some name ↦ some name | none ↦ rest ]
    else rest

-- The candidates of `probeAlternative`; `seen` holds the keys of those that were found.
abbrev pub is_alternative : Text → Text → Node → Bool
is_alternative bad name n = not (text_eq name bad) && not (is_quarantined n)

unfoldable pub alternative_members : Nodes → Text → List Text → Nodes → Nodes
alternative_members ns bad [] found = found
alternative_members ns bad (name ∷ names) found =
    alternative_members ns bad names (elim (get_node ns name) [
      | none ↦ found
      | some n ↦
          if is_alternative bad name n && not (any (λ entry. text_eq entry.0 name) found)
          then found ++ (name, n) ∷ []
          else found
    ])

unfoldable pub alternatives : Nodes → Text → List Group → Nodes → Nodes
unfolding alternative_members
alternatives ns bad [] found = found
alternatives ns bad (g ∷ gs) found =
    alternatives ns bad gs
      (if contains_string g.members bad then alternative_members ns bad g.members found else found)

abbrev pub delay_or_far : Node → ℕ
delay_or_far n = if n.last_delay_ms == 0 then 1073741824 else n.last_delay_ms

abbrev pub nearer : Text × Node → Text × Node → Bool
nearer (i, a) (j, b) = ltb (delay_or_far a) (delay_or_far b)

-- The text that stands for no alternative is the empty one.
abbrev pub or_empty : Option Text → Text
or_empty none = []
or_empty (some name) = name

abbrev pub quarantine_until : Limits → ℕ → ℕ
quarantine_until lim now = now + lim.quarantine_seconds * second

unfoldable pub fleet_interval : Limits → ℕ
fleet_interval lim =
    let interval = lim.fleet_probe_interval * second in
    if ltb interval (5 * 60 * second) then 6 * 3600 * second else interval

unfoldable pub active_interval : Limits → ℕ
active_interval lim =
    let interval = lim.active_probe_interval * second in
    if ltb interval (60 * second) then 30 * 60 * second else interval

-- What a clean or a failed recovery probe makes of a node.
unfoldable pub recovered : Limits → ℕ → Throughput → Node → Node
recovered lim now result n =
    if result.success
      && fast_enough lim.min_down_kbps result.down
      && not (latency_unstable n.latencies_ms lim.max_jitter_ms)
    then if not (ltb (n.recovery_streak + 1) 2)
      then record n {
        last_probe = now;
        last_down = result.down;
        health = healthy;
        reason = no_trouble;
        bad_streak = 0;
        recovery_streak = 0;
        retry_after = 0;
      }
      else record n {
        last_probe = now;
        last_down = result.down;
        recovery_streak = n.recovery_streak + 1;
        retry_after = quarantine_until lim now;
      }
    else record n {
      last_probe = now;
      last_down = result.down;
      recovery_streak = 0;
      retry_after = quarantine_until lim now;
    }

unfoldable pub quarantine : Limits → ℕ → Node → Node
quarantine lim now n = record n {
  health = quarantined;
  quarantined_at = now;
  retry_after = quarantine_until lim now;
  recovery_streak = 0;
}

abbrev pub add_error : Throughput → Option Text → Throughput
add_error result none = result
add_error result (some message) = elim result.error [
  | [] ↦ record result { error = message }
  | _ ↦ result
]
