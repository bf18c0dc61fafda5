-- ===== src/Guard/LastResort.antt =====
-- The quarantined members that a group keeps for want of others: `recomputeLastResorts`.
pub mod Kept
use purewrt.Prelude.{
  ℕ, ◌+◌, ◌-◌, ◌*◌, ◌/◌, ◌^◌, min, Bool, true, false, not, ◌&&◌, ◌||◌, List, [], ◌∷◌, Option, none,
  some, ltb, ◌==◌, if◌then◌else◌, length, take, map,
}
use purewrt.Prelude.Sort.{sort_by}
use purewrt.Text.{Text}
use purewrt.Checker.Trace.{text_less}
use purewrt.Guard.{Node, Nodes, Group, State, get_node, is_quarantined}
use purewrt.Guard.Latency.{failures, last_five}

-- `int64((kbps + 500) / 1000)`.
unfoldable pub guard_speed_tier : ℕ → ℕ
guard_speed_tier down = if down == 0 then 0 else (down + 500 * 1000) / (1000 * 1000)

-- The largest int.
abbrev pub worst : ℕ
worst = 2 ^ 63 - 1

abbrev pub rank_window : List ℕ → List ℕ
rank_window samples = if ltb 5 (length samples) then last_five samples else samples

unfoldable pub guard_latency_rank : Node → ℕ × ℕ
guard_latency_rank n =
    if n.last_delay_ms == 0
    then (worst, worst)
    else if not (ltb (failures (rank_window n.latencies_ms)) 2)
    then (worst, worst)
    else (n.jitter_ms, n.last_delay_ms)

-- The comparison behind the nil tests, on tier, jitter, delay and throughput.
abbrev pub better_by : ℕ → ℕ × ℕ → ℕ → ℕ → ℕ × ℕ → ℕ → Bool
better_by at (aj, ad) ak bt (bj, bd) bk =
    if not (at == bt)
    then ltb bt at
    else if not (aj == bj)
    then ltb aj bj
    else if not (ad == bd)
    then ltb ad bd
    else if not (ak == bk)
    then ltb bk ak
    else false

unfoldable pub guard_node_better : Node → Node → Bool
guard_node_better a b =
    better_by (guard_speed_tier a.last_down) (guard_latency_rank a) a.last_down
      (guard_speed_tier b.last_down) (guard_latency_rank b) b.last_down

unfoldable pub resort_less : Text × Node → Text × Node → Bool
resort_less (i, a) (j, b) =
    if guard_node_better a b then true else if guard_node_better b a then false else text_less i j

-- The quarantined members, and the number of the others.
unfoldable pub quarantined_members : Nodes → List Text → List (Text × Node)
quarantined_members ns [] = []
quarantined_members ns (name ∷ names) =
    let rest = quarantined_members ns names in
    elim (get_node ns name) [
      | none ↦ rest
      | some n ↦ if is_quarantined n then (name, n) ∷ rest else rest
    ]

unfoldable pub available_members : Nodes → List Text → ℕ
available_members ns [] = 0
available_members ns (name ∷ names) =
    let rest = available_members ns names in
    elim (get_node ns name) [
      | none ↦ rest + 1
      | some n ↦ if is_quarantined n then rest else rest + 1
    ]

-- `floor - available`, which is not positive where enough members are left.
unfoldable pub needed_members : ℕ → Nodes → List Text → ℕ
needed_members min_members ns members =
    min min_members (length members) - available_members ns members

unfoldable pub recompute_group : ℕ → Nodes → Group → Group
recompute_group min_members ns g =
    let needed = needed_members min_members ns g.members in
    let resorts = sort_by resort_less (quarantined_members ns g.members) in
    record g {
      last_resorts =
          if needed == 0
          then []
          else map (λ entry. entry.0) (take (min needed (length resorts)) resorts);
    }

abbrev pub effective_min : ℕ → ℕ
effective_min min_members = if ltb min_members 1 then 3 else min_members

unfoldable pub recompute_last_resorts : ℕ → State → State
recompute_last_resorts min_members s = record s {
  groups = map (recompute_group (effective_min min_members) s.nodes) s.groups;
}
