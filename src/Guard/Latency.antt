-- ===== src/Guard/Latency.antt =====
-- The latency window of a node: jitter and instability.
pub mod Spread
use purewrt.Prelude.{
  ℕ, ◌+◌, ◌-◌, ◌*◌, ◌/◌, Bool, true, false, not, ◌&&◌, List, [], ◌∷◌, ltb, ◌==◌, if◌then◌else◌,
  length, drop, get_or,
}
use purewrt.Prelude.Sort.{sort_by}

-- The positive samples, and how many are not.
unfoldable pub good_samples : List ℕ → List ℕ
good_samples [] = []
good_samples (d ∷ ds) = let rest = good_samples ds in if d == 0 then rest else d ∷ rest

unfoldable pub failures : List ℕ → ℕ
failures [] = 0
failures (d ∷ ds) = (if d == 0 then 1 else 0) + failures ds

-- `samples[len(samples)-5:]`.
abbrev pub last_five : List ℕ → List ℕ
last_five samples = drop (length samples - 5) samples

-- `good[0]`, `good[len(good)-1]` and `good[len(good)/2]` of the sorted samples.
unfoldable pub spread : List ℕ → ℕ
spread good = get_or good (length good - 1) 0 - get_or good 0 0

unfoldable pub latency_jitter : List ℕ → ℕ
unfolding good_samples sort_by spread
latency_jitter samples =
    let good = good_samples samples in if ltb (length good) 2 then 0 else spread (sort_by ltb good)

unfoldable pub window_unstable : ℕ → List ℕ → Bool
unfolding spread
window_unstable max_jitter good =
    not (ltb (spread good) max_jitter)
    && not (ltb (get_or good (length good - 1) 0) (2 * get_or good (length good / 2) 0))

unfoldable pub latency_unstable : List ℕ → ℕ → Bool
unfolding good_samples failures sort_by window_unstable
latency_unstable samples max_jitter =
    let window = last_five samples in
    let good = good_samples window in
    if ltb (length samples) 5
    then false
    else if not (ltb (failures window) 2)
    then true
    else if ltb (length good) 3
    then false
    else window_unstable max_jitter (sort_by ltb good)
