-- ===== src/Guard/Speed.antt =====
-- What a measurement does to a node.
use purewrt.Prelude.{
  ℕ, ◌+◌, ◌*◌, not, ◌&&◌, ◌||◌, List, [], ◌∷◌, ◌++◌, ltb, ◌==◌, if◌then◌else◌, length,
}
use purewrt.Guard.{
  Node, healthy, suspect, no_trouble, unstable_latency, probe_failed, slow, Throughput, fast_enough,
  is_quarantined, second,
}
use purewrt.Guard.Latency.{latency_jitter, latency_unstable, last_five}

unfoldable pub apply_speed_result : ℕ → ℕ → ℕ → Throughput → Node → Node
apply_speed_result min_kbps max_jitter now result n =
    if not result.success || not (fast_enough min_kbps result.down)
    then record n {
      last_probe = now;
      last_down = result.down;
      bad_streak = n.bad_streak + 1;
      health = suspect;
      reason = if not result.success then probe_failed result.error else slow result.down min_kbps;
    }
    else if not (latency_unstable n.latencies_ms max_jitter)
    then record n {
      last_probe = now;
      last_down = result.down;
      bad_streak = 0;
      health = healthy;
      reason = no_trouble;
    }
    else record n { last_probe = now; last_down = result.down }

-- The last five samples, with the new one.
abbrev pub push_sample : List ℕ → ℕ → List ℕ
push_sample samples delay =
    let all = samples ++ delay ∷ [] in if ltb 5 (length all) then last_five all else all

-- The body of the loop of `updateGuardLatency`, with the delay of the node.
unfoldable pub apply_latency : ℕ → ℕ → ℕ → Node → Node
apply_latency max_jitter now delay n =
    let samples = push_sample n.latencies_ms delay in
    let m : Node = record n {
      last_delay_ms = delay;
      latencies_ms = samples;
      jitter_ms = latency_jitter samples;
    } in
    if is_quarantined n
    then m
    else if latency_unstable samples max_jitter
    then record m {
      bad_streak = n.bad_streak + 1;
      health = suspect;
      reason = unstable_latency (latency_jitter samples);
    }
    else if not (ltb (length samples) 5)
        && (n.last_probe == 0 || ltb (n.last_probe + 60 * second) now)
    then record m { bad_streak = 0; health = healthy; reason = no_trouble }
    else m
