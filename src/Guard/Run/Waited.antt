-- ===== src/Guard/Run/Waited.antt =====
-- The order of `rollingProbeCandidates`, by the times of the last probes.
use purewrt.Prelude.{
  ℕ, ◌≤◌, ◌≡◌, ◌∙◌, refl, sym, subst, Bool, true, false, List, [], ◌∷◌, ◌++◌, arith, map,
  if◌then◌else◌, append_assoc, Bool-cases, inl, inr, All,
}
use purewrt.Prelude.Sort.{sort_by, sort_by-Ordered, Ordered, All-sort_by, All-sort_by_back}
use purewrt.Text.{Text}
use purewrt.Guard.{Node, Nodes}
use purewrt.Guard.LastResort.Kept.{text_less_asym}
use purewrt.Guard.Choice.{is_candidate, older, candidates, rolling_probe_candidates}

older_asym : (x y : Text × Node) → older x y ≡ true → older y x ≡ false
older_asym (i, a) (j, b) h = ground (arith, text_less_asym i j)

older-last_probe : (x y : Text × Node) → older y x ≡ false → x.1.last_probe ≤ y.1.last_probe
older-last_probe (i, a) (j, b) h = ground arith

Ordered-last_probe :
    (w x : Text × Node) (ys : Nodes)
    → w.1.last_probe ≤ x.1.last_probe
    → Ordered older (x ∷ ys)
    → All (λ y. w.1.last_probe ≤ y.1.last_probe) (x ∷ ys)
Ordered-last_probe w x [] h o = (h, tt)
Ordered-last_probe w x (y ∷ ys) h o =
    (h, Ordered-last_probe w y ys (omega (arith, h, older-last_probe x y o.0)) o.1)

module _ (now interval : ℕ) (already : List Text) where
  -- An entry of `ns` that is due.
  abbrev IsDue : Nodes → Text × Node → Type 0
  IsDue ns e =
      (front : Nodes) × (back : Nodes) × (ns ≡ front ++ e ∷ back)
      × (is_candidate now interval already e ≡ true)

  -- A member called `name` is due, and no member that is due was probed before it; who was never
  -- probed counts as probed at time zero.
  abbrev pub WaitedLongest : Nodes → Text → Type 0
  WaitedLongest ns name =
      (n : Node) × IsDue ns (name, n)
      × All (λ e. is_candidate now interval already e ≡ true → n.last_probe ≤ e.1.last_probe) ns

  candidates-IsDue :
      (ms : Nodes) (front ns : Nodes)
      → ms ≡ front ++ ns
      → All (IsDue ms) (candidates now interval already ns)
  unfolding candidates
  candidates-IsDue ms front [] h = tt
  candidates-IsDue ms front (e ∷ ns) h =
      let next =
        candidates-IsDue ms (front ++ e ∷ []) ns (h ∙ sym (append_assoc front (e ∷ []) ns)) in
      elim (Bool-cases (is_candidate now interval already e)) [
        | inl t ↦ rw t ((front, ns, h, t), next)
        | inr t ↦ rw t next
      ]

  candidates-All_back :
      (P : Text × Node → Type 0) (ns : Nodes)
      → All P (candidates now interval already ns)
      → All (λ e. is_candidate now interval already e ≡ true → P e) ns
  unfolding candidates
  candidates-All_back P [] a = tt
  candidates-All_back P (e ∷ ns) a =
      go (is_candidate now interval already e) refl (candidates-All_back P ns) a
    where
      go :
          (b : Bool)
          → is_candidate now interval already e ≡ b
          → (All P (candidates now interval already ns)
              → All (λ e. is_candidate now interval already e ≡ true → P e) ns)
          → All P (
              if b
              then e ∷ candidates now interval already ns
              else candidates now interval already ns)
          → All (λ e. is_candidate now interval already e ≡ true → P e) (e ∷ ns)
      go true t step (p, rest) = ((λ _. p), step rest)
      go false t step rest = ((λ u. absurd (ground (arith, t, u))), step rest)

  pub rolling_probe_candidates-WaitedLongest :
      (ns : Nodes) (name : Text) (names : List Text)
      → rolling_probe_candidates now interval already ns ≡ name ∷ names
      → WaitedLongest ns name
  unfolding rolling_probe_candidates
  rolling_probe_candidates-WaitedLongest ns name names h =
      go (sort_by older (candidates now interval already ns)) refl h
        (All-sort_by older (IsDue ns) (candidates now interval already ns)
          (candidates-IsDue ns [] ns refl))
        (sort_by-Ordered older older_asym (candidates now interval already ns))
    where
      go :
          (sorted : Nodes)
          → sort_by older (candidates now interval already ns) ≡ sorted
          → map (λ entry. entry.0) sorted ≡ name ∷ names
          → All (IsDue ns) sorted
          → Ordered older sorted
          → WaitedLongest ns name
      go [] e h a o = cc
      go ((i, n) ∷ rest) e h a o =
          subst (WaitedLongest ns) first (n, a.0, candidates-All_back late ns all_late)
        where
          first : i ≡ name
          first = cc

          late : Text × Node → Type 0
          late e = n.last_probe ≤ e.1.last_probe

          all_late : All late (candidates now interval already ns)
          all_late =
              All-sort_by_back older late (candidates now interval already ns)
                (subst (All late) (sym e) (Ordered-last_probe (i, n) (i, n) rest (omega arith) o))
