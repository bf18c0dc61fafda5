-- ===== src/Guard/LastResort/Kept.antt =====
-- Which members a group keeps, and how many.
use mathlib.Core.List.{Perm}
use purewrt.Prelude.{
  ℕ, zero, suc, ◌+◌, ◌-◌, ◌≤◌, ◌≡◌, ◌∙◌, refl, sym, ap, subst, min, max, true, false, List, [], ◌∷◌,
  ◌++◌, arith, ◌==◌, if◌then◌else◌, length, take, drop, take-append-drop, length-take, length-map,
  take-min, map, All, All-implies,
}
use purewrt.Prelude.Sort.{sort_by, sort_by-Ordered, perm-sort_by, Ordered-take, length-sort_by}
use purewrt.Text.{Text}
use purewrt.Checker.Trace.{text_less}
use purewrt.Guard.{Node, Nodes, Group}
use purewrt.Guard.LastResort.{
  better_by, guard_speed_tier, guard_latency_rank, guard_node_better, resort_less,
  quarantined_members, available_members, needed_members, recompute_group,
}

-- Every member is either available or quarantined.
members-split :
    (ns : Nodes) (members : List Text)
    → available_members ns members + length (quarantined_members ns members) ≡ length members
unfolding available_members quarantined_members
members-split ns [] = refl
members-split ns (name ∷ names) = ground (arith, members-split ns names)

pub text_less_asym : (s t : Text) → text_less s t ≡ true → text_less t s ≡ false
unfolding text_less
text_less_asym [] [] h = cc
text_less_asym [] (b ∷ t) h = refl
text_less_asym (a ∷ s) [] h = cc
text_less_asym (a ∷ s) (b ∷ t) h = ground (arith, text_less_asym s t)

text_less_through :
    (r s t : Text) → text_less s r ≡ false → text_less t s ≡ false → text_less t r ≡ false
unfolding text_less
text_less_through [] s [] h k = refl
text_less_through [] [] (c ∷ t) h k = refl
text_less_through [] (b ∷ s) (c ∷ t) h k = refl
text_less_through (a ∷ r) [] t h k = cc
text_less_through (a ∷ r) (b ∷ s) [] h k = cc
text_less_through (a ∷ r) (b ∷ s) (c ∷ t) h k = ground (arith, text_less_through r s t)

better_by_asym :
    (at aj ad ak bt bj bd bk : ℕ)
    → better_by at (aj, ad) ak bt (bj, bd) bk ≡ true
    → better_by bt (bj, bd) bk at (aj, ad) ak ≡ false
better_by_asym at aj ad ak bt bj bd bk h = ground arith

better_by_through :
    (at aj ad ak bt bj bd bk ct cj cd ck : ℕ)
    → better_by bt (bj, bd) bk at (aj, ad) ak ≡ false
    → better_by ct (cj, cd) ck bt (bj, bd) bk ≡ false
    → better_by ct (cj, cd) ck at (aj, ad) ak ≡ false
better_by_through at aj ad ak bt bj bd bk ct cj cd ck h k = ground arith

guard_node_better_asym : (a b : Node) → guard_node_better a b ≡ true → guard_node_better b a ≡ false
unfolding guard_node_better
guard_node_better_asym a b h =
    better_by_asym (guard_speed_tier a.last_down) (guard_latency_rank a).0 (guard_latency_rank a).1
      a.last_down (guard_speed_tier b.last_down) (guard_latency_rank b).0 (guard_latency_rank b).1
      b.last_down h

guard_node_better_through :
    (a b c : Node)
    → guard_node_better b a ≡ false
    → guard_node_better c b ≡ false
    → guard_node_better c a ≡ false
unfolding guard_node_better
guard_node_better_through a b c h k =
    better_by_through (guard_speed_tier a.last_down) (guard_latency_rank a).0
      (guard_latency_rank a).1 a.last_down (guard_speed_tier b.last_down) (guard_latency_rank b).0
      (guard_latency_rank b).1 b.last_down (guard_speed_tier c.last_down) (guard_latency_rank c).0
      (guard_latency_rank c).1 c.last_down h k

resort_less_asym : (x y : Text × Node) → resort_less x y ≡ true → resort_less y x ≡ false
unfolding resort_less
resort_less_asym (i, a) (j, b) h =
    ground (arith, guard_node_better_asym a b, guard_node_better_asym b a, text_less_asym i j)

resort_less_through :
    (x y z : Text × Node)
    → resort_less y x ≡ false
    → resort_less z y ≡ false
    → resort_less z x ≡ false
unfolding resort_less
resort_less_through (i, a) (j, b) (k, c) h l = ground (
  arith,
  guard_node_better_through a b c,
  guard_node_better_through c b a,
  guard_node_better_through b a c,
  guard_node_better_through b c a,
  guard_node_better_through a c b,
  guard_node_better_through c a b,
  text_less_through i j k,
)

-- `x` is at least as good as `z`: the higher speed tier, in the same tier the lower jitter, with the
-- same jitter the lower delay, and with the same delay the higher speed, or all of them the same. A
-- node with no delay or two failures counts as the worst in jitter and delay.
abbrev pub NoWorse : Text × Node → Text × Node → Type 0
NoWorse (i, a) (j, b) =
    (guard_speed_tier b.last_down ≤ guard_speed_tier a.last_down)
    × (guard_speed_tier a.last_down ≡ guard_speed_tier b.last_down
        → ((guard_latency_rank a).0 ≤ (guard_latency_rank b).0)
          × ((guard_latency_rank a).0 ≡ (guard_latency_rank b).0
              → ((guard_latency_rank a).1 ≤ (guard_latency_rank b).1)
                × ((guard_latency_rank a).1 ≡ (guard_latency_rank b).1
                    → b.last_down ≤ a.last_down)))

better_by-NoWorse :
    (at aj ad ak bt bj bd bk : ℕ)
    → better_by bt (bj, bd) bk at (aj, ad) ak ≡ false
    → (bt ≤ at) × (at ≡ bt → (aj ≤ bj) × (aj ≡ bj → (ad ≤ bd) × (ad ≡ bd → bk ≤ ak)))
better_by-NoWorse at aj ad ak bt bj bd bk h = grind (arith, h)

resort_less-NoWorse : (x z : Text × Node) → resort_less z x ≡ false → NoWorse x z
unfolding resort_less guard_node_better
resort_less-NoWorse (i, a) (j, b) h =
    better_by-NoWorse (guard_speed_tier a.last_down) (guard_latency_rank a).0
      (guard_latency_rank a).1 a.last_down (guard_speed_tier b.last_down) (guard_latency_rank b).0
      (guard_latency_rank b).1 b.last_down (ground (arith, h))

abbrev key : Text × Node → Text
key entry = entry.0

kept-eq :
    (needed : ℕ) (resorts : List (Text × Node))
    → (if needed == 0 then [] else map key (take (min needed (length resorts)) resorts))
      ≡ map key (take needed resorts)
kept-eq zero resorts = refl
kept-eq (suc n) resorts = rw some_needed (ap (λ xs. map key xs) (take-min (suc n) resorts))
  where
    some_needed : (suc n == 0) ≡ false
    some_needed = ground arith

-- For a group with some members, and at least `m` wanted: as many quarantined members are kept as
-- are missing for the smaller of `m` and the number of members, none when enough are available, and
-- those kept are the best ones: the quarantined members are those kept and the others, no other one
-- comes before a kept one by speed tier, jitter, delay, speed and name, and a kept one is no worse in
-- these: the higher tier, then the lower jitter, then the lower delay, then the higher speed.
pub recompute_group-best :
    (m : ℕ) (ns : Nodes) (g : Group)
    → (available_members ns g.members + length (recompute_group m ns g).last_resorts
        ≡ max (available_members ns g.members) (min m (length g.members)))
      × ((kept : List (Text × Node)) × (dropped : List (Text × Node)) × ((recompute_group m ns
              g).last_resorts
            ≡ map (λ entry. entry.0) kept)
          × Perm (kept ++ dropped) (quarantined_members ns g.members)
          × All (λ x. All (λ z. resort_less z x ≡ false) dropped) kept
          × All (λ x. All (NoWorse x) dropped) kept)
unfolding recompute_group
recompute_group-best m ns g = (
  ap (λ names. available_members ns g.members + length names) (kept-eq needed resorts)
      ∙ omega (
        arith,
        length-map (take needed resorts) key,
        length-take needed resorts,
        length-sort_by resort_less (quarantined_members ns g.members),
        members-split ns g.members,
        needed_eq,
      ),
  (
    take needed resorts,
    drop needed resorts,
    kept-eq needed resorts,
    subst (λ xs. Perm xs (quarantined_members ns g.members)) (sym (take-append-drop needed resorts))
        (perm-sort_by resort_less (quarantined_members ns g.members)),
    best,
    All-implies (λ x. All (λ z. resort_less z x ≡ false) (drop needed resorts))
        (λ x. All (NoWorse x) (drop needed resorts))
        (λ x.
          All-implies (λ z. resort_less z x ≡ false) (NoWorse x) (resort_less-NoWorse x)
            (drop needed resorts))
        (take needed resorts) best,
  ),
)
  where
    needed : ℕ
    needed = needed_members m ns g.members

    resorts : List (Text × Node)
    resorts = sort_by resort_less (quarantined_members ns g.members)

    needed_eq : needed ≡ min m (length g.members) - available_members ns g.members
    needed_eq = unfold needed_members in refl

    best : All (λ x. All (λ z. resort_less z x ≡ false) (drop needed resorts)) (take needed resorts)
    best =
        Ordered-take resort_less resort_less_through needed resorts
          (sort_by-Ordered resort_less resort_less_asym (quarantined_members ns g.members))
