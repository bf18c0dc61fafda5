-- ===== src/Config/Ports/Canonical.antt =====
-- The normal form of ranges: ascending, with a gap between neighbours.
use purewrt.Prelude.{
  ℕ, ◌+◌, ◌≤◌, ◌<◌, ◌≡◌, refl, ap₂, true, List, [], ◌∷◌, arith, leb, All, Bool-cases, inl, inr, sym,
  ◌∙◌,
}
use purewrt.Prelude.Sort.{sort_by, Ordered, sort_by-Ordered, All-sort_by}
use purewrt.Config.Ports.{PortRange, first_less, widen, merge_from, merge, in_range, covers}
use purewrt.Config.Ports.Cover.{
  IsRange, SortedFrom, SortedFrom-widen, widen-IsRange, first_less_asym,
}

abbrev pub Apart : PortRange → List PortRange → Type 0
Apart r [] = Unit
Apart r (s ∷ _) = r.last + 1 < s.first

abbrev pub Canonical : List PortRange → Type 0
Canonical [] = Unit
Canonical (r ∷ rs) = IsRange r × Apart r rs × Canonical rs

-- The first range of the merged list begins where the first range read begins.
abbrev StartsAt : ℕ → List PortRange → Type 0
StartsAt n [] = ⊥
StartsAt n (r ∷ _) = r.first ≡ n

merge_from-StartsAt : (m : PortRange) (rs : List PortRange) → StartsAt m.first (merge_from m rs)
unfolding merge_from
merge_from-StartsAt m [] = refl
merge_from-StartsAt m (r ∷ rs) = ground (arith, merge_from-StartsAt (widen m r) rs)

Apart-StartsAt :
    (m : PortRange) (n : ℕ) (xs : List PortRange) → StartsAt n xs → m.last + 1 < n → Apart m xs
Apart-StartsAt m n [] s h = tt
Apart-StartsAt m n (x ∷ xs) s h = omega arith

merge_from-Canonical :
    (m : PortRange) (rs : List PortRange)
    → SortedFrom m rs
    → IsRange m
    → All IsRange rs
    → Canonical (merge_from m rs)
unfolding merge_from
merge_from-Canonical m [] o v vs = (v, tt, tt)
merge_from-Canonical m (r ∷ rs) o v vs = elim (Bool-cases (leb r.first (m.last + 1))) [
  | inl e ↦ rw e (
      merge_from-Canonical (widen m r) rs (SortedFrom-widen m r rs o) (widen-IsRange m r v vs.0)
        vs.1)
  | inr e ↦ rw e (
    v,
    Apart-StartsAt m r.first (merge_from r rs) (merge_from-StartsAt r rs) (ground arith),
    merge_from-Canonical r rs o.1 vs.0 vs.1,
  )
]

pub merge-sort_by-Canonical :
    (raw : List PortRange) → All IsRange raw → Canonical (merge (sort_by first_less raw))
merge-sort_by-Canonical raw vs =
    start (sort_by first_less raw) (sort_by-Ordered first_less first_less_asym raw)
      (All-sort_by first_less IsRange raw vs)
  where
    start : (rs : List PortRange) → Ordered first_less rs → All IsRange rs → Canonical (merge rs)
    start [] o vs = unfold merge in tt
    start (r ∷ rs) o vs = unfold merge in merge_from-Canonical r rs o vs.0 vs.1

-- What the ranges behind `r` cover lies above the gap.
covers_above :
    (p : ℕ) (r : PortRange) (rs : List PortRange)
    → Canonical (r ∷ rs)
    → covers rs p ≡ true
    → r.last + 1 < p
covers_above p r [] c h = cc
covers_above p r (s ∷ rs) c h = elim (Bool-cases (in_range p s)) [
  | inl e ↦ ground arith
  | inr e ↦ ground (arith, covers_above p s rs c.2)
]

covers_from :
    (p : ℕ) (r : PortRange) (rs : List PortRange)
    → Canonical (r ∷ rs)
    → covers (r ∷ rs) p ≡ true
    → r.first ≤ p
covers_from p r rs c h = ground (arith, covers_above p r rs c)

-- The same ports.
abbrev pub SamePorts : List PortRange → List PortRange → Type 0
SamePorts xs ys = (p : ℕ) → covers xs p ≡ covers ys p

first-le :
    (x y : PortRange) (xs ys : List PortRange)
    → Canonical (x ∷ xs)
    → Canonical (y ∷ ys)
    → SamePorts (x ∷ xs) (y ∷ ys)
    → y.first ≤ x.first
first-le x y xs ys cx cy same = covers_from x.first y ys cy (sym (same x.first) ∙ ground arith)

last-le :
    (x y : PortRange) (xs ys : List PortRange)
    → Canonical (x ∷ xs)
    → Canonical (y ∷ ys)
    → SamePorts (x ∷ xs) (y ∷ ys)
    → x.first ≡ y.first
    → y.last ≤ x.last
last-le x y xs ys cx cy same e =
    ground (arith, same (x.last + 1), covers_above (x.last + 1) x xs cx)

tail_same :
    (x y : PortRange) (xs ys : List PortRange)
    → Canonical (x ∷ xs)
    → Canonical (y ∷ ys)
    → SamePorts (x ∷ xs) (y ∷ ys)
    → x ≡ y
    → SamePorts xs ys
tail_same x y xs ys cx cy same e p =
    ground (arith, same p, covers_above p x xs cx, covers_above p y ys cy)

-- A canonical list is determined by its ports.
pub Canonical-unique :
    (xs ys : List PortRange) → Canonical xs → Canonical ys → SamePorts xs ys → xs ≡ ys
Canonical-unique [] [] cx cy same = refl
Canonical-unique [] (y ∷ ys) cx cy same = ground (arith, same y.first)
Canonical-unique (x ∷ xs) [] cx cy same = ground (arith, same x.first)
Canonical-unique (x ∷ xs) (y ∷ ys) cx cy same =
    ap₂ ◌∷◌ e (Canonical-unique xs ys cx.2 cy.2 (tail_same x y xs ys cx cy same e))
  where
    firsts : x.first ≡ y.first
    firsts =
        omega (arith, first-le x y xs ys cx cy same, first-le y x ys xs cy cx (λ p. sym (same p)))

    e : x ≡ y
    e = ground (
      arith,
      firsts,
      last-le x y xs ys cx cy same firsts,
      last-le y x ys xs cy cx (λ p. sym (same p)) (sym firsts),
    )
