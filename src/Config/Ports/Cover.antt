-- ===== src/Config/Ports/Cover.antt =====
-- The set of ports of ranges, through sorting and merging.
use purewrt.Prelude.{ℕ, ◌+◌, ◌≤◌, ◌≡◌, ◌∙◌, refl, true, false, ◌||◌, List, [], ◌∷◌, arith, leb, All}
use purewrt.Prelude.Sort.{sort_by, any-sort_by, Ordered, sort_by-Ordered, All-sort_by}
use purewrt.Config.Ports.{PortRange, first_less, widen, merge_from, merge, in_range, covers}

-- A range that `parsePortRanges` accepts.
pub record IsRange (r : PortRange) : Type 0 where
  pub from_one : 1 ≤ r.first
  pub ascending : r.first ≤ r.last
  pub to_max : r.last ≤ 65535

pub first_less_asym : (a b : PortRange) → first_less a b ≡ true → first_less b a ≡ false
first_less_asym a b h = ground arith

abbrev pub SortedFrom : PortRange → List PortRange → Type 0
SortedFrom m rs = Ordered first_less (m ∷ rs)

pub SortedFrom-widen :
    (m r : PortRange) (rs : List PortRange) → SortedFrom m (r ∷ rs) → SortedFrom (widen m r) rs
SortedFrom-widen m r [] o = tt
SortedFrom-widen m r (s ∷ rs) o = (ground arith, o.1.1)

pub widen-IsRange : (m r : PortRange) → IsRange m → IsRange r → IsRange (widen m r)
widen-IsRange m r v w = ground arith

in_range-widen :
    (p : ℕ) (m r : PortRange)
    → first_less r m ≡ false
    → leb r.first (m.last + 1) ≡ true
    → IsRange m
    → IsRange r
    → in_range p (widen m r) ≡ (in_range p m || in_range p r)
in_range-widen p m r h k v w = ground arith

covers-merge_from :
    (p : ℕ) (m : PortRange) (rs : List PortRange)
    → SortedFrom m rs
    → IsRange m
    → All IsRange rs
    → covers (merge_from m rs) p ≡ (in_range p m || covers rs p)
unfolding merge_from
covers-merge_from p m [] o v vs = refl
covers-merge_from p m (r ∷ rs) o v vs = ground (
  arith,
  covers-merge_from p (widen m r) rs (SortedFrom-widen m r rs o) (widen-IsRange m r v vs.0) vs.1,
  covers-merge_from p r rs o.1 vs.0 vs.1,
  in_range-widen p m r o.0,
)

covers-merge :
    (p : ℕ) (rs : List PortRange)
    → Ordered first_less rs
    → All IsRange rs
    → covers (merge rs) p ≡ covers rs p
unfolding merge
covers-merge p [] o vs = refl
covers-merge p (r ∷ rs) o vs = covers-merge_from p r rs o vs.0 vs.1

-- The merged ranges name exactly the ports of the ranges that were read.
pub covers-merge-sort_by :
    (p : ℕ) (raw : List PortRange)
    → All IsRange raw
    → covers (merge (sort_by first_less raw)) p ≡ covers raw p
covers-merge-sort_by p raw vs =
    covers-merge p (sort_by first_less raw) (sort_by-Ordered first_less first_less_asym raw)
      (All-sort_by first_less IsRange raw vs)
    ∙ any-sort_by first_less (in_range p) raw
