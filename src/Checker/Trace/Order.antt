-- ===== src/Checker/Trace/Order.antt =====
-- The order in which sections are tried.
use mathlib.Core.List.{Perm}
use purewrt.Prelude.{Bool, ◌≡◌, refl, sym, subst, true, false, List, [], ◌∷◌, arith, All}
use purewrt.Prelude.Int.{◌≤ℤ◌}
use purewrt.Prelude.Sort.{sort_by, sort_by-Ordered, Ordered, perm-sort_by}
use purewrt.Text.{codes, text_eq, text_eq_sound}
use purewrt.Config.Model.{Section}
use purewrt.Checker.Trace.{rank, section_less, routing_sections}

section_less_asym : (a b : Section) → section_less a b ≡ true → section_less b a ≡ false
unfolding section_less
section_less_asym a b h = ground arith

abbrev pub rejects : Section → Bool
rejects s = text_eq s.action (codes "reject")

abbrev pub sends_direct : Section → Bool
sends_direct s = text_eq s.action (codes "direct")

-- `a` may stand before `b`: it rejects if `b` does; of two that do not reject, it sends direct if `b`
-- does; and of two that do the same in this, it has no higher priority number.
abbrev pub Before : Section → Section → Type 0
Before a b =
    (rejects b ≡ true → rejects a ≡ true)
    × (rejects a ≡ false → sends_direct b ≡ true → sends_direct a ≡ true)
    × (rejects a ≡ rejects b → sends_direct a ≡ sends_direct b → a.priority ≤ℤ b.priority)

rejects-sends_direct : (s : Section) → rejects s ≡ true → sends_direct s ≡ false
rejects-sends_direct s r =
    subst (λ t. text_eq t (codes "direct") ≡ false)
      (sym (text_eq_sound s.action (codes "reject") r)) (unfold text_eq in refl)

not_less-Before : (a b : Section) → section_less b a ≡ false → Before a b
unfolding section_less rank
not_less-Before a b h =
    (ground (arith, h), ground (arith, h), grind (arith, h, rejects-sends_direct a))

Before-trans : (a b c : Section) → Before a b → Before b c → Before a c
Before-trans a b c h k = (
  λ r. h.0 (k.0 r),
  ground (arith, h.0, h.1, k.0, k.1),
  grind (arith, h, k, rejects-sends_direct a, rejects-sends_direct b, rejects-sends_direct c),
)

-- Every pair in the list stands in that order.
abbrev pub Routed : List Section → Type 0
Routed [] = Unit
Routed (s ∷ ss) = All (Before s) ss × Routed ss

Ordered-All :
    (s t : Section) (ss : List Section)
    → Before s t
    → Ordered section_less (t ∷ ss)
    → All (Before s) (t ∷ ss)
Ordered-All s t [] h o = (h, tt)
Ordered-All s t (u ∷ ss) h o =
    (h, Ordered-All s u ss (Before-trans s t u h (not_less-Before t u o.0)) o.1)

Ordered-Routed : (ss : List Section) → Ordered section_less ss → Routed ss
Ordered-Routed [] o = tt
Ordered-Routed (s ∷ []) o = (tt, tt)
Ordered-Routed (s ∷ t ∷ ss) o =
    (Ordered-All s t ss (not_less-Before s t o.0) o.1, Ordered-Routed (t ∷ ss) o.1)

-- The sections are tried with those that reject first, then those that send direct, then the others,
-- within each of these by ascending priority number; every configured section is tried once.
pub routing_sections-Routed :
    (ss : List Section) → Routed (routing_sections ss) × Perm (routing_sections ss) ss
unfolding routing_sections
routing_sections-Routed ss = (
  Ordered-Routed (sort_by section_less ss) (sort_by-Ordered section_less section_less_asym ss),
  perm-sort_by section_less ss,
)
