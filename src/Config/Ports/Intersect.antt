-- ===== src/Config/Ports/Intersect.antt =====
-- `IntersectDestinationPorts` on parsed ranges.
use purewrt.Prelude.{
  ℕ, ◌+◌, ◌≤◌, ◌<◌, ◌≡◌, refl, min, max, false, ◌&&◌, List, [], ◌∷◌, ◌++◌, arith, leb, any-append,
  All, All-append, Bool-cases, inl, inr,
}
use purewrt.Config.Ports.{PortRange, in_range, covers, intersect_one, intersect_all}
use purewrt.Config.Ports.Cover.{IsRange}
use purewrt.Config.Ports.Canonical.{Apart, Canonical}

in_range-meet :
    (p lo hi : ℕ) (x y : PortRange)
    → lo ≡ max x.first y.first
    → hi ≡ min x.last y.last
    → in_range p (record { first = lo; last = hi }) ≡ (in_range p x && in_range p y)
in_range-meet p lo hi x y e f = ground arith

meet_empty :
    (p lo hi : ℕ) (x y : PortRange)
    → lo ≡ max x.first y.first
    → hi ≡ min x.last y.last
    → leb lo hi ≡ false
    → (in_range p x && in_range p y) ≡ false
meet_empty p lo hi x y e f h = ground arith

covers-intersect_one :
    (p : ℕ) (x : PortRange) (ys : List PortRange)
    → covers (intersect_one x ys) p ≡ (in_range p x && covers ys p)
unfolding intersect_one
covers-intersect_one p x [] = ground arith
covers-intersect_one p x (y ∷ ys) =
    let lo = max x.first y.first in
    let hi = min x.last y.last in
    ground (
      arith,
      covers-intersect_one p x ys,
      in_range-meet p lo hi x y refl refl,
      meet_empty p lo hi x y refl refl,
    )

-- The loops keep exactly the ports that both lists name.
pub covers-intersect_all :
    (p : ℕ) (xs ys : List PortRange) → covers (intersect_all xs ys) p ≡ (covers xs p && covers ys p)
unfolding intersect_all
covers-intersect_all p [] ys = refl
covers-intersect_all p (x ∷ xs) ys = ground (
  arith,
  any-append (in_range p) (intersect_one x ys) (intersect_all xs ys),
  covers-intersect_one p x ys,
  covers-intersect_all p xs ys,
)

abbrev Above : ℕ → List PortRange → Type 0
Above n = All (λ r. n + 1 < r.first)

abbrev UpTo : ℕ → List PortRange → Type 0
UpTo n = All (λ r. r.last ≤ n)

Apart-Above : (r : PortRange) (n : ℕ) (rs : List PortRange) → Above n rs → r.last ≤ n → Apart r rs
Apart-Above r n [] h k = tt
Apart-Above r n (s ∷ rs) h k = omega arith

intersect_one-Above :
    (n : ℕ) (x : PortRange) (ys : List PortRange) → Above n ys → Above n (intersect_one x ys)
unfolding intersect_one
intersect_one-Above n x [] h = tt
intersect_one-Above n x (y ∷ ys) h =
    elim (Bool-cases (leb (max x.first y.first) (min x.last y.last))) [
      | inl e ↦ rw e (omega arith, intersect_one-Above n x ys h.1)
      | inr e ↦ rw e (intersect_one-Above n x ys h.1)
    ]

intersect_one-Above_left :
    (n : ℕ) (x : PortRange) (ys : List PortRange) → n + 1 < x.first → Above n (intersect_one x ys)
unfolding intersect_one
intersect_one-Above_left n x [] h = tt
intersect_one-Above_left n x (y ∷ ys) h =
    elim (Bool-cases (leb (max x.first y.first) (min x.last y.last))) [
      | inl e ↦ rw e (omega arith, intersect_one-Above_left n x ys h)
      | inr e ↦ rw e (intersect_one-Above_left n x ys h)
    ]

intersect_all-Above : (n : ℕ) (xs ys : List PortRange) → Above n xs → Above n (intersect_all xs ys)
unfolding intersect_all
intersect_all-Above n [] ys h = tt
intersect_all-Above n (x ∷ xs) ys h =
    All-append _ (intersect_one x ys) (intersect_all xs ys) (intersect_one-Above_left n x ys h.0)
      (intersect_all-Above n xs ys h.1)

intersect_one-UpTo : (x : PortRange) (ys : List PortRange) → UpTo x.last (intersect_one x ys)
unfolding intersect_one
intersect_one-UpTo x [] = tt
intersect_one-UpTo x (y ∷ ys) = elim (Bool-cases (leb (max x.first y.first) (min x.last y.last))) [
  | inl e ↦ rw e (omega arith, intersect_one-UpTo x ys)
  | inr e ↦ rw e (intersect_one-UpTo x ys)
]

-- In a canonical list every later range lies above the first one.
Canonical-Above : (r : PortRange) (rs : List PortRange) → Canonical (r ∷ rs) → Above r.last rs
Canonical-Above r [] c = tt
Canonical-Above r (s ∷ rs) c = (c.1, raise rs (Canonical-Above s rs c.2))
  where
    raise : (ts : List PortRange) → Above s.last ts → Above r.last ts
    raise [] h = tt
    raise (t ∷ ts) h = (omega (arith, c.1, c.2.0), raise ts h.1)

intersect_one-Canonical :
    (x : PortRange) (ys : List PortRange)
    → IsRange x
    → Canonical ys
    → Canonical (intersect_one x ys)
unfolding intersect_one
intersect_one-Canonical x [] v c = tt
intersect_one-Canonical x (y ∷ ys) v c =
    elim (Bool-cases (leb (max x.first y.first) (min x.last y.last))) [
      | inl e ↦ rw e (
        ground (arith, c.0),
        Apart-Above (record { first = max x.first y.first; last = min x.last y.last }) y.last
            (intersect_one x ys) (intersect_one-Above y.last x ys (Canonical-Above y ys c))
            (omega arith),
        intersect_one-Canonical x ys v c.2,
      )
      | inr e ↦ rw e (intersect_one-Canonical x ys v c.2)
    ]

Canonical-append :
    (n : ℕ) (us vs : List PortRange)
    → Canonical us
    → Canonical vs
    → UpTo n us
    → Above n vs
    → Canonical (us ++ vs)
Canonical-append n [] vs cu cv u a = cv
Canonical-append n (r ∷ []) vs cu cv u a = (cu.0, Apart-Above r n vs a u.0, cv)
Canonical-append n (r ∷ s ∷ us) vs cu cv u a =
    (cu.0, cu.1, Canonical-append n (s ∷ us) vs cu.2 cv u.1 a)

-- The intersection of two normal forms is one, so it needs no merging.
pub intersect_all-Canonical :
    (xs ys : List PortRange) → Canonical xs → Canonical ys → Canonical (intersect_all xs ys)
unfolding intersect_all
intersect_all-Canonical [] ys cx cy = tt
intersect_all-Canonical (x ∷ xs) ys cx cy =
    Canonical-append x.last (intersect_one x ys) (intersect_all xs ys)
      (intersect_one-Canonical x ys cx.0 cy) (intersect_all-Canonical xs ys cx.2 cy)
      (intersect_one-UpTo x ys) (intersect_all-Above x.last xs ys (Canonical-Above x xs cx))
