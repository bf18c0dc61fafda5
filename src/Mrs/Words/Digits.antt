-- ===== src/Mrs/Words/Digits.antt =====
-- Trailing zeros and the length of a number that is given in two parts.
use native.Mathlib.Nat.{pow-suc, mul-add-mod_self_left, mod-eq_of_lt, mod-lt, div-add-mod}
use purewrt.Prelude.{
  ℕ, zero, suc, ◌+◌, ◌-◌, ◌*◌, ◌/◌, ◌%◌, ◌^◌, ◌≤◌, ◌<◌, ◌≡◌, ◌≢◌, refl, ap, ◌∙◌, arith, ◌==◌,
  if◌then◌else◌, Bool-cases, inl, inr,
}
use purewrt.Ipdb.Cover.{pow-pos}
use purewrt.Mrs.Words.{trailing_zeros, bit_length}

double : (h j : ℕ) → h * 2 ^ suc j ≡ h * 2 ^ j + h * 2 ^ j
double h j = rw (pow-suc 2 j) (grind arith)

half : (h j l : ℕ) → (h * 2 ^ suc j + l) / 2 ≡ h * 2 ^ j + l / 2
half h j l = omega (arith, double h j)

pub suc_left : (j k : ℕ) → suc j + k ≡ suc (j + k)
suc_left j k = omega arith

pub trailing_zeros-split :
    (j k h l : ℕ)
    → l < 2 ^ j
    → trailing_zeros (j + k) (h * 2 ^ j + l)
      ≡ (if l == 0 then j + trailing_zeros k h else trailing_zeros j l)
unfolding trailing_zeros
trailing_zeros-split zero k h l p =
    let z : h * 1 + l ≡ h = omega arith in
    let y : 0 + k ≡ k = omega arith in rw (z, y) (ground arith)
trailing_zeros-split (suc j) k h l p =
    rw (suc_left j k, half h j l)
      (ground (
        arith,
        double h j,
        pow-suc 2 j,
        trailing_zeros-split j k h (l / 2) (omega (arith, pow-suc 2 j)),
      ))

pub bit_length-zero : (k : ℕ) → bit_length k 0 ≡ 0
unfolding bit_length
bit_length-zero zero = refl
bit_length-zero (suc k) = refl

pub bit_length-split :
    (j k h l : ℕ)
    → l < 2 ^ j
    → bit_length (j + k) (h * 2 ^ j + l) ≡ (if h == 0 then bit_length j l else j + bit_length k h)
unfolding bit_length
bit_length-split zero k h l p =
    let z : h * 1 + l ≡ h = omega arith in
    let y : 0 + k ≡ k = omega arith in rw (z, y) (ground (arith, bit_length-zero k))
bit_length-split (suc j) k h l p =
    rw (suc_left j k, half h j l)
      (ground (
        arith,
        double h j,
        pow-suc 2 j,
        positive h j,
        bit_length-zero j,
        bit_length-split j k h (l / 2) (omega (arith, pow-suc 2 j)),
      ))
  where
    positive : (h j : ℕ) → h ≢ 0 → 1 ≤ h * 2 ^ suc j
    positive zero j n = absurd (n refl)
    positive (suc h) j n = grind (arith, pow-pos (suc j))

pub trailing_zeros-le : (k w : ℕ) → trailing_zeros k w ≤ k
unfolding trailing_zeros
trailing_zeros-le zero w = omega arith
trailing_zeros-le (suc k) w = ground (arith, trailing_zeros-le k (w / 2))

-- `w` in its last digit and the others.
mod_even : (w p : ℕ) → 1 ≤ p → w % (p * 2) ≡ 2 * (w / 2 % p) + w % 2
mod_even w p h =
    ap (λ t. t % (p * 2)) whole
    ∙ mul-add-mod_self_left (p * 2) (w / 2 / p) (2 * (w / 2 % p) + w % 2)
    ∙ mod-eq_of_lt (omega (arith, mod-lt (w / 2) h))
  where
    whole : w ≡ p * 2 * (w / 2 / p) + (2 * (w / 2 % p) + w % 2)
    whole = omega (arith, div-add-mod (w / 2) p, ap (λ t. t * 2) (div-add-mod (w / 2) p), grouped)
      where
        grouped : p * 2 * (w / 2 / p) ≡ p * (w / 2 / p) * 2
        grouped = grind arith

pub trailing_zeros-aligned : (k w : ℕ) → w % 2 ^ trailing_zeros k w ≡ 0
unfolding trailing_zeros
trailing_zeros-aligned zero w = omega arith
trailing_zeros-aligned (suc k) w = elim (Bool-cases (w % 2 == 0)) [
  | inl e ↦
      rw (e, pow-suc 2 (trailing_zeros k (w / 2)))
        (ground (
          arith,
          trailing_zeros-aligned k (w / 2),
          mod_even w (2 ^ trailing_zeros k (w / 2)) (pow-pos (trailing_zeros k (w / 2))),
        ))
  | inr e ↦ rw e (omega arith)
]

pub trailing_zeros-maximal :
    (k w : ℕ) → trailing_zeros k w < k → w % 2 ^ suc (trailing_zeros k w) ≢ 0
unfolding trailing_zeros
trailing_zeros-maximal zero w h = absurd (omega arith)
trailing_zeros-maximal (suc k) w h = elim (Bool-cases (w % 2 == 0)) [
  | inl e ↦
      rw (e, pow-suc 2 (suc (trailing_zeros k (w / 2))))
        (λ z.
          (trailing_zeros-maximal k (w / 2) (ground (arith, h)) (
            omega (
              arith,
              z,
              mod_even w (2 ^ suc (trailing_zeros k (w / 2)))
                  (pow-pos (suc (trailing_zeros k (w / 2)))),
            ))))
  | inr e ↦ rw e (ground arith)
]

pub bit_length-bounds :
    (k w : ℕ)
    → w ≢ 0
    → w < 2 ^ k
    → (1 ≤ bit_length k w)
      × (bit_length k w ≤ k)
      × (2 ^ (bit_length k w - 1) ≤ w)
      × (w < 2 ^ bit_length k w)
unfolding bit_length
bit_length-bounds zero w n h = absurd (n (omega arith))
bit_length-bounds (suc k) w n h = elim (Bool-cases (w / 2 == 0)) [
  | inl e ↦
      let z : w / 2 ≡ 0 = ground arith in
      let one : w ≡ 1 = omega arith in rw one (ground (arith, bit_length-zero k))
  | inr e ↦ ground (
    arith,
    pow-suc 2 (bit_length k (w / 2) - 1),
    pow-suc 2 (bit_length k (w / 2)),
    before (bit_length k (w / 2)),
    bit_length-bounds k (w / 2) (ground (arith, e)) (omega (arith, pow-suc 2 k)),
  )
]
  where
    before : (n : ℕ) → 1 ≤ n → n ≡ suc (n - 1)
    before n h = omega arith

pub trailing_zeros-zero : (k : ℕ) → trailing_zeros k 0 ≡ k
unfolding trailing_zeros
trailing_zeros-zero zero = refl
trailing_zeros-zero (suc k) = ap suc (trailing_zeros-zero k)

pub trailing_zeros-odd : (k w : ℕ) → w % 2 ≡ 1 → trailing_zeros (suc k) w ≡ 0
unfolding trailing_zeros
trailing_zeros-odd k w h = rw h refl
