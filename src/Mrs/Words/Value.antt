-- ===== src/Mrs/Words/Value.antt =====
-- The arithmetic on two words and the number that they stand for.
use native.Mathlib.Nat.{pow-suc, pow-le-pow_right}
use purewrt.Prelude.{
  ℕ, zero, suc, ◌+◌, ◌-◌, ◌*◌, ◌/◌, ◌%◌, ◌^◌, ◌≤◌, ◌<◌, ◌≡◌, ap, sym, arith, leb, Bool-cases, inl,
  inr,
}
use purewrt.Ipdb.Cover.{pow-pos}
use purewrt.Mrs.Words.{
  Word128, value, trailing_zeros, bit_length, trailing_zeros128, sub128, add_one128, floor_log2_128,
  add_pow2, bit_len_of, at_most, leading_zeros64,
}
use purewrt.Mrs.Words.Digits.{
  trailing_zeros-split, bit_length-split, bit_length-bounds, bit_length-zero, trailing_zeros-zero,
  trailing_zeros-odd, suc_left,
}

pub record IsWord (v : Word128) : Type 0 where
  pub hi : v.hi < 2 ^ 64
  pub lo : v.lo < 2 ^ 64

pub at_most-value : (a b : Word128) → IsWord a → IsWord b → at_most a b ≡ leb (value a) (value b)
at_most-value a b p q = ground arith

pub value-injective : (a b : Word128) → IsWord a → IsWord b → value a ≡ value b → a ≡ b
value-injective a b p q h = ground (arith, same)
  where
    same : (a.hi ≡ b.hi) × (a.lo ≡ b.lo)
    same = omega (arith, p.hi, p.lo, q.hi, q.lo, h)

pub trailing_zeros128-value :
    (v : Word128) → IsWord v → trailing_zeros128 v 128 ≡ trailing_zeros 128 (value v)
unfolding trailing_zeros128
trailing_zeros128-value v p = sym (trailing_zeros-split 64 64 v.hi v.lo p.lo)

-- An IPv4 address has a one above its 32 bits.
pub trailing_zeros128-mapped :
    (v : Word128)
    → IsWord v
    → bit_len_of v ≡ 32
    → trailing_zeros128 v 32 ≡ trailing_zeros 128 (value v)
unfolding bit_len_of trailing_zeros128
trailing_zeros128-mapped v p h = ground (
  arith,
  h,
  trailing_zeros-zero 32,
  trailing_zeros-odd 95 (value v / 2 ^ 32) odd,
  parts,
  ap (λ t. trailing_zeros 128 t) parts,
  trailing_zeros-split 32 96 (value v / 2 ^ 32) (v.lo % 2 ^ 32) (omega arith),
)
  where
    parts : value v ≡ value v / 2 ^ 32 * 2 ^ 32 + v.lo % 2 ^ 32
    parts = omega arith

    odd : value v / 2 ^ 32 % 2 ≡ 1
    odd = ground (arith, h)

pub floor_log2_128-value :
    (v : Word128) → IsWord v → floor_log2_128 v ≡ bit_length 128 (value v) - 1
unfolding floor_log2_128 leading_zeros64
floor_log2_128-value v p = ground (
  arith,
  bit_length-split 64 64 v.hi v.lo p.lo,
  bit_length-zero 64,
  bit_length-bounds 64 v.lo,
  bit_length-bounds 64 v.hi,
)

pub remaining-value :
    (s e : Word128)
    → IsWord s
    → IsWord e
    → value s ≤ value e
    → value (add_one128 (sub128 e s)) ≡ (value e - value s + 1) % 2 ^ 128
unfolding add_one128 sub128
remaining-value s e p q h = ground arith

pub remaining-IsWord : (s e : Word128) → IsWord s → IsWord e → IsWord (add_one128 (sub128 e s))
unfolding add_one128 sub128
remaining-IsWord s e p q = ground arith

pub power_le : (n m : ℕ) → n ≤ m → 2 ^ n ≤ 2 ^ m
power_le n m h = pow-le-pow_right (omega arith) h

pub power_add : (n m : ℕ) → 2 ^ (n + m) ≡ 2 ^ n * 2 ^ m
power_add zero m = rw (zero_left m) (omega arith)
  where
    zero_left : (m : ℕ) → 0 + m ≡ m
    zero_left m = omega arith
power_add (suc n) m = rw (suc_left n m, pow-suc 2 (n + m), pow-suc 2 n, power_add n m) (grind arith)

high : (n : ℕ) → 64 ≤ n → 2 ^ n ≡ 2 ^ (n - 64) * 2 ^ 64
high n h = rw (← power_add (n - 64) 64) (ap (λ t. 2 ^ t) (omega arith))

pub add_pow2-value :
    (v : Word128) (n : ℕ) → IsWord v → n < 128 → value (add_pow2 v n) ≡ (value v + 2 ^ n) % 2 ^ 128
unfolding add_pow2
add_pow2-value v n p h = elim (Bool-cases (leb 64 n)) [
  | inl e ↦ rw e (ground (arith, e, high n, pow-pos (n - 64), power_le (n - 64) 63))
  | inr e ↦ rw e (ground (arith, e, pow-pos n, power_le n 63))
]

pub add_pow2-IsWord : (v : Word128) (n : ℕ) → IsWord v → IsWord (add_pow2 v n)
unfolding add_pow2
add_pow2-IsWord v n p = elim (Bool-cases (leb 64 n)) [
  | inl e ↦ rw e (ground arith)
  | inr e ↦ rw e (ground arith)
]
