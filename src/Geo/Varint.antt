-- ===== src/Geo/Varint.antt =====
-- The base-128 numbers of internal/geodb/v2dat.go, written and read.
use native.Mathlib.Nat.{pow-suc}
use purewrt.Prelude.{
  ℕ, zero, suc, ◌+◌, ◌*◌, ◌/◌, ◌%◌, ◌^◌, ◌≤◌, ◌<◌, ◌≡◌, refl, ap, ◌∙◌, arith, true, false, [], ◌∷◌,
  ◌++◌, ltb, if◌then◌else◌, ok, Bool-cases, inl, inr,
}
use purewrt.Mrs.Reader.{Bytes}
use purewrt.Mrs.Words.Value.{power_add}
use purewrt.Geo.{read_varint_from, read_varint}

-- At most `k` bytes with the bit that tells that more follow, and a last one.
unfoldable pub put_digits : ℕ → ℕ → Bytes
put_digits zero n = n ∷ []
put_digits (suc k) n =
    let rest = put_digits k (n / 128) in if ltb n 128 then n ∷ [] else (n % 128 + 128) ∷ rest

-- A number below 2^64.
abbrev pub put_varint : ℕ → Bytes
put_varint n = put_digits 9 n

regroup : (q m p : ℕ) → (q * 128 + m) * p ≡ q * (p * 128) + m * p
regroup q m p = grind arith

split_digit : (n p : ℕ) → n * p ≡ n / 128 * (p * 128) + n % 128 * p
split_digit n p = ap (λ t. t * p) (omega arith) ∙ regroup (n / 128) (n % 128) p

next_power : (shift : ℕ) → 2 ^ (shift + 7) ≡ 2 ^ shift * 128
next_power shift = power_add shift 7

digit : (n p : ℕ) → n * p < 2 ^ 64 → n % 128 * p % 2 ^ 64 ≡ n % 128 * p
digit n p h = omega (arith, h, split_digit n p)

sum_of_digits :
    (v n shift : ℕ)
    → n * 2 ^ shift < 2 ^ 64
    → v + (n % 128 + 128) % 128 * 2 ^ shift % 2 ^ 64 + n / 128 * 2 ^ (shift + 7) ≡ v + n * 2 ^ shift
sum_of_digits v n shift f =
    ap (λ t. v + t * 2 ^ shift % 2 ^ 64 + n / 128 * 2 ^ (shift + 7)) (marked n)
    ∙ omega (
      arith,
      digit n (2 ^ shift) f,
      split_digit n (2 ^ shift),
      ap (λ t. n / 128 * t) (next_power shift),
    )
  where
    marked : (n : ℕ) → (n % 128 + 128) % 128 ≡ n % 128
    marked n = omega arith

below : (n : ℕ) → ltb n 128 ≡ true → n % 128 ≡ n
below n h = ground (arith, h)

read_varint_from-last :
    (n v shift : ℕ) (rest : Bytes)
    → ltb n 128 ≡ true
    → n * 2 ^ shift < 2 ^ 64
    → read_varint_from v shift (n ∷ rest) ≡ ok (v + n * 2 ^ shift, rest)
unfolding read_varint_from
read_varint_from-last n v shift rest e f =
    rw e (ap (λ t. ok (v + t, rest)) (digit n (2 ^ shift) f ∙ ap (λ t. t * 2 ^ shift) (below n e)))

-- The number comes back, with what stands behind it.
read_varint_from-put_digits :
    (k n v shift : ℕ) (rest : Bytes)
    → n < 128 * 128 ^ k
    → shift + 7 * k ≤ 63
    → n * 2 ^ shift < 2 ^ 64
    → read_varint_from v shift (put_digits k n ++ rest) ≡ ok (v + n * 2 ^ shift, rest)
unfolding put_digits
read_varint_from-put_digits zero n v shift rest h g f =
    read_varint_from-last n v shift rest (ground (arith, h)) f
read_varint_from-put_digits (suc k) n v shift rest h g f = elim (Bool-cases (ltb n 128)) [
  | inl e ↦ rw e (read_varint_from-last n v shift rest e f)
  | inr e ↦ rw e (
      next (n % 128 + 128) (put_digits k (n / 128) ++ rest) (ground arith) (ground (arith, g))
      ∙ read_varint_from-put_digits k (n / 128) _ (shift + 7) rest (omega (arith, h, pow-suc 128 k))
          (omega (arith, g))
          (omega (arith, f, split_digit n (2 ^ shift), ap (λ t. n / 128 * t) (next_power shift)))
      ∙ ap (λ t. ok (t, rest)) (sum_of_digits v n shift f))
]
  where
    next :
        (b : ℕ) (r : Bytes)
        → ltb b 128 ≡ false
        → ltb 63 (shift + 7) ≡ false
        → read_varint_from v shift (b ∷ r)
          ≡ read_varint_from (v + b % 128 * 2 ^ shift % 2 ^ 64) (shift + 7) r
    next b r p q = unfold read_varint_from in rw (p, q) refl

pub read_varint-put_varint :
    (n : ℕ) (rest : Bytes) → n < 2 ^ 64 → read_varint (put_varint n ++ rest) ≡ ok (n, rest)
unfolding read_varint
read_varint-put_varint n rest h =
    read_varint_from-put_digits 9 n 0 0 rest (omega (arith, h)) (omega arith) (omega (arith, h))
    ∙ ap (λ t. ok (t, rest)) (omega arith)
