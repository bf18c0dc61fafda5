-- ===== src/Ipdb/Cover6.antt =====
-- `rangeToPrefixes6` of internal/ipdb/db.go: its bit loops beside the arithmetic of blocks.
use native.Mathlib.Nat.{
  pow-suc, div-add-mod, mod-lt, mod-eq_of_lt, mul-add-mod_self_left, add-mod_right,
}
use purewrt.Prelude.{
  ℕ, zero, suc, ◌+◌, ◌-◌, ◌*◌, ◌/◌, ◌%◌, ◌^◌, ◌≤◌, ◌<◌, ◌≡◌, ◌⊎◌, ◌∙◌, ap, refl, Bool, true, false,
  List, [], ◌∷◌, arith, ltb, ◌==◌, if◌then◌else◌, Bool-cases, inl, inr,
}
use purewrt.Ipdb.Blocks.{
  Cidr, bit_of, host_bits_zero, set_host_bits, aligned6, last_in_block6, inc6, grow_block,
  grow_block6, carve, carve6, range_to_prefixes6,
}
use purewrt.Ipdb.Cover.{
  IsBlock, grow_block-start, pow-pos, carve-exact, Blocks, count_blocks, once_within,
}

mul_bit-le : (p b : ℕ) → b < 2 → p * b ≤ p
mul_bit-le p zero h = omega arith
mul_bit-le p (suc zero) h = omega arith
mul_bit-le p (suc (suc b)) h = absurd (omega arith)

-- One more binary digit.
mod_double : (a p : ℕ) → 1 ≤ p → a % (p * 2) ≡ p * (a / p % 2) + a % p
mod_double a p h =
    ap (λ t. t % (p * 2)) whole
    ∙ mul-add-mod_self_left (p * 2) (a / p / 2) (p * (a / p % 2) + a % p)
    ∙ mod-eq_of_lt (omega (arith, mul_bit-le p (a / p % 2) (omega arith), mod-lt a h))
  where
    whole : a ≡ p * 2 * (a / p / 2) + (p * (a / p % 2) + a % p)
    whole = omega (arith, div-add-mod a p, ap (λ t. p * t) (div-add-mod (a / p) 2))

low_digits : (k a : ℕ) → a % 2 ^ suc k ≡ 2 ^ k * bit_of k a + a % 2 ^ k
low_digits k a = rw (pow-suc 2 k) (mod_double a (2 ^ k) (pow-pos k))

bit-cases : (k a : ℕ) → (bit_of k a ≡ 0) ⊎ (bit_of k a ≡ 1)
bit-cases k a = omega arith

host_bits_zero-mod : (k a : ℕ) → host_bits_zero k a ≡ (a % 2 ^ k == 0)
unfolding host_bits_zero
host_bits_zero-mod zero a = ground arith
host_bits_zero-mod (suc k) a = elim (bit-cases k a) [
  | inl e ↦ ground (arith, low_digits k a, host_bits_zero-mod k a, ap (λ t. 2 ^ k * t) e)
  | inr e ↦ ground (arith, low_digits k a, pow-pos k, ap (λ t. 2 ^ k * t) e)
]

-- Setting the bits behind an aligned address gives the last address of its block.
set_host_bits-last : (k a : ℕ) → a % 2 ^ k ≡ 0 → set_host_bits k a + 1 ≡ a + 2 ^ k
unfolding set_host_bits
set_host_bits-last zero a h = omega arith
set_host_bits-last (suc k) a h = elim (bit-cases k a) [
  | inl e ↦ rw e (
      omega (
        arith,
        pow-suc 2 k,
        set_host_bits-last k (a + 2 ^ k)
            (add-mod_right a (2 ^ k) ∙ omega (arith, low_digits k a, ap (λ t. 2 ^ k * t) e)),
      ))
  | inr e ↦ absurd (omega (arith, low_digits k a, pow-pos k, ap (λ t. 2 ^ k * t) e))
]

aligned6-mod : (a n : ℕ) → aligned6 a n ≡ (a % 2 ^ (128 - n) == 0)
unfolding aligned6
aligned6-mod a n = host_bits_zero-mod (128 - n) a

last_in_block6-add : (a n : ℕ) → a % 2 ^ (128 - n) ≡ 0 → last_in_block6 a n + 1 ≡ a + 2 ^ (128 - n)
unfolding last_in_block6
last_in_block6-add a n h = set_host_bits-last (128 - n) a h

-- The inner loop is that of the numbers.
grow_block6-eq : (n s e : ℕ) → grow_block6 n s e ≡ grow_block 128 n s e
unfolding grow_block6 grow_block
grow_block6-eq zero s e = refl
grow_block6-eq (suc n) s e = elim (Bool-cases (s % 2 ^ (128 - n) == 0)) [
  | inl t ↦
      let last : last_in_block6 s n ≡ s + 2 ^ (128 - n) - 1 =
        omega (arith, last_in_block6-add s n (ground arith)) in
      rw (aligned6-mod s n, t, last, grow_block6-eq n s e)
  | inr t ↦ rw (aligned6-mod s n, t)
]

-- One address on, where the end of the family has not been passed.
inc6-next :
    (x next : ℕ) → x + 1 ≡ next → next ≤ 2 ^ 128 → inc6 x ≡ (next % 2 ^ 128, ltb (2 ^ 128 - 1) next)
unfolding inc6
inc6-next x next h k = ground arith

small_mod : (x : ℕ) → ltb (2 ^ 128 - 1) x ≡ false → x % 2 ^ 128 ≡ x
small_mod x h = ground arith

-- A round of either loop, which looks behind the block only where the family has not ended.
round-eq :
    (past ended : Bool) (b : Cidr) (bs cs : List Cidr)
    → (ended ≡ false → bs ≡ cs)
    → (if past then [] else if ended then b ∷ [] else b ∷ bs)
      ≡ (if past then [] else if ended then b ∷ [] else b ∷ cs)
round-eq true ended b bs cs h = refl
round-eq false true b bs cs h = refl
round-eq false false b bs cs h = ap (λ ds. b ∷ ds) (h refl)

pub carve6-eq : (fuel s e : ℕ) → e < 2 ^ 128 → carve6 fuel s e ≡ carve 128 fuel s e
unfolding carve6 carve
carve6-eq zero s e h = refl
carve6-eq (suc fuel) s e h = elim (Bool-cases (ltb e s)) [
  | inl t ↦ rw t
  | inr t ↦
      let b : IsBlock 128 e s (grow_block 128 128 s e) = grow_block-start 128 s e (ground arith) in
      let next : inc6 (last_in_block6 s (grow_block 128 128 s e)) ≡ (
        (s + 2 ^ (128 - grow_block 128 128 s e)) % 2 ^ 128,
        ltb (2 ^ 128 - 1) (s + 2 ^ (128 - grow_block 128 128 s e)),
      ) =
        inc6-next (last_in_block6 s (grow_block 128 128 s e))
          (s + 2 ^ (128 - grow_block 128 128 s e))
          (last_in_block6-add s (grow_block 128 128 s e) b.aligned) (omega (arith, b.fits)) in
      let far : ℕ = s + 2 ^ (128 - grow_block 128 128 s e) in
      rw (grow_block6-eq 128 s e, next)
        (round-eq (ltb e s) (ltb (2 ^ 128 - 1) far)
          (record { addr = s; plen = grow_block 128 128 s e }) (carve6 fuel (far % 2 ^ 128) e)
          (carve 128 fuel far e) (λ u. rw (small_mod far u) (carve6-eq fuel far e h)))
]

-- For a range of IPv6 addresses, whatever its ends, every address within it lies in exactly one of
-- the prefixes and every other address in none; each prefix is aligned to its size and is the largest
-- that begins where it does, is aligned and stays within the range.
pub range_to_prefixes6-exact :
    (s e : ℕ)
    → e < 2 ^ 128
    → ((x : ℕ) → count_blocks 128 x (range_to_prefixes6 s e) ≡ once_within s e x)
      × Blocks 128 e (range_to_prefixes6 s e)
unfolding range_to_prefixes6
range_to_prefixes6-exact s e h =
    rw (carve6-eq (suc (e - s)) s e h) (carve-exact 128 (suc (e - s)) s e h (omega arith))
