-- ===== src/Mrs/Words/Exact.antt =====
-- `rangeToPrefixes` of internal/rules/parse_mrs.go beside the blocks of internal/ipdb/db.go.
use native.Mathlib.Nat.{mod-mod_of_dvd, mod-eq_of_lt, zero-mod, dvd-mul_left}
use purewrt.Prelude.{
  ℕ, zero, suc, ◌+◌, ◌-◌, ◌*◌, ◌%◌, ◌^◌, ◌≤◌, ◌<◌, ◌≡◌, ◌≢◌, ◌⊎◌, refl, ap, ◌∙◌, sym, arith, ltb,
  leb, ◌==◌, if◌then◌else◌, Bool, true, false, Bool-cases, inl, inr, ◌&&◌, List, [], ◌∷◌, map, min,
  ap₂,
}
use purewrt.Ipdb.Cover.{pow-pos, IsBlock, grow_block-start}
use purewrt.Ipdb.Cover6.{carve6-eq}
use purewrt.Ipdb.Blocks.{Cidr, grow_block, carve, range_to_prefixes6}
use purewrt.Mrs.Words.{
  Word128, MrsPrefix, value, trailing_zeros, bit_length, trailing_zeros128, sub128, add_one128,
  floor_log2_128, add_pow2, bit_len_of, block_bits, cut_range, range_to_prefixes,
}
use purewrt.Mrs.Words.Digits.{
  trailing_zeros-aligned, trailing_zeros-maximal, bit_length-bounds, trailing_zeros-le,
}
use purewrt.Mrs.Words.Value.{
  IsWord, at_most-value, trailing_zeros128-value, trailing_zeros128-mapped, floor_log2_128-value,
  remaining-value, remaining-IsWord, add_pow2-value, add_pow2-IsWord, power_add, power_le,
}

aligned_less : (a b s : ℕ) → s % 2 ^ (a + b) ≡ 0 → s % 2 ^ b ≡ 0
aligned_less a b s h =
    sym (mod-mod_of_dvd (2 ^ b) s (rw (power_add a b) (dvd-mul_left (2 ^ b) (2 ^ a))))
    ∙ ap (λ t. t % 2 ^ b) h
    ∙ zero-mod (2 ^ b)

aligned_below : (m n s : ℕ) → n ≤ m → s % 2 ^ m ≡ 0 → s % 2 ^ n ≡ 0
aligned_below m n s h a =
    let e : m ≡ m - n + n = omega arith in
    aligned_less (m - n) n s (ap (λ t. s % 2 ^ t) (sym e) ∙ a)

IsBlock-shorter : (w e s p q : ℕ) → IsBlock w e s p → IsBlock w e s q → q ≤ p
IsBlock-shorter w e s p zero b c = omega arith
IsBlock-shorter w e s p (suc q) b c = elim (Bool-cases (leb (suc q) p)) [
  | inl h ↦ ground (arith, h)
  | inr h ↦ absurd (elim (c.maximal) [
    | inl skew ↦ skew (aligned_below (w - p) (w - q) s (ground (arith, h)) b.aligned)
    | inr far ↦ omega (arith, far, b.fits, power_le (w - q) (w - p) (ground (arith, h)))
  ])
]

IsBlock-unique : (w e s p q : ℕ) → IsBlock w e s p → IsBlock w e s q → p ≡ q
IsBlock-unique w e s p q b c =
    omega (arith, IsBlock-shorter w e s p q b c, IsBlock-shorter w e s q p c b)

-- A block of `2 ^ n` addresses that cannot be doubled.
sized-IsBlock :
    (s e n : ℕ)
    → s ≤ e
    → n < 128
    → s % 2 ^ n ≡ 0
    → 2 ^ n ≤ e - s + 1
    → (s % 2 ^ suc n ≢ 0) ⊎ (e - s + 1 < 2 ^ suc n)
    → IsBlock 128 e s (128 - n)
sized-IsBlock s e n h k a f m =
    let back : 128 - (128 - n) ≡ n = omega arith in
    let prev : 128 - n ≡ suc (127 - n) = omega arith in
    let up : 128 - (127 - n) ≡ suc n = omega arith in
    record {
      prefix = omega arith;
      aligned = rw back a;
      fits = rw back (omega (arith, f));
      maximal = rw (prev, up) (elim m [ inl skew ↦ inl skew | inr far ↦ inr (omega (arith, far)) ]);
    }

-- The size by the trailing zeros and the length of what remains.
size_of : ℕ → ℕ → ℕ
size_of s e = min (trailing_zeros 128 s) (bit_length 128 (e - s + 1) - 1)

size_of-IsBlock :
    (s e : ℕ)
    → s ≤ e
    → e - s + 1 < 2 ^ 128
    → IsBlock 128 e s (128 - size_of s e) × (size_of s e < 128)
unfolding size_of
size_of-IsBlock s e h k =
    go (trailing_zeros 128 s) (bit_length 128 (e - s + 1)) (trailing_zeros-aligned 128 s)
      (trailing_zeros-maximal 128 s) (bit_length-bounds 128 (e - s + 1) (omega arith) k)
  where
    go :
        (t l : ℕ)
        → s % 2 ^ t ≡ 0
        → (t < 128 → s % 2 ^ suc t ≢ 0)
        → (1 ≤ l) × (l ≤ 128) × (2 ^ (l - 1) ≤ e - s + 1) × (e - s + 1 < 2 ^ l)
        → IsBlock 128 e s (128 - min t (l - 1)) × (min t (l - 1) < 128)
    go t l a m b = elim (Bool-cases (leb t (l - 1))) [
      | inl u ↦
          let z : min t (l - 1) ≡ t = ground (arith, u) in
          rw z (
            sized-IsBlock s e t h (ground (arith, u, b)) a
                (ground (arith, u, b, power_le t (l - 1))) (inl (m (ground (arith, u, b)))),
            ground (arith, u, b),
          )
      | inr u ↦
          let z : min t (l - 1) ≡ l - 1 = ground (arith, u) in
          let y : suc (l - 1) ≡ l = ground (arith, b) in
          rw z (
            sized-IsBlock s e (l - 1) h (ground (arith, b))
                (aligned_below t (l - 1) s (ground (arith, u)) a) b.2 (inr (rw y b.3)),
            ground (arith, b),
          )
    ]

-- The family of an address that the loop reaches, as the prologue has fixed it.
abbrev Family : Word128 → Word128 → ℕ → Type 0
Family cur last bits =
    (bits ≡ 128) ⊎ ((bits ≡ 32) × (0xffff * 2 ^ 32 ≤ value cur) × (value last < 2 ^ 48))

block_bits-size :
    (cur last : Word128) (bits : ℕ)
    → IsWord cur
    → IsWord last
    → value cur ≤ value last
    → value last - value cur + 1 < 2 ^ 128
    → Family cur last bits
    → (block_bits cur last bits ≡ size_of (value cur) (value last))
      × (block_bits cur last bits ≤ bits)
      × (bits ≤ 128)
unfolding block_bits size_of
block_bits-size cur last bits p q h k f =
    let log : floor_log2_128 (add_one128 (sub128 last cur))
        ≡ bit_length 128 (value last - value cur + 1) - 1 =
      floor_log2_128-value (add_one128 (sub128 last cur)) (remaining-IsWord cur last p q)
      ∙ ap (λ t. bit_length 128 t - 1) (remaining-value cur last p q h ∙ mod-eq_of_lt k) in
    elim f [
      | inl wide ↦
          rw (wide, log, trailing_zeros128-value cur p)
            (refl, omega (arith, trailing_zeros-le 128 (value cur)), omega arith)
      | inr (short, low, high) ↦
          rw (short, log)
            (
              ap (λ t. min t (bit_length 128 (value last - value cur + 1) - 1))
                  (trailing_zeros128-mapped cur p (mapped low high)),
              omega (arith, trailing_zeros-le 32 (cur.lo % 2 ^ 32), short_zeros),
              omega arith,
            )
    ]
  where
    mapped : 0xffff * 2 ^ 32 ≤ value cur → value last < 2 ^ 48 → bit_len_of cur ≡ 32
    mapped low high = unfold bit_len_of in ground (arith, low, high)

    short_zeros : trailing_zeros128 cur 32 ≡ trailing_zeros 32 (cur.lo % 2 ^ 32)
    short_zeros = unfold trailing_zeros128 in refl

-- The prefix as a block of 128-bit addresses.
abbrev pub to_cidr : MrsPrefix → Cidr
to_cidr p = record { addr = value p.addr; plen = p.plen + (128 - p.bits_len) }

-- One round of either loop.
round-map :
    (stop stop' : Bool) (b : MrsPrefix) (c : Cidr) (bs : List MrsPrefix) (cs : List Cidr)
    → stop ≡ stop'
    → to_cidr b ≡ c
    → (stop' ≡ false → map to_cidr bs ≡ cs)
    → map to_cidr (if stop then b ∷ [] else b ∷ bs) ≡ (if stop' then c ∷ [] else c ∷ cs)
round-map true true b c bs cs e f h = ap (λ t. t ∷ []) f
round-map true false b c bs cs e f h = cc
round-map false true b c bs cs e f h = cc
round-map false false b c bs cs e f h = ap₂ (λ t ts. t ∷ ts) f (h refl)

-- The walk has come to the end of the family.
wrapped :
    (next : Word128) (bits sum : ℕ)
    → IsWord next
    → value next ≡ sum % 2 ^ 128
    → 1 ≤ sum
    → sum ≤ 2 ^ 128
    → (bits ≡ 128) ⊎ (sum < 2 ^ 128)
    → (next.hi == 0 && next.lo == 0 && bits == 128) ≡ ltb (2 ^ 128 - 1) sum
wrapped next bits sum w e l h f = elim f [
  | inl wide ↦ rw wide (ground arith)
  | inr short ↦ ground arith
]

cut_range-carve :
    (fuel : ℕ) (cur last : Word128) (bits : ℕ)
    → IsWord cur
    → IsWord last
    → value last - value cur + 1 < 2 ^ 128
    → Family cur last bits
    → map to_cidr (cut_range fuel cur last bits) ≡ carve 128 fuel (value cur) (value last)
unfolding cut_range carve
cut_range-carve zero cur last bits p q k f = refl
cut_range-carve (suc fuel) cur last bits p q k f =
    elim (Bool-cases (leb (value cur) (value last))) [
      | inr past ↦ rw (at_most-value cur last p q, past) (ground (arith, past))
      | inl within ↦
          let h : value cur ≤ value last = ground (arith, within) in
          let n : ℕ = size_of (value cur) (value last) in
          let same = block_bits-size cur last bits p q h k f in
          let block = size_of-IsBlock (value cur) (value last) h k in
          let grown : grow_block 128 128 (value cur) (value last) ≡ 128 - n =
            IsBlock-unique 128 (value last) (value cur)
              (grow_block 128 128 (value cur) (value last)) (128 - n)
              (grow_block-start 128 (value cur) (value last) h) block.0 in
          let back : 128 - (128 - n) ≡ n = omega (arith, block.1) in
          let fits : value cur + 2 ^ n ≤ suc (value last) = rw back at block.0.fits in
          let next : Word128 = add_pow2 cur n in
          let next_value : value next ≡ (value cur + 2 ^ n) % 2 ^ 128 =
            add_pow2-value cur n p block.1 in
          let go_on : Family next last bits = elim f [
            | inl wide ↦ inl wide
            | inr (short, low, high) ↦ inr (short, omega (arith, low, high, fits, next_value), high)
          ] in
          let not_past : ltb (value last) (value cur) ≡ false = ground (arith, h) in
          rw (at_most-value cur last p q, within, not_past, same.0, grown, back)
            (round-map (next.hi == 0 && next.lo == 0 && bits == 128)
              (ltb (2 ^ 128 - 1) (value cur + 2 ^ n))
              (record { addr = cur; bits_len = bits; plen = bits - n })
              (record { addr = value cur; plen = 128 - n }) (cut_range fuel next last bits)
              (carve 128 fuel (value cur + 2 ^ n) (value last))
              (wrapped next bits (value cur + 2 ^ n) (add_pow2-IsWord cur n p) next_value
                (omega (arith, pow-pos n)) (omega (arith, fits, q.hi, q.lo))
                (elim f [
                  | inl wide ↦ inl wide
                  | inr (short, low, high) ↦ inr (omega (arith, fits, high))
                ]))
              (ap (λ t. record { addr = value cur; plen = t }) (omega (arith, same, block.1)))
              (λ u.
                let exact : value next ≡ value cur + 2 ^ n =
                  next_value ∙ mod-eq_of_lt (ground (arith, u)) in
                cut_range-carve fuel next last bits (add_pow2-IsWord cur n p) q
                  (omega (arith, exact, k, fits)) go_on
                ∙ ap (λ t. carve 128 fuel t (value last)) exact))
    ]

-- A range that is not the whole of the IPv6 addresses.
abbrev pub IsPart : Word128 → Word128 → Type 0
IsPart from to = value to - value from + 1 < 2 ^ 128

-- The prefixes that a binary list gives for a range of one family, be it IPv4 in its mapped form or
-- IPv6, are the prefixes that the address database gives for the same 128-bit numbers, in the same
-- order, unless the range is the whole of the IPv6 addresses.
pub range_to_prefixes-database :
    (from to : Word128)
    → IsWord from
    → IsWord to
    → bit_len_of from ≡ bit_len_of to
    → IsPart from to
    → map to_cidr (range_to_prefixes from to) ≡ range_to_prefixes6 (value from) (value to)
unfolding range_to_prefixes range_to_prefixes6
range_to_prefixes-database from to p q same part =
    rw
      (
        equal,
        carve6-eq (suc (value to - value from)) (value from) (value to) (omega (arith, q.hi, q.lo)),
      )
      (cut_range-carve (suc (value to - value from)) from to (bit_len_of from) p q part family)
  where
    equal : (bit_len_of from == bit_len_of to) ≡ true
    equal = ground (arith, same)

    family : Family from to (bit_len_of from)
    family = elim (Bool-cases (bit_len_of from == 32)) [
      | inl short ↦ inr (
        ground (arith, short),
        unfold bit_len_of in ground (arith, short, same),
        unfold bit_len_of in ground (arith, short, same),
      )
      | inr wide ↦ inl (unfold bit_len_of in ground (arith, wide))
    ]
