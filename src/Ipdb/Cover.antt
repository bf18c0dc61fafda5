-- ===== src/Ipdb/Cover.antt =====
-- `rangeToCIDRs4` of internal/ipdb/db.go: the blocks of a range.
use native.Mathlib.Nat.{pow-suc}
use purewrt.Prelude.{
  ℕ, zero, suc, ◌+◌, ◌-◌, ◌%◌, ◌^◌, ◌≤◌, ◌<◌, ◌≡◌, ◌≢◌, ◌⊎◌, refl, Bool, ◌&&◌, List, [], ◌∷◌, arith,
  ltb, leb, ◌==◌, if◌then◌else◌, All, Bool-cases, inl, inr,
}
use purewrt.Ipdb.Blocks.{Cidr, grow_block, carve, range_to_cidrs4}

pub pow-pos : (k : ℕ) → 1 ≤ 2 ^ k
pow-pos zero = omega arith
pow-pos (suc k) = omega (arith, pow-suc 2 k, pow-pos k)

-- No larger block begins at `s`: it would not be aligned, or reach beyond `e`.
abbrev pub Maximal : ℕ → ℕ → ℕ → ℕ → Type 0
Maximal width s e zero = Unit
Maximal width s e (suc p) = (s % 2 ^ (width - p) ≢ 0) ⊎ (suc e < s + 2 ^ (width - p))

-- A block of the tiling of the addresses up to `e`.
pub record IsBlock (width e s plen : ℕ) : Type 0 where
  pub prefix : plen ≤ width
  pub aligned : s % 2 ^ (width - plen) ≡ 0
  pub fits : s + 2 ^ (width - plen) ≤ suc e
  pub maximal : Maximal width s e plen

grow_block-IsBlock :
    (width n s e : ℕ)
    → n ≤ width
    → s % 2 ^ (width - n) ≡ 0
    → s + 2 ^ (width - n) ≤ suc e
    → IsBlock width e s (grow_block width n s e)
unfolding grow_block
grow_block-IsBlock width zero s e h a f = record { prefix = h; aligned = a; fits = f; maximal = tt }
grow_block-IsBlock width (suc n) s e h a f = elim (Bool-cases (s % 2 ^ (width - n) == 0)) [
  | inr t ↦ rw t (record { prefix = h; aligned = a; fits = f; maximal = inl (ground arith) })
  | inl t ↦ elim (Bool-cases (ltb e (s + 2 ^ (width - n) - 1))) [
    | inl u ↦ rw (t, u) (record { prefix = h; aligned = a; fits = f; maximal = inr (ground arith) })
    | inr u ↦
        rw (t, u)
          (grow_block-IsBlock width n s e (omega arith) (ground arith)
            (ground (arith, pow-pos (width - n))))
  ]
]

pub grow_block-start : (width s e : ℕ) → s ≤ e → IsBlock width e s (grow_block width width s e)
grow_block-start width s e h =
    let z : width - width ≡ 0 = omega arith in
    grow_block-IsBlock width width s e (omega arith) (rw z (omega arith)) (rw z (omega arith))

-- The blocks of a list stand one behind the other, from `s` up to and with `e`.
abbrev pub Tiles : ℕ → ℕ → ℕ → List Cidr → Type 0
Tiles width e s [] = s ≡ suc e
Tiles width e s (b ∷ bs) =
    (b.addr ≡ s) × IsBlock width e s b.plen × Tiles width e (s + 2 ^ (width - b.plen)) bs

pub carve-Tiles :
    (width fuel s e : ℕ)
    → s ≤ suc e
    → e < 2 ^ width
    → suc e - s ≤ fuel
    → Tiles width e s (carve width fuel s e)
unfolding carve
carve-Tiles width zero s e h lt w = omega arith
carve-Tiles width (suc fuel) s e h lt w = elim (Bool-cases (ltb e s)) [
  | inl t ↦ rw t (ground arith)
  | inr t ↦
      let b : IsBlock width e s (grow_block width width s e) =
        grow_block-start width s e (ground arith) in
      elim (Bool-cases (ltb (2 ^ width - 1) (s + 2 ^ (width - grow_block width width s e)))) [
        | inl u ↦ rw (t, u) (refl, b, ground (arith, b.fits))
        | inr u ↦
            rw (t, u)
              (
                refl,
                b,
                carve-Tiles width fuel (s + 2 ^ (width - grow_block width width s e)) e b.fits lt
                    (omega (arith, pow-pos (width - grow_block width width s e))),
              )
      ]
]

abbrev pub in_block : ℕ → ℕ → Cidr → Bool
in_block width x b = leb b.addr x && ltb x (b.addr + 2 ^ (width - b.plen))

-- How many of the blocks hold an address.
abbrev pub count_blocks : ℕ → ℕ → List Cidr → ℕ
count_blocks width x [] = 0
count_blocks width x (b ∷ bs) = (if in_block width x b then 1 else 0) + count_blocks width x bs

abbrev pub once_within : ℕ → ℕ → ℕ → ℕ
once_within s e x = if leb s x && leb x e then 1 else 0

pub Tiles-count :
    (width e s x : ℕ) (bs : List Cidr)
    → s ≤ suc e
    → Tiles width e s bs
    → count_blocks width x bs ≡ once_within s e x
Tiles-count width e s x [] h t = ground arith
Tiles-count width e s x (b ∷ bs) h t = ground (
  arith,
  t.1.fits,
  t.0,
  pow-pos (width - b.plen),
  Tiles-count width e (s + 2 ^ (width - b.plen)) x bs t.1.fits t.2,
)

-- Every block is aligned, lies below the end of the family, and cannot be enlarged within the range.
abbrev pub Blocks : ℕ → ℕ → List Cidr → Type 0
Blocks width e = All (λ b. IsBlock width e b.addr b.plen)

pub Tiles-Blocks : (width e s : ℕ) (bs : List Cidr) → Tiles width e s bs → Blocks width e bs
Tiles-Blocks width e s [] t = tt
Tiles-Blocks width e s (b ∷ bs) t =
    (rw t.0 t.1, Tiles-Blocks width e (s + 2 ^ (width - b.plen)) bs t.2)

carve_empty : (width fuel s e : ℕ) → e < s → carve width fuel s e ≡ []
unfolding carve
carve_empty width zero s e h = refl
carve_empty width (suc fuel) s e h = ground arith

-- The walk over a range that lies below the end of the family, with enough rounds.
pub carve-exact :
    (width fuel s e : ℕ)
    → e < 2 ^ width
    → suc e - s ≤ fuel
    → ((x : ℕ) → count_blocks width x (carve width fuel s e) ≡ once_within s e x)
      × Blocks width e (carve width fuel s e)
carve-exact width fuel s e h w = elim (Bool-cases (ltb e s)) [
  | inl t ↦ rw (carve_empty width fuel s e (ground arith)) (λ x. ground arith, tt)
  | inr t ↦
      let tiles : Tiles width e s (carve width fuel s e) =
        carve-Tiles width fuel s e (ground arith) h w in
      (
        λ x. Tiles-count width e s x (carve width fuel s e) (ground arith) tiles,
        Tiles-Blocks width e s (carve width fuel s e) tiles,
      )
]

-- For a range of IPv4 addresses, whatever its ends, every address within it lies in exactly one of
-- the blocks and every other address in none; each block is aligned to its size and is the largest
-- that begins where it does, is aligned and stays within the range.
pub range_to_cidrs4-exact :
    (s e : ℕ)
    → e < 2 ^ 32
    → ((x : ℕ) → count_blocks 32 x (range_to_cidrs4 s e) ≡ once_within s e x)
      × Blocks 32 e (range_to_cidrs4 s e)
unfolding range_to_cidrs4
range_to_cidrs4-exact s e h = carve-exact 32 (suc (e - s)) s e h (omega arith)
