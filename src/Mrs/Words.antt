-- ===== src/Mrs/Words.antt =====
-- internal/rules/parse_mrs.go: arithmetic on 128-bit addresses in two words, and rangeToPrefixes.
pub mod Digits
pub mod Value
pub mod Exact
use purewrt.Prelude.{
  ℕ, zero, suc, ◌+◌, ◌-◌, ◌*◌, ◌/◌, ◌%◌, ◌^◌, Bool, ◌&&◌, ◌||◌, List, [], ◌∷◌, min, ltb, leb, ◌==◌,
  if◌then◌else◌,
}

-- `[2]uint64`, the high word first.
pub record Word128 : Type 0 where
  pub hi : ℕ
  pub lo : ℕ

-- `bits.TrailingZeros` of a word of `k` bits.
unfoldable pub trailing_zeros : ℕ → ℕ → ℕ
trailing_zeros zero w = 0
trailing_zeros (suc k) w = let rest = trailing_zeros k (w / 2) in if w % 2 == 0 then suc rest else 0

-- `bits.Len` of a word of `k` bits, and `bits.LeadingZeros64` by it.
unfoldable pub bit_length : ℕ → ℕ → ℕ
bit_length zero w = 0
bit_length (suc k) w = let rest = bit_length k (w / 2) in if w == 0 then 0 else suc rest

unfoldable pub leading_zeros64 : ℕ → ℕ
leading_zeros64 w = 64 - bit_length 64 w

unfoldable pub trailing_zeros128 : Word128 → ℕ → ℕ
trailing_zeros128 v bit_len =
    if bit_len == 32
    then trailing_zeros 32 (v.lo % 2 ^ 32)
    else if v.lo == 0
    then 64 + trailing_zeros 64 v.hi
    else trailing_zeros 64 v.lo

unfoldable pub sub128 : Word128 → Word128 → Word128
sub128 a b =
    let borrow : ℕ = if ltb a.lo b.lo then 1 else 0 in
    record {
      hi = (a.hi + 2 ^ 64 + 2 ^ 64 - b.hi - borrow) % 2 ^ 64;
      lo = (a.lo + 2 ^ 64 - b.lo) % 2 ^ 64;
    }

unfoldable pub add_one128 : Word128 → Word128
add_one128 v =
    let lo : ℕ = (v.lo + 1) % 2 ^ 64 in
    record { hi = if lo == 0 then (v.hi + 1) % 2 ^ 64 else v.hi; lo = lo }

unfoldable pub floor_log2_128 : Word128 → ℕ
floor_log2_128 v =
    if v.hi == 0
    then if v.lo == 0 then 0 else 63 - leading_zeros64 v.lo
    else 64 + 63 - leading_zeros64 v.hi

-- A shift of a word by 64 and more gives 0, which `2 ^ (pow - 64) % 2 ^ 64` is too.
unfoldable pub add_pow2 : Word128 → ℕ → Word128
add_pow2 v pow =
    let lo : ℕ = (v.lo + 2 ^ pow) % 2 ^ 64 in
    if leb 64 pow
    then record v { hi = (v.hi + 2 ^ (pow - 64) % 2 ^ 64) % 2 ^ 64 }
    else record { hi = if ltb lo v.lo then (v.hi + 1) % 2 ^ 64 else v.hi; lo = lo }

-- `netip.Addr.BitLen` of `AddrFrom16(b).Unmap()`: the addresses of ::ffff:0:0/96 are IPv4.
unfoldable pub bit_len_of : Word128 → ℕ
bit_len_of v = if v.hi == 0 && v.lo / 2 ^ 32 == 0xffff then 32 else 128

-- A prefix: its first address in 16 bytes, the bits of its family and its length.
pub record MrsPrefix : Type 0 where
  pub addr : Word128
  pub bits_len : ℕ
  pub plen : ℕ

abbrev pub at_most : Word128 → Word128 → Bool
at_most a b = ltb a.hi b.hi || (a.hi == b.hi && leb a.lo b.lo)

-- The size of the next block: as far as the address is aligned and the range goes.
unfoldable pub block_bits : Word128 → Word128 → ℕ → ℕ
block_bits cur last bits_len =
    min (trailing_zeros128 cur bits_len) (floor_log2_128 (add_one128 (sub128 last cur)))

-- The loop, which a round takes at least one address on.
unfoldable pub cut_range : ℕ → Word128 → Word128 → ℕ → List MrsPrefix
cut_range zero cur last bits_len = []
cut_range (suc fuel) cur last bits_len =
    let size = block_bits cur last bits_len in
    let next = add_pow2 cur size in
    let rest = cut_range fuel next last bits_len in
    let block : MrsPrefix = record { addr = cur; bits_len = bits_len; plen = bits_len - size } in
    if at_most cur last
    then if next.hi == 0 && next.lo == 0 && bits_len == 128 then block ∷ [] else block ∷ rest
    else []

-- The address as a number.
abbrev pub value : Word128 → ℕ
value v = v.hi * 2 ^ 64 + v.lo

unfoldable pub range_to_prefixes : Word128 → Word128 → List MrsPrefix
unfolding cut_range bit_len_of
range_to_prefixes from to =
    if bit_len_of from == bit_len_of to
    then cut_range (suc (value to - value from)) from to (bit_len_of from)
    else []
