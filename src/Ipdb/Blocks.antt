-- ===== src/Ipdb/Blocks.antt =====
-- internal/ipdb/db.go: the CIDR blocks of a range, and the prefixes of an autonomous system.
use purewrt.Prelude.{
  ℕ, zero, suc, ◌+◌, ◌-◌, ◌/◌, ◌%◌, ◌^◌, Bool, true, false, not, List, [], ◌∷◌, ◌++◌, Option, none,
  some, ltb, ◌==◌, if◌then◌else◌,
}
use purewrt.Text.{Text}
use purewrt.Text.Decimal.{itoa}
use purewrt.Ipdb.{Entry, Db}

-- The block of `2 ^ (width - plen)` addresses from `addr` on.
pub record Cidr : Type 0 where
  pub addr : ℕ
  pub plen : ℕ

-- The inner loop: shorten the prefix as long as the larger block is aligned and does not overshoot.
unfoldable pub grow_block : ℕ → ℕ → ℕ → ℕ → ℕ
grow_block width zero start last = zero
grow_block width (suc new_plen) start last =
    let size = 2 ^ (width - new_plen) in
    let shorter = grow_block width new_plen start last in
    if not (start % size == 0)
    then suc new_plen
    else if ltb last (start + size - 1)
    then suc new_plen
    else shorter

-- The loop `for start <= end`, which stops behind the last address of the family. Every round goes at
-- least one address on.
unfoldable pub carve : ℕ → ℕ → ℕ → ℕ → List Cidr
carve width zero start last = []
carve width (suc fuel) start last =
    let plen = grow_block width width start last in
    let next = start + 2 ^ (width - plen) in
    let rest = carve width fuel next last in
    let block : Cidr = record { addr = start; plen = plen } in
    if ltb last start then [] else if ltb (2 ^ width - 1) next then block ∷ [] else block ∷ rest

unfoldable pub range_to_cidrs4 : ℕ → ℕ → List Cidr
range_to_cidrs4 start last = carve 32 (suc (last - start)) start last

-- Bit `127 - i` of a 16-byte address, for `i = 127 - k`.
abbrev pub bit_of : ℕ → ℕ → ℕ
bit_of k addr = addr / 2 ^ k % 2

-- The loops of `aligned6` and `lastInBlock6` over the `k` bits behind the prefix.
unfoldable pub host_bits_zero : ℕ → ℕ → Bool
host_bits_zero zero addr = true
host_bits_zero (suc k) addr =
    let rest = host_bits_zero k addr in if not (bit_of k addr == 0) then false else rest

unfoldable pub set_host_bits : ℕ → ℕ → ℕ
set_host_bits zero addr = addr
set_host_bits (suc k) addr = set_host_bits k (if bit_of k addr == 0 then addr + 2 ^ k else addr)

unfoldable pub aligned6 : ℕ → ℕ → Bool
unfolding host_bits_zero
aligned6 addr plen = host_bits_zero (128 - plen) addr

unfoldable pub last_in_block6 : ℕ → ℕ → ℕ
unfolding set_host_bits
last_in_block6 addr plen = set_host_bits (128 - plen) addr

-- The carry goes through the bytes, and is left over after the highest address.
unfoldable pub inc6 : ℕ → ℕ × Bool
inc6 addr = ((addr + 1) % 2 ^ 128, (addr + 1) % 2 ^ 128 == 0)

unfoldable pub grow_block6 : ℕ → ℕ → ℕ → ℕ
grow_block6 zero cur last = zero
grow_block6 (suc new_plen) cur last =
    let shorter = grow_block6 new_plen cur last in
    if not (aligned6 cur new_plen)
    then suc new_plen
    else if ltb last (last_in_block6 cur new_plen)
    then suc new_plen
    else shorter

unfoldable pub carve6 : ℕ → ℕ → ℕ → List Cidr
carve6 zero cur last = []
carve6 (suc fuel) cur last =
    let plen = grow_block6 128 cur last in
    let (next, overflow) = inc6 (last_in_block6 cur plen) in
    let rest = carve6 fuel next last in
    let block : Cidr = record { addr = cur; plen = plen } in
    if ltb last cur then [] else if overflow then block ∷ [] else block ∷ rest

unfoldable pub range_to_prefixes6 : ℕ → ℕ → List Cidr
range_to_prefixes6 start last = carve6 (suc (last - start)) start last

-- `cidrString`.
unfoldable pub cidr_string : Cidr → Text
unfolding itoa
cidr_string b =
    itoa (b.addr / 2 ^ 24 % 256)
    ++ b'.'
      ∷ (itoa (b.addr / 2 ^ 16 % 256)
          ++ b'.'
            ∷ (itoa (b.addr / 2 ^ 8 % 256) ++ b'.' ∷ (itoa (b.addr % 256) ++ b'/' ∷ itoa b.plen)))

-- A prefix of either family, as the text of `Prefixes` is made from it.
pub data Prefix : Type 0 where
  prefix4 prefix6 : Cidr → Prefix

pub record AsInfo : Type 0 where
  pub asn : ℕ
  pub as_org : Text
  pub country : Text
  pub prefixes : List Prefix
  pub ranges : ℕ

abbrev pub first_text : Text → Text → Text
first_text [] new = new
first_text (c ∷ old) new = c ∷ old

abbrev pub map_prefix : (Cidr → Prefix) → List Cidr → List Prefix
map_prefix f [] = []
map_prefix f (b ∷ bs) = f b ∷ map_prefix f bs

-- One round of either loop, with the blocks that the family makes of the range.
unfoldable pub add_range : (ℕ → ℕ → List Prefix) → Entry → AsInfo → AsInfo
add_range blocks e info = record info {
  ranges = info.ranges + 1;
  as_org = first_text info.as_org e.org;
  country = first_text info.country e.cc;
  prefixes = info.prefixes ++ blocks e.start_ip e.end_ip;
}

unfoldable pub add_ranges : (ℕ → ℕ → List Prefix) → ℕ → List Entry → AsInfo → AsInfo
unfolding add_range
add_ranges blocks asn [] info = info
add_ranges blocks asn (e ∷ es) info =
    add_ranges blocks asn es (if e.asn == asn then add_range blocks e info else info)

abbrev pub blocks4 : ℕ → ℕ → List Prefix
blocks4 start last = map_prefix prefix4 (range_to_cidrs4 start last)

abbrev pub blocks6 : ℕ → ℕ → List Prefix
blocks6 start last = map_prefix prefix6 (range_to_prefixes6 start last)

abbrev pub no_info : ℕ → AsInfo
no_info asn = record { asn = asn; as_org = []; country = []; prefixes = []; ranges = 0 }

unfoldable pub prefixes_for_asn : Option Db → ℕ → AsInfo
prefixes_for_asn none asn = no_info asn
prefixes_for_asn (some db) asn =
    if asn == 0
    then no_info asn
    else add_ranges blocks6 asn db.entries6 (add_ranges blocks4 asn db.entries (no_info asn))
