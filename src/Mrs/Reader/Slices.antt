-- ===== src/Mrs/Reader/Slices.antt =====
-- What the reads of numbers take, and slices of numbers.
use purewrt.Prelude.{ℕ, ◌+◌, ◌≤◌, ◌≡◌, refl, arith, length, take, drop, length-drop, ok, leb, true}
use purewrt.Prelude.Int.{ℤ, pos, negsuc}
use purewrt.Mrs.Reader.{Bytes, MrsError, read_full, read_uint64, big_endian, checked_length}

read_full-ok : (n : ℕ) (r : Bytes) → n ≤ length r → read_full n r ≡ ok (take n r, drop n r)
unfolding read_full
read_full-ok n r h = let t : leb n (length r) ≡ true = ground arith in rw t refl

pub read_uint64-ok :
    (r : Bytes)
    → 8 ≤ length r
    → (w : ℕ) × (rest : Bytes) × (read_uint64 r ≡ ok (w, rest)) × (length rest + 8 ≡ length r)
unfolding read_uint64
read_uint64-ok r h = (
  big_endian 0 (take 8 r),
  drop 8 r,
  rw (read_full-ok 8 r h) refl,
  omega (arith, length-drop 8 r),
)

pub checked_length-bound :
    (declared : ℤ) (limit : ℕ) (failure : MrsError) (n : ℕ)
    → checked_length declared limit failure ≡ ok n
    → n ≤ limit
unfolding checked_length
checked_length-bound (negsuc k) limit failure n h = cc
checked_length-bound (pos k) limit failure n h = ground (arith, h)
