-- ===== src/Mrs/Reader.antt =====
-- internal/rules/parse_mrs.go: the reads from a `bytes.Reader`, and the head of a binary list. The
-- reader is the list of the bytes that are left.
pub mod Slices
use purewrt.Prelude.{
  ℕ, zero, suc, ◌+◌, ◌-◌, ◌*◌, ◌/◌, ◌^◌, ◌≡◌, Bool, true, false, not, ◌&&◌, ◌||◌, List, [], ◌∷◌,
  ltb, leb, ◌==◌, if◌then◌else◌, length, take, drop, Result, ok, err, ◌>>=◌,
}
use purewrt.Text.{Text, text_eq}
use purewrt.Prelude.Int.{ℤ, pos, negsuc}

abbrev pub Bytes : Type 0
Bytes = List ℕ

pub data MrsError : Type 0 where
  eof unexpected_eof : MrsError
  invalid_magic invalid_extra_length unsupported_behavior empty_decoded : MrsError
  zstd_failed gzip_failed payload_too_large unsupported_encoding : MrsError
  non_native invalid_count not_domain_behavior : MrsError
  invalid_cidr_version invalid_cidr_length : MrsError
  invalid_domain_version invalid_labels_length invalid_slice_length : MrsError
  depth_limit invalid_bitmap_index invalid_label_index : MrsError

-- What a read returns: a value and the bytes behind it.
abbrev pub Read {ℓ} : Type ℓ → Type ℓ
Read A = Result MrsError (A × Bytes)

-- `io.ReadFull` of `n` bytes.
unfoldable pub read_full : ℕ → Bytes → Read Bytes
read_full n r =
    if leb n (length r)
    then ok (take n r, drop n r)
    else if length r == 0
    then err eof
    else err unexpected_eof

unfoldable pub read_byte : Bytes → Read ℕ
read_byte [] = err eof
read_byte (b ∷ r) = ok (b, r)

-- The number of a list of bytes, the most significant first.
unfoldable pub big_endian : ℕ → Bytes → ℕ
big_endian acc [] = acc
big_endian acc (b ∷ bs) = big_endian (acc * 256 + b) bs

-- `int64` of a bit pattern.
unfoldable pub to_int64 : ℕ → ℤ
to_int64 w = if ltb w (2 ^ 63) then pos w else negsuc (2 ^ 64 - 1 - w)

-- `binary.Read` into an `int64` and into a `uint64`.
unfoldable pub read_uint64 : Bytes → Read ℕ
unfolding read_full big_endian
read_uint64 r = do (bytes, rest) ← read_full 8 r; ok (big_endian 0 bytes, rest)

unfoldable pub read_int64 : Bytes → Read ℤ
unfolding read_uint64 to_int64
read_int64 r = do (w, rest) ← read_uint64 r; ok (to_int64 w, rest)

-- A declared length, where it is not negative and at most `limit`.
unfoldable pub checked_length : ℤ → ℕ → MrsError → Result MrsError ℕ
checked_length (negsuc n) limit e = err e
checked_length (pos n) limit e = if ltb limit n then err e else ok n

-- The loop of `readUint64Slice`.
unfoldable pub read_uint64s : ℕ → Bytes → Read (List ℕ)
unfolding read_uint64
read_uint64s zero r = ok ([], r)
read_uint64s (suc n) r = do
  (w, rest) ← read_uint64 r
  (ws, end) ← read_uint64s n rest
  ok (w ∷ ws, end)

unfoldable pub read_uint64_slice : Bytes → Read (List ℕ)
unfolding read_int64 checked_length read_uint64s
read_uint64_slice r = do
  (declared, rest) ← read_int64 r
  n ← checked_length declared (length rest / 8) invalid_slice_length
  read_uint64s n rest

-- `MRS` and the version 1.
abbrev pub magic : Bytes
magic = 77 ∷ 82 ∷ 83 ∷ 1 ∷ []

abbrev pub is_native : Bytes → Bool
is_native payload = leb 4 (length payload) && text_eq (take 4 payload) magic

-- The extra bytes of the head, which are skipped.
unfoldable pub skip_extra : MrsError → Bytes → Result MrsError Bytes
unfolding read_int64 checked_length
skip_extra failure r = do
  (extra, rest) ← read_int64 r
  n ← checked_length extra (length rest) failure
  ok (drop n rest)

-- The head: the behavior and the count, and the bytes behind the extra ones.
pub record Head : Type 0 where
  pub behavior : ℕ
  pub count : ℤ
  pub body : Bytes

unfoldable pub read_head : Bytes → Result MrsError Head
unfolding read_full read_byte read_int64 skip_extra
read_head r = do
  (start, r1) ← read_full 4 r
  (behavior, r2) ← if text_eq start magic then read_byte r1 else err invalid_magic
  (count, r3) ← read_int64 r2
  body ← skip_extra invalid_extra_length r3
  ok (record { behavior = behavior; count = count; body = body })
