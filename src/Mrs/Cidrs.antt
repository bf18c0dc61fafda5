-- ===== src/Mrs/Cidrs.antt =====
-- internal/rules/parse_mrs.go: readMRSCIDRs and streamMRSCIDRs.
pub mod Streamed
use purewrt.Mrs.Stream.{Stopped, call, emit_all, with_read, and_then}
use purewrt.Prelude.{
  ℕ, zero, suc, ◌+◌, ◌*◌, ◌/◌, ◌^◌, Bool, List, [], ◌∷◌, ◌++◌, ◌==◌, if◌then◌else◌, length, Result,
  ok, err, ◌>>=◌, Option, none, some,
}
use purewrt.Text.{Text, text_eq}
use purewrt.Mrs.Words.{Word128, MrsPrefix, range_to_prefixes}
use purewrt.Mrs.Reader.{
  Bytes, MrsError, invalid_cidr_version, invalid_cidr_length, Read, read_full, read_uint64,
  read_int64, checked_length,
}

-- `[16]byte`, as the two words that `addrToUint` makes of it.
unfoldable pub read_addr : Bytes → Read Word128
read_addr r = do
  (hi, r1) ← read_uint64 r
  (lo, r2) ← read_uint64 r1
  ok (record { hi = hi; lo = lo }, r2)

-- The version and the number of ranges, which both functions read first.
unfoldable pub read_cidr_count : Bytes → Read ℕ
read_cidr_count r = do
  (version, r1) ← read_full 1 r
  (declared, r2) ← (if text_eq version (1 ∷ []) then read_int64 r1 else err invalid_cidr_version)
  n ← checked_length declared (length r2 / 32) invalid_cidr_length
  ok (n, r2)

unfoldable pub read_ranges : ℕ → Bytes → Result MrsError (List MrsPrefix)
read_ranges zero r = ok []
read_ranges (suc n) r = do
  (from, r1) ← read_addr r
  (to, r2) ← read_addr r1
  rest ← read_ranges n r2
  ok (range_to_prefixes from to ++ rest)

unfoldable pub read_mrs_cidrs : Bytes → Result MrsError (List MrsPrefix)
unfolding read_cidr_count
read_mrs_cidrs r = do (n, r1) ← read_cidr_count r; read_ranges n r1

module _ {S E : Type 0} (emit : Option (S → MrsPrefix → S × Option E)) where
  -- The loop of `streamMRSCIDRs`, which gives out the prefixes of a range before it reads the next.
  unfoldable pub stream_ranges : ℕ → S → Bytes → S × Option (Stopped E)
  stream_ranges zero s r = (s, none)
  stream_ranges (suc n) s r = with_read (read_addr r) s λ (from, r1).
      with_read (read_addr r1) s λ (to, r2).
        and_then (emit_all (call emit) s (range_to_prefixes from to)) λ s'. stream_ranges n s' r2

  unfoldable pub stream_mrs_cidrs : S → Bytes → S × Option (Stopped E)
  unfolding read_cidr_count
  stream_mrs_cidrs s r = with_read (read_cidr_count r) s λ (n, r1). stream_ranges n s r1
