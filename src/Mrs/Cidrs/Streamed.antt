-- ===== src/Mrs/Cidrs/Streamed.antt =====
-- Streaming and reading a list of ranges of internal/rules/parse_mrs.go.
use purewrt.Prelude.{
  ℕ, zero, suc, ◌+◌, ◌*◌, ◌/◌, ◌≤◌, ◌≡◌, refl, sym, ap, ◌∙◌, arith, List, [], ◌∷◌, ◌++◌, length,
  Option, ok, err, >>=-ok, ok-injective, Result-cases, if◌then◌else◌, inl, inr,
}
use purewrt.Text.{text_eq}
use mathlib.Core.Path.{fun_ext}
use purewrt.Mrs.Words.{Word128, MrsPrefix, range_to_prefixes}
use purewrt.Mrs.Reader.{
  Bytes, read_full, checked_length, invalid_cidr_length, invalid_cidr_version, read_int64,
}
use purewrt.Mrs.Reader.Slices.{read_uint64-ok, checked_length-bound}
use purewrt.Mrs.Stream.{call, emit_all, with_read, and_then, emit_all-append}
use purewrt.Mrs.Cidrs.{
  read_addr, read_cidr_count, read_ranges, read_mrs_cidrs, stream_ranges, stream_mrs_cidrs,
}

read_addr-ok :
    (r : Bytes)
    → 16 ≤ length r
    → (a : Word128) × (rest : Bytes) × (read_addr r ≡ ok (a, rest)) × (length rest + 16 ≡ length r)
unfolding read_addr
read_addr-ok r h =
    let (hi, r1, e, l) = read_uint64-ok r (omega arith) in
    let (lo, r2, f, m) = read_uint64-ok r1 (omega (arith, l)) in
    (record { hi = hi; lo = lo }, r2, rw (e, f) refl, omega (arith, l, m))

-- Behind the check of the declared length no read fails.
read_ranges-ok :
    (n : ℕ) (r : Bytes) → n * 32 ≤ length r → (ps : List MrsPrefix) × (read_ranges n r ≡ ok ps)
unfolding read_ranges
read_ranges-ok zero r h = ([], refl)
read_ranges-ok (suc n) r h =
    let (from, r1, e, l) = read_addr-ok r (omega arith) in
    let (to, r2, f, m) = read_addr-ok r1 (omega (arith, l)) in
    let (ps, g) = read_ranges-ok n r2 (omega (arith, l, m)) in
    (range_to_prefixes from to ++ ps, rw (e, f, g) refl)

read_cidr_count-bound :
    (r : Bytes) (n : ℕ) (r1 : Bytes) → read_cidr_count r ≡ ok (n, r1) → n * 32 ≤ length r1
unfolding read_cidr_count
read_cidr_count-bound r n r1 h =
    let ((version, r2), e, h1) = >>=-ok (read_full 1 r) _ h in
    let ((declared, r3), f, h2) =
      >>=-ok (if text_eq version (1 ∷ []) then read_int64 r2 else err invalid_cidr_version) _ h1 in
    let (k, g, h3) = >>=-ok (checked_length declared (length r3 / 32) invalid_cidr_length) _ h2 in
    ground (
      arith,
      checked_length-bound declared (length r3 / 32) invalid_cidr_length k g,
      h3,
      ap length (ap (λ t. t.1) (ok-injective h3)),
    )

module _ {S E : Type 0} (emit : Option (S → MrsPrefix → S × Option E)) where
  stream_ranges-emit :
      (n : ℕ) (s : S) (r : Bytes)
      → n * 32 ≤ length r
      → stream_ranges emit n s r ≡ with_read (read_ranges n r) s (λ ps. emit_all (call emit) s ps)
  unfolding stream_ranges read_ranges
  stream_ranges-emit zero s r h = unfold emit_all in refl
  stream_ranges-emit (suc n) s r h =
      let (from, r1, e, l) = read_addr-ok r (omega arith) in
      let (to, r2, f, m) = read_addr-ok r1 (omega (arith, l)) in
      let (ps, g) = read_ranges-ok n r2 (omega (arith, l, m)) in
      go from to r1 r2 ps e f g (λ s'.
        stream_ranges-emit n s' r2 (omega (arith, l, m))
        ∙ ap (λ t. with_read t s' (λ qs. emit_all (call emit) s' qs)) g)
    where
      go :
          (from to : Word128) (r1 r2 : Bytes) (ps : List MrsPrefix)
          → read_addr r ≡ ok (from, r1)
          → read_addr r1 ≡ ok (to, r2)
          → read_ranges n r2 ≡ ok ps
          → ((s' : S) → stream_ranges emit n s' r2 ≡ emit_all (call emit) s' ps)
          → stream_ranges emit (suc n) s r
            ≡ with_read (read_ranges (suc n) r) s (λ qs. emit_all (call emit) s qs)
      go from to r1 r2 ps e f g later =
          rw (e, f, g)
            (ap (and_then (emit_all (call emit) s (range_to_prefixes from to))) (fun_ext later)
              ∙ sym (emit_all-append (call emit) s (range_to_prefixes from to) ps))

  -- Streaming a list of ranges gives the callback, one after the other, exactly the prefixes that
  -- reading the list returns, up to the first that it refuses; where reading fails, the callback gets
  -- nothing and the stream ends with the same fault.
  pub stream_mrs_cidrs-read :
      (s : S) (r : Bytes)
      → stream_mrs_cidrs emit s r ≡ with_read (read_mrs_cidrs r) s (λ ps. emit_all (call emit) s ps)
  unfolding stream_mrs_cidrs read_mrs_cidrs
  stream_mrs_cidrs-read s r = elim (Result-cases (read_cidr_count r)) [
    | inl ((n, r1), e) ↦ rw e (stream_ranges-emit n s r1 (read_cidr_count-bound r n r1 e))
    | inr (failure, e) ↦ rw e refl
  ]
