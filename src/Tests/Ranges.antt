-- ===== src/Tests/Ranges.antt =====
-- internal/ipdb/db.go at concrete tables and ranges.
use purewrt.Prelude.{
  ℕ, ◌+◌, ◌*◌, ◌^◌, ◌≡◌, ◌≢◌, refl, List, [], ◌∷◌, ◌++◌, some, if◌then◌else◌, inr, arith,
}
use purewrt.Text.{Text, codes, text_eq}
use purewrt.Text.Parts.{split_n}
use purewrt.Text.Decimal.{parse_uint32}
use purewrt.Text.Space.{trim_space}
use purewrt.Ipdb.{Addr, invalid, v4, Entry, read_lines, parse_tsv, lookup_entries, lookup_addr}
use purewrt.Ipdb.Lookup.{scan_rows, lookup_entries-scan}
use purewrt.Ipdb.Rows.{Disjoint, scan_addr, lookup_addr-parse_tsv}
use purewrt.Ipdb.Blocks.{range_to_cidrs4, range_to_prefixes6, carve, grow_block}
use purewrt.Ipdb.Cover.{Blocks, count_blocks, once_within, range_to_cidrs4-exact}
use purewrt.Ipdb.Cover6.{range_to_prefixes6-exact}

-- Stands for the parsers of addresses: it knows the four texts of the table below.
abbrev known_addr : Text → Addr
known_addr t =
    if text_eq t (codes "9.0.0.0")
    then v4 (9 * 2 ^ 24)
    else if text_eq t (codes "9.0.0.255")
    then v4 (9 * 2 ^ 24 + 255)
    else if text_eq t (codes "1.0.0.0")
    then v4 (2 ^ 24)
    else if text_eq t (codes "1.0.3.255")
    then v4 (2 ^ 24 + 1023)
    else invalid

abbrev tsv : List Text
tsv =
    codes "# ranges"
    ∷ (codes "9.0.0.0"
        ++ b'\t' ∷ codes "9.0.0.255"
        ++ b'\t' ∷ codes "7"
        ++ b'\t' ∷ codes "US"
        ++ b'\t' ∷ codes "NINE")
    ∷ (codes "1.0.0.0"
        ++ b'\t' ∷ codes "1.0.3.255"
        ++ b'\t' ∷ codes "13335"
        ++ b'\t' ∷ codes "AU"
        ++ b'\t' ∷ codes "ONE")
    ∷ codes "broken"
    ∷ []

abbrev nine : Entry
nine = record {
  start_ip = 9 * 2 ^ 24;
  end_ip = 9 * 2 ^ 24 + 255;
  asn = 7;
  cc = codes "US";
  org = codes "NINE";
}

abbrev one : Entry
one = record {
  start_ip = 2 ^ 24;
  end_ip = 2 ^ 24 + 1023;
  asn = 13335;
  cc = codes "AU";
  org = codes "ONE";
}

tsv_read :
    read_lines known_addr known_addr tsv (record { entries = []; entries6 = [] })
    ≡ record { entries = nine ∷ one ∷ []; entries6 = [] }
unfolding read_lines split_n parse_uint32 text_eq trim_space
tsv_read = refl

lookup_entries-scan_example :
    lookup_entries (one ∷ nine ∷ []) (2 ^ 24 + 8) ≡ scan_rows (one ∷ nine ∷ []) (2 ^ 24 + 8)
lookup_entries-scan_example =
    lookup_entries-scan (one ∷ nine ∷ []) (2 ^ 24 + 8)
      (omega arith, (omega arith, tt), (omega arith, tt, tt))

tsv-Disjoint :
    Disjoint (read_lines known_addr known_addr tsv (record { entries = []; entries6 = [] })).entries
tsv-Disjoint = rw tsv_read (omega arith, (inr (omega arith), tt), (omega arith, tt, tt))

tsv-not-blank :
    (read_lines known_addr known_addr tsv (record { entries = []; entries6 = [] })).entries ≢ []
tsv-not-blank = rw tsv_read (λ h. cc)

tsv-Disjoint6 :
    Disjoint
      (read_lines known_addr known_addr tsv (record { entries = []; entries6 = [] })).entries6
tsv-Disjoint6 = rw tsv_read tt

lookup_addr-parse_tsv_example :
    lookup_addr (some (parse_tsv known_addr known_addr tsv)) (v4 (2 ^ 24 + 1))
    ≡ scan_addr
        (read_lines known_addr known_addr tsv (record { entries = []; entries6 = [] }))
        (v4 (2 ^ 24 + 1))
lookup_addr-parse_tsv_example =
    lookup_addr-parse_tsv known_addr known_addr tsv (v4 (2 ^ 24 + 1)) tsv-not-blank tsv-Disjoint
      tsv-Disjoint6

small_range :
    range_to_cidrs4 1 6
    ≡ record { addr = 1; plen = 32 }
      ∷ record { addr = 2; plen = 31 }
      ∷ record { addr = 4; plen = 31 }
      ∷ record { addr = 6; plen = 32 }
      ∷ []
unfolding range_to_cidrs4 carve grow_block
small_range = refl

range_to_cidrs4-exact_example :
    ((x : ℕ) → count_blocks 32 x (range_to_cidrs4 1 6) ≡ once_within 1 6 x)
    × Blocks 32 6 (range_to_cidrs4 1 6)
range_to_cidrs4-exact_example = range_to_cidrs4-exact 1 6 (omega arith)

range_to_prefixes6-exact_example :
    ((x : ℕ) → count_blocks 128 x (range_to_prefixes6 1 6) ≡ once_within 1 6 x)
    × Blocks 128 6 (range_to_prefixes6 1 6)
range_to_prefixes6-exact_example = range_to_prefixes6-exact 1 6 (omega arith)
