-- ===== src/Ipdb/Rows.antt =====
-- `parseTSV` and `Lookup` of internal/ipdb/db.go together.
use purewrt.Prelude.{
  ℕ, ◌≤◌, ◌<◌, ◌%◌, ◌^◌, ◌≡◌, ◌≢◌, ◌⊎◌, ◌∙◌, refl, List, [], ◌∷◌, arith, some, Bool-cases, inl, inr,
  All, if◌then◌else◌, true, false,
}
use purewrt.Prelude.Sort.{
  sort_by, insert_by, All-insert_by, All-sort_by, Ordered, sort_by-Ordered, sort_by-ne-nil,
}
use purewrt.Text.{Text}
use purewrt.Ipdb.{
  Addr, invalid, v4, v6, is_4in6, Db, Entry, Answer, no_answer, lookup_entries, lookup_addr,
  start_less, read_lines, parse_tsv,
}
use purewrt.Ipdb.Lookup.{scan_rows, Separate, lookup_entries-scan}

abbrev pub Apart : Entry → Entry → Type 0
Apart e f = (e.end_ip < f.start_ip) ⊎ (f.end_ip < e.start_ip)

-- Rows that are ranges and do not meet one another, in any order.
abbrev pub Disjoint : List Entry → Type 0
Disjoint [] = Unit
Disjoint (e ∷ es) = (e.start_ip ≤ e.end_ip) × All (Apart e) es × Disjoint es

Apart-symm : (e f : Entry) → Apart e f → Apart f e
Apart-symm e f (inl h) = inr h
Apart-symm e f (inr h) = inl h

Disjoint-insert_by :
    (e : Entry) (es : List Entry)
    → e.start_ip ≤ e.end_ip
    → All (Apart e) es
    → Disjoint es
    → Disjoint (insert_by start_less e es)
unfolding insert_by
Disjoint-insert_by e [] v a d = (v, tt, tt)
Disjoint-insert_by e (f ∷ fs) v a d = elim (Bool-cases (start_less f e)) [
  | inl h ↦ rw h (
    d.0,
    All-insert_by start_less (Apart f) e fs (Apart-symm e f a.0) d.1,
    Disjoint-insert_by e fs v a.1 d.2,
  )
  | inr h ↦ rw h (v, a, d)
]

Disjoint-sort_by : (es : List Entry) → Disjoint es → Disjoint (sort_by start_less es)
unfolding sort_by
Disjoint-sort_by [] d = tt
Disjoint-sort_by (e ∷ es) d =
    Disjoint-insert_by e (sort_by start_less es) d.0 (All-sort_by start_less (Apart e) es d.1)
      (Disjoint-sort_by es d.2)

start_less_asym : (a b : Entry) → start_less a b ≡ true → start_less b a ≡ false
start_less_asym a b h = ground arith

-- Later rows begin behind a row that begins no later.
All-behind :
    (n : ℕ) (e f : Entry) (fs : List Entry)
    → e.start_ip ≤ n
    → n ≤ f.start_ip
    → Ordered start_less (f ∷ fs)
    → All (Apart e) (f ∷ fs)
    → Disjoint (f ∷ fs)
    → All (λ g. e.end_ip < g.start_ip) (f ∷ fs)
All-behind n e f [] h k o a d = (behind a.0, tt)
  where
    behind : Apart e f → e.end_ip < f.start_ip
    behind (inl x) = x
    behind (inr x) = absurd (omega arith)
All-behind n e f (g ∷ fs) h k o a d = (behind a.0, All-behind n e g fs h (ground arith) o.1 a.1 d.2)
  where
    behind : Apart e f → e.end_ip < f.start_ip
    behind (inl x) = x
    behind (inr x) = absurd (omega arith)

Ordered-Separate : (es : List Entry) → Ordered start_less es → Disjoint es → Separate es
Ordered-Separate [] o d = tt
Ordered-Separate (e ∷ []) o d = (d.0, tt, tt)
Ordered-Separate (e ∷ f ∷ fs) o d = (
  d.0,
  All-behind e.start_ip e f fs (omega arith) (ground arith) o.1 d.1 d.2,
  Ordered-Separate (f ∷ fs) o.1 d.2,
)

scan_rows-swap :
    (e f : Entry) (es : List Entry) (n : ℕ)
    → e.start_ip ≤ e.end_ip
    → Apart e f
    → scan_rows (f ∷ e ∷ es) n ≡ scan_rows (e ∷ f ∷ es) n
unfolding scan_rows
scan_rows-swap e f es n v a = ground arith

scan_rows-cong :
    (f : Entry) (es fs : List Entry) (n : ℕ)
    → scan_rows es n ≡ scan_rows fs n
    → scan_rows (f ∷ es) n ≡ scan_rows (f ∷ fs) n
unfolding scan_rows
scan_rows-cong f es fs n h = ground arith

scan_rows-insert_by :
    (e : Entry) (es : List Entry) (n : ℕ)
    → e.start_ip ≤ e.end_ip
    → All (Apart e) es
    → scan_rows (insert_by start_less e es) n ≡ scan_rows (e ∷ es) n
unfolding insert_by
scan_rows-insert_by e [] n v a = refl
scan_rows-insert_by e (f ∷ fs) n v a = elim (Bool-cases (start_less f e)) [
  | inl h ↦ rw h (
      scan_rows-cong f (insert_by start_less e fs) (e ∷ fs) n (scan_rows-insert_by e fs n v a.1)
      ∙ scan_rows-swap e f fs n v a.0)
  | inr h ↦ rw h
]

scan_rows-sort_by :
    (es : List Entry) (n : ℕ) → Disjoint es → scan_rows (sort_by start_less es) n ≡ scan_rows es n
unfolding sort_by
scan_rows-sort_by [] n d = refl
scan_rows-sort_by (e ∷ es) n d =
    scan_rows-insert_by e (sort_by start_less es) n d.0 (All-sort_by start_less (Apart e) es d.1)
    ∙ scan_rows-cong e (sort_by start_less es) es n (scan_rows-sort_by es n d.2)

sorted-lookup :
    (es : List Entry) (n : ℕ)
    → Disjoint es
    → lookup_entries (sort_by start_less es) n ≡ scan_rows es n
sorted-lookup es n d =
    lookup_entries-scan (sort_by start_less es) n (
      Ordered-Separate (sort_by start_less es) (sort_by-Ordered start_less start_less_asym es)
        (Disjoint-sort_by es d))
    ∙ scan_rows-sort_by es n d

-- The rows that were read, searched one by one in the table of the address's family.
pub scan_addr : Db → Addr → Answer
scan_addr db (v4 n) = scan_rows db.entries n
scan_addr db (v6 n) =
    if is_4in6 n then scan_rows db.entries (n % 2 ^ 32) else scan_rows db.entries6 n
scan_addr db invalid = no_answer

abbrev empty_db : Db
empty_db = record { entries = []; entries6 = [] }

-- The loaded tables are the rows in order.
loaded : Db → Db
loaded db = record {
  entries = sort_by start_less db.entries;
  entries6 = sort_by start_less db.entries6;
}

lookup_addr-loaded :
    (db : Db) (a : Addr)
    → db.entries ≢ []
    → Disjoint db.entries
    → Disjoint db.entries6
    → lookup_addr (some (loaded db)) a ≡ scan_addr db a
unfolding lookup_addr scan_addr loaded
lookup_addr-loaded db (v4 n) h d4 d6 =
    ground (arith, sort_by-ne-nil start_less db.entries h, sorted-lookup db.entries n d4)
lookup_addr-loaded db (v6 n) h d4 d6 = ground (
  arith,
  sort_by-ne-nil start_less db.entries h,
  sorted-lookup db.entries (n % 2 ^ 32) d4,
  sorted-lookup db.entries6 n d6,
)
lookup_addr-loaded db invalid h d4 d6 = ground arith

-- If the rows that were read do not meet one another within a family, and there is a row for IPv4,
-- then a lookup in the loaded tables gives what the rows themselves say of the address, row by row in
-- the order of the file: the data of the row that holds it, or nothing if no row does, or if that row
-- has number zero.
pub lookup_addr-parse_tsv :
    (parse_ip parse_addr : Text → Addr) (lines : List Text) (a : Addr)
    → (read_lines parse_ip parse_addr lines empty_db).entries ≢ []
    → Disjoint (read_lines parse_ip parse_addr lines empty_db).entries
    → Disjoint (read_lines parse_ip parse_addr lines empty_db).entries6
    → lookup_addr (some (parse_tsv parse_ip parse_addr lines)) a
      ≡ scan_addr (read_lines parse_ip parse_addr lines empty_db) a
unfolding parse_tsv loaded
lookup_addr-parse_tsv parse_ip parse_addr lines a h d4 d6 =
    lookup_addr-loaded (read_lines parse_ip parse_addr lines empty_db) a h d4 d6
