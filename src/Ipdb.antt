-- ===== src/Ipdb.antt =====
-- internal/ipdb/db.go: the table of address ranges, read from the lines of a TSV file.
pub mod Lookup
pub mod Rows
pub mod Blocks
pub mod Cover
pub mod Cover6
use purewrt.Prelude.{
  ℕ, zero, suc, ◌+◌, ◌-◌, ◌*◌, ◌/◌, ◌%◌, ◌^◌, Bool, true, false, not, ◌&&◌, ◌||◌, List, [], ◌∷◌,
  ◌++◌, Option, none, some, ltb, ◌==◌, if◌then◌else◌, length, get_elem?,
}
use purewrt.Prelude.Sort.{sort_by}
use purewrt.Prelude.Search.{search_first}
use purewrt.Text.{Text}
use purewrt.Text.Decimal.{parse_uint32}
use purewrt.Text.Space.{trim_space}
use purewrt.Text.Parts.{split_n}

-- `netip.Addr`, by the number that its bytes spell; a zone plays no part here.
pub data Addr : Type 0 where
  invalid : Addr
  v4 : ℕ → Addr
  v6 : ℕ → Addr

-- `::ffff:a.b.c.d`.
abbrev pub is_4in6 : ℕ → Bool
is_4in6 n = n / 2 ^ 32 == 0xffff

-- `entry` and `entry6`; a 16-byte address is the number that its bytes spell, which `bytes.Compare`
-- orders in the same way.
pub record Entry : Type 0 where
  pub start_ip : ℕ
  pub end_ip : ℕ
  pub asn : ℕ
  pub cc : Text
  pub org : Text

pub record Db : Type 0 where
  pub entries : List Entry
  pub entries6 : List Entry

pub record Answer : Type 0 where
  pub asn : ℕ
  pub as_org : Text
  pub country : Text

abbrev pub no_answer : Answer
no_answer = record { asn = 0; as_org = []; country = [] }

abbrev pub start_less : Entry → Entry → Bool
start_less a b = ltb a.start_ip b.start_ip

-- What the standard library makes of a text: `net.ParseIP`, which refuses zones, and
-- `netip.ParseAddr`.
module _ (parse_ip parse_addr : Text → Addr) where
  unfoldable pub parse_ipv4 : Text → Option ℕ
  parse_ipv4 s = elim (parse_ip s) [
    | invalid ↦ none
    | v4 n ↦ some n
    | v6 n ↦ if is_4in6 n then some (n % 2 ^ 32) else none
  ]

  unfoldable pub parse_ipv6 : Text → Option ℕ
  parse_ipv6 s = elim (parse_addr s) [
    | invalid ↦ none
    | v4 n ↦ none
    | v6 n ↦ if is_4in6 n then none else some n
  ]

  -- The row that the fields spell, for the table of its family.
  unfoldable pub add_row : Text → Text → ℕ → Text → Text → Db → Db
  unfolding parse_ipv4 parse_ipv6
  add_row first last asn country org db =
      let row : ℕ → ℕ → Entry = λ s e. record {
        start_ip = s;
        end_ip = e;
        asn = asn;
        cc = trim_space country;
        org = trim_space org;
      } in
      elim (parse_ipv4 first) [
        | some s ↦ elim (parse_ipv4 last) [
          | none ↦ db
          | some e ↦ record db { entries = db.entries ++ row s e ∷ [] }
        ]
        | none ↦ elim (parse_ipv6 first) [
          | none ↦ db
          | some s ↦ elim (parse_ipv6 last) [
            | none ↦ db
            | some e ↦ record db { entries6 = db.entries6 ++ row s e ∷ [] }
          ]
        ]
      ]

  unfoldable pub add_fields : List Text → Db → Db
  unfolding add_row
  add_fields (first ∷ last ∷ asn ∷ country ∷ org ∷ []) db = elim (parse_uint32 asn) [
    | none ↦ db
    | some n ↦ add_row first last n country org db
  ]
  add_fields fields db = db

  abbrev pub is_comment : Text → Bool
  is_comment [] = true
  is_comment (c ∷ _) = c == b'#'

  unfoldable pub add_line : Text → Db → Db
  unfolding add_fields
  add_line line db = if is_comment line then db else add_fields (split_n 4 line b'\t') db

  unfoldable pub read_lines : List Text → Db → Db
  unfolding add_line
  read_lines [] db = db
  read_lines (line ∷ lines) db = read_lines lines (add_line line db)

  -- `parseTSV` on the lines that the scanner gives out. The scanner's error behind the loop, which a
  -- line over 1 MiB raises, is not modelled. Interning the texts does not change them.
  unfoldable pub parse_tsv : List Text → Db
  parse_tsv lines =
      let db = read_lines lines (record { entries = []; entries6 = [] }) in
      record { entries = sort_by start_less db.entries; entries6 = sort_by start_less db.entries6 }

unfoldable pub answer : Entry → ℕ → Answer
answer e needle =
    if ltb e.end_ip needle
    then no_answer
    else if e.asn == 0
    then no_answer
    else record { asn = e.asn; as_org = e.org; country = e.cc }

-- The test that `sort.Search` is given; it is called within bounds only.
unfoldable pub starts_after : List Entry → ℕ → ℕ → Bool
starts_after es needle i = elim (get_elem? es i) [ none ↦ true | some e ↦ ltb needle e.start_ip ]

unfoldable pub entry_before : List Entry → ℕ → ℕ → Answer
unfolding answer
entry_before es needle zero = no_answer
entry_before es needle (suc i) = elim (get_elem? es i) [
  | none ↦ no_answer
  | some e ↦ answer e needle
]

unfoldable pub lookup_entries : List Entry → ℕ → Answer
unfolding starts_after entry_before search_first
lookup_entries es needle =
    entry_before es needle (search_first (starts_after es needle) (length es))

-- `Lookup` with `lookup6`; `none` is the nil database.
unfoldable pub lookup_addr : Option Db → Addr → Answer
unfolding lookup_entries
lookup_addr none ip = no_answer
lookup_addr (some db) ip = elim db.entries [
  | [] ↦ no_answer
  | _ ↦ elim ip [
    | v4 n ↦ lookup_entries db.entries n
    | v6 n ↦
        if is_4in6 n then lookup_entries db.entries (n % 2 ^ 32) else lookup_entries db.entries6 n
    | invalid ↦ no_answer
  ]
]

unfoldable pub count : Option Db → ℕ
count none = 0
count (some db) = length db.entries + length db.entries6
