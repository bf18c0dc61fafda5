-- ===== src/Config/Ports.antt =====
-- internal/config/section_match.go: destination ports of a section.
pub mod Cover
pub mod Canonical
pub mod Print
pub mod Intersect
pub mod Normal
use purewrt.Prelude.{
  ℕ, suc, ◌+◌, ◌≤◌, ◌<◌, min, max, Bool, true, false, ◌&&◌, ◌||◌, List, [], ◌∷◌, ◌++◌, map, Option,
  none, some, Result, ok, err, ◌>>=◌, ltb, leb, ◌==◌, if◌then◌else◌, any,
}
use purewrt.Prelude.Int.{ℤ, pos, negsuc}
use purewrt.Prelude.Sort.{sort_by}
use purewrt.Text.{Text, codes}
use purewrt.Text.Decimal.{itoa, atoi}
use purewrt.Text.Space.{trim_space}
use purewrt.Text.Parts.{split, join}

pub record PortRange : Type 0 where
  pub first : ℕ
  pub last : ℕ

-- The errors of `parsePortRanges`, with the token that the message quotes.
pub data PortError : Type 0 where
  invalid_port : Text → PortError
  invalid_range : Text → PortError

-- `a, err := strconv.Atoi(…)` with the test behind it: a port, or the error.
unfoldable pub first_port : Text → Text → Result PortError ℕ
first_port token part = elim (atoi (trim_space part)) [
  | none ↦ err (invalid_port token)
  | some (negsuc _) ↦ err (invalid_port token)
  | some (pos a) ↦ if ltb a 1 || ltb 65535 a then err (invalid_port token) else ok a
]

unfoldable pub last_port : Text → ℕ → Text → Result PortError PortRange
last_port token a part = elim (atoi (trim_space part)) [
  | none ↦ err (invalid_range token)
  | some (negsuc _) ↦ err (invalid_range token)
  | some (pos b) ↦
      if ltb b a || ltb 65535 b
      then err (invalid_range token)
      else ok (record { first = a; last = b })
]

-- The body of the loop for the parts of a token; `split` never returns the empty list.
unfoldable pub parse_parts : Text → List Text → Result PortError PortRange
unfolding first_port last_port
parse_parts token [] = err (invalid_port token)
parse_parts token (p ∷ []) = do a ← first_port token p; ok (record { first = a; last = a })
parse_parts token (p ∷ q ∷ []) = do a ← first_port token p; last_port token a q
parse_parts token (p ∷ q ∷ r ∷ rest) = err (invalid_range token)

unfoldable pub parse_token : Text → Result PortError PortRange
unfolding parse_parts
parse_token token = parse_parts token (split (trim_space token) b'-')

unfoldable pub parse_tokens : List Text → Result PortError (List PortRange)
parse_tokens [] = ok []
parse_tokens (t ∷ ts) = do r ← parse_token t; rs ← parse_tokens ts; ok (r ∷ rs)

abbrev pub first_less : PortRange → PortRange → Bool
first_less a b = ltb a.first b.first

abbrev pub widen : PortRange → PortRange → PortRange
widen m r = if ltb m.last r.last then record m { last = r.last } else m

-- The loop over the sorted ranges; `m` is the last element of `merged`, which alone can still grow.
unfoldable pub merge_from : PortRange → List PortRange → List PortRange
merge_from m [] = m ∷ []
merge_from m (r ∷ rs) =
    let grown = merge_from (widen m r) rs in
    let next = m ∷ merge_from r rs in if leb r.first (m.last + 1) then grown else next

unfoldable pub merge : List PortRange → List PortRange
unfolding merge_from
merge [] = []
merge (r ∷ rs) = merge_from r rs

unfoldable pub parse_port_ranges : Text → Result PortError (List PortRange)
unfolding parse_tokens merge sort_by
parse_port_ranges value = elim (trim_space value) [
  | [] ↦ ok []
  | _ ↦ do out ← parse_tokens (split value b','); ok (merge (sort_by first_less out))
]

unfoldable pub format_range : PortRange → Text
format_range r = if r.last == r.first then itoa r.first else itoa r.first ++ b'-' ∷ itoa r.last

unfoldable pub format_port_ranges : List PortRange → Text
format_port_ranges ranges = join (map format_range ranges) (b',' ∷ b' ' ∷ [])

unfoldable pub normalize_destination_ports : Text → Result PortError Text
normalize_destination_ports value = do
  ranges ← parse_port_ranges value
  ok (format_port_ranges ranges)

-- The inner loop over `br`, and the outer one over `ar`.
unfoldable pub intersect_one : PortRange → List PortRange → List PortRange
intersect_one x [] = []
intersect_one x (y ∷ ys) =
    let lo = max x.first y.first in
    let hi = min x.last y.last in
    let rest = intersect_one x ys in
    if leb lo hi then record { first = lo; last = hi } ∷ rest else rest

unfoldable pub intersect_all : List PortRange → List PortRange → List PortRange
unfolding intersect_one
intersect_all [] ys = []
intersect_all (x ∷ xs) ys = intersect_one x ys ++ intersect_all xs ys

abbrev pub not_empty : List PortRange → Bool
not_empty [] = false
not_empty (_ ∷ _) = true

unfoldable pub intersect_parsed : List PortRange → List PortRange → Text × Bool
unfolding intersect_all
intersect_parsed [] br = (format_port_ranges br, true)
intersect_parsed (a ∷ ar) [] = (format_port_ranges (a ∷ ar), true)
intersect_parsed (a ∷ ar) (b ∷ br) =
    let out = intersect_all (a ∷ ar) (b ∷ br) in (format_port_ranges out, not_empty out)

unfoldable pub intersect_destination_ports : Text → Text → Text × Bool
intersect_destination_ports a b = elim (parse_port_ranges a) [
  | err _ ↦ ([], false)
  | ok ar ↦ elim (parse_port_ranges b) [ err _ ↦ ([], false) | ok br ↦ intersect_parsed ar br ]
]

-- Which ports a list of ranges names.
abbrev pub in_range : ℕ → PortRange → Bool
in_range p r = leb r.first p && leb p r.last

abbrev pub covers : List PortRange → ℕ → Bool
covers rs p = any (in_range p) rs
