-- ===== src/Config/Uci.antt =====
-- internal/config/uci.go and write.go: the lines of a UCI file, read into sections and written.
pub mod Words
pub mod Written
pub mod Values
pub mod Lines
pub mod Names
use mathlib.Core.List.{reverse}
use purewrt.Prelude.{
  ℕ, ◌+◌, Bool, true, false, not, ◌&&◌, ◌||◌, List, [], ◌∷◌, ◌++◌, Option, none, some, any, all,
  ◌==◌, if◌then◌else◌,
}
use purewrt.Text.{Text, codes, text_eq}
use purewrt.Text.Space.{is_space, trim_space}
use purewrt.Text.Case.{to_lower}
use purewrt.Text.Parts.{join}
use purewrt.Text.Find.{has_prefix}
use purewrt.Config.Model.{is_empty}
use purewrt.Config.Applications.{is_word, is_nil}

-- `strings.Fields`, with the word that is open.
unfoldable pub fields_from : Text → Text → List Text
fields_from word [] = if is_empty word then [] else word ∷ []
fields_from word (c ∷ s) =
    let rest = fields_from [] s in
    let longer = fields_from (word ++ c ∷ []) s in
    if not (is_space c) then longer else if is_empty word then rest else word ∷ rest

unfoldable pub fields : Text → List Text
fields s = fields_from [] s

-- `strings.Trim` by one code point.
unfoldable pub trim_left_char : ℕ → Text → Text
trim_left_char mark [] = []
trim_left_char mark (c ∷ s) = let rest = trim_left_char mark s in if c == mark then rest else c ∷ s

unfoldable pub trim_char : ℕ → Text → Text
trim_char mark s = reverse (trim_left_char mark (reverse (trim_left_char mark s)))

unfoldable pub unq : Text → Text
unq v = trim_char b'"' (trim_char 39 (trim_space v))

-- The options of a section, in the order of their first lines.
abbrev pub Options : Type 0
Options = List (Text × List Text)

unfoldable pub get_values : Text → Options → List Text
get_values key [] = []
get_values key ((k, vals) ∷ opts) =
    let rest = get_values key opts in if text_eq k key then vals else rest

unfoldable pub set_option : Text → Text → Options → Options
set_option key val [] = (key, val ∷ []) ∷ []
set_option key val ((k, vals) ∷ opts) =
    let rest = set_option key val opts in
    if text_eq k key then (k, val ∷ []) ∷ opts else (k, vals) ∷ rest

unfoldable pub add_to_list : Text → Text → Options → Options
add_to_list key val [] = (key, val ∷ []) ∷ []
add_to_list key val ((k, vals) ∷ opts) =
    let rest = add_to_list key val opts in
    if text_eq k key then (k, vals ++ val ∷ []) ∷ opts else (k, vals) ∷ rest

pub record UciSection : Type 0 where
  pub typ : Text
  pub name : Text
  pub opts : Options

-- The sections that are closed, the one that is open, `none` before the first, and the number of the
-- lines that were skipped with a warning.
pub record UciState : Type 0 where
  pub sections : List UciSection
  pub current : Option UciSection
  pub warnings : ℕ

abbrev pub warned : UciState → UciState
warned st = record st { warnings = st.warnings + 1 }

-- A section without a type is dropped.
abbrev pub closed : Option UciSection → List UciSection → List UciSection
closed none sections = sections
closed (some s) sections = if is_empty s.typ then sections else sections ++ s ∷ []

abbrev pub first_unq : List Text → Text
first_unq [] = []
first_unq (w ∷ words) = unq w

-- `config`, by the words behind it.
abbrev pub open_section : List Text → UciState → UciState
open_section [] st = warned st
open_section (typ ∷ words) st = record st {
  sections = closed st.current st.sections;
  current = some (record { typ = unq typ; name = first_unq words; opts = [] });
}

-- `option` and `list`, by the words behind them.
abbrev pub add_value : (Text → Text → Options → Options) → List Text → UciState → UciState
add_value add [] st = warned st
add_value add (key ∷ []) st = warned st
add_value add (key ∷ word ∷ words) st = elim st.current [
  | none ↦ warned st
  | some s ↦ record st {
    current = some (record s { opts = add (unq key) (unq (join (word ∷ words) (32 ∷ []))) s.opts });
  }
]

-- `switch fields[0]`.
abbrev pub directive : List Text → UciState → UciState
directive [] st = warned st
directive (word ∷ []) st = warned st
directive (word ∷ key ∷ words) st =
    if text_eq word (codes "config")
    then open_section (key ∷ words) st
    else if text_eq word (codes "option")
    then add_value set_option (key ∷ words) st
    else if text_eq word (codes "list")
    then add_value add_to_list (key ∷ words) st
    else warned st

-- A round of the loop of `Load` over the tokens of the scanner.
unfoldable pub read_line : UciState → Text → UciState
read_line st text =
    let line = trim_space text in
    if is_empty line || has_prefix (codes "#") line then st else directive (fields line) st

unfoldable pub read_uci : List Text → UciState → UciState
read_uci [] st = st
read_uci (line ∷ lines) st = read_uci lines (read_line st line)

unfoldable pub uci_sections : List Text → List UciSection
uci_sections lines =
    let st = read_uci lines (record { sections = []; current = none; warnings = 0 }) in
    closed st.current st.sections

-- `one` and `b`.
abbrev pub one_of : List Text → Text → Text
one_of [] d = d
one_of (v ∷ vals) d = v

unfoldable pub one : Options → Text → Text → Text
one m k d = one_of (get_values k m) d

unfoldable pub flag : Options → Text → Bool → Bool
flag m k d =
    let v = one m k [] in
    if is_empty v
    then d
    else text_eq v (codes "1")
      || text_eq (to_lower v) (codes "true")
      || text_eq (to_lower v) (codes "yes")

-- `strings.CutPrefix`.
unfoldable pub cut_prefix : Text → Text → Option Text
cut_prefix [] s = some s
cut_prefix (p ∷ prefix) [] = none
cut_prefix (p ∷ prefix) (c ∷ s) = let rest = cut_prefix prefix s in if c == p then rest else none

abbrev pub id_rest : Option Text → Text → Text
id_rest none id = id
id_rest (some rest) id = if is_empty rest then id else rest

unfoldable pub id_name : Options → Text → Text → Text
id_name m id prefix =
    let name = one m (codes "name") [] in
    if is_empty name then id_rest (cut_prefix prefix id) id else name

-- `q`: a quote in the value is closed, escaped and opened again.
unfoldable pub escape_quotes : Text → Text
escape_quotes [] = []
escape_quotes (c ∷ s) =
    let rest = escape_quotes s in if c == 39 then 39 ∷ 92 ∷ 39 ∷ 39 ∷ rest else c ∷ rest

unfoldable pub q : Text → Text
q v = 39 ∷ escape_quotes v ++ 39 ∷ []

-- The lines of `opt` and `listv`, without the line break.
unfoldable pub opt_line : Text → Text → Text
opt_line key val = codes "    option " ++ (key ++ 32 ∷ q val)

unfoldable pub list_line : Text → Text → Text
list_line key val = codes "    list " ++ (key ++ 32 ∷ q val)

abbrev pub is_uci_id : Text → Bool
is_uci_id name = not (is_empty name) && all is_word name

-- `sectionHeader`: the line, the ids seen, and whether the name wants an option of its own.
unfoldable pub section_header : Text → Text → Text → List Text → Text × List Text × Bool
section_header typ prefix name seen =
    let id = prefix ++ name in
    if not (any (text_eq id) seen) && is_uci_id name
    then (codes "config " ++ (typ ++ 32 ∷ q id), id ∷ seen, false)
    else (codes "config " ++ typ, id ∷ seen, true)
