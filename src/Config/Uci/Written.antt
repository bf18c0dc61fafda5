-- ===== src/Config/Uci/Written.antt =====
-- Sections as they are written, and what a reader should make of them.
use purewrt.Prelude.{List, [], ◌∷◌, ◌++◌, map, All, Option, none, some, if◌then◌else◌}
use purewrt.Text.{Text, codes, text_eq}
use purewrt.Config.Uci.{
  Options, set_option, add_to_list, UciSection, q, opt_line, list_line, get_values,
}
use purewrt.Config.Uci.Words.{IsWord, IsKey, IsValue}

pub data Item : Type 0 where
  single many : Text → Text → Item

pub record Written : Type 0 where
  pub typ : Text
  pub id : Option Text
  pub items : List Item

abbrev pub item_line : Item → Text
item_line (single key val) = opt_line key val
item_line (many key val) = list_line key val

abbrev pub header_line : Text → Option Text → Text
header_line typ none = codes "config " ++ typ
header_line typ (some id) = codes "config " ++ (typ ++ 32 ∷ q id)

-- A blank line ends a section.
unfoldable pub section_lines : List Written → List Text
section_lines [] = []
section_lines (s ∷ ss) = header_line s.typ s.id ∷ map item_line s.items ++ [] ∷ section_lines ss

abbrev pub IsItem : Item → Type 0
IsItem (single key val) = IsKey key × IsValue val
IsItem (many key val) = IsKey key × IsValue val

abbrev pub IsId : Option Text → Type 0
IsId none = Unit
IsId (some id) = IsValue id × IsWord (q id)

abbrev pub IsWritten : Written → Type 0
IsWritten s = IsKey s.typ × IsId s.id × All IsItem s.items

-- An option replaces what stands under its name, a list adds to it.
abbrev pub apply_item : Options → Item → Options
apply_item opts (single key val) = set_option key val opts
apply_item opts (many key val) = add_to_list key val opts

unfoldable pub apply_items : List Item → Options → Options
apply_items [] opts = opts
apply_items (i ∷ items) opts = apply_items items (apply_item opts i)

abbrev pub id_text : Option Text → Text
id_text none = []
id_text (some id) = id

abbrev pub read_back : Written → UciSection
read_back s = record { typ = s.typ; name = id_text s.id; opts = apply_items s.items [] }

-- What lines say of the option `key`, with the values that it has before them.
abbrev pub add_said : Text → List Text → Item → List Text
add_said key vals (single k val) = if text_eq k key then val ∷ [] else vals
add_said key vals (many k val) = if text_eq k key then vals ++ val ∷ [] else vals

unfoldable pub said_values : Text → List Item → List Text → List Text
said_values key [] vals = vals
said_values key (i ∷ items) vals = said_values key items (add_said key vals i)

abbrev pub said : Text → Written → Text × Text × List Text
said key s = (s.typ, id_text s.id, said_values key s.items [])

-- A section that was read, at one option.
abbrev pub view : Text → UciSection → Text × Text × List Text
view key s = (s.typ, s.name, get_values key s.opts)
