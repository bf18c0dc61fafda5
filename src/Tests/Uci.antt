-- ===== src/Tests/Uci.antt =====
-- internal/config/uci.go and write.go at a section with two options and a list.
use purewrt.Prelude.{◌≡◌, refl, true, not, ◌||◌, List, [], ◌∷◌, All, any, map, some, if◌then◌else◌}
use purewrt.Text.{Text, codes, text_eq}
use purewrt.Text.Space.{is_space, trim_left, trim_space}
use purewrt.Text.Parts.{join}
use purewrt.Config.Model.{is_empty}
use purewrt.Config.Uci.{
  get_values, id_name, section_header, is_uci_id, uci_sections, q, escape_quotes, fields,
  fields_from, trim_char, trim_left_char, unq,
}
use purewrt.Config.Uci.Written.{
  Written, IsWritten, single, many, section_lines, view, said, header_line, id_text,
}
use purewrt.Config.Uci.Lines.{uci_sections-section_lines}
use purewrt.Config.Uci.Names.{header_id, id_name-section_header}

abbrev written : List Written
written =
    record {
      typ = codes "vpn";
      id = some (codes "a");
      items = single (codes "on") (codes "1") ∷ many (codes "ip") (codes "x y") ∷ [];
    }
    ∷ []

written-IsWritten : All IsWritten written
unfolding is_space is_empty unq trim_char trim_left_char trim_space trim_left q escape_quotes fields
    fields_from join
written-IsWritten = (
  (
    (((refl, (refl, (refl, tt))), refl), refl),
    (((refl, tt), refl, refl), ((refl, (refl, (refl, tt))), refl)),
    (
      ((((refl, (refl, tt)), refl), refl), ((refl, tt), refl, refl)),
      (((((refl, (refl, tt)), refl), refl), ((refl, (refl, (refl, tt))), refl, refl)), tt),
    ),
  ),
  tt,
)

uci_sections-section_lines_example :
    map (view (codes "ip")) (uci_sections (section_lines written)) ≡ map (said (codes "ip")) written
uci_sections-section_lines_example =
    uci_sections-section_lines written (codes "ip") written-IsWritten

-- The section of this name is there already, so the name is an option.
abbrev taken : List Text
taken = codes "vpn_home" ∷ []

home_refused : (section_header (codes "vpn") (codes "vpn_") (codes "home") taken).2 ≡ true
unfolding section_header text_eq is_empty
home_refused = refl

id_name-section_header_example :
    (id_name
        ((
          codes "name",
          (if (section_header (codes "vpn") (codes "vpn_") (codes "home") taken).2
              then codes "home" ∷ []
              else []),
        )
          ∷ [])
        (id_text (
          header_id
            (section_header (codes "vpn") (codes "vpn_") (codes "home") taken)
            (codes "vpn_home")))
        (codes "vpn_")
      ≡ codes "home")
    × ((section_header (codes "vpn") (codes "vpn_") (codes "home") taken).0
        ≡ header_line (codes "vpn") (
            header_id
              (section_header (codes "vpn") (codes "vpn_") (codes "home") taken)
              (codes "vpn_home")))
    × ((section_header (codes "vpn") (codes "vpn_") (codes "home") taken).2
        ≡ (any (text_eq (codes "vpn_home")) taken || not (is_uci_id (codes "home"))))
unfolding is_empty get_values text_eq
id_name-section_header_example =
    id_name-section_header (codes "vpn") (codes "vpn_") (codes "home") taken
      ((
        codes "name",
        (if (section_header (codes "vpn") (codes "vpn_") (codes "home") taken).2
            then codes "home" ∷ []
            else []),
      )
        ∷ [])
      refl refl

-- A quote that is written comes back with the signs around it, and of two blanks one comes back.
quote_kept : unq (q (codes "it's")) ≡ codes "it'\\''s"
unfolding unq q escape_quotes trim_char trim_left_char trim_space trim_left is_space
quote_kept = refl

blank_lost : join (fields (q (codes "a  b"))) (32 ∷ []) ≡ q (codes "a b")
unfolding join fields fields_from q escape_quotes is_space is_empty
blank_lost = refl
