-- ===== src/Config/Uci/Names.antt =====
-- The name of a section, in its id or as an option.
use purewrt.Prelude.{
  ◌≡◌, refl, sym, ap, ◌∙◌, Bool, true, false, not, ◌&&◌, ◌||◌, List, [], ◌∷◌, ◌++◌, any, Option,
  none, some, if◌then◌else◌, Bool-cases, inl, inr, arith,
}
use purewrt.Text.{Text, codes, text_eq}
use purewrt.Config.Model.{is_empty}
use purewrt.Config.Uci.{Options, get_values, one, cut_prefix, id_name, section_header, is_uci_id}
use purewrt.Config.Uci.Written.{header_line, id_text}

cut_prefix-append : (prefix name : Text) → cut_prefix prefix (prefix ++ name) ≡ some name
unfolding cut_prefix
cut_prefix-append [] name = refl
cut_prefix-append (p ∷ prefix) name = ground (arith, cut_prefix-append prefix name)

refused : (a b : Bool) → (a || not b) ≡ not (not a && b)
refused true b = refl
refused false b = refl

-- The id that a header gives, where the name needs no option.
abbrev pub header_id : Text × List Text × Bool → Text → Option Text
header_id (line, seen, needs_option) id = if needs_option then none else some id

-- A name that is not empty is read back from a section with the header that is written for it, where
-- the section has the option for the name exactly when the header asks for it; the header line has the
-- id with the prefix, or none where the file has this id already or the name is no
-- identifier.
pub id_name-section_header :
    (typ prefix name : Text) (seen : List Text) (opts : Options)
    → is_empty name ≡ false
    → get_values (codes "name") opts
      ≡ (if (section_header typ prefix name seen).2 then name ∷ [] else [])
    → (id_name opts
          (id_text (header_id (section_header typ prefix name seen) (prefix ++ name)))
          prefix
        ≡ name)
      × ((section_header typ prefix name seen).0
          ≡ header_line typ (header_id (section_header typ prefix name seen) (prefix ++ name)))
      × ((section_header typ prefix name seen).2
          ≡ (any (text_eq (prefix ++ name)) seen || not (is_uci_id name)))
unfolding section_header id_name one is_empty
id_name-section_header typ prefix name seen opts e h =
    elim (Bool-cases (not (any (text_eq (prefix ++ name)) seen) && is_uci_id name)) [
      | inl f ↦ (
        rw (f, (rw f at h), cut_prefix-append prefix name, e) refl,
        rw f refl,
        rw f (sym (refused _ _ ∙ ap not f)),
      )
      | inr f ↦ (rw (f, (rw f at h), e) refl, rw f refl, rw f (sym (refused _ _ ∙ ap not f)))
    ]
