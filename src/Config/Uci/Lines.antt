-- ===== src/Config/Uci/Lines.antt =====
-- The loop of internal/config/uci.go over the lines that write.go writes.
use purewrt.Prelude.{
  ℕ, ◌≡◌, refl, sym, ap, ap₂, ◌∙◌, false, List, [], ◌∷◌, ◌++◌, map, append-nil, append_assoc, All,
  Option, none, some,
}
use purewrt.Text.{Text, codes, text_eq}
use purewrt.Text.Space.{is_space, trim_left, trim_space}
use purewrt.Text.Parts.{join}
use purewrt.Text.Find.{has_prefix}
use purewrt.Config.Model.{is_empty}
use purewrt.Config.Uci.{
  fields, unq, Options, set_option, add_to_list, UciSection, UciState, closed, add_value, directive,
  read_line, read_uci, uci_sections, q, opt_line, list_line,
}
use purewrt.Config.Uci.Words.{
  IsWord, IsKey, fields_word, fields-word, unq-q, Solid, Solid-append, q-Solid, IsWord-Solid,
  trim_space-Solid,
}
use purewrt.Config.Uci.Written.{
  Item, single, many, Written, item_line, header_line, section_lines, IsItem, IsId, IsWritten,
  apply_item, apply_items, id_text, read_back, view, said,
}
use purewrt.Config.Uci.Values.{view-read_back}

-- A line that has four blanks in front, or none, and ends in a quote or a word.
directive-line :
    (st : UciState) (c : ℕ) (s : Text)
    → trim_space (c ∷ s) ≡ c ∷ s
    → has_prefix (codes "#") (c ∷ s) ≡ false
    → read_line st (c ∷ s) ≡ directive (fields (c ∷ s)) st
unfolding read_line is_empty
directive-line st c s e h = rw (e, h) refl

indented : (st : UciState) (s : Text) → read_line st (32 ∷ 32 ∷ 32 ∷ 32 ∷ s) ≡ read_line st s
unfolding read_line trim_space trim_left is_space
indented st s = refl

is_option : IsWord (codes "option")
unfolding is_space is_empty
is_option = ((refl, (refl, (refl, (refl, (refl, (refl, tt)))))), refl)

is_list : IsWord (codes "list")
unfolding is_space is_empty
is_list = ((refl, (refl, (refl, (refl, tt)))), refl)

is_config : IsWord (codes "config")
unfolding is_space is_empty
is_config = ((refl, (refl, (refl, (refl, (refl, (refl, tt)))))), refl)

with_current : UciState → UciSection → UciState
with_current st s = record st { current = some s }

value_words :
    (add : Text → Text → Options → Options) (key val : Text) (words : List Text)
    (sections : List UciSection) (s : UciSection) (n : ℕ)
    → unq key ≡ key
    → unq (q val) ≡ val
    → join words (32 ∷ []) ≡ q val
    → add_value add (key ∷ words) (record { sections = sections; current = some s; warnings = n })
      ≡ record {
        sections = sections;
        current = some (record s { opts = add key val s.opts });
        warnings = n;
      }
value_words add key val [] sections s n k u h = unfold join q in cc h
value_words add key val (word ∷ words) sections s n k u h =
    ap
      (λ (kv : Text × Text). record {
        sections = sections;
        current = some (record s { opts = add kv.0 kv.1 s.opts });
        warnings = n;
      })
      (ap₂ (λ x y. (x, y)) k (ap unq h ∙ u))

-- The words of a line that has a keyword, a name and a quoted value.
line_words :
    (word key val : Text)
    → IsWord word
    → IsWord key
    → fields (word ++ 32 ∷ (key ++ 32 ∷ q val)) ≡ word ∷ key ∷ fields (q val)
line_words word key val h k = fields_word word _ h ∙ ap (λ t. word ∷ t) (fields_word key (q val) k)

ends_quoted : (word key val : Text) → Solid (word ++ 32 ∷ (key ++ 32 ∷ q val))
ends_quoted word key val =
    Solid-append word _
      (Solid-append (32 ∷ []) _ (Solid-append key _ (Solid-append (32 ∷ []) _ (q-Solid val))))

item-read :
    (i : Item) (sections : List UciSection) (s : UciSection) (n : ℕ)
    → IsItem i
    → read_line (record { sections = sections; current = some s; warnings = n }) (item_line i)
      ≡ record {
        sections = sections;
        current = some (record s { opts = apply_item s.opts i });
        warnings = n;
      }
unfolding opt_line list_line
item-read (single key val) sections s n ((w, k), (l, e, j)) =
    indented _ _
    ∙ directive-line _ b'o' _
        (trim_space-Solid b'o' _ (unfold is_space in refl) (ends_quoted (codes "option") key val))
        (unfold has_prefix in refl)
    ∙ ap (λ ws. directive ws (record { sections = sections; current = some s; warnings = n }))
        (line_words (codes "option") key val is_option w)
    ∙ unfold text_eq in
      value_words set_option key val (fields (q val)) sections s n k (unq-q val l e) j
item-read (many key val) sections s n ((w, k), (l, e, j)) =
    indented _ _
    ∙ directive-line _ b'l' _
        (trim_space-Solid b'l' _ (unfold is_space in refl) (ends_quoted (codes "list") key val))
        (unfold has_prefix in refl)
    ∙ ap (λ ws. directive ws (record { sections = sections; current = some s; warnings = n }))
        (line_words (codes "list") key val is_list w)
    ∙ unfold text_eq in
      value_words add_to_list key val (fields (q val)) sections s n k (unq-q val l e) j

header-read :
    (typ : Text) (id : Option Text) (st : UciState)
    → IsKey typ
    → IsId id
    → read_line st (header_line typ id) ≡ record st {
      sections = closed st.current st.sections;
      current = some (record { typ = typ; name = id_text id; opts = [] });
    }
header-read typ none st (w, k) h =
    directive-line st b'c' _
      (trim_space-Solid b'c' _ (unfold is_space in refl)
        (Solid-append (codes "config ") typ (IsWord-Solid typ w)))
      (unfold has_prefix in refl)
    ∙ ap (λ ws. directive ws st)
        (fields_word (codes "config") typ is_config
          ∙ ap (λ t. codes "config" ∷ t) (fields-word typ w))
    ∙ unfold text_eq in
      ap
        (λ t. record st {
          sections = closed st.current st.sections;
          current = some (record { typ = t; name = []; opts = [] });
        })
        k
header-read typ (some id) st (w, k) ((l, e, j), i) =
    directive-line st b'c' _
      (trim_space-Solid b'c' _ (unfold is_space in refl) (ends_quoted (codes "config") typ id))
      (unfold has_prefix in refl)
    ∙ ap (λ ws. directive ws st)
        (line_words (codes "config") typ id is_config w
          ∙ ap (λ t. codes "config" ∷ typ ∷ t) (fields-word (q id) i))
    ∙ unfold text_eq in
      ap
        (λ (t : Text × Text). record st {
          sections = closed st.current st.sections;
          current = some (record { typ = t.0; name = t.1; opts = [] });
        })
        (ap₂ (λ x y. (x, y)) k (unq-q id l e))

items-read :
    (items : List Item) (rest : List Text) (sections : List UciSection) (s : UciSection) (n : ℕ)
    → All IsItem items
    → read_uci
        (map item_line items ++ [] ∷ rest)
        (record { sections = sections; current = some s; warnings = n })
      ≡ read_uci rest (record {
        sections = sections;
        current = some (record s { opts = apply_items items s.opts });
        warnings = n;
      })
unfolding read_uci apply_items
items-read [] rest sections s n h = unfold read_line trim_space trim_left is_empty in refl
items-read (i ∷ items) rest sections s n (h, hs) =
    ap (read_uci (map item_line items ++ [] ∷ rest)) (item-read i sections s n h)
    ∙ items-read items rest sections (record s { opts = apply_item s.opts i }) n hs

sections-read :
    (ss : List Written) (st : UciState)
    → All IsWritten ss
    → (λ (st : UciState). closed st.current st.sections) (read_uci (section_lines ss) st)
      ≡ closed st.current st.sections ++ map read_back ss
unfolding section_lines read_uci
sections-read [] st h = sym (append-nil (closed st.current st.sections))
sections-read (s ∷ ss) st ((k, i, js), hs) =
    ap (λ (st : UciState). closed st.current st.sections)
      (ap (read_uci (map item_line s.items ++ [] ∷ section_lines ss))
          (header-read s.typ s.id st k i)
        ∙ items-read s.items (section_lines ss) (closed st.current st.sections) _ st.warnings js)
    ∙ sections-read ss _ hs
    ∙ rw (k.0.1)
        (append_assoc (closed st.current st.sections) (read_back s ∷ []) (map read_back ss))

uci_sections-read_back :
    (ss : List Written) → All IsWritten ss → uci_sections (section_lines ss) ≡ map read_back ss
unfolding uci_sections
uci_sections-read_back ss h = sections-read ss _ h

-- The lines of sections whose types, names and values are plain are read as these sections, in their
-- order, each with its type and name; and under every name of an option stand the values that its
-- lines say: the value of the last `option` line and those of the `list` lines behind it, in order.
pub uci_sections-section_lines :
    (ss : List Written) (key : Text)
    → All IsWritten ss
    → map (view key) (uci_sections (section_lines ss)) ≡ map (said key) ss
uci_sections-section_lines ss key h =
    ap (map (view key)) (uci_sections-read_back ss h) ∙ view-read_back key ss
