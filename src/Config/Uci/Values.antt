-- ===== src/Config/Uci/Values.antt =====
-- The values that stand under a name of an option behind the lines of a section.
use purewrt.Prelude.{
  ◌≡◌, refl, sym, ap, ap₂, ◌∙◌, Bool, true, false, List, [], ◌∷◌, ◌++◌, map, Bool-cases, inl, inr,
  if◌then◌else◌,
}
use purewrt.Text.{Text, text_eq, text_eq_sound, text_eq_turned}
use purewrt.Config.Uci.{Options, get_values, set_option, add_to_list}
use purewrt.Config.Uci.Written.{
  Item, single, many, Written, apply_item, apply_items, id_text, read_back, add_said, said_values,
  said, view,
}

same_key : (j k key : Text) → text_eq j k ≡ true → text_eq j key ≡ text_eq k key
same_key j k key e = ap (λ t. text_eq t key) (text_eq_sound j k e)

other_key : (j k key : Text) → text_eq j k ≡ false → text_eq j key ≡ true → text_eq k key ≡ false
other_key j k key e f = sym (ap (text_eq k) (text_eq_sound j key f)) ∙ text_eq_turned k j ∙ e

get_values-set_option :
    (key k val : Text) (opts : Options)
    → get_values key (set_option k val opts)
      ≡ (if text_eq k key then val ∷ [] else get_values key opts)
unfolding get_values set_option
get_values-set_option key k val [] = refl
get_values-set_option key k val ((j, vals) ∷ opts) = elim (Bool-cases (text_eq j k)) [
  | inl e ↦ rw (e, same_key j k key e) (settled (text_eq k key))
  | inr e ↦ elim (Bool-cases (text_eq j key)) [
    | inl f ↦ rw (e, f, other_key j k key e f) refl
    | inr f ↦ rw (e, f) (get_values-set_option key k val opts)
  ]
]
  where
    settled :
        (b : Bool)
        → (if b then val ∷ [] else get_values key opts)
          ≡ (if b then val ∷ [] else if b then vals else get_values key opts)
    settled true = refl
    settled false = refl

get_values-add_to_list :
    (key k val : Text) (opts : Options)
    → get_values key (add_to_list k val opts)
      ≡ (if text_eq k key then get_values key opts ++ val ∷ [] else get_values key opts)
unfolding get_values add_to_list
get_values-add_to_list key k val [] = refl
get_values-add_to_list key k val ((j, vals) ∷ opts) = elim (Bool-cases (text_eq j k)) [
  | inl e ↦ rw (e, same_key j k key e) (settled (text_eq k key))
  | inr e ↦ elim (Bool-cases (text_eq j key)) [
    | inl f ↦ rw (e, f, other_key j k key e f) refl
    | inr f ↦ rw (e, f) (get_values-add_to_list key k val opts)
  ]
]
  where
    settled :
        (b : Bool)
        → (if b then vals ++ val ∷ [] else get_values key opts) ≡ (
            if b
            then (if b then vals else get_values key opts) ++ val ∷ []
            else if b
            then vals
            else get_values key opts)
    settled true = refl
    settled false = refl

apply_item-values :
    (key : Text) (i : Item) (opts : Options)
    → get_values key (apply_item opts i) ≡ add_said key (get_values key opts) i
apply_item-values key (single k val) opts = get_values-set_option key k val opts
apply_item-values key (many k val) opts = get_values-add_to_list key k val opts

apply_items-values :
    (key : Text) (items : List Item) (opts : Options)
    → get_values key (apply_items items opts) ≡ said_values key items (get_values key opts)
unfolding apply_items said_values
apply_items-values key [] opts = refl
apply_items-values key (i ∷ items) opts =
    apply_items-values key items (apply_item opts i)
    ∙ ap (said_values key items) (apply_item-values key i opts)

pub view-read_back :
    (key : Text) (ss : List Written) → map (view key) (map read_back ss) ≡ map (said key) ss
unfolding get_values
view-read_back key [] = refl
view-read_back key (s ∷ ss) =
    ap₂ (λ v vs. (s.typ, id_text s.id, v) ∷ vs) (apply_items-values key s.items [])
      (view-read_back key ss)
