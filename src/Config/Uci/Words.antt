-- ===== src/Config/Uci/Words.antt =====
-- The words of a line, and a value between quotes.
use mathlib.Core.List.{reverse, reverse-append, reverse-reverse}
use purewrt.Prelude.{
  ℕ, ◌≡◌, refl, sym, ap, subst, ◌∙◌, false, [], ◌∷◌, ◌++◌, append-nil, append_assoc, All,
  All-append, ◌==◌,
}
use purewrt.Text.{Text}
use purewrt.Text.Space.{is_space, trim_space, NoSpaceFirst, trim_space_lem}
use purewrt.Text.Parts.{join, Lacks}
use purewrt.Config.Model.{is_empty}
use purewrt.Config.Uci.{fields_from, fields, trim_left_char, trim_char, unq, escape_quotes, q}

-- A word: code points that are no spaces, one at least.
abbrev pub IsWord : Text → Type 0
IsWord w = All (λ c. is_space c ≡ false) w × (is_empty w ≡ false)

-- A name of an option or of a type: a word without quotes at its ends.
abbrev pub IsKey : Text → Type 0
IsKey k = IsWord k × (unq k ≡ k)

-- A value without the quote that `q` writes, without a double quote at its ends, and with blanks that
-- stand alone.
abbrev pub IsValue : Text → Type 0
IsValue v = Lacks 39 v × (trim_char b'"' v ≡ v) × (join (fields (q v)) (32 ∷ []) ≡ q v)

fields_from-word :
    (w word s : Text)
    → All (λ c. is_space c ≡ false) w
    → is_empty (word ++ w) ≡ false
    → fields_from word (w ++ 32 ∷ s) ≡ (word ++ w) ∷ fields s
unfolding fields_from is_space
fields_from-word [] word s h e =
    rw (append-nil word, sym (ap is_empty (append-nil word)) ∙ e) (unfold fields in refl)
fields_from-word (c ∷ w) word s (h, hs) e = rw h (
    fields_from-word w (word ++ c ∷ []) s hs (ap is_empty (append_assoc word (c ∷ []) w) ∙ e)
    ∙ ap (λ t. t ∷ fields s) (append_assoc word (c ∷ []) w))

pub fields_word : (w s : Text) → IsWord w → fields (w ++ 32 ∷ s) ≡ w ∷ fields s
unfolding fields
fields_word w s (h, e) = fields_from-word w [] s h e

fields_from-end :
    (w word : Text)
    → All (λ c. is_space c ≡ false) w
    → is_empty (word ++ w) ≡ false
    → fields_from word w ≡ (word ++ w) ∷ []
unfolding fields_from
fields_from-end [] word h e = rw (append-nil word, sym (ap is_empty (append-nil word)) ∙ e) refl
fields_from-end (c ∷ w) word (h, hs) e = rw h (
    fields_from-end w (word ++ c ∷ []) hs (ap is_empty (append_assoc word (c ∷ []) w) ∙ e)
    ∙ ap (λ t. t ∷ []) (append_assoc word (c ∷ []) w))

pub fields-word : (w : Text) → IsWord w → fields w ≡ w ∷ []
unfolding fields
fields-word w (h, e) = fields_from-end w [] h e

escape_quotes-Lacks : (v : Text) → Lacks 39 v → escape_quotes v ≡ v
unfolding escape_quotes
escape_quotes-Lacks [] h = refl
escape_quotes-Lacks (c ∷ v) (h, hs) = rw h (ap (λ t. c ∷ t) (escape_quotes-Lacks v hs))

-- A text that ends in a code point that is no space.
pub Solid : Text → Type 0
Solid t = (x : Text) × (c : ℕ) × (t ≡ x ++ c ∷ []) × (is_space c ≡ false)

pub Solid-append : (x t : Text) → Solid t → Solid (x ++ t)
unfolding Solid
Solid-append x t (y, c, e, h) = (x ++ y, c, ap (λ t. x ++ t) e ∙ sym (append_assoc x y (c ∷ [])), h)

pub q-Solid : (v : Text) → Solid (q v)
unfolding Solid q is_space
q-Solid v = (39 ∷ escape_quotes v, 39, refl, refl)

word_Solid :
    (c : ℕ) (w : Text) → is_space c ≡ false → All (λ d. is_space d ≡ false) w → Solid (c ∷ w)
unfolding Solid
word_Solid c [] h hs = ([], c, refl, h)
word_Solid c (d ∷ w) h (g, gs) = Solid-append (c ∷ []) (d ∷ w) (word_Solid d w g gs)

pub IsWord-Solid : (w : Text) → IsWord w → Solid w
unfolding is_empty
IsWord-Solid [] (h, e) = cc
IsWord-Solid (c ∷ w) ((h, hs), e) = word_Solid c w h hs

pub trim_space-Solid :
    (c : ℕ) (s : Text) → is_space c ≡ false → Solid (c ∷ s) → trim_space (c ∷ s) ≡ c ∷ s
unfolding Solid
trim_space-Solid c s h (x, d, e, g) =
    trim_space_lem (c ∷ s) h (subst NoSpaceFirst (sym (ap reverse e ∙ reverse-append x (d ∷ []))) g)

Lacks-reverse : (v : Text) → Lacks 39 v → Lacks 39 (reverse v)
Lacks-reverse [] h = tt
Lacks-reverse (c ∷ v) (h, hs) =
    subst (Lacks 39) (sym (reverse-append (c ∷ []) v))
      (All-append (λ c. (c == 39) ≡ false) (reverse v) (c ∷ []) (Lacks-reverse v hs) (h, tt))

trim_left_char-Lacks : (v : Text) → Lacks 39 v → trim_left_char 39 v ≡ v
unfolding trim_left_char
trim_left_char-Lacks [] h = refl
trim_left_char-Lacks (c ∷ v) (h, hs) = rw h refl

trim_char-quoted : (v : Text) → Lacks 39 v → trim_char 39 (39 ∷ v ++ 39 ∷ []) ≡ v
unfolding trim_char trim_left_char
trim_char-quoted [] h = refl
trim_char-quoted (c ∷ v) (h, hs) = rw h (
    ap (λ t. reverse (trim_left_char 39 t)) (reverse-append (c ∷ v) (39 ∷ []))
    ∙ ap reverse (trim_left_char-Lacks (reverse (c ∷ v)) (Lacks-reverse (c ∷ v) (h, hs)))
    ∙ reverse-reverse (c ∷ v))

pub unq-q : (v : Text) → Lacks 39 v → trim_char b'"' v ≡ v → unq (q v) ≡ v
unfolding unq q
unq-q v h e =
    ap (λ t. trim_char b'"' (trim_char 39 t))
      (trim_space-Solid 39 (escape_quotes v ++ 39 ∷ []) (unfold is_space in refl) (q-Solid v))
    ∙ ap (λ t. trim_char b'"' (trim_char 39 (39 ∷ t ++ 39 ∷ []))) (escape_quotes-Lacks v h)
    ∙ ap (trim_char b'"') (trim_char-quoted v h)
    ∙ e
