-- ===== src/Text.antt =====
-- Go's `strings` and `strconv`, as far as the modelled code calls them. A string is the list of its
-- code points; the functions are the documented ones, over every code point.
pub mod Decimal
pub mod Space
pub mod Case
pub mod Parts
pub mod Find
use Prim.Native.Char.{code}
use Prim.Native.String.{String}
use purewrt.Prelude.{
  ℕ, List, [], ◌∷◌, Bool, true, false, ◌==◌, ◌&&◌, ◌||◌, ◌≡◌, ◌∙◌, ◌↔◌, refl, sym, ap, arith, any,
  Bool-cases, inl, inr,
}

abbrev pub Text : Type 0
Text = List ℕ

-- The code points of a literal.
abbrev pub codes : String → Text
codes String.[] = []
codes (String.◌∷◌ c s) = code c ∷ codes s

-- `a == b` on strings.
unfoldable pub text_eq : Text → Text → Bool
text_eq [] [] = true
text_eq (a ∷ s) (b ∷ t) = a == b && text_eq s t
text_eq _ _ = false

pub text_eq_refl : (s : Text) → text_eq s s ≡ true
unfolding text_eq
text_eq_refl [] = refl
text_eq_refl (a ∷ s) = ground (arith, text_eq_refl s)

pub text_eq_sound : (s t : Text) → text_eq s t ≡ true → s ≡ t
unfolding text_eq
text_eq_sound [] [] h = refl
text_eq_sound [] (b ∷ t) h = cc
text_eq_sound (a ∷ s) [] h = cc
text_eq_sound (a ∷ s) (b ∷ t) h = ground (arith, text_eq_sound s t)

-- Equality of texts, in the form that `ground` takes at a pair of texts.
pub text_eq_iff : (s t : Text) → (text_eq s t ≡ true) ↔ (s ≡ t)
text_eq_iff s t = (text_eq_sound s t, λ e. rw e (text_eq_refl t))

pub any_same :
    (j k : Text) (seen : List Text)
    → text_eq j k ≡ true
    → any (text_eq j) seen ≡ any (text_eq k) seen
any_same j k seen e = ap (λ t. any (text_eq t) seen) (text_eq_sound j k e)

pub text_eq_turned : (j k : Text) → text_eq j k ≡ text_eq k j
text_eq_turned j k = elim (Bool-cases (text_eq j k)) [
  | inl e ↦ e ∙ sym (ap (λ t. text_eq t j) (sym (text_eq_sound j k e)) ∙ text_eq_refl j)
  | inr e ↦ elim (Bool-cases (text_eq k j)) [
    | inl f ↦
        absurd (ground (arith, e, f, ap (λ t. text_eq t k) (text_eq_sound k j f), text_eq_refl k))
    | inr f ↦ e ∙ sym f
  ]
]
