-- ===== src/Text/Space.antt =====
-- `unicode.IsSpace` and `strings.TrimSpace`.
use purewrt.Prelude.{
  ℕ, ◌≡◌, ◌≢◌, ap, ◌∙◌, refl, sym, [], ◌∷◌, ◌++◌, Bool, false, ◌&&◌, ◌||◌, arith, leb, ◌==◌,
  if◌then◌else◌,
}
use mathlib.Core.List.{reverse, reverse-reverse, reverse-append}
use purewrt.Text.{Text}

-- Unicode's property White_Space.
unfoldable pub is_space : ℕ → Bool
is_space c =
    (leb 9 c && leb c 13)
    || c == 32
    || c == 0x85
    || c == 0xa0
    || c == 0x1680
    || (leb 0x2000 c && leb c 0x200a)
    || c == 0x2028
    || c == 0x2029
    || c == 0x202f
    || c == 0x205f
    || c == 0x3000

unfoldable pub trim_left : Text → Text
unfolding is_space
trim_left [] = []
trim_left (c ∷ s) = if is_space c then trim_left s else c ∷ s

unfoldable pub trim_space : Text → Text
unfolding trim_left
trim_space s = reverse (trim_left (reverse (trim_left s)))

-- Neither the first nor the last code point is a space.
abbrev pub NoSpaceFirst : Text → Type 0
NoSpaceFirst [] = Unit
NoSpaceFirst (c ∷ s) = is_space c ≡ false

pub trim_left_lem : (s : Text) → NoSpaceFirst s → trim_left s ≡ s
unfolding trim_left
trim_left_lem [] h = refl
trim_left_lem (c ∷ s) h = rw h

pub trim_space_lem : (s : Text) → NoSpaceFirst s → NoSpaceFirst (reverse s) → trim_space s ≡ s
unfolding trim_space
trim_space_lem s h k =
    unfold trim_left in rw (trim_left_lem s h, trim_left_lem (reverse s) k, reverse-reverse)

trim_left-ne-nil : (s : Text) (c : ℕ) → is_space c ≡ false → trim_left (s ++ c ∷ []) ≢ []
unfolding trim_left
trim_left-ne-nil [] c h = ground arith
trim_left-ne-nil (d ∷ s) c h = ground (arith, trim_left-ne-nil s c h)

reverse-ne-nil : (s : Text) → s ≢ [] → reverse s ≢ []
reverse-ne-nil s h e = h (sym (reverse-reverse s) ∙ ap reverse e)

-- A text that does not begin with a space is not blank.
pub trim_space-ne-nil : (c : ℕ) (s : Text) → is_space c ≡ false → trim_space (c ∷ s) ≢ []
unfolding trim_space
trim_space-ne-nil c s h =
    rw (trim_left_lem (c ∷ s) h, reverse-append (c ∷ []) s)
      (reverse-ne-nil (trim_left (reverse s ++ c ∷ [])) (trim_left-ne-nil (reverse s) c h))
