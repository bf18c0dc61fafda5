-- ===== src/Text/Case.antt =====
-- `strings.ToLower` and `strings.ToUpper`. Beyond ASCII only the code points are mapped whose other
-- case is ASCII; the program compares the results with ASCII words.
use purewrt.Prelude.{
  ℕ, ◌+◌, ◌-◌, ◌≡◌, refl, ap₂, [], ◌∷◌, map, ◌&&◌, arith, leb, ◌==◌, if◌then◌else◌,
}
use purewrt.Text.{Text}

unfoldable pub lower : ℕ → ℕ
lower c =
    if leb b'A' c && leb c b'Z'
    then c + 32
    else if c == 0x130
    then b'i'
    else if c == 0x212a
    then b'k'
    else c

unfoldable pub upper : ℕ → ℕ
upper c =
    if leb b'a' c && leb c b'z'
    then c - 32
    else if c == 0x131
    then b'I'
    else if c == 0x17f
    then b'S'
    else c

unfoldable pub to_lower : Text → Text
unfolding lower
to_lower = map lower

unfoldable pub to_upper : Text → Text
unfolding upper
to_upper = map upper

-- Text that is already in lower case stays.
pub lower_idem : (c : ℕ) → lower (lower c) ≡ lower c
unfolding lower
lower_idem c = ground arith

pub to_lower_idem : (s : Text) → to_lower (to_lower s) ≡ to_lower s
unfolding to_lower
to_lower_idem [] = refl
to_lower_idem (c ∷ s) = ap₂ ◌∷◌ (lower_idem c) (to_lower_idem s)
