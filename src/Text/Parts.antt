-- ===== src/Text/Parts.antt =====
-- `strings.Split` by one code point, and `strings.Join`.
use purewrt.Prelude.{
  ℕ, zero, suc, ◌≡◌, ◌≢◌, refl, List, [], ◌∷◌, ◌++◌, false, arith, ◌==◌, if◌then◌else◌, All,
}
use purewrt.Text.{Text}

-- The part before the first separator, put in front of the parts of what follows.
grow : ℕ → List Text → List Text
grow c [] = (c ∷ []) ∷ []
grow c (p ∷ ps) = (c ∷ p) ∷ ps

unfoldable pub split : Text → ℕ → List Text
unfolding grow
split [] sep = [] ∷ []
split (c ∷ s) sep = let rest = split s sep in if c == sep then [] ∷ rest else grow c rest

unfoldable pub join : List Text → Text → Text
join [] sep = []
join (p ∷ []) sep = p
join (p ∷ q ∷ ps) sep = p ++ (sep ++ join (q ∷ ps) sep)

abbrev pub Lacks : ℕ → Text → Type 0
Lacks sep = All (λ c. (c == sep) ≡ false)

pub split-ne-nil : (s : Text) (sep : ℕ) → split s sep ≢ []
unfolding split
split-ne-nil [] sep = cc
split-ne-nil (c ∷ s) sep = ground (arith, split-ne-nil s sep)

-- A text without the separator is one part.
pub split-Lacks : (s : Text) (sep : ℕ) → Lacks sep s → split s sep ≡ s ∷ []
unfolding split
split-Lacks [] sep h = refl
split-Lacks (c ∷ s) sep h = ground (arith, split-Lacks s sep h.1)

pub split-append : (s t : Text) (sep : ℕ) → Lacks sep s → split (s ++ sep ∷ t) sep ≡ s ∷ split t sep
unfolding split
split-append [] t sep h = ground arith
split-append (c ∷ s) t sep h = ground (arith, split-append s t sep h.1)

-- `strings.SplitN`: at most `suc n` parts, the last of which is the rest of the text.
unfoldable pub split_n : ℕ → Text → ℕ → List Text
unfolding grow
split_n n [] sep = [] ∷ []
split_n zero (c ∷ s) sep = (c ∷ s) ∷ []
split_n (suc n) (c ∷ s) sep =
    let next = split_n n s sep in
    let same = split_n (suc n) s sep in if c == sep then [] ∷ next else grow c same
