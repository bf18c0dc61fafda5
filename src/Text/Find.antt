-- ===== src/Text/Find.antt =====
-- Go's `strings.Index`, `strings.LastIndex`, `strings.Contains` and what is cut at them.
use purewrt.Prelude.{
  ℕ, Bool, true, false, ◌&&◌, ◌||◌, [], ◌∷◌, Option, none, some, ◌==◌, if◌then◌else◌,
}
use purewrt.Text.{Text}

unfoldable pub has_prefix : Text → Text → Bool
has_prefix [] text = true
has_prefix (p ∷ prefix) [] = false
has_prefix (p ∷ prefix) (c ∷ text) = let rest = has_prefix prefix text in (p == c) && rest

unfoldable pub contains : Text → Text → Bool
unfolding has_prefix
contains mark [] = has_prefix mark []
contains mark (c ∷ s) = has_prefix mark (c ∷ s) || contains mark s

-- What stands before the first `mark`, where there is one.
unfoldable pub before : Text → Text → Option Text
unfolding has_prefix
before mark [] = if has_prefix mark [] then some [] else none
before mark (c ∷ s) =
    let rest : Option Text = elim (before mark s) [ none ↦ none | some front ↦ some (c ∷ front) ] in
    if has_prefix mark (c ∷ s) then some [] else rest

-- What stands behind the first `sep`.
unfoldable pub after_first : ℕ → Text → Option Text
after_first sep [] = none
after_first sep (c ∷ s) = let rest = after_first sep s in if c == sep then some s else rest

-- What stands before the last `sep`.
unfoldable pub before_last : ℕ → Text → Option Text
before_last sep [] = none
before_last sep (c ∷ s) = elim (before_last sep s) [
  | some front ↦ some (c ∷ front)
  | none ↦ if c == sep then some [] else none
]
