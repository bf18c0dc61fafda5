-- ===== src/Rules/ParseText/Conditions.antt =====
-- The conditions of a logical rule, from their text.
use purewrt.Prelude.{
  ℕ, ◌≡◌, refl, sym, ap, ◌∙◌, arith, List, [], ◌∷◌, ◌++◌, map, append_assoc, append-nil, none, some,
  All,
}
use purewrt.Prelude.Int.{pos, ◌+ℤ◌}
use purewrt.Text.{Text}
use purewrt.Text.Space.{trim_space}
use purewrt.Text.Parts.{Lacks, join}
use purewrt.Text.Find.{after_first, before_last}
use purewrt.Rules.ParseText.{behind_first, before_end, scan_conditions, split_logical_conditions}

after_first-append :
    (sep : ℕ) (front s : Text) → Lacks sep front → after_first sep (front ++ sep ∷ s) ≡ some s
unfolding after_first
after_first-append sep [] s h = ground arith
after_first-append sep (c ∷ front) s h = ground (arith, after_first-append sep front s h.1)

before_last-append : (sep : ℕ) (s : Text) → before_last sep (s ++ sep ∷ []) ≡ some s
unfolding before_last
before_last-append sep [] = ground arith
before_last-append sep (c ∷ s) = rw (before_last-append sep s) refl

-- A condition without parentheses of its own.
abbrev pub IsFlat : Text → Type 0
IsFlat c = Lacks b'(' c × Lacks b')' c

scan_conditions-inside :
    (held c s : Text)
    → IsFlat c
    → scan_conditions (pos 1) (some held) (c ++ b')' ∷ s)
      ≡ trim_space (held ++ c) ∷ scan_conditions (pos 0) none s
unfolding scan_conditions ◌+ℤ◌
scan_conditions-inside held [] s h = rw (append-nil held) refl
scan_conditions-inside held (d ∷ c) s (o, e) =
    rw (o.0, e.0)
      (scan_conditions-inside (held ++ d ∷ []) c s (o.1, e.1)
        ∙ rw (append_assoc held (d ∷ []) c) refl)

abbrev pub in_parens : Text → Text
in_parens c = b'(' ∷ (c ++ b')' ∷ [])

scan_conditions-next :
    (c s : Text)
    → IsFlat c
    → scan_conditions (pos 0) none (in_parens c ++ s)
      ≡ trim_space c ∷ scan_conditions (pos 0) none s
unfolding scan_conditions ◌+ℤ◌
scan_conditions-next c s h = rw (append_assoc c (b')' ∷ []) s) (scan_conditions-inside [] c s h)

scan_comma : (s : Text) → scan_conditions (pos 0) none (b',' ∷ s) ≡ scan_conditions (pos 0) none s
unfolding scan_conditions
scan_comma s = refl

scan_conditions-join :
    (conds : List Text)
    → All IsFlat conds
    → scan_conditions (pos 0) none (join (map in_parens conds) (b',' ∷ [])) ≡ map trim_space conds
unfolding join
scan_conditions-join [] h = unfold scan_conditions in refl
scan_conditions-join (c ∷ []) (h, _) =
    ap (λ t. scan_conditions (pos 0) none t) (sym (append-nil (in_parens c)))
    ∙ scan_conditions-next c [] h
    ∙ unfold scan_conditions in refl
scan_conditions-join (c ∷ d ∷ conds) (h, rest) =
    scan_conditions-next c (b',' ∷ join (map in_parens (d ∷ conds)) (b',' ∷ [])) h
    ∙ ap (λ t. trim_space c ∷ t)
        (scan_comma (join (map in_parens (d ∷ conds)) (b',' ∷ []))
          ∙ scan_conditions-join (d ∷ conds) rest)

-- The conditions of a logical rule that is written with them are read back in order, without the
-- blanks around them, where the text before the list holds no opening parenthesis and no condition
-- has parentheses of its own.
pub split_logical_conditions-join :
    (front : Text) (conds : List Text)
    → Lacks b'(' front
    → All IsFlat conds
    → split_logical_conditions (front ++ in_parens (join (map in_parens conds) (b',' ∷ [])))
      ≡ map trim_space conds
unfolding split_logical_conditions
split_logical_conditions-join front conds f h =
    ap behind_first
      (after_first-append b'(' front (join (map in_parens conds) (b',' ∷ []) ++ b')' ∷ []) f)
    ∙ ap before_end (before_last-append b')' (join (map in_parens conds) (b',' ∷ [])))
    ∙ scan_conditions-join conds h
