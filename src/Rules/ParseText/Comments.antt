-- ===== src/Rules/ParseText/Comments.antt =====
-- A comment behind an entry of a text list.
use purewrt.Prelude.{
  ℕ, ◌≡◌, refl, sym, ap, ◌∙◌, arith, false, [], ◌∷◌, ◌++◌, append_assoc, none, some, ◌==◌, ◌||◌,
  Bool-cases, inl, inr, ◌≢◌,
}
use mathlib.Core.List.{reverse, reverse-reverse, reverse-append}
use purewrt.Text.{Text}
use purewrt.Text.Space.{
  is_space, trim_left, trim_space, NoSpaceFirst, trim_left_lem, trim_space_lem,
}
use purewrt.Text.Parts.{Lacks}
use purewrt.Text.Find.{has_prefix, before}
use purewrt.Rules.ParseText.{clean_line, cut_comment, hash, slashes}

trim_left-append :
    (a : Text) (x : ℕ) (b : Text)
    → is_space x ≡ false
    → (a' : Text) × (trim_left (a ++ x ∷ b) ≡ a' ++ x ∷ b)
unfolding trim_left
trim_left-append [] x b h = ([], rw h refl)
trim_left-append (c ∷ a) x b h = elim (Bool-cases (is_space c)) [
  | inl e ↦ rw e (trim_left-append a x b h)
  | inr e ↦ rw e (c ∷ a, refl)
]

turned : (a : Text) (x : ℕ) (b : Text) → reverse (a ++ x ∷ b) ≡ reverse b ++ x ∷ reverse a
turned a x b =
    reverse-append a (x ∷ b)
    ∙ rw (reverse-append (x ∷ []) b) (append_assoc (reverse b) (x ∷ []) (reverse a))

-- Trimming a text from the left of a sign that is no blank changes nothing, up to the sign.
trim_space-append :
    (l : Text) (x : ℕ) (b : Text)
    → NoSpaceFirst (l ++ x ∷ b)
    → is_space x ≡ false
    → (b' : Text) × (trim_space (l ++ x ∷ b) ≡ l ++ x ∷ b')
unfolding trim_space
trim_space-append l x b f h =
    let (r, e) = trim_left-append (reverse b) x (reverse l) h in
    (
      reverse r,
      ap (λ t. reverse (trim_left (reverse t))) (trim_left_lem (l ++ x ∷ b) f)
          ∙ ap (λ t. reverse (trim_left t)) (turned l x b)
          ∙ ap reverse e
          ∙ turned r x (reverse l)
          ∙ ap (λ t. t ++ x ∷ reverse r) (reverse-reverse l),
    )

before-mark :
    (l : Text) (c d : ℕ) (t : Text)
    → Lacks d l
    → (c == d) ≡ false
    → before (c ∷ d ∷ []) (l ++ c ∷ d ∷ t) ≡ some l
unfolding before has_prefix
before-mark [] c d t h n = ground arith
before-mark (e ∷ []) c d t h n = ground (arith, n)
before-mark (e ∷ f ∷ l) c d t h n = ground (arith, before-mark (f ∷ l) c d t h.1 n)

before-Lacks : (l : Text) (c d : ℕ) (mark : Text) → Lacks d l → before (c ∷ d ∷ mark) l ≡ none
unfolding before has_prefix
before-Lacks [] c d mark h = refl
before-Lacks (e ∷ []) c d mark h = ground arith
before-Lacks (e ∷ f ∷ l) c d mark h = ground (arith, before-Lacks (f ∷ l) c d mark h.1)

cut_comment-before :
    (mark line front : Text)
    → before (32 ∷ mark) line ≡ some front
    → cut_comment mark line ≡ trim_space front
unfolding cut_comment
cut_comment-before mark line front e = rw (e, cut_comment) refl

cut_comment-none :
    (mark line : Text)
    → before (32 ∷ mark) line ≡ none
    → before (9 ∷ mark) line ≡ none
    → cut_comment mark line ≡ line
unfolding cut_comment
cut_comment-none mark line e f = rw (e, cut_comment) (rw f refl)

no_comment_line :
    (c : ℕ) (s : Text)
    → (c == b'#') ≡ false
    → (c == b'/') ≡ false
    → (has_prefix hash (c ∷ s) || has_prefix slashes (c ∷ s)) ≡ false
unfolding has_prefix
no_comment_line c s h k = ground (arith, h, k)

-- An entry without blanks at its ends and without the signs of a comment is what is left of a line
-- that has a blank, a number sign and any comment behind it.
pub clean_line-comment :
    (l note : Text)
    → NoSpaceFirst l
    → NoSpaceFirst (reverse l)
    → l ≢ []
    → Lacks b'#' l
    → Lacks b'/' l
    → clean_line (l ++ 32 ∷ b'#' ∷ note) ≡ l
unfolding clean_line is_space
clean_line-comment [] note f g n h k = absurd (n refl)
clean_line-comment (c ∷ l) note f g n h k =
    let (note', e) = trim_space-append (c ∷ (l ++ 32 ∷ [])) b'#' note f refl in
    let trimmed : trim_space ((c ∷ l) ++ 32 ∷ b'#' ∷ note) ≡ (c ∷ l) ++ 32 ∷ b'#' ∷ note' =
      ap trim_space (sym (append_assoc (c ∷ l) (32 ∷ []) (b'#' ∷ note)))
      ∙ e
      ∙ append_assoc (c ∷ l) (32 ∷ []) (b'#' ∷ note') in
    let cut : cut_comment hash ((c ∷ l) ++ 32 ∷ b'#' ∷ note') ≡ c ∷ l =
      cut_comment-before hash _ (c ∷ l) (before-mark (c ∷ l) 32 b'#' note' h refl)
      ∙ trim_space_lem (c ∷ l) f g in
    rw (trimmed, no_comment_line c (l ++ 32 ∷ b'#' ∷ note') h.0 k.0, cut)
      (cut_comment-none slashes (c ∷ l) (before-Lacks (c ∷ l) 32 b'/' (b'/' ∷ []) k)
        (before-Lacks (c ∷ l) 9 b'/' (b'/' ∷ []) k))
