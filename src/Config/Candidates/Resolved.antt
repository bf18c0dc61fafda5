-- ===== src/Config/Candidates/Resolved.antt =====
-- Strategies whose references are resolved a second time, after an edit of the library.
use purewrt.Prelude.{
  ◌≡◌, refl, sym, ap, Bool, true, false, List, [], ◌∷◌, Option, none, some, ◌⊎◌, ◌∙◌, Bool-cases,
  inl, inr,
}
use mathlib.Core.Option.{some-ne-none}
use purewrt.Text.{Text}
use purewrt.Config.Model.{ZapretStrategy, is_empty}
use purewrt.Config.Candidates.{ZapretCandidate, expand, by_name, resolve_strategies}

pub Option-cases :
    (o : Option ZapretCandidate) → (o ≡ none) ⊎ ((v : ZapretCandidate) × (o ≡ some v))
Option-cases none = inl refl
Option-cases (some v) = inr (v, refl)

module _ (is_file : Text → Bool) where
  pub resolve_strategies-end :
      (list : List ZapretCandidate) → resolve_strategies is_file list [] ≡ ([], none)
  unfolding resolve_strategies
  resolve_strategies-end list = refl

  pub resolve_strategies-own :
      (list : List ZapretCandidate) (s : ZapretStrategy) (ss : List ZapretStrategy)
      → is_empty s.candidate ≡ true
      → resolve_strategies is_file list (s ∷ ss)
        ≡ (s ∷ (resolve_strategies is_file list ss).0, (resolve_strategies is_file list ss).1)
  unfolding resolve_strategies
  resolve_strategies-own list s ss e = rw e refl

  pub resolve_strategies-missing :
      (list : List ZapretCandidate) (s : ZapretStrategy) (ss : List ZapretStrategy)
      → is_empty s.candidate ≡ false
      → by_name s.candidate list ≡ none
      → resolve_strategies is_file list (s ∷ ss) ≡ (s ∷ ss, some s)
  unfolding resolve_strategies
  resolve_strategies-missing list s ss e f = rw (e, f) refl

  pub resolve_strategies-shared :
      (list : List ZapretCandidate) (s : ZapretStrategy) (ss : List ZapretStrategy)
      (v : ZapretCandidate)
      → is_empty s.candidate ≡ false
      → by_name s.candidate list ≡ some v
      → resolve_strategies is_file list (s ∷ ss) ≡ (
        expand is_file v s ∷ (resolve_strategies is_file list ss).0,
        (resolve_strategies is_file list ss).1,
      )
  unfolding resolve_strategies
  resolve_strategies-shared list s ss v e f = rw (e, f) refl

  -- Nothing of an earlier resolution, complete or not, is left where a later one succeeds: the
  -- strategies are those that the later library alone gives, and no error appears.
  pub resolve_strategies-again :
      (before after : List ZapretCandidate)
      → (ss : List ZapretStrategy) → (resolve_strategies is_file after ss).1 ≡ none
      → resolve_strategies is_file after (resolve_strategies is_file before ss).0
        ≡ resolve_strategies is_file after ss
  unfolding expand
  resolve_strategies-again before after [] h =
      ap (λ r. resolve_strategies is_file after r.0) (resolve_strategies-end before)
  resolve_strategies-again before after (s ∷ ss) h = elim (Bool-cases (is_empty s.candidate)) [
    | inl e ↦
        ap (λ r. resolve_strategies is_file after r.0) (resolve_strategies-own before s ss e)
        ∙ resolve_strategies-own after s (resolve_strategies is_file before ss).0 e
        ∙ ap (λ r. (s ∷ r.0, r.1))
            (resolve_strategies-again before after ss
              (sym (ap (λ r. r.1) (resolve_strategies-own after s ss e)) ∙ h))
        ∙ sym (resolve_strategies-own after s ss e)
    | inr e ↦ elim (Option-cases (by_name s.candidate before)) [
      | inl f ↦
          ap (λ r. resolve_strategies is_file after r.0)
            (resolve_strategies-missing before s ss e f)
      | inr (v, f) ↦ elim (Option-cases (by_name s.candidate after)) [
        | inl g ↦
            absurd
              (some-ne-none s (sym (ap (λ r. r.1) (resolve_strategies-missing after s ss e g)) ∙ h))
        | inr (w, g) ↦
            ap (λ r. resolve_strategies is_file after r.0)
              (resolve_strategies-shared before s ss v e f)
            ∙ resolve_strategies-shared after (expand is_file v s)
                (resolve_strategies is_file before ss).0 w e g
            ∙ ap (λ r. (expand is_file w s ∷ r.0, r.1))
                (resolve_strategies-again before after ss
                  (sym (ap (λ r. r.1) (resolve_strategies-shared after s ss w e g)) ∙ h))
            ∙ sym (resolve_strategies-shared after s ss w e g)
      ]
    ]
  ]
