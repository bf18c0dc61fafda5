-- ===== src/Rules/Dedup.antt =====
-- Which rules `Dedup` keeps.
use purewrt.Prelude.{
  ◌≡◌, false, not, ◌&&◌, List, [], ◌∷◌, arith, Option, none, some, any, All, if◌then◌else◌,
  Bool-cases, inl, inr,
}
use purewrt.Text.{Text, text_eq, any_same, text_eq_turned}
use purewrt.Config.Model.{is_empty}
use purewrt.Rules.{Rule, rule_key, dedup_from, dedup}

-- The first rule with a value that has a key.
pub find_rule : Text → List Rule → Option Rule
find_rule key [] = none
find_rule key (r ∷ rs) =
    let rest = find_rule key rs in
    if text_eq (rule_key r) key && not (is_empty r.value) then some r else rest

-- No two rules have a key in common.
abbrev pub OncePerKey : List Rule → Type 0
OncePerKey [] = Unit
OncePerKey (r ∷ rs) = All (λ s. text_eq (rule_key s) (rule_key r) ≡ false) rs × OncePerKey rs

find_rule-dedup_from :
    (seen : List Text) (rs : List Rule) (key : Text)
    → find_rule key (dedup_from seen rs)
      ≡ (if any (text_eq key) seen then none else find_rule key rs)
unfolding find_rule dedup_from
find_rule-dedup_from seen [] key = ground arith
find_rule-dedup_from seen (r ∷ rs) key = ground (
  arith,
  find_rule-dedup_from seen rs key,
  find_rule-dedup_from (rule_key r ∷ seen) rs key,
  any_same (rule_key r) key seen,
  text_eq_turned (rule_key r) key,
)

-- What is kept has a key that was not seen, and a value.
dedup_from-unseen :
    (seen : List Text) (rs : List Rule)
    → All
        (λ r. (any (text_eq (rule_key r)) seen ≡ false) × (is_empty r.value ≡ false))
        (dedup_from seen rs)
unfolding dedup_from
dedup_from-unseen seen [] = tt
dedup_from-unseen seen (r ∷ rs) =
    elim (Bool-cases (not (any (text_eq (rule_key r)) seen) && not (is_empty r.value))) [
      | inl e ↦ rw e (
        (ground (arith, e), ground (arith, e)),
        weaken (dedup_from (rule_key r ∷ seen) rs) (dedup_from-unseen (rule_key r ∷ seen) rs),
      )
      | inr e ↦ rw e (dedup_from-unseen seen rs)
    ]
  where
    weaken :
        (ss : List Rule)
        → All
            (λ s.
              (any (text_eq (rule_key s)) (rule_key r ∷ seen) ≡ false) × (is_empty s.value ≡ false))
            ss
        → All (λ s. (any (text_eq (rule_key s)) seen ≡ false) × (is_empty s.value ≡ false)) ss
    weaken [] a = tt
    weaken (s ∷ ss) (a, rest) = ((ground (arith, a.0), a.1), weaken ss rest)

dedup_from-OncePerKey : (seen : List Text) (rs : List Rule) → OncePerKey (dedup_from seen rs)
unfolding dedup_from
dedup_from-OncePerKey seen [] = tt
dedup_from-OncePerKey seen (r ∷ rs) =
    elim (Bool-cases (not (any (text_eq (rule_key r)) seen) && not (is_empty r.value))) [
      | inl e ↦ rw e (
        others (dedup_from (rule_key r ∷ seen) rs) (dedup_from-unseen (rule_key r ∷ seen) rs),
        dedup_from-OncePerKey (rule_key r ∷ seen) rs,
      )
      | inr e ↦ rw e (dedup_from-OncePerKey seen rs)
    ]
  where
    others :
        (ss : List Rule)
        → All
            (λ s.
              (any (text_eq (rule_key s)) (rule_key r ∷ seen) ≡ false) × (is_empty s.value ≡ false))
            ss
        → All (λ s. text_eq (rule_key s) (rule_key r) ≡ false) ss
    others [] a = tt
    others (s ∷ ss) (a, rest) = (ground (arith, a.0), others ss rest)

-- Of the rules with a value that share type and value, the first is kept and no other; what is kept
-- has a value.
pub dedup-OncePerKey :
    (rs : List Rule)
    → OncePerKey (dedup rs)
      × All (λ r. is_empty r.value ≡ false) (dedup rs)
      × ((key : Text) → find_rule key (dedup rs) ≡ find_rule key rs)
unfolding dedup
dedup-OncePerKey rs = (
  dedup_from-OncePerKey [] rs,
  valued (dedup_from [] rs) (dedup_from-unseen [] rs),
  find_rule-dedup_from [] rs,
)
  where
    valued :
        (ss : List Rule)
        → All (λ s. (any (text_eq (rule_key s)) [] ≡ false) × (is_empty s.value ≡ false)) ss
        → All (λ s. is_empty s.value ≡ false) ss
    valued [] a = tt
    valued (s ∷ ss) (a, rest) = (a.1, valued ss rest)
