-- ===== src/Mrs/DomainSet/Suffix.antt =====
-- The suffix that a lookup returns.
use mathlib.Core.List.{reverse, reverse-reverse, reverse-append}
use purewrt.Prelude.{
  ℕ, ◌≡◌, refl, sym, ap, subst, ◌∙◌, arith, Bool, true, ◌&&◌, [], ◌∷◌, ◌++◌, append-nil,
  append_assoc, Option, none, some, ◌⊎◌, inl, inr, Bool-cases, if◌then◌else◌,
}
use purewrt.Text.{Text}
use purewrt.Rules.{trim_dot}
use purewrt.Config.Model.{is_empty}
use purewrt.Mrs.Reader.{Bytes}
use purewrt.Mrs.Trie.{bit_at}
use purewrt.Mrs.DomainSet.{
  DomainSet, find_child_label, with_child, at_boundary, lookup_from, lookup,
}

-- The suffix is the whole domain, or stands behind a dot of it.
abbrev pub EndsWith : Text → Text → Type 0
EndsWith domain suffix = (domain ≡ suffix) ⊎ ((front : Text) × (domain ≡ front ++ b'.' ∷ suffix))

boundary-EndsWith :
    (rest suffix : Text) → at_boundary rest ≡ true → EndsWith (reverse rest ++ suffix) suffix
boundary-EndsWith [] suffix h = inl refl
boundary-EndsWith (c ∷ rest) suffix h = inr (
  reverse rest,
  rw (reverse-append (c ∷ []) rest) (
      append_assoc (reverse rest) (c ∷ []) suffix
      ∙ ap (λ t. reverse rest ++ t ∷ suffix) (ground (arith, h))),
)

turned : (c : ℕ) (rest suffix : Text) → reverse (c ∷ rest) ++ suffix ≡ reverse rest ++ c ∷ suffix
turned c rest suffix =
    rw (reverse-append (c ∷ []) rest) (append_assoc (reverse rest) (c ∷ []) suffix)

and_right : (a b : Bool) → (a && b) ≡ true → b ≡ true
and_right a b h = ground arith

same_text : (a b : Text) → ◌≡◌ {A = Option Text} (some a) (some b) → a ≡ b
same_text a b h = cc

with_child-some :
    (r : Option (ℕ × Option ℕ)) (next : ℕ → Option ℕ → Option Text) (found : Text)
    → with_child r next ≡ some found
    → (child : ℕ) × (start : Option ℕ) × (next child start ≡ some found)
with_child-some none next found h = cc
with_child-some (some (child, start)) next found h = (child, start, h)

lookup_from-EndsWith :
    (d : DomainSet) (node : ℕ) (start : Option ℕ) (suffix : Text) (word : Bytes) (found : Text)
    → lookup_from d node start suffix word ≡ some found
    → EndsWith (reverse word ++ suffix) found
unfolding lookup_from
lookup_from-EndsWith d node start suffix [] found h = cc
lookup_from-EndsWith d node start suffix (c ∷ rest) found h =
    let (child, start', k) =
      with_child-some (find_child_label d.trie d.tables node start c) _ found h in
    rw (turned c rest suffix)
      (hit child start' k (lookup_from-EndsWith d child start' (c ∷ suffix) rest found))
  where
    hit :
        (child : ℕ) (start' : Option ℕ)
        → (if bit_at d.compact_leaves child && at_boundary rest
            then some (c ∷ suffix)
            else lookup_from d child start' (c ∷ suffix) rest)
          ≡ some found
        → (lookup_from d child start' (c ∷ suffix) rest ≡ some found
            → EndsWith (reverse rest ++ c ∷ suffix) found)
        → EndsWith (reverse rest ++ c ∷ suffix) found
    hit child start' k deeper =
        elim (Bool-cases (bit_at d.compact_leaves child && at_boundary rest)) [
          | inl e ↦
              subst (EndsWith (reverse rest ++ c ∷ suffix))
                (same_text (c ∷ suffix) found (rw e at k))
                (boundary-EndsWith rest (c ∷ suffix)
                  (and_right (bit_at d.compact_leaves child) (at_boundary rest) e))
          | inr e ↦ deeper (rw e at k)
        ]

-- A lookup that hits returns the empty suffix, which a rule at the root gives for every domain, or the
-- domain itself without a dot at its end, or what stands there behind one of its dots.
pub lookup-EndsWith :
    (d : DomainSet) (name found : Text)
    → lookup d name ≡ some found
    → (found ≡ []) ⊎ EndsWith (trim_dot name) found
unfolding lookup
lookup-EndsWith d name found h = elim (Bool-cases (is_empty (trim_dot name))) [
  | inl e ↦ cc (rw e at h)
  | inr e ↦ elim (Bool-cases (bit_at d.compact_leaves 0)) [
    | inl f ↦ inl (sym (same_text [] found (rw (e, f) at h)))
    | inr f ↦ inr (
        subst (λ t. EndsWith t found)
          (append-nil (reverse (reverse (trim_dot name))) ∙ reverse-reverse (trim_dot name))
          (lookup_from-EndsWith d 0 (some 0) [] (reverse (trim_dot name)) found (rw (e, f) at h)))
  ]
]
