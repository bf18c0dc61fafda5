-- ===== src/Config/Candidates/Library.antt =====
-- What a name finds in the library of a catalog and the user's entries.
use purewrt.Prelude.{
  ◌≡◌, refl, ap, false, List, [], ◌∷◌, ◌++◌, Option, none, some, any, map, arith, ◌⊎◌, ◌∙◌,
  if◌then◌else◌, Bool-cases, inl, inr,
}
use purewrt.Text.{Text, text_eq, any_same, text_eq_turned}
use purewrt.Config.Candidates.{
  ZapretCandidate, of_catalog, of_user, names, user_entries, load_zapret_candidates,
}

abbrev pub find_candidate : Text → List ZapretCandidate → Option ZapretCandidate
find_candidate name [] = none
find_candidate name (c ∷ cs) = if text_eq c.name name then some c else find_candidate name cs

abbrev pub or_else : Option ZapretCandidate → Option ZapretCandidate → Option ZapretCandidate
or_else none d = d
or_else (some c) d = some c

abbrev pub marked :
    (ZapretCandidate → ZapretCandidate) → Option ZapretCandidate → Option ZapretCandidate
marked f none = none
marked f (some c) = some (f c)

find_candidate-user_entries :
    (seen : List Text) (cs : List ZapretCandidate) (name : Text)
    → find_candidate name (user_entries seen cs)
      ≡ (if any (text_eq name) seen then none else marked of_user (find_candidate name cs))
unfolding user_entries
find_candidate-user_entries seen [] name = ground arith
find_candidate-user_entries seen (c ∷ cs) name = ground (
  arith,
  find_candidate-user_entries seen cs name,
  find_candidate-user_entries (c.name ∷ seen) cs name,
  any_same c.name name seen,
  text_eq_turned c.name name,
)

find_candidate-listed :
    (catalog rest : List ZapretCandidate) (name : Text)
    → find_candidate name (map of_catalog catalog ++ rest)
      ≡ or_else (marked of_catalog (find_candidate name catalog)) (find_candidate name rest)
find_candidate-listed [] rest name = refl
find_candidate-listed (c ∷ cs) rest name = elim (Bool-cases (text_eq c.name name)) [
  | inl e ↦ rw e refl
  | inr e ↦ rw e (find_candidate-listed cs rest name)
]

-- A name that the catalog lists is among the names seen.
any-names :
    (catalog : List ZapretCandidate) (name : Text)
    → any (text_eq name) (names (map of_catalog catalog)) ≡ false
      ⊎ ((c : ZapretCandidate) × (find_candidate name catalog ≡ some c))
any-names [] name = inl refl
any-names (c ∷ cs) name = elim (Bool-cases (text_eq c.name name)) [
  | inl e ↦ inr (c, rw e refl)
  | inr e ↦ elim (any-names cs name) [
    | inl none_seen ↦ inl (ground (arith, e, none_seen, text_eq_turned c.name name))
    | inr (v, found) ↦ inr (v, rw (e, found) refl)
  ]
]

any-names-found :
    (catalog : List ZapretCandidate) (name : Text) (d : Option ZapretCandidate)
    → or_else
        (marked of_catalog (find_candidate name catalog))
        (if any (text_eq name) (names (map of_catalog catalog)) then none else d)
      ≡ or_else (marked of_catalog (find_candidate name catalog)) d
any-names-found catalog name d = elim (any-names catalog name) [
  | inl unseen ↦ rw unseen refl
  | inr (c, found) ↦ rw found refl
]

-- A name finds the catalog's first entry of that name, marked as the catalog's, and only where the
-- catalog has none the user's first entry, marked as the user's: the user's file never hides an
-- entry of the catalog, and every other name of it is found.
pub load_zapret_candidates-catalog_first :
    (catalog users : List ZapretCandidate) (name : Text)
    → find_candidate name (load_zapret_candidates catalog users)
      ≡ or_else
          (marked of_catalog (find_candidate name catalog))
          (marked of_user (find_candidate name users))
unfolding load_zapret_candidates
load_zapret_candidates-catalog_first catalog users name =
    find_candidate-listed catalog (user_entries (names (map of_catalog catalog)) users) name
    ∙ ap (or_else (marked of_catalog (find_candidate name catalog)))
        (find_candidate-user_entries (names (map of_catalog catalog)) users name)
    ∙ any-names-found catalog name (marked of_user (find_candidate name users))
