-- ===== src/Checker/Providers/Keys.antt =====
-- What a name finds in the maps of the index.
use purewrt.Prelude.{
  ◌≡◌, refl, sym, ap, ap₂, ◌∙◌, List, [], ◌∷◌, ◌++◌, All, Option, none, some, Bool-cases, inl, inr,
  if◌then◌else◌,
}
use purewrt.Text.{Text, text_eq, text_eq_sound}
use purewrt.Mrs.DomainSet.{DomainSet, lookup}
use purewrt.Checker.Providers.{
  MatchInfo, Dict, get, put_new, insert_new, or_else, found, lookup_sets, lookup_suffixes,
}

get-append :
    (j k : Text) (info : MatchInfo) (m : Dict)
    → get j (m ++ (k, info) ∷ []) ≡ or_else (get j m) (if text_eq k j then some info else none)
unfolding get
get-append j k info [] = refl
get-append j k info ((i, old) ∷ m) = elim (Bool-cases (text_eq i j)) [
  | inl e ↦ rw e refl
  | inr e ↦ rw e (get-append j k info m)
]

or_else-none {ℓ} : {A : Type ℓ} (o : Option A) → or_else o none ≡ o
or_else-none none = refl
or_else-none (some a) = refl

pub or_else-left {ℓ} : {A : Type ℓ} (o d : Option A) → or_else o d ≡ none → o ≡ none
or_else-left none d h = refl
or_else-left (some a) d h = cc

pub or_else-right {ℓ} : {A : Type ℓ} (o d : Option A) → or_else o d ≡ none → d ≡ none
or_else-right none d h = h
or_else-right (some a) d h = cc

pub found-none : (o : Option MatchInfo) → found o ≡ none → o ≡ none
found-none none h = refl
found-none (some info) h = cc

-- What a name finds after an insertion depends on the dictionary only by what it found before.
pub get-insert_new :
    (j k : Text) (info : MatchInfo) (m : Dict)
    → get j (insert_new k info m) ≡ or_else (get j m) (if text_eq k j then some info else none)
unfolding insert_new
get-insert_new j k info m = held (get k m) refl
  where
    held :
        (o : Option MatchInfo)
        → get k m ≡ o
        → get j (put_new o k info m) ≡ or_else (get j m) (if text_eq k j then some info else none)
    held none e = get-append j k info m
    held (some old) e = elim (Bool-cases (text_eq k j)) [
      | inr d ↦ rw d (sym (or_else-none (get j m)))
      | inl d ↦ rw (d, sym (ap (λ t. get t m) (text_eq_sound k j d)) ∙ e) refl
    ]

pub lookup_sets-append :
    (name : Text) (xs ys : List (DomainSet × MatchInfo))
    → lookup_sets name (xs ++ ys) ≡ or_else (lookup_sets name xs) (lookup_sets name ys)
unfolding lookup_sets
lookup_sets-append name [] ys = refl
lookup_sets-append name ((set, info) ∷ xs) ys =
    hit (lookup set name) refl (lookup_sets-append name xs ys)
  where
    hit :
        (o : Option Text)
        → lookup set name ≡ o
        → lookup_sets name (xs ++ ys) ≡ or_else (lookup_sets name xs) (lookup_sets name ys)
        → lookup_sets name ((set, info) ∷ (xs ++ ys))
          ≡ or_else (lookup_sets name ((set, info) ∷ xs)) (lookup_sets name ys)
    hit none e later = rw (e, lookup_sets) later
    hit (some suffix) e later = rw (e, lookup_sets) refl

-- Two dictionaries find the same for some names.
unfoldable pub SameFor : List Text → Dict → Dict → Type 0
SameFor ks m m' = All (λ k. get k m ≡ get k m') ks

pub SameFor-insert_new :
    (ks : List Text) (k : Text) (info : MatchInfo) (m m' : Dict)
    → SameFor ks m m'
    → SameFor ks (insert_new k info m) (insert_new k info m')
unfolding SameFor
SameFor-insert_new [] k info m m' h = tt
SameFor-insert_new (j ∷ ks) k info m m' (h, rest) = (
  get-insert_new j k info m
      ∙ ap (λ o. or_else o (if text_eq k j then some info else none)) h
      ∙ sym (get-insert_new j k info m'),
  SameFor-insert_new ks k info m m' rest,
)

pub lookup_suffixes-same :
    (ks : List Text) (m m' : Dict) → SameFor ks m m' → lookup_suffixes ks m ≡ lookup_suffixes ks m'
unfolding lookup_suffixes SameFor
lookup_suffixes-same [] m m' h = refl
lookup_suffixes-same (k ∷ ks) m m' (h, rest) =
    ap₂ (λ o r. or_else (found o) r) h (lookup_suffixes-same ks m m' rest)

pub none-SameFor : (ks : List Text) (m : Dict) → lookup_suffixes ks m ≡ none → SameFor ks m []
unfolding lookup_suffixes SameFor get
none-SameFor [] m h = tt
none-SameFor (k ∷ ks) m h = (
  found-none (get k m) (or_else-left (found (get k m)) _ h),
  none-SameFor ks m (or_else-right (found (get k m)) _ h),
)

pub lookup_suffixes_empty : (ks : List Text) → lookup_suffixes ks [] ≡ none
unfolding lookup_suffixes get
lookup_suffixes_empty [] = refl
lookup_suffixes_empty (k ∷ ks) = lookup_suffixes_empty ks
