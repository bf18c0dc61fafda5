-- ===== src/Mrs/Trie/Grows.antt =====
-- A walk of the trie that collects domains, and what it had before.
use mathlib.Core.List.{reverse}
use purewrt.Prelude.{
  ℕ, zero, suc, ◌+◌, ◌-◌, ◌≡◌, refl, sym, ap, ◌∙◌, List, [], ◌∷◌, ◌++◌, length, append-nil,
  append_assoc, none, some, ok, ltb, leb, ◌||◌, if◌then◌else◌, Bool, Bool-cases, inl, inr, true,
  false,
}
use purewrt.Mrs.Reader.{Bytes}
use purewrt.Mrs.Trie.{
  MrsTrie, RankSelect, bit_at, Walk, walk_on, walk_children, walk_node, collect, walked,
}

pub walk_on-done :
    {S : Type 0} (w : Walk S) (next : S → Walk S) (s : S)
    → walk_on w next ≡ (s, none)
    → (s' : S) × (w ≡ (s', none)) × (next s' ≡ (s, none))
walk_on-done (s', some failure) next s h = cc
walk_on-done (s', none) next s h = (s', refl, h)

pub walked-ok : (w : Walk (List Bytes)) (out : List Bytes) → walked w ≡ ok out → w ≡ (out, none)
walked-ok (o, some failure) out h = cc
walked-ok (o, none) out h = cc

-- What is added to the domains during a walk.
unfoldable pub Grows : List Bytes → List Bytes → Type 0
Grows out out' = (ds : List Bytes) × (out' ≡ out ++ ds)

pub Grows-refl : (out : List Bytes) → Grows out out
unfolding Grows
Grows-refl out = ([], sym (append-nil out))

pub Grows-trans : (a b c : List Bytes) → Grows a b → Grows b c → Grows a c
unfolding Grows
Grows-trans a b c (ds, e) (ds', f) = (ds ++ ds', f ∙ ap (λ t. t ++ ds') e ∙ append_assoc a ds ds')

pub if-Grows :
    (test : Bool) (out : List Bytes) (v w : Walk (List Bytes))
    → Grows out v.0
    → Grows out w.0
    → Grows out (if test then v else w).0
if-Grows true out v w g h = g
if-Grows false out v w g h = h

pub walk_on-Grows :
    (out : List Bytes) (w : Walk (List Bytes)) (next : List Bytes → Walk (List Bytes))
    → Grows out w.0
    → ((o : List Bytes) → Grows o (next o).0)
    → Grows out (walk_on w next).0
walk_on-Grows out (o, some failure) next g h = g
walk_on-Grows out (o, none) next g h = Grows-trans out o (next o).0 g (h o)

pub collect-Grows :
    (t : MrsTrie) (out : List Bytes) (node : ℕ) (current : Bytes)
    → Grows out (collect t out node current).0
unfolding Grows
collect-Grows t out node current = elim (Bool-cases (bit_at t.leaves node)) [
  | inl e ↦ rw e (reverse current ∷ [], refl)
  | inr e ↦ rw e ([], sym (append-nil out))
]

module _ (t : MrsTrie) (tables : RankSelect) where
  abbrev pub Descend : Type 0 → Type 0
  Descend S = ℕ → ℕ → Bytes → S → Walk S

  -- A walk adds to what is collected, and takes nothing away.
  abbrev pub Adds : Descend (List Bytes) → Type 0
  Adds d = (n b : ℕ) (current : Bytes) (out : List Bytes) → Grows out (d n b current out).0

  pub walk_children-Adds :
      (d : Descend (List Bytes)) (rounds : ℕ)
      → Adds d
      → Adds (walk_children t tables (collect t) d rounds)
  unfolding walk_children
  walk_children-Adds d zero a n b current out = Grows-refl out
  walk_children-Adds d (suc rounds) a n b current out =
      if-Grows (bit_at t.label_bitmap b) out _ _ (Grows-refl out) (
        if-Grows (ltb b n || leb (length t.labels) (b - n)) out _ _ (Grows-refl out) (
          walk_on-Grows out _ _ (a _ _ _ out)
            (λ o. walk_children-Adds d rounds a n (b + 1) current o)))

  pub walk_node-Adds : (levels : ℕ) → Adds (walk_node t tables (collect t) levels)
  unfolding walk_node
  walk_node-Adds zero n b current out = Grows-refl out
  walk_node-Adds (suc levels) n b current out =
      if-Grows (leb tables.bits_len b) out _ _ (Grows-refl out) (
        Grows-trans out _ _ (collect-Grows t out n current) (
          walk_children-Adds (walk_node t tables (collect t) levels) (length t.labels + 1)
            (walk_node-Adds levels) n b current (collect t out n current).0))
