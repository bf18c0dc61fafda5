-- ===== src/Guard/Run/Alternative.antt =====
-- The members that can take over from a suspect.
use purewrt.Prelude.{
  ℕ, ◌≡◌, ◌∙◌, refl, sym, ap, Bool, true, false, not, ◌&&◌, List, [], ◌∷◌, ◌++◌, arith, Option,
  none, some, any, if◌then◌else◌, Bool-cases, inl, inr, subst, All, All-append, Option-cases,
}
use mathlib.Core.Option.{some-injective}
use purewrt.Text.{Text, text_eq, text_eq_refl, text_eq_sound}
use purewrt.Checker.Scope.{contains_string}
use purewrt.Guard.{Node, Nodes, Group, update_node, get_node}
use purewrt.Guard.Choice.{
  is_passing, passing_member, passing_alternative, is_alternative, alternative_members,
  alternatives,
}

-- A test of the node at a key, which no missing node passes.
abbrev pub node_at : (Node → Bool) → Nodes → Text → Bool
node_at p ns key = elim (get_node ns key) [ none ↦ false | some n ↦ p n ]

node_at_mono :
    (p q : Node → Bool)
    → ((n : Node) → p n ≡ true → q n ≡ true)
    → (ns : Nodes) (key : Text) → node_at p ns key ≡ true
    → node_at q ns key ≡ true
node_at_mono p q h ns key e = go (get_node ns key) e
  where
    go :
        (o : Option Node)
        → (elim o [ none ↦ false | some n ↦ p n ]) ≡ true
        → (elim o [ none ↦ false | some n ↦ q n ]) ≡ true
    go none e = e
    go (some n) e = h n e

pub node_at-update_node :
    (p q : Node → Bool) (f : Node → Node) (name : Text)
    → ((n : Node) → p n ≡ true → q (f n) ≡ true)
    → ((n : Node) → p n ≡ true → q n ≡ true)
    → (ns : Nodes) (key : Text) → node_at p ns key ≡ true
    → node_at q (update_node f name ns) key ≡ true
node_at-update_node p q f name h k [] key e = e
node_at-update_node p q f name h k ((i, n) ∷ ns) key e =
    ground (arith, h n, k n, node_at-update_node p q f name h k ns key, node_at_mono p q k ns key)

pub node_at-update_self :
    (p q : Node → Bool) (f : Node → Node) (name : Text)
    → ((n : Node) → p n ≡ true → q (f n) ≡ true)
    → (ns : Nodes) → node_at p ns name ≡ true
    → node_at q (update_node f name ns) name ≡ true
node_at-update_self p q f name h [] e = e
node_at-update_self p q f name h ((i, n) ∷ ns) e =
    ground (arith, h n, node_at-update_self p q f name h ns)

pub node_at-update_back :
    (p : Node → Bool) (f : Node → Node) (name : Text)
    → ((n : Node) → p (f n) ≡ true → p n ≡ true)
    → (ns : Nodes) (key : Text) → node_at p (update_node f name ns) key ≡ true
    → node_at p ns key ≡ true
node_at-update_back p f name h [] key e = e
node_at-update_back p f name h ((i, n) ∷ ns) key e =
    ground (arith, h n, node_at-update_back p f name h ns key)

pub node_at-update_other :
    (p : Node → Bool) (f : Node → Node) (name key : Text)
    → text_eq key name ≡ false
    → (ns : Nodes) → node_at p (update_node f name ns) key ≡ node_at p ns key
node_at-update_other p f name key h [] = refl
node_at-update_other p f name key h ((i, n) ∷ ns) = ground (
  arith,
  h,
  node_at-update_other p f name key h ns,
  ap (λ k. text_eq k name),
  text_eq_sound i key,
)

-- `key` stands in a group with `bad`.
abbrev pub shares : Text → Text → List Group → Bool
shares bad key gs = any (λ g. contains_string g.members bad && contains_string g.members key) gs

module _ (ns : Nodes) (bad : Text) (min_kbps now : ℕ) where
  passing_member-some :
      (members : List Text) (key : Text)
      → passing_member ns bad min_kbps now members ≡ some key
      → (contains_string members key ≡ true)
        × (node_at (is_passing bad min_kbps now key) ns key ≡ true)
  unfolding passing_member contains_string
  passing_member-some [] key e = cc
  passing_member-some (name ∷ names) key e =
      go (get_node ns name) refl e (passing_member-some names key)
    where
      go :
          (o : Option Node)
          → get_node ns name ≡ o
          → (elim o [
            | none ↦ passing_member ns bad min_kbps now names
            | some n ↦
                if is_passing bad min_kbps now name n
                then some name
                else passing_member ns bad min_kbps now names
          ])
            ≡ some key
          → (passing_member ns bad min_kbps now names ≡ some key
              → (contains_string names key ≡ true)
                × (node_at (is_passing bad min_kbps now key) ns key ≡ true))
          → ((if text_eq name key then true else contains_string names key) ≡ true)
            × (node_at (is_passing bad min_kbps now key) ns key ≡ true)
      go none found e behind = ground (arith, behind e)
      go (some n) found e behind = elim (Bool-cases (is_passing bad min_kbps now name n)) [
        | inl t ↦ here t (
            some-injective name key (
              sym (ap (λ b. if b then some name else passing_member ns bad min_kbps now names) t)
              ∙ e))
        | inr t ↦ ground (
          arith,
          behind (
              sym (ap (λ b. if b then some name else passing_member ns bad min_kbps now names) t)
              ∙ e),
        )
      ]
        where
          here :
              is_passing bad min_kbps now name n ≡ true
              → name ≡ key
              → ((if text_eq name key then true else contains_string names key) ≡ true)
                × (node_at (is_passing bad min_kbps now key) ns key ≡ true)
          here t same =
              subst
                (λ k.
                  ((if text_eq name k then true else contains_string names k) ≡ true)
                  × (node_at (is_passing bad min_kbps now k) ns k ≡ true))
                same (rw (text_eq_refl name) refl, rw (node_at, found) t)

  pub passing_alternative-some :
      (gs : List Group) (key : Text)
      → passing_alternative ns bad min_kbps now gs ≡ some key
      → (shares bad key gs ≡ true) × (node_at (is_passing bad min_kbps now key) ns key ≡ true)
  unfolding passing_alternative
  passing_alternative-some [] key e = cc
  passing_alternative-some (g ∷ gs) key e =
      elim (Option-cases (passing_member ns bad min_kbps now g.members)) [
        | inl t ↦ ground (arith, t, e, passing_alternative-some gs key)
        | inr (k, t) ↦
            ground (arith, t, e, passing_alternative-some gs key, passing_member-some g.members key)
      ]

-- What holds of every alternative that is found.
module _ (P : Text × Node → Type 0) (ns : Nodes) (bad : Text) where
  alternative_members-All :
      (members : List Text) (found : Nodes)
      → ((name : Text) (n : Node)
          → contains_string members name ≡ true
          → get_node ns name ≡ some n
          → is_alternative bad name n ≡ true
          → P (name, n))
      → All P found
      → All P (alternative_members ns bad members found)
  unfolding alternative_members contains_string
  alternative_members-All [] found h a = a
  alternative_members-All (name ∷ names) found h a =
      alternative_members-All names
        (elim (get_node ns name) [
          | none ↦ found
          | some n ↦
              if is_alternative bad name n && not (any (λ entry. text_eq entry.0 name) found)
              then found ++ (name, n) ∷ []
              else found
        ])
        (λ k n c. h k n (ground (arith, c))) (go (get_node ns name) refl)
    where
      go :
          (o : Option Node)
          → get_node ns name ≡ o
          → All P (elim o [
            | none ↦ found
            | some n ↦
                if is_alternative bad name n && not (any (λ entry. text_eq entry.0 name) found)
                then found ++ (name, n) ∷ []
                else found
          ])
      go none e = a
      go (some n) e =
          elim (Bool-cases
            (is_alternative bad name n && not (any (λ entry. text_eq entry.0 name) found))) [
              | inl t ↦ rw t (
                  All-append P found ((name, n) ∷ []) a
                    (h name n (rw (text_eq_refl name) refl) e (ground (arith, t)), tt))
              | inr t ↦ rw t a
            ]

  pub alternatives-All :
      (gs : List Group) (found : Nodes)
      → ((name : Text) (n : Node)
          → shares bad name gs ≡ true
          → get_node ns name ≡ some n
          → is_alternative bad name n ≡ true
          → P (name, n))
      → All P found
      → All P (alternatives ns bad gs found)
  unfolding alternatives
  alternatives-All [] found h a = a
  alternatives-All (g ∷ gs) found h a = elim (Bool-cases (contains_string g.members bad)) [
    | inl t ↦ rw t (
        alternatives-All gs (alternative_members ns bad g.members found)
          (λ k n c. h k n (ground (arith, c)))
          (alternative_members-All g.members found (λ k n c. h k n (ground (arith, c, t))) a))
    | inr t ↦ rw t (alternatives-All gs found (λ k n c. h k n (ground (arith, c))) a)
  ]
