-- ===== src/Guard/Members/Watched.antt =====
-- What the refresh before a run keeps of the nodes.
use purewrt.Prelude.{
  ℕ, ◌≡◌, ◌∙◌, refl, sym, ap, subst, Bool, true, false, ◌&&◌, ◌||◌, List, [], ◌∷◌, ◌++◌, arith,
  Option, none, some, if◌then◌else◌, Bool-cases, Option-cases, inl, inr,
}
use purewrt.Text.{Text, text_eq, text_eq_refl, text_eq_sound}
use purewrt.Checker.Scope.{contains_string}
use purewrt.Guard.{Node, Nodes, is_quarantined, get_node, update_node}
use purewrt.Guard.Speed.{apply_latency}
use purewrt.Guard.Run.Alternative.{node_at}
use purewrt.Guard.Members.{
  Proxies, keep_members, see_members, add_missing, see, new_node, update_guard_nodes,
  update_guard_latency, delay_of,
}

node_at-keep_members :
    (p : Node → Bool) (members : List Text) (ns : Nodes) (key : Text)
    → node_at p (keep_members members ns) key ≡ (contains_string members key && node_at p ns key)
unfolding keep_members
node_at-keep_members p members [] key = ground arith
node_at-keep_members p members ((name, n) ∷ ns) key = ground (
  arith,
  node_at-keep_members p members ns key,
  text_eq_sound name key,
  ap (contains_string members),
)

-- A write that the test does not see.
node_at-update_blind :
    (p : Node → Bool) (f : Node → Node) (name : Text)
    → ((n : Node) → p (f n) ≡ p n)
    → (ns : Nodes) (key : Text) → node_at p (update_node f name ns) key ≡ node_at p ns key
node_at-update_blind p f name h [] key = refl
node_at-update_blind p f name h ((i, n) ∷ ns) key =
    ground (arith, h n, node_at-update_blind p f name h ns key)

text_eq_both :
    (i name key : Text) → text_eq i key ≡ true → text_eq name key ≡ true → text_eq i name ≡ true
text_eq_both i name key h k =
    subst (λ t. text_eq i t ≡ true) (text_eq_sound i key h ∙ sym (text_eq_sound name key k))
      (text_eq_refl i)

node_at-append :
    (p : Node → Bool) (ns : Nodes) (name : Text) (n : Node) (key : Text)
    → get_node ns name ≡ none
    → node_at p (ns ++ (name, n) ∷ []) key ≡ (if text_eq name key then p n else node_at p ns key)
node_at-append p [] name n key e = ground arith
node_at-append p ((i, m) ∷ ns) name n key e =
    ground (arith, e, node_at-append p ns name n key, text_eq_both i name key)

add_missing-none :
    (name : Text) (ns : Nodes)
    → get_node ns name ≡ none
    → add_missing name ns ≡ ns ++ (name, new_node name) ∷ []
add_missing-none name ns e = rw (add_missing, e) refl

add_missing-some :
    (name : Text) (ns : Nodes) (n : Node) → get_node ns name ≡ some n → add_missing name ns ≡ ns
add_missing-some name ns n e = rw (add_missing, e) refl

-- A test that a new node fails does not see it.
node_at-add_missing :
    (p : Node → Bool) (name : Text) (ns : Nodes) (key : Text)
    → p (new_node name) ≡ false
    → node_at p (add_missing name ns) key ≡ node_at p ns key
node_at-add_missing p name ns key h = elim (Option-cases (get_node ns name)) [
  | inl e ↦
      ap (λ ms. node_at p ms key) (add_missing-none name ns e)
      ∙ node_at-append p ns name (new_node name) key e
      ∙ absent e
  | inr (n, e) ↦ ap (λ ms. node_at p ms key) (add_missing-some name ns n e)
]
  where
    absent :
        get_node ns name ≡ none
        → (if text_eq name key then p (new_node name) else node_at p ns key) ≡ node_at p ns key
    absent e = elim (Bool-cases (text_eq name key)) [
      | inl t ↦ ground (arith, t, h, e, ap (get_node ns) (text_eq_sound name key t))
      | inr t ↦ rw t refl
    ]

see_members-blind :
    (p : Node → Bool) (proxies : Proxies) (now : ℕ)
    → ((name : Text) (n : Node) → p (see proxies now name n) ≡ p n)
    → ((name : Text) → p (new_node name) ≡ false)
    → (names : List Text) (ns : Nodes) (key : Text)
    → node_at p (see_members proxies now names ns) key ≡ node_at p ns key
unfolding see_members
see_members-blind p proxies now h k [] ns key = refl
see_members-blind p proxies now h k (name ∷ names) ns key =
    see_members-blind p proxies now h k names
      (update_node (see proxies now name) name (add_missing name ns)) key
    ∙ node_at-update_blind p (see proxies now name) name (h name) (add_missing name ns) key
    ∙ node_at-add_missing p name ns key (k name)

abbrev pub present : Node → Bool
present n = true

present-add_missing :
    (name : Text) (ns : Nodes) (key : Text)
    → node_at present (add_missing name ns) key ≡ (text_eq name key || node_at present ns key)
present-add_missing name ns key = elim (Option-cases (get_node ns name)) [
  | inl e ↦
      ap (λ ms. node_at present ms key) (add_missing-none name ns e)
      ∙ node_at-append present ns name (new_node name) key e
      ∙ ground arith
  | inr (n, e) ↦
      ap (λ ms. node_at present ms key) (add_missing-some name ns n e)
      ∙ elim (Bool-cases (text_eq name key)) [
        | inl t ↦ ground (arith, t, e, ap (get_node ns) (text_eq_sound name key t))
        | inr t ↦ rw t refl
      ]
]

present-see_members :
    (proxies : Proxies) (now : ℕ) (names : List Text) (ns : Nodes) (key : Text)
    → node_at present (see_members proxies now names ns) key
      ≡ (contains_string names key || node_at present ns key)
unfolding see_members contains_string
present-see_members proxies now [] ns key = refl
present-see_members proxies now (name ∷ names) ns key =
    present-see_members proxies now names
      (update_node (see proxies now name) name (add_missing name ns)) key
    ∙ ground (
      arith,
      present-add_missing name ns key,
      node_at-update_blind present (see proxies now name) name (λ n. refl) (add_missing name ns)
          key,
    )

node_at-update_guard_latency :
    (p : Node → Bool) (proxies : Proxies) (delays : Text → Option ℕ) (max_jitter now : ℕ)
    → ((delay : ℕ) (n : Node) → p (apply_latency max_jitter now delay n) ≡ p n)
    → (ns : Nodes) (key : Text)
    → node_at p (update_guard_latency proxies delays max_jitter now ns) key ≡ node_at p ns key
unfolding update_guard_latency
node_at-update_guard_latency p proxies delays max_jitter now h [] key = refl
node_at-update_guard_latency p proxies delays max_jitter now h ((name, n) ∷ ns) key = ground (
  arith,
  h (delay_of proxies delays name) n,
  node_at-update_guard_latency p proxies delays max_jitter now h ns key,
)

apply_latency-quarantined :
    (max_jitter now delay : ℕ) (n : Node)
    → is_quarantined (apply_latency max_jitter now delay n) ≡ is_quarantined n
unfolding apply_latency
apply_latency-quarantined max_jitter now delay n = ground arith

abbrev pub refresh : Proxies → (Text → Option ℕ) → List Text → ℕ → ℕ → Nodes → Nodes
refresh proxies delays members max_jitter now ns =
    update_guard_latency proxies delays max_jitter now (update_guard_nodes proxies members now ns)

-- Behind the refresh exactly the members are known, and a member is quarantined exactly when it was
-- before: neither a new list of members nor a latency sweep, however bad, moves one in or out.
pub refresh-watched :
    (proxies : Proxies) (delays : Text → Option ℕ) (members : List Text) (max_jitter now : ℕ)
    (ns : Nodes) (key : Text)
    → (node_at present (refresh proxies delays members max_jitter now ns) key
        ≡ contains_string members key)
      × (node_at is_quarantined (refresh proxies delays members max_jitter now ns) key
          ≡ (contains_string members key && node_at is_quarantined ns key))
unfolding update_guard_nodes
refresh-watched proxies delays members max_jitter now ns key = (
  node_at-update_guard_latency present proxies delays max_jitter now (λ d n. refl) seen key
      ∙ present-see_members proxies now members (keep_members members ns) key
      ∙ ground (arith, node_at-keep_members present members ns key),
  node_at-update_guard_latency is_quarantined proxies delays max_jitter now
        (apply_latency-quarantined max_jitter now) seen key
      ∙ see_members-blind is_quarantined proxies now (λ name n. refl) (λ name. refl) members
          (keep_members members ns) key
      ∙ node_at-keep_members is_quarantined members ns key,
)
  where
    seen : Nodes
    seen = see_members proxies now members (keep_members members ns)
