-- ===== src/Guard/Run/Due.antt =====
-- Which members are due for a probe of the fleet, and what a step of the run leaves of them.
use purewrt.Prelude.{
  ℕ, ◌≤◌, ◌≡◌, ◌≢◌, ◌∙◌, refl, Bool, true, false, not, List, [], ◌∷◌, arith, any, map, Bool-cases,
  inl, inr,
}
use purewrt.Prelude.Sort.{sort_by, insert_by}
use purewrt.Text.{Text, text_eq}
use purewrt.Checker.Scope.{contains_string}
use purewrt.Guard.{Node, Nodes, Limits, update_node}
use purewrt.Guard.Run.{Run, with_nodes}
use purewrt.Guard.Choice.{
  is_candidate, older, candidates, rolling_probe_candidates, fleet_interval, quarantine,
}

abbrev pub is_nil {ℓ} : {A : Type ℓ} → List A → Bool
is_nil [] = true
is_nil (x ∷ xs) = false

is_nil-insert_by {ℓ} :
    {A : Type ℓ} (less : A → A → Bool) (x : A) (ys : List A) → is_nil (insert_by less x ys) ≡ false
unfolding insert_by
is_nil-insert_by less x [] = refl
is_nil-insert_by less x (y ∷ ys) = ground arith

is_nil-sort_by {ℓ} :
    {A : Type ℓ} (less : A → A → Bool) (xs : List A) → is_nil (sort_by less xs) ≡ is_nil xs
unfolding sort_by
is_nil-sort_by less [] = refl
is_nil-sort_by less (x ∷ xs) = is_nil-insert_by less x (sort_by less xs)

is_nil-map {ℓ κ} :
    {A : Type ℓ} {B : Type κ} (f : A → B) (xs : List A) → is_nil (map f xs) ≡ is_nil xs
is_nil-map f [] = refl
is_nil-map f (x ∷ xs) = refl

is_nil-candidates :
    (now interval : ℕ) (already : List Text) (ns : Nodes)
    → is_nil (candidates now interval already ns) ≡ not (any (is_candidate now interval already) ns)
unfolding candidates
is_nil-candidates now interval already [] = refl
is_nil-candidates now interval already (e ∷ ns) =
    elim (Bool-cases (is_candidate now interval already e)) [
      | inl t ↦ rw t refl
      | inr t ↦ rw t (is_nil-candidates now interval already ns)
    ]

pub is_nil-rolling_probe_candidates :
    (now interval : ℕ) (already : List Text) (ns : Nodes)
    → is_nil (rolling_probe_candidates now interval already ns)
      ≡ not (any (is_candidate now interval already) ns)
unfolding rolling_probe_candidates
is_nil-rolling_probe_candidates now interval already ns =
    is_nil-map (λ entry. entry.0) (sort_by older (candidates now interval already ns))
    ∙ is_nil-sort_by older (candidates now interval already ns)
    ∙ is_nil-candidates now interval already ns

-- Some member is due.
abbrev pub any_due : Limits → ℕ → Run → Bool
any_due lim now r = any (is_candidate now (fleet_interval lim) r.probed) r.state.nodes

pub any_mono {ℓ} :
    {A : Type ℓ} (p q : A → Bool)
    → ((a : A) → p a ≡ true → q a ≡ true)
    → (xs : List A) → any p xs ≡ true
    → any q xs ≡ true
any_mono p q h [] e = e
any_mono p q h (x ∷ xs) e = ground (arith, h x, any_mono p q h xs)

-- A write at a key that passes no test afterwards adds nothing.
any-update_node :
    (p : Text × Node → Bool) (f : Node → Node) (name : Text)
    → ((key : Text) (n : Node) → text_eq key name ≡ true → p (key, f n) ≡ false)
    → (ns : Nodes) → any p (update_node f name ns) ≡ true
    → any p ns ≡ true
any-update_node p f name h [] e = e
any-update_node p f name h ((key, n) ∷ ns) e =
    ground (arith, h key n, any-update_node p f name h ns)

fleet_interval_pos : (lim : Limits) → 1 ≤ fleet_interval lim
unfolding fleet_interval
fleet_interval_pos lim = ground arith

-- A node that has just been probed is not due.
pub any_due-measured :
    (lim : Limits) (now : ℕ) (f : Node → Node) (name : Text) (r : Run)
    → now ≢ 0
    → ((n : Node) → (f n).last_probe ≡ now)
    → any_due lim now (with_nodes (update_node f name) r) ≡ true
    → any_due lim now r ≡ true
any_due-measured lim now f name r h stamped =
    any-update_node (is_candidate now (fleet_interval lim) r.probed) f name
      (λ key n e. ground (arith, h, stamped n, fleet_interval_pos lim)) r.state.nodes

pub any_due-quarantine :
    (lim : Limits) (now : ℕ) (name : Text) (r : Run)
    → any_due lim now (with_nodes (update_node (quarantine lim now) name) r) ≡ true
    → any_due lim now r ≡ true
any_due-quarantine lim now name r =
    any-update_node (is_candidate now (fleet_interval lim) r.probed) (quarantine lim now) name
      (λ key n e. unfold quarantine in refl) r.state.nodes

pub any_due-probed :
    (lim : Limits) (now : ℕ) (name : Text) (r : Run)
    → any_due lim now (record r { probed = name ∷ r.probed }) ≡ true
    → any_due lim now r ≡ true
unfolding contains_string
any_due-probed lim now name r =
    any_mono (is_candidate now (fleet_interval lim) (name ∷ r.probed))
      (is_candidate now (fleet_interval lim) r.probed) (λ e h. ground (arith, h)) r.state.nodes
