-- ===== src/Guard/Run/Confirm.antt =====
-- The loop of `ProxyGuardRun` that confirms suspects: `confirm_node`.
use purewrt.Prelude.{
  ℕ, ◌≡◌, ◌≢◌, ◌⊎◌, ◌∙◌, refl, sym, true, [], ◌∷◌, Option, none, some, if◌then◌else◌, Bool-cases,
  inl, inr,
}
use purewrt.Text.{Text, text_eq, text_eq_sound}
use purewrt.Guard.{Node, Limits, Throughput, is_quarantined, get_node}
use purewrt.Guard.Run.{Run, find_alternative, finish_confirm, is_confirmable, confirm_node}
use purewrt.Guard.Choice.{quarantine}
use purewrt.Guard.Run.Alternative.{node_at, node_at-update_other}
use purewrt.Guard.Run.Search.{
  HasAlternative, Found, find_alternative-Found, quarantine-HasAlternative,
}
use purewrt.Guard.Run.Calm.{Calm, find_alternative-Calm}
use purewrt.Guard.Run.Carried.{Grounds, Grounds-probes, Answered, find_alternative-Answered}

-- A member that a step of the confirming loop puts into quarantine is the one that the step is about,
-- and it had two bad checks or more. Either another free member of one of its groups was probed within
-- the last hour before the step and its last transfer had a fast enough rate, whether or not that
-- transfer succeeded; or the step itself made a transfer through another free member of one of its
-- groups that succeeded and was fast enough. Behind the step another free member of one of its groups
-- has a probe within the last hour and a fast enough rate.
pub confirm_node-alternative :
    (lim : Limits) (now : ℕ) (download : ℕ → Text → Throughput × Option Text) (name : Text)
    (r : Run) (key : Text)
    → now ≢ 0
    → node_at is_quarantined (confirm_node lim now download name r).state.nodes key ≡ true
    → (node_at is_quarantined r.state.nodes key ≡ true)
      ⊎ ((key ≡ name)
          × (node_at (is_confirmable lim now download) r.state.nodes name ≡ true)
          × HasAlternative lim now name (confirm_node lim now download name r).state
          × Grounds lim now download name r (confirm_node lim now download name r))
unfolding confirm_node finish_confirm Calm
confirm_node-alternative lim now download name r key clock =
    go (get_node r.state.nodes name) refl (find_alternative lim now download name r)
      (find_alternative-Found lim now download clock name r)
      (find_alternative-Calm lim now download name r)
      (find_alternative-Answered lim now download name r)
  where
    Outcome : Run → Type 0
    Outcome s =
        node_at is_quarantined s.state.nodes key ≡ true
        → (node_at is_quarantined r.state.nodes key ≡ true)
          ⊎ ((key ≡ name)
              × (node_at (is_confirmable lim now download) r.state.nodes name ≡ true)
              × HasAlternative lim now name s.state
              × Grounds lim now download name r s)

    finished :
        (n : Node)
        → get_node r.state.nodes name ≡ some n
        → is_confirmable lim now download n ≡ true
        → (m : Text × Run) → Found lim now download clock name m
        → Calm r m.1
        → Answered lim now download name r m
        → Outcome (finish_confirm lim now download name n m)
    finished n known due ([], s) found calm answered = λ e. inl (calm key e)
    finished n known due (c ∷ other, s) found calm answered = elim (Bool-cases (text_eq key name)) [
      | inl t ↦ λ e. inr (
        text_eq_sound key name t,
        rw (node_at, known) due,
        quarantine-HasAlternative lim now download clock name s found,
        Grounds-probes lim now download name r s
            (finish_confirm lim now download name n (c ∷ other, s)) refl answered,
      )
      | inr t ↦ λ e. inl (
          calm key (
            sym (node_at-update_other is_quarantined (quarantine lim now) name key t s.state.nodes)
            ∙ e))
    ]

    go :
        (o : Option Node)
        → get_node r.state.nodes name ≡ o
        → (m : Text × Run) → Found lim now download clock name m
        → Calm r m.1
        → Answered lim now download name r m
        → Outcome (elim o as (λ _. Run) [
          | none ↦ r
          | some n ↦
              if is_confirmable lim now download n
              then finish_confirm lim now download name n m
              else r
        ])
    go none known m found calm answered = λ e. inl e
    go (some n) known m found calm answered =
        elim (Bool-cases (is_confirmable lim now download n)) [
          | inl t ↦ rw t (finished n known t m found calm answered)
          | inr t ↦ rw t (λ e. inl e)
        ]
