-- ===== src/Checker/Trace.antt =====
-- internal/checker/routing_trace.go: the order of sections, and the walk over those whose lists name
-- the destination.
pub mod Order
pub mod FirstMatch
use purewrt.Prelude.{
  ℕ, Bool, true, false, not, ◌&&◌, ◌||◌, List, [], ◌∷◌, ◌++◌, ltb, ◌==◌, if◌then◌else◌,
}
use purewrt.Prelude.Int.{ℤ, ltb_ℤ}
use purewrt.Prelude.Sort.{sort_by}
use purewrt.Text.{Text, codes, text_eq}
use purewrt.Config.Model.{Section, Config, ipv6_routed}
use purewrt.Checker.Scope.{
  Flow, Status, Reason, match, skip, conditional, reject, direct, shadowed, family_disabled,
  earlier_terminal, earlier_conditional, section_flow_scope,
}

pub record RoutingStep : Type 0 where
  pub section : Text
  pub priority : ℤ
  pub action : Text
  pub providers : List Text
  pub status : Status
  pub reason : Reason

pub record RoutingTrace : Type 0 where
  pub warnings : List Text
  pub steps : List RoutingStep
  pub action : Text
  pub section : Text

unfoldable pub rank : Section → ℕ
rank s =
    if text_eq s.action (codes "reject")
    then 0
    else if text_eq s.action (codes "direct")
    then 1
    else 2

unfoldable pub section_less : Section → Section → Bool
unfolding rank
section_less a b =
    if not (rank a == rank b) then ltb (rank a) (rank b) else ltb_ℤ a.priority b.priority

unfoldable pub routing_sections : List Section → List Section
unfolding sort_by section_less
routing_sections = sort_by section_less

-- `sort.Strings`: byte order, which is the order of the code points.
unfoldable pub text_less : Text → Text → Bool
text_less [] [] = false
text_less [] (b ∷ t) = true
text_less (a ∷ s) [] = false
text_less (a ∷ s) (b ∷ t) = let rest = text_less s t in if a == b then rest else ltb a b

-- The variables of the loop: `uncertain`, `terminal` and `result`.
pub record Walk : Type 0 where
  pub uncertain : Bool
  pub terminal : Bool
  pub result : RoutingTrace

-- The scope of the section, with the family test of the query; `is6` tells that the query is an
-- IPv6 address.
unfoldable pub section_scope : Config → Flow → Bool → Section → Status × Reason
unfolding section_flow_scope ipv6_routed
section_scope c f is6 s =
    if is6
      && not (ipv6_routed c)
      && not (text_eq s.action (codes "direct"))
      && not (text_eq s.action (codes "reject"))
    then (skip, family_disabled)
    else section_flow_scope c s f

abbrev pub status_text : Status → Text
status_text match = codes "match"
status_text skip = codes "skip"
status_text conditional = codes "conditional"
status_text reject = codes "reject"
status_text direct = codes "direct"
status_text shadowed = codes "shadowed"

-- `reject` and `direct` become the action of a match.
unfoldable pub settle : Section → Status → Text × Status
settle s reject = (codes "reject", match)
settle s direct = (codes "direct", match)
settle s match = (s.action, match)
settle s skip = (s.action, skip)
settle s conditional = (s.action, conditional)
settle s shadowed = (s.action, shadowed)

abbrev pub add_step : RoutingTrace → RoutingStep → RoutingTrace
add_step t x = record t { steps = t.steps ++ x ∷ [] }

abbrev pub step_of : Section → List Text → Text → Status → Reason → RoutingStep
step_of s ps action status reason = record {
  section = s.name;
  priority = s.priority;
  action = action;
  providers = ps;
  status = status;
  reason = reason;
}

-- A section that may handle the flow: what it becomes behind the earlier ones.
unfoldable pub settle_applicable : Walk → Section → List Text → Text → Status → Reason → Walk
settle_applicable w s ps action status reason =
    if w.terminal
    then record w { result = add_step w.result (step_of s ps action shadowed earlier_terminal) }
    else if w.uncertain
    then record w {
      result = record (add_step w.result (step_of s ps action conditional earlier_conditional)) {
        action = codes "conditional";
      };
    }
    else elim status [
      | match ↦ record w {
        terminal = true;
        result = record (add_step w.result (step_of s ps action match reason)) {
          action = action;
          section = s.name;
        };
      }
      | _ ↦ record w {
        uncertain = true;
        result = record (add_step w.result (step_of s ps action conditional reason)) {
          action = codes "conditional";
        };
      }
    ]

unfoldable pub visit_settled : Walk → Section → List Text → Text × Status → Reason → Walk
unfolding settle_applicable
visit_settled w s ps (action, match) reason = settle_applicable w s ps action match reason
visit_settled w s ps (action, conditional) reason =
    settle_applicable w s ps action conditional reason
visit_settled w s ps (action, status) reason = record w {
  result = add_step w.result (step_of s ps action status reason);
}

unfoldable pub visit : Config → Flow → Bool → Section → List Text → Walk → Walk
unfolding section_scope settle visit_settled
visit c f is6 s ps w =
    let (status, reason) = section_scope c f is6 s in visit_settled w s ps (settle s status) reason

unfoldable pub walk : Config → Flow → Bool → (Text → List Text) → List Section → Walk → Walk
unfolding visit sort_by text_less
walk c f is6 matches [] w = w
walk c f is6 matches (s ∷ ss) w = walk c f is6 matches ss (elim (matches s.name) [
  | [] ↦ w
  | p ∷ ps ↦ if s.enabled then visit c f is6 s (sort_by text_less (p ∷ ps)) w else w
])

unfoldable pub start_walk : List Text → Walk
start_walk warnings = record {
  uncertain = false;
  terminal = false;
  result = record { warnings = warnings; steps = []; action = codes "direct"; section = [] };
}

-- Warnings make the answer conditional.
unfoldable pub close_trace : RoutingTrace → RoutingTrace
close_trace t = elim t.warnings [
  | [] ↦ t
  | _ ↦ record t { action = codes "conditional"; section = [] }
]

-- `TraceDestination` behind its first loop, which has filled `matches` (the providers that name the
-- destination, by section) and `warnings`.
unfoldable pub trace_matches : Config → Flow → Bool → (Text → List Text) → List Text → RoutingTrace
unfolding walk start_walk close_trace routing_sections
trace_matches c f is6 matches warnings =
    close_trace (walk c f is6 matches (routing_sections c.sections) (start_walk warnings)).result
