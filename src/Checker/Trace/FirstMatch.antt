-- ===== src/Checker/Trace/FirstMatch.antt =====
-- The walk of internal/checker/routing_trace.go and a description of it by its sections.
use purewrt.Prelude.{
  ◌≡◌, ◌∙◌, ap, refl, Bool, true, false, ◌||◌, List, [], ◌∷◌, arith, Option, none, some,
  if◌then◌else◌,
}
use purewrt.Prelude.Sort.{sort_by}
use purewrt.Text.{Text, codes}
use purewrt.Config.Model.{Section, Config}
use purewrt.Checker.Scope.{Flow, Status, Reason, match, skip, conditional, reject, direct, shadowed}
use purewrt.Checker.Trace.{
  RoutingTrace, Walk, routing_sections, section_scope, settle, settle_applicable, visit_settled,
  visit, walk, start_walk, close_trace, trace_matches, text_less,
}

abbrev pub Outcome : Type 0
Outcome = Text × Text

abbrev pub reported : RoutingTrace → Outcome
reported t = (t.action, t.section)

-- What a section alone makes of the flow: the action and the section, or nothing.
pub decide_status : Section → Status → Option Outcome
decide_status s match = some (s.action, s.name)
decide_status s reject = some (codes "reject", s.name)
decide_status s direct = some (codes "direct", s.name)
decide_status s conditional = some (codes "conditional", [])
decide_status s skip = none
decide_status s shadowed = none

abbrev pub named : (Text → List Text) → Section → Bool
named matches s = elim (matches s.name) [ [] ↦ false | _ ↦ s.enabled ]

-- The verdict of a list of sections: the first one that is enabled, named by a list and applicable.
pub verdict : Config → Flow → Bool → (Text → List Text) → List Section → Outcome
unfolding decide_status
verdict c f is6 matches [] = (codes "direct", [])
verdict c f is6 matches (s ∷ ss) =
    let rest = verdict c f is6 matches ss in
    if named matches s
    then elim (decide_status s (section_scope c f is6 s).0) [ none ↦ rest | some o ↦ o ]
    else rest

abbrev outcome : Walk → Outcome
outcome w = (w.result.action, w.result.section)

abbrev Undecided : Walk → Type 0
Undecided w = (w.terminal ≡ false) × (w.uncertain ≡ false) × (outcome w ≡ (codes "direct", []))

abbrev Decided : Walk → Outcome → Type 0
Decided w o =
    (outcome w ≡ o)
    × ((w.terminal || w.uncertain) ≡ true)
    × (w.terminal ≡ false → w.result.action ≡ codes "conditional")

visit_settled-Decided :
    (w : Walk) (s : Section) (ps : List Text) (st : Status) (r : Reason) (o : Outcome)
    → Decided w o
    → Decided (visit_settled w s ps (settle s st) r) o
unfolding visit_settled settle settle_applicable
visit_settled-Decided w s ps match r o h = ground arith
visit_settled-Decided w s ps st r o h = ground arith

-- From an undecided walk the section either decides or leaves it undecided.
abbrev After : Walk → Option Outcome → Type 0
After w none = Undecided w
After w (some o) = Decided w o

visit_settled-After :
    (w : Walk) (s : Section) (ps : List Text) (st : Status) (r : Reason)
    → Undecided w
    → After (visit_settled w s ps (settle s st) r) (decide_status s st)
unfolding visit_settled settle settle_applicable decide_status
visit_settled-After w s ps match r h = ground arith
visit_settled-After w s ps st r h = ground arith

visit-Decided :
    (c : Config) (f : Flow) (is6 : Bool) (s : Section) (ps : List Text) (w : Walk) (o : Outcome)
    → Decided w o
    → Decided (visit c f is6 s ps w) o
unfolding visit
visit-Decided c f is6 s ps w o h =
    let (st, r) = section_scope c f is6 s in visit_settled-Decided w s ps st r o h

visit-After :
    (c : Config) (f : Flow) (is6 : Bool) (s : Section) (ps : List Text) (w : Walk)
    → Undecided w
    → After (visit c f is6 s ps w) (decide_status s (section_scope c f is6 s).0)
unfolding visit
visit-After c f is6 s ps w h =
    let (st, r) = section_scope c f is6 s in visit_settled-After w s ps st r h

-- One round of the walk, with the list of providers that the section has.
round : Config → Flow → Bool → Section → List Text → Walk → Walk
unfolding visit sort_by text_less
round c f is6 s [] w = w
round c f is6 s (p ∷ ps) w = if s.enabled then visit c f is6 s (sort_by text_less (p ∷ ps)) w else w

walk_step :
    (c : Config) (f : Flow) (is6 : Bool) (matches : Text → List Text) (s : Section)
    (ss : List Section) (w : Walk)
    → walk c f is6 matches (s ∷ ss) w ≡ walk c f is6 matches ss (round c f is6 s (matches s.name) w)
unfolding walk round
walk_step c f is6 matches s ss w = ap (walk c f is6 matches ss) (go (matches s.name))
  where
    go :
        (ps : List Text)
        → (elim ps [
          | [] ↦ w
          | p ∷ qs ↦ if s.enabled then visit c f is6 s (sort_by text_less (p ∷ qs)) w else w
        ])
          ≡ round c f is6 s ps w
    go [] = refl
    go (p ∷ qs) = refl

Decided-if :
    (b : Bool) (w v : Walk) (o : Outcome)
    → Decided w o
    → Decided v o
    → Decided (if b then w else v) o
Decided-if true w v o h k = h
Decided-if false w v o h k = k

round-Decided :
    (c : Config) (f : Flow) (is6 : Bool) (s : Section) (ps : List Text) (w : Walk) (o : Outcome)
    → Decided w o
    → Decided (round c f is6 s ps w) o
unfolding round
round-Decided c f is6 s [] w o h = h
round-Decided c f is6 s (p ∷ ps) w o h =
    Decided-if s.enabled (visit c f is6 s (sort_by text_less (p ∷ ps)) w) w o
      (visit-Decided c f is6 s (sort_by text_less (p ∷ ps)) w o h) h

walk-Decided :
    (c : Config) (f : Flow) (is6 : Bool) (matches : Text → List Text) (ss : List Section) (w : Walk)
    (o : Outcome)
    → Decided w o
    → outcome (walk c f is6 matches ss w) ≡ o
walk-Decided c f is6 matches [] w o h = unfold walk in h.0
walk-Decided c f is6 matches (s ∷ ss) w o h =
    ap outcome (walk_step c f is6 matches s ss w)
    ∙ walk-Decided c f is6 matches ss (round c f is6 s (matches s.name) w) o
        (round-Decided c f is6 s (matches s.name) w o h)

After-if :
    (b : Bool) (w v : Walk) (d : Option Outcome)
    → After w d
    → After v none
    → After (if b then w else v) (if b then d else none)
After-if true w v d h k = h
After-if false w v d h k = k

round-After :
    (c : Config) (f : Flow) (is6 : Bool) (s : Section) (ps : List Text) (w : Walk)
    → Undecided w
    → After (round c f is6 s ps w) (
        if (elim ps [ [] ↦ false | _ ↦ s.enabled ])
        then decide_status s (section_scope c f is6 s).0
        else none)
round-After c f is6 s [] w h = unfold round in h
round-After c f is6 s (p ∷ ps) w h =
    unfold round in
    After-if s.enabled (visit c f is6 s (sort_by text_less (p ∷ ps)) w) w
      (decide_status s (section_scope c f is6 s).0)
      (visit-After c f is6 s (sort_by text_less (p ∷ ps)) w h) h

-- What is left to show behind a section, from the claim for the sections behind it.
After-verdict :
    (c : Config) (f : Flow) (is6 : Bool) (matches : Text → List Text) (ss : List Section) (w : Walk)
    → ((w : Walk) → Undecided w → outcome (walk c f is6 matches ss w) ≡ verdict c f is6 matches ss)
    → (b : Bool) (d : Option Outcome) → After w (if b then d else none)
    → outcome (walk c f is6 matches ss w) ≡ (
        if b
        then elim d [ none ↦ verdict c f is6 matches ss | some o ↦ o ]
        else verdict c f is6 matches ss)
After-verdict c f is6 matches ss w ih true none a = ih w a
After-verdict c f is6 matches ss w ih true (some o) a = walk-Decided c f is6 matches ss w o a
After-verdict c f is6 matches ss w ih false d a = ih w a

walk_nil :
    (c : Config) (f : Flow) (is6 : Bool) (matches : Text → List Text) (w : Walk)
    → walk c f is6 matches [] w ≡ w
unfolding walk
walk_nil c f is6 matches w = refl

walk-verdict :
    (c : Config) (f : Flow) (is6 : Bool) (matches : Text → List Text) (ss : List Section) (w : Walk)
    → Undecided w
    → outcome (walk c f is6 matches ss w) ≡ verdict c f is6 matches ss
unfolding verdict
walk-verdict c f is6 matches [] w h = ap outcome (walk_nil c f is6 matches w) ∙ h.2
walk-verdict c f is6 matches (s ∷ ss) w h =
    ap outcome (walk_step c f is6 matches s ss w)
    ∙ After-verdict c f is6 matches ss (round c f is6 s (matches s.name) w)
        (walk-verdict c f is6 matches ss) (named matches s)
        (decide_status s (section_scope c f is6 s).0) (round-After c f is6 s (matches s.name) w h)

-- Warnings are left alone by the walk.
visit_settled-warnings :
    (w : Walk) (s : Section) (ps : List Text) (st : Status) (r : Reason)
    → (visit_settled w s ps (settle s st) r).result.warnings ≡ w.result.warnings
unfolding visit_settled settle settle_applicable
visit_settled-warnings w s ps match r = ground arith
visit_settled-warnings w s ps st r = ground arith

round-warnings :
    (c : Config) (f : Flow) (is6 : Bool) (s : Section) (ps : List Text) (w : Walk)
    → (round c f is6 s ps w).result.warnings ≡ w.result.warnings
round-warnings c f is6 s [] w = unfold round in refl
round-warnings c f is6 s (p ∷ ps) w =
    unfold round in
    either s.enabled (visit c f is6 s (sort_by text_less (p ∷ ps)) w) (
      unfold visit in
      visit_settled-warnings w s (sort_by text_less (p ∷ ps)) (section_scope c f is6 s).0
        (section_scope c f is6 s).1)
  where
    either :
        (b : Bool) (v : Walk)
        → v.result.warnings ≡ w.result.warnings
        → (if b then v else w).result.warnings ≡ w.result.warnings
    either true v e = e
    either false v e = refl

walk-warnings :
    (c : Config) (f : Flow) (is6 : Bool) (matches : Text → List Text) (ss : List Section) (w : Walk)
    → (walk c f is6 matches ss w).result.warnings ≡ w.result.warnings
walk-warnings c f is6 matches [] w = ap (λ v. v.result.warnings) (walk_nil c f is6 matches w)
walk-warnings c f is6 matches (s ∷ ss) w =
    ap (λ v. v.result.warnings) (walk_step c f is6 matches s ss w)
    ∙ walk-warnings c f is6 matches ss (round c f is6 s (matches s.name) w)
    ∙ round-warnings c f is6 s (matches s.name) w

close_clean : (t : RoutingTrace) → t.warnings ≡ [] → close_trace t ≡ t
unfolding close_trace
close_clean t h = rw h

close_warned :
    (t : RoutingTrace) (x : Text) (xs : List Text)
    → t.warnings ≡ x ∷ xs
    → reported (close_trace t) ≡ (codes "conditional", [])
unfolding close_trace
close_warned t x xs h = ground arith

abbrev pub verdict_or_warned : List Text → Outcome → Outcome
verdict_or_warned [] o = o
verdict_or_warned (x ∷ xs) o = (codes "conditional", [])

-- The trace reports the verdict of the sections in routing order: with no warning, action and
-- section are those of the first enabled section that a list names and that is not skipped, where a
-- conditional one makes the answer conditional without a section, and with no such section the flow
-- is direct. With a warning the answer is conditional, without a section.
pub trace_matches-verdict :
    (c : Config) (f : Flow) (is6 : Bool) (matches : Text → List Text) (warnings : List Text)
    → reported (trace_matches c f is6 matches warnings)
      ≡ verdict_or_warned warnings (verdict c f is6 matches (routing_sections c.sections))
trace_matches-verdict c f is6 matches warnings = go warnings
  where
    after : List Text → Walk
    after ws = walk c f is6 matches (routing_sections c.sections) (start_walk ws)

    kept : (ws : List Text) → (after ws).result.warnings ≡ ws
    kept ws =
        walk-warnings c f is6 matches (routing_sections c.sections) (start_walk ws)
        ∙ (unfold start_walk in refl)

    go :
        (ws : List Text)
        → reported (trace_matches c f is6 matches ws)
          ≡ verdict_or_warned ws (verdict c f is6 matches (routing_sections c.sections))
    go [] =
        unfold trace_matches in
        rw (close_clean (after []).result (kept [])) (
          walk-verdict c f is6 matches (routing_sections c.sections) (start_walk [])
            (refl, refl, refl))
    go (x ∷ xs) = unfold trace_matches in close_warned (after (x ∷ xs)).result x xs (kept (x ∷ xs))
