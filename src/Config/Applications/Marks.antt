-- ===== src/Config/Applications/Marks.antt =====
-- The marks of the compiled strategies and the profiles that they name.
use mathlib.Core.List.{map-append}
use purewrt.Prelude.{
  ℕ, ◌+◌, ◌-◌, ◌*◌, ◌^◌, ◌≤◌, ◌≡◌, refl, sym, ap, subst, ◌∙◌, arith, Bool, true, false, List, [],
  ◌∷◌, ◌++◌, map, Option, none, some, Result, ok, err, ◌>>=◌, >>=-ok, ok-injective, length,
  length-append, length-map, leb, ◌==◌, if◌then◌else◌, Bool-cases, inl, inr,
}
use purewrt.Text.{Text}
use purewrt.Config.Model.{ZapretProfile, ZapretStrategy, Config, Section, is_empty}
use purewrt.Config.Candidates.{ZapretCandidate, names, expand, by_name, resolve_strategies}
use purewrt.Config.Candidates.Resolved.{
  Option-cases, resolve_strategies-end, resolve_strategies-own, resolve_strategies-missing,
  resolve_strategies-shared,
}
use purewrt.Config.Applications.{
  ZapretApplication, CompileError, bad_assignment, missing_strategy, too_many, bad_application,
  no_assignments, Compiled, cut, group_of, add_interface, open_group, assign, new_profile,
  new_strategy, instance_name, instances_of, by_group, compile_applications, compile_sections,
  compile_zapret_applications, resolved,
}

abbrev pub marks : List ZapretStrategy → List ℕ
marks = map (λ s. s.selector_mark)

abbrev pub profile_names : List ZapretProfile → List Text
profile_names = map (λ p. p.name)

abbrev pub used_profiles : List ZapretStrategy → List Text
used_profiles = map (λ s. s.profile)

-- The marks count up from `k + 1`, in the bits from 16 on.
abbrev pub Counts : ℕ → List ℕ → Type 0
Counts k [] = Unit
Counts k (m ∷ ms) = (m ≡ (k + 1) * 2 ^ 16) × Counts (k + 1) ms

Counts-append :
    (k m : ℕ) (ms : List ℕ)
    → Counts k ms
    → m ≡ (k + length ms + 1) * 2 ^ 16
    → Counts k (ms ++ m ∷ [])
Counts-append k m [] c e = (omega (arith, e), tt)
Counts-append k m (n ∷ ms) (h, c) e = (h, Counts-append (k + 1) m ms c (omega (arith, e)))

-- What the loops keep.
record Numbered (s : Compiled) : Type 0 where
  few : length s.strategies ≤ 255
  marked : Counts 0 (marks s.strategies)
  named : profile_names s.profiles ≡ used_profiles s.strategies

profile_names-add_interface :
    (i : ℕ) (device : Text) (ps : List ZapretProfile)
    → profile_names (add_interface i device ps) ≡ profile_names ps
unfolding add_interface
profile_names-add_interface i device [] = refl
profile_names-add_interface i device (p ∷ ps) = elim (Bool-cases (i == 0)) [
  | inl e ↦ rw e refl
  | inr e ↦ rw e (ap (λ t. p.name ∷ t) (profile_names-add_interface (i - 1) device ps))
]

add_interface-Numbered :
    (i : ℕ) (device : Text) (s : Compiled)
    → Numbered s
    → Numbered (record s { profiles = add_interface i device s.profiles })
add_interface-Numbered i device s n = record {
  few = n.few;
  marked = n.marked;
  named = profile_names-add_interface i device s.profiles ∙ n.named;
}

open_group-Numbered :
    (app device candidate : Text) (s : Compiled)
    → leb 255 (length s.strategies) ≡ false
    → Numbered s
    → Numbered (open_group app device candidate s)
unfolding open_group
open_group-Numbered app device candidate s h n = record {
  few = ground (
    arith,
    h,
    length-append s.strategies (new_strategy name candidate (length s.strategies) ∷ []),
  );
  marked =
      rw
        (map-append (λ t. t.selector_mark) s.strategies
          (new_strategy name candidate (length s.strategies) ∷ []))
        (Counts-append 0 _ (marks s.strategies) n.marked
          (ground (arith, h, length-map s.strategies (λ (t : ZapretStrategy). t.selector_mark))));
  named =
      map-append (λ p. p.name) s.profiles (new_profile name device ∷ [])
      ∙ ap (λ t. t ++ name ∷ []) n.named
      ∙ sym (
          map-append (λ t. t.profile) s.strategies
            (new_strategy name candidate (length s.strategies) ∷ []));
}
  where
    name : Text
    name = instance_name app (length (instances_of app s.instances))

-- Where a step returns lists, they are numbered.
Returns : Result CompileError Compiled → Type 0
Returns r = (s : Compiled) → r ≡ ok s → Numbered s

err-Returns : (e : CompileError) → Returns (err e)
unfolding Returns
err-Returns e s h = cc

ok-Returns : (s : Compiled) → Numbered s → Returns (ok s)
unfolding Returns
ok-Returns s n s' h = subst Numbered (ok-injective h) n

if-Returns :
    (test : Bool) (x y : Result CompileError Compiled)
    → Returns x
    → Returns y
    → Returns (if test then x else y)
if-Returns true x y g h = g
if-Returns false x y g h = h

bind-Returns :
    (r : Result CompileError Compiled) (next : Compiled → Result CompileError Compiled)
    → Returns r
    → ((s : Compiled) → Numbered s → Returns (next s))
    → Returns (r >>= next)
unfolding Returns
bind-Returns (err e) next g h s k = cc
bind-Returns (ok s) next g h s' k = h s (g s refl) s' k

by_group-Returns :
    (o : Option ℕ) (joined : ℕ → Result CompileError Compiled)
    (opened : Result CompileError Compiled)
    → ((i : ℕ) → Returns (joined i))
    → Returns opened
    → Returns (by_group o joined opened)
by_group-Returns none joined opened g h = h
by_group-Returns (some i) joined opened g h = g i

-- A further group is opened only below the limit.
limit-Returns :
    (count : ℕ) (x : Result CompileError Compiled)
    → (leb 255 count ≡ false → Returns x)
    → Returns (if leb 255 count then err too_many else x)
limit-Returns count x h = elim (Bool-cases (leb 255 count)) [
  | inl e ↦ rw e (err-Returns too_many)
  | inr e ↦ rw e (h e)
]

assign-Returns :
    (known : List Text) (app : Text) (raws devices : List Text) (grouped : List (Text × ℕ))
    (s : Compiled)
    → Numbered s
    → Returns (assign known app raws devices grouped s)
unfolding assign
assign-Returns known app [] devices grouped s n = ok-Returns s n
assign-Returns known app (raw ∷ raws) devices grouped s n =
    if-Returns _ _ _ (err-Returns (bad_assignment app raw)) (
      if-Returns _ _ _ (err-Returns (missing_strategy app (cut raw).1)) (
        by_group-Returns (group_of (cut raw).1 grouped) _ _
          (λ i.
            assign-Returns known app raws ((cut raw).0 ∷ devices) grouped _
              (add_interface-Numbered i (cut raw).0 s n))
          (limit-Returns (length s.strategies) _ (λ e.
            assign-Returns known app raws ((cut raw).0 ∷ devices) _ _
              (open_group-Numbered app (cut raw).0 (cut raw).1 s e n)))))

compile_applications-Returns :
    (known : List Text) (apps : List ZapretApplication) (seen : List Text) (s : Compiled)
    → Numbered s
    → Returns (compile_applications known apps seen s)
unfolding compile_applications
compile_applications-Returns known [] seen s n = ok-Returns s n
compile_applications-Returns known (app ∷ apps) seen s n =
    if-Returns _ _ _ (err-Returns (bad_application app.name)) (
      if-Returns _ _ _ (compile_applications-Returns known apps (app.name ∷ seen) s n) (
        if-Returns _ _ _ (err-Returns (no_assignments app.name)) (
          bind-Returns (assign known app.name app.assignments [] [] s) _
            (assign-Returns known app.name app.assignments [] [] s n)
            (λ s' n'. compile_applications-Returns known apps (app.name ∷ seen) s' n'))))

-- Resolving references leaves the marks and the profiles of the strategies as they are.
resolve_strategies-keeps :
    (is_file : Text → Bool) (library : List ZapretCandidate) (ss : List ZapretStrategy)
    → (marks (resolve_strategies is_file library ss).0 ≡ marks ss)
      × (used_profiles (resolve_strategies is_file library ss).0 ≡ used_profiles ss)
unfolding expand
resolve_strategies-keeps is_file library [] =
    rw (resolve_strategies-end is_file library) (refl, refl)
resolve_strategies-keeps is_file library (s ∷ ss) =
    let (e, f) = resolve_strategies-keeps is_file library ss in
    elim (Bool-cases (is_empty s.candidate)) [
      | inl own ↦
          rw (resolve_strategies-own is_file library s ss own)
            (ap (λ t. s.selector_mark ∷ t) e, ap (λ t. s.profile ∷ t) f)
      | inr shared ↦ elim (Option-cases (by_name s.candidate library)) [
        | inl missing ↦
            rw (resolve_strategies-missing is_file library s ss shared missing) (refl, refl)
        | inr (v, known) ↦
            rw (resolve_strategies-shared is_file library s ss v shared known)
              (ap (λ t. s.selector_mark ∷ t) e, ap (λ t. s.profile ∷ t) f)
      ]
    ]

-- A configuration with strategies and profiles of this kind.
Numbered-Config :
    (s : Compiled) (ss : List ZapretStrategy)
    → marks ss ≡ marks s.strategies
    → used_profiles ss ≡ used_profiles s.strategies
    → Numbered s
    → (length ss ≤ 255) × Counts 0 (marks ss) × (profile_names s.profiles ≡ used_profiles ss)
Numbered-Config s ss e f n = (
  omega (
    arith,
    n.few,
    ap length e,
    length-map ss (λ (t : ZapretStrategy). t.selector_mark),
    length-map s.strategies (λ (t : ZapretStrategy). t.selector_mark),
  ),
  subst (Counts 0) (sym e) n.marked,
  n.named ∙ sym f,
)

resolved-Numbered :
    (s : Compiled) (sections : List Section) (c c' : Config)
    (r : List ZapretStrategy × Option ZapretStrategy)
    → marks r.0 ≡ marks s.strategies
    → used_profiles r.0 ≡ used_profiles s.strategies
    → Numbered s
    → resolved (record c { zapret_profiles = s.profiles; sections = sections }) r ≡ ok c'
    → (length c'.zapret_strategies ≤ 255)
      × Counts 0 (marks c'.zapret_strategies)
      × (profile_names c'.zapret_profiles ≡ used_profiles c'.zapret_strategies)
resolved-Numbered s sections c c' (ss, none) e f n h =
    subst
      (λ (c : Config).
        (length c.zapret_strategies ≤ 255)
        × Counts 0 (marks c.zapret_strategies)
        × (profile_names c.zapret_profiles ≡ used_profiles c.zapret_strategies))
      (ok-injective h) (Numbered-Config s ss e f n)
resolved-Numbered s sections c c' (ss, some missing) e f n h = cc

start-Numbered : Numbered (record { profiles = []; strategies = []; instances = [] })
start-Numbered = record { few = omega arith; marked = tt; named = refl }

-- A configuration that compiles has at most 255 strategies; the mark of each is its place among them,
-- counted from 1, in the bits from 16 on, so no two marks are the same and all fit into 24 bits; and
-- the profiles that the strategies name are the profiles, in the same order.
pub compile_zapret_applications-Counts :
    (is_file : Text → Bool) (apps : List ZapretApplication) (library : List ZapretCandidate)
    (c c' : Config)
    → compile_zapret_applications is_file apps library c ≡ ok c'
    → (length c'.zapret_strategies ≤ 255)
      × Counts 0 (marks c'.zapret_strategies)
      × (profile_names c'.zapret_profiles ≡ used_profiles c'.zapret_strategies)
unfolding compile_zapret_applications Returns
compile_zapret_applications-Counts is_file apps library c c' h =
    let (s, started, h1) = >>=-ok (compile_applications (names library) apps [] _) _ h in
    let (sections, named, h2) = >>=-ok (compile_sections s.instances c.sections) _ h1 in
    let (e, f) = resolve_strategies-keeps is_file library s.strategies in
    resolved-Numbered s sections c c' (resolve_strategies is_file library s.strategies) e f
      (compile_applications-Returns (names library) apps [] _ start-Numbered s started) h2
