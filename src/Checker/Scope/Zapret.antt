-- ===== src/Checker/Scope/Zapret.antt =====
-- What the scope of a zapret section says of a flow whose protocol, port and WAN device are known.
use purewrt.Prelude.{
  ℕ, ◌≤◌, ◌≡◌, ◌≢◌, ◌∙◌, ap, refl, Bool, true, false, not, ◌&&◌, List, [], ◌∷◌, arith, none, some,
  Option, any, if◌then◌else◌, Bool-cases, inl, inr,
}
use purewrt.Prelude.Int.{pos}
use purewrt.Text.{Text, codes, text_eq, text_eq_sound}
use purewrt.Config.Model.{
  Section, Config, ZapretStrategy, ZapretProfile, zapret_strategy_by_name, zapret_profile_by_name,
}
use purewrt.Config.SectionMatch.{matches_protocol}
use purewrt.Config.Ports.{parse_port_ranges}
use purewrt.Checker.Scope.{
  Flow, Status, match, skip, direct, claims, wan_claims, scan_strategies, no_claim,
  section_flow_scope, itoa_int,
}
use purewrt.Checker.Scope.Proxy.{ports_allow, intersect-itoa, not_blank}
use purewrt.Prelude.{any-cong}
use purewrt.Checker.Scope.Scan.{or_claim, strategy_claims, strategy_on_wan, scan_strategies-any}
use purewrt.Checker.Scope.Takes.{strategy_takes, claims-takes}

-- Some strategy of the section takes the flow; `profile` says what else is asked of its profile.
pub some_strategy_takes : Config → Section → (Option ZapretProfile → Bool) → Text → ℕ → Text → Bool
some_strategy_takes c s profile protocol p name = elim (zapret_strategy_by_name c name) [
  | none ↦ false
  | some zs ↦
      any
        (λ proto.
          strategy_takes s zs protocol p proto && profile (zapret_profile_by_name c zs.profile))
        zs.protocols
]

and_true : (b : Bool) → b ≡ (b && true)
and_true b = ground arith

module _ (c : Config) (s : Section) (f : Flow) (p : ℕ) (protocol : f.protocol ≢ [])
    (port : f.port ≡ pos p) (low : 1 ≤ p) (high : p ≤ 65535) where
  claimed :
      (name : Text)
      → strategy_claims c s f name ≡ some_strategy_takes c s (λ _. true) f.protocol p name
  unfolding strategy_claims some_strategy_takes
  claimed name = go (zapret_strategy_by_name c name)
    where
      go :
          (o : Option ZapretStrategy)
          → (elim o [ none ↦ false | some zs ↦ any (claims s f zs) zs.protocols ]) ≡ (elim o [
            | none ↦ false
            | some zs ↦ any (λ proto. strategy_takes s zs f.protocol p proto && true) zs.protocols
          ])
      go none = refl
      go (some zs) =
          any-cong (claims s f zs) (λ proto. strategy_takes s zs f.protocol p proto && true)
            (λ proto.
              claims-takes s f zs p proto protocol port low high
              ∙ and_true (strategy_takes s zs f.protocol p proto))
            zs.protocols

  on_wan :
      (name : Text)
      → strategy_on_wan c s f name
        ≡ some_strategy_takes c s (λ profile. wan_claims profile f) f.protocol p name
  unfolding strategy_on_wan some_strategy_takes
  on_wan name = go (zapret_strategy_by_name c name)
    where
      go :
          (o : Option ZapretStrategy)
          → (elim o [
            | none ↦ false
            | some zs ↦
                any
                  (λ proto.
                    claims s f zs proto && wan_claims (zapret_profile_by_name c zs.profile) f)
                  zs.protocols
          ])
            ≡ (elim o [
              | none ↦ false
              | some zs ↦
                  any
                    (λ proto.
                      strategy_takes s zs f.protocol p proto
                      && wan_claims (zapret_profile_by_name c zs.profile) f)
                    zs.protocols
            ])
      go none = refl
      go (some zs) =
          any-cong
            (λ proto. claims s f zs proto && wan_claims (zapret_profile_by_name c zs.profile) f)
            (λ proto.
              strategy_takes s zs f.protocol p proto
              && wan_claims (zapret_profile_by_name c zs.profile) f)
            (λ proto.
              ap (λ b. b && wan_claims (zapret_profile_by_name c zs.profile) f)
                (claims-takes s f zs p proto protocol port low high))
            zs.protocols

  -- The claim that the loops arrive at.
  scanned : scan_strategies c s f s.zapret_strategies no_claim ≡ record {
    possible = any (some_strategy_takes c s (λ _. true) f.protocol p) s.zapret_strategies;
    wan_match =
        any
          (some_strategy_takes c s (λ profile. wan_claims profile f) f.protocol p)
          s.zapret_strategies;
  }
  unfolding or_claim
  scanned = scan_strategies-any c s f s.zapret_strategies no_claim ∙ (λ i. record {
    possible =
        any-cong (strategy_claims c s f) (some_strategy_takes c s (λ _. true) f.protocol p) claimed
          s.zapret_strategies i;
    wan_match =
        any-cong (strategy_on_wan c s f)
          (some_strategy_takes c s (λ profile. wan_claims profile f) f.protocol p) on_wan
          s.zapret_strategies i;
  })

-- What is taken passes the tests that the section makes before it looks at its strategies.
takes-passes :
    (s : Section) (zs : ZapretStrategy) (protocol : Text) (p : ℕ) (b : Bool) (protos : List Text)
    → any (λ proto. strategy_takes s zs protocol p proto && b) protos ≡ true
    → (matches_protocol s protocol ≡ true)
      × (ports_allow (parse_port_ranges s.destination_ports) p ≡ true)
unfolding strategy_takes
takes-passes s zs protocol p b [] h = cc
takes-passes s zs protocol p b (proto ∷ protos) h = elim (Bool-cases (text_eq proto protocol)) [
  | inl e ↦
      let same : proto ≡ protocol = text_eq_sound proto protocol e in
      ground (arith, takes-passes s zs protocol p b protos, ap (matches_protocol s) same)
  | inr e ↦ takes-passes s zs protocol p b protos (ground arith)
]

any-passes :
    (c : Config) (s : Section) (protocol : Text) (p : ℕ) (names : List Text)
    → any (some_strategy_takes c s (λ _. true) protocol p) names ≡ true
    → (matches_protocol s protocol ≡ true)
      × (ports_allow (parse_port_ranges s.destination_ports) p ≡ true)
any-passes c s protocol p [] h = cc
any-passes c s protocol p (name ∷ names) h =
    elim (Bool-cases (some_strategy_takes c s (λ _. true) protocol p name)) [
      | inl e ↦ go (zapret_strategy_by_name c name) (unfold some_strategy_takes in e)
      | inr e ↦ any-passes c s protocol p names (ground arith)
    ]
  where
    go :
        (o : Option ZapretStrategy)
        → (elim o [
          | none ↦ false
          | some zs ↦ any (λ proto. strategy_takes s zs protocol p proto && true) zs.protocols
        ])
          ≡ true
        → (matches_protocol s protocol ≡ true)
          × (ports_allow (parse_port_ranges s.destination_ports) p ≡ true)
    go none e = cc
    go (some zs) e = takes-passes s zs protocol p true zs.protocols e

is_zapret :
    (a : Text)
    → a ≡ codes "zapret"
    → (text_eq a (codes "zapret") ≡ true)
      × (text_eq a (codes "proxy") ≡ false)
      × (text_eq a (codes "direct") ≡ false)
      × (text_eq a (codes "reject") ≡ false)
unfolding text_eq
is_zapret a h = rw h (refl, refl, refl, refl)

-- What a zapret section does with a flow whose protocol, port and WAN device are known.
pub zapret_handles : Config → Section → Flow → ℕ → Status
zapret_handles c s f p =
    if not (any (some_strategy_takes c s (λ _. true) f.protocol p) s.zapret_strategies)
    then skip
    else if not (
        any (some_strategy_takes c s (λ profile. wan_claims profile f) f.protocol p)
          s.zapret_strategies)
    then direct
    else match

-- For a flow with a protocol, a port from 1 to 65535 and a WAN device, a section whose action is
-- `zapret` skips the flow exactly when none of its enabled strategies takes it by protocol and by the
-- ports of both strategy and section, sends it direct when one takes it but the profile of none that
-- does covers the device, and matches it otherwise; it is never conditional.
pub section_flow_scope-zapret :
    (c : Config) (s : Section) (f : Flow) (p : ℕ)
    → s.action ≡ codes "zapret"
    → f.protocol ≢ []
    → f.wan ≢ []
    → f.port ≡ pos p
    → 1 ≤ p
    → p ≤ 65535
    → (section_flow_scope c s f).0 ≡ zapret_handles c s f p
unfolding section_flow_scope zapret_handles itoa_int
section_flow_scope-zapret c s f p action protocol wan port low high = ground (
  arith,
  is_zapret s.action action,
  not_blank f.protocol protocol,
  not_blank f.wan wan,
  intersect-itoa s.destination_ports p low high,
  scanned c s f p protocol port low high,
  any-passes c s f.protocol p s.zapret_strategies,
)
