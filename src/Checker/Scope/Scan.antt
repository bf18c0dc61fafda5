-- ===== src/Checker/Scope/Scan.antt =====
-- The two loops of the zapret scan, as questions about some strategy and some protocol.
use purewrt.Prelude.{
  ◌≡◌, ◌∙◌, ap, sym, Bool, true, false, ◌&&◌, ◌||◌, List, [], ◌∷◌, arith, none, some, Option, any,
  if◌then◌else◌,
}
use purewrt.Text.{Text}
use purewrt.Config.Model.{
  Section, Config, ZapretStrategy, ZapretProfile, zapret_strategy_by_name, zapret_profile_by_name,
}
use purewrt.Checker.Scope.{Flow, Claim, claims, wan_claims, scan_protocols, scan_strategies}

unfoldable pub or_claim : Claim → Bool → Bool → Claim
or_claim k a b = record { possible = k.possible || a; wan_match = k.wan_match || b }

scan_protocols-any :
    (s : Section) (f : Flow) (zs : ZapretStrategy) (p : Option ZapretProfile) (protos : List Text)
    (k : Claim)
    → scan_protocols s f zs p protos k
      ≡ or_claim k
          (any (claims s f zs) protos)
          (any (λ proto. claims s f zs proto && wan_claims p f) protos)
unfolding scan_protocols or_claim
scan_protocols-any s f zs p [] k = ground arith
scan_protocols-any s f zs p (proto ∷ protos) k =
    scan_protocols-any s f zs p protos (
      if claims s f zs proto
      then record { possible = true; wan_match = k.wan_match || wan_claims p f }
      else k)
    ∙ ground arith

-- Some strategy of the section claims the flow by protocol and port.
unfoldable pub strategy_claims : Config → Section → Flow → Text → Bool
strategy_claims c s f name = elim (zapret_strategy_by_name c name) [
  | none ↦ false
  | some zs ↦ any (claims s f zs) zs.protocols
]

-- It does so, and its profile covers the WAN device of the flow.
unfoldable pub strategy_on_wan : Config → Section → Flow → Text → Bool
strategy_on_wan c s f name = elim (zapret_strategy_by_name c name) [
  | none ↦ false
  | some zs ↦
      any (λ proto. claims s f zs proto && wan_claims (zapret_profile_by_name c zs.profile) f)
        zs.protocols
]

one_strategy :
    (c : Config) (s : Section) (f : Flow) (k : Claim) (o : Option ZapretStrategy)
    → (elim o [
      | none ↦ k
      | some zs ↦ scan_protocols s f zs (zapret_profile_by_name c zs.profile) zs.protocols k
    ])
      ≡ or_claim k
          (elim o [ none ↦ false | some zs ↦ any (claims s f zs) zs.protocols ])
          (elim o [
            | none ↦ false
            | some zs ↦
                any
                  (λ proto.
                    claims s f zs proto && wan_claims (zapret_profile_by_name c zs.profile) f)
                  zs.protocols
          ])
one_strategy c s f k none = unfold or_claim in ground arith
one_strategy c s f k (some zs) =
    scan_protocols-any s f zs (zapret_profile_by_name c zs.profile) zs.protocols k

or_claim_assoc :
    (k : Claim) (a b d e : Bool) → or_claim (or_claim k a b) d e ≡ or_claim k (a || d) (b || e)
unfolding or_claim
or_claim_assoc k a b d e = ground arith

or_claim_none : (k : Claim) → or_claim k false false ≡ k
unfolding or_claim
or_claim_none k = ground arith

pub scan_strategies-any :
    (c : Config) (s : Section) (f : Flow) (names : List Text) (k : Claim)
    → scan_strategies c s f names k
      ≡ or_claim k (any (strategy_claims c s f) names) (any (strategy_on_wan c s f) names)
unfolding scan_strategies strategy_claims strategy_on_wan
scan_strategies-any c s f [] k = sym (or_claim_none k)
scan_strategies-any c s f (name ∷ names) k =
    ap (λ j. scan_strategies c s f names j) (one_strategy c s f k (zapret_strategy_by_name c name))
    ∙ scan_strategies-any c s f names
        (or_claim k (strategy_claims c s f name) (strategy_on_wan c s f name))
    ∙ or_claim_assoc k (strategy_claims c s f name) (strategy_on_wan c s f name)
        (any (strategy_claims c s f) names) (any (strategy_on_wan c s f) names)
