-- ===== src/Checker/Providers/Lazy.antt =====
-- `MatchDomain` of internal/checker/rules.go over providers that are read when they are asked.
use purewrt.Prelude.{◌≡◌, refl, ap, List, [], ◌∷◌, Option, none, some}
use purewrt.Text.{Text}
use purewrt.Config.Model.{Config}
use purewrt.Rules.{normalize_domain}
use purewrt.Checker.Providers.{
  RuleProvider, RuleProviderMatch, get, or_else, parents, Index, World, lookup_sets, new_index,
  lookup_index, add_provider, match_pending, closing, match_domain, parse_all,
}
use purewrt.Checker.Providers.Keys.{lookup_suffixes_empty}
use purewrt.Checker.Providers.Agree.{Agree-lookup, unclaimed-Agree, add_provider-Agree}

module _ {A : Type 0} (name : Text) where
  module _ (w : World A) where
    -- The match of the first provider that claims the name when it is looked at alone.
    pub first_claim : Config → List RuleProvider → Option RuleProviderMatch
    first_claim c [] = none
    first_claim c (rp ∷ rps) =
        or_else (lookup_index (add_provider w c rp new_index) name) (first_claim c rps)

    match_pending-first :
        (c : Config) (rps : List RuleProvider) (idx : Index A)
        → lookup_index idx name ≡ none
        → ((match_pending w c name rps idx).0 ≡ first_claim c rps)
          × (first_claim c rps ≡ none → (match_pending w c name rps idx).1 ≡ parse_all w c rps idx)
    unfolding match_pending first_claim parse_all
    match_pending-first c [] idx h = (refl, λ e. refl)
    match_pending-first c (rp ∷ rps) idx h =
        claim (lookup_index (add_provider w c rp idx) name) refl
          (Agree-lookup name (add_provider w c rp idx) (add_provider w c rp new_index)
            (add_provider-Agree name w c rp idx new_index (unclaimed-Agree name idx h)))
          (match_pending-first c rps (add_provider w c rp idx))
      where
        claim :
            (o : Option RuleProviderMatch)
            → lookup_index (add_provider w c rp idx) name ≡ o
            → lookup_index (add_provider w c rp idx) name
              ≡ lookup_index (add_provider w c rp new_index) name
            → (lookup_index (add_provider w c rp idx) name ≡ none
                → ((match_pending w c name rps (add_provider w c rp idx)).0 ≡ first_claim c rps)
                  × (first_claim c rps ≡ none
                      → (match_pending w c name rps (add_provider w c rp idx)).1
                        ≡ parse_all w c rps (add_provider w c rp idx)))
            → ((match_pending w c name (rp ∷ rps) idx).0 ≡ first_claim c (rp ∷ rps))
              × (first_claim c (rp ∷ rps) ≡ none
                  → (match_pending w c name (rp ∷ rps) idx).1 ≡ parse_all w c (rp ∷ rps) idx)
        claim none e same later = rw (← same, e) (later e)
        claim (some m) e same later = rw (← same, e) (refl, λ f. cc)

    new_index-unclaimed : lookup_index (new_index {A = A}) name ≡ none
    unfolding lookup_index
    new_index-unclaimed =
        rw (lookup_suffixes_empty (name ∷ parents name)) (unfold get lookup_sets in refl)

closing-same :
    {A : Type 0} (query : Text) (p : Option RuleProviderMatch × Index A)
    (o : Option RuleProviderMatch) (idx : Index A)
    → p.0 ≡ o
    → (o ≡ none → p.1 ≡ idx)
    → closing query p ≡ closing query (o, idx)
closing-same query (some m, last) (some m') idx e h = cc
closing-same query (some m, last) none idx e h = cc
closing-same query (none, last) (some m') idx e h = cc
closing-same query (none, last) none idx e h = ap (λ i. closing query (none, i)) (h refl)

-- The search, which reads one provider after the other and stops at the first match, finds what the
-- first of the pending providers gives that claims the normal form of the name when it is looked at
-- alone; where none does, it is the first keyword rule of all of them that the query contains, or the
-- fallback.
pub match_domain-first_claim :
    {A : Type 0} (w : World A) (c : Config) (pending : List RuleProvider) (query : Text)
    → match_domain w c pending query
      ≡ closing query
          (first_claim (normalize_domain query) w c pending, parse_all w c pending new_index)
unfolding match_domain
match_domain-first_claim w c pending query =
    let first =
      match_pending-first (normalize_domain query) w c pending new_index
        (new_index-unclaimed (normalize_domain query) w) in
    closing-same query (match_pending w c (normalize_domain query) pending new_index)
      (first_claim (normalize_domain query) w c pending) (parse_all w c pending new_index) first.0
      first.1
