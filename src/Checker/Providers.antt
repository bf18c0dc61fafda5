-- ===== src/Checker/Providers.antt =====
-- internal/checker/rules.go: the index of the rule providers that claim a destination.
pub mod Keys
pub mod Agree
pub mod Lazy
use purewrt.Prelude.{
  ℕ, suc, ◌+◌, Bool, true, false, not, ◌&&◌, ◌||◌, List, [], ◌∷◌, ◌++◌, Option, none, some, Result,
  ok, err, ◌==◌, if◌then◌else◌,
}
use purewrt.Prelude.Sort.{sort_by}
use purewrt.Text.{Text, codes, text_eq}
use purewrt.Text.Space.{trim_space}
use purewrt.Text.Case.{to_upper}
use purewrt.Text.Find.{contains}
use purewrt.Config.Model.{Config, Section, is_empty, section_by_name}
use purewrt.Rules.{
  Rule, RuleType, domain, domain_suffix, domain_keyword, ip_cidr, ip_cidr6, classical, dst_port,
  logical, native, geo_site, geo_ip, normalize_domain,
}
use purewrt.Rules.ParseText.{NetParsers, plain_rule, no_rule, parse_text}
use purewrt.Mrs.Words.{MrsPrefix}
use purewrt.Mrs.Reader.{MrsError, not_domain_behavior}
use purewrt.Mrs.Trie.{bytes_less}
use purewrt.Mrs.Native.{Unpackers, parse_mrs}
use purewrt.Mrs.DomainSet.{DomainSet, lookup, parse_mrs_domain_set}

-- The part of config.RuleProvider that the index reads.
pub record RuleProvider : Type 0 where
  pub name : Text
  pub enabled : Bool
  pub path : Text
  pub format : Text
  pub section : Text

pub record MatchInfo : Type 0 where
  pub provider : Text
  pub section : Text
  pub action : Text
  pub rule : Rule

pub record RuleProviderMatch : Type 0 where
  pub provider : Text
  pub rule : Rule
  pub section : Text
  pub action : Text
  pub matched : Bool

abbrev pub to_match : MatchInfo → RuleProviderMatch
to_match info = record {
  provider = info.provider;
  rule = info.rule;
  section = info.section;
  action = info.action;
  matched = true;
}

-- `mrsDomainSetEntry.toMatch`.
abbrev pub suffix_match : MatchInfo → Text → RuleProviderMatch
suffix_match info suffix = record {
  provider = info.provider;
  rule = record (plain_rule domain_suffix suffix false true true) {
    source_provider = info.provider;
  };
  section = info.section;
  action = info.action;
  matched = true;
}

abbrev pub fallback : RuleProviderMatch
fallback = record {
  provider = [];
  rule = no_rule;
  section = codes "default";
  action = codes "direct";
  matched = false;
}

-- A Go map from names, in the order of insertion.
abbrev pub Dict : Type 0
Dict = List (Text × MatchInfo)

unfoldable pub get : Text → Dict → Option MatchInfo
get key [] = none
get key ((k, info) ∷ m) = let rest = get key m in if text_eq k key then some info else rest

abbrev pub put_new : Option MatchInfo → Text → MatchInfo → Dict → Dict
put_new (some old) key info m = m
put_new none key info m = m ++ (key, info) ∷ []

-- `if _, ok := m[key]; !ok { m[key] = info }`.
unfoldable pub insert_new : Text → MatchInfo → Dict → Dict
insert_new key info m = put_new (get key m) key info m

abbrev pub or_else {ℓ} : {A : Type ℓ} → Option A → Option A → Option A
or_else none d = d
or_else (some a) d = some a

abbrev pub found : Option MatchInfo → Option RuleProviderMatch
found none = none
found (some info) = some (to_match info)

-- The suffixes of a domain behind its dots, up to an empty one.
unfoldable pub parents : Text → List Text
unfolding is_empty
parents [] = []
parents (c ∷ s) =
    let rest = parents s in if c == b'.' then if is_empty s then [] else s ∷ rest else rest

unfoldable pub enabled_providers : List RuleProvider → List RuleProvider
unfolding is_empty
enabled_providers [] = []
enabled_providers (rp ∷ rps) =
    let rest = enabled_providers rps in
    if not rp.enabled || is_empty rp.path then rest else rp ∷ rest

-- `NewRuleProviderIndex`: the pending providers, by name.
unfoldable pub enabled_by_name : List RuleProvider → List RuleProvider
unfolding enabled_providers
enabled_by_name providers = sort_by (λ p q. bytes_less p.name q.name) (enabled_providers providers)

-- What the index has of the providers that are parsed so far. `A` is `netip.Prefix`.
pub record Index (A : Type 0) : Type 0 where
  pub warnings : List Text
  pub domain_exact : Dict
  pub domain_suffixes : Dict
  pub domain_sets : List (DomainSet × MatchInfo)
  pub keywords : Dict
  pub cidrs : List (A × MatchInfo)

-- The files, and the packages that read them.
pub record World (A : Type 0) : Type 0 where
  pub read_file : Text → Result Text Text
  pub unpack : Unpackers
  pub net : NetParsers
  pub prefix_text : MrsPrefix → Text
  pub parse_prefix : Text → Option A
  pub error_text : MrsError → Text

unfoldable pub lookup_sets : Text → List (DomainSet × MatchInfo) → Option RuleProviderMatch
lookup_sets name [] = none
lookup_sets name ((set, info) ∷ sets) =
    let rest = lookup_sets name sets in
    elim (lookup set name) [ some suffix ↦ some (suffix_match info suffix) | none ↦ rest ]

unfoldable pub lookup_suffixes : List Text → Dict → Option RuleProviderMatch
lookup_suffixes [] m = none
lookup_suffixes (d ∷ ds) m = or_else (found (get d m)) (lookup_suffixes ds m)

abbrev pub is_mrs : Text → Bool
is_mrs format = text_eq (to_upper format) (codes "MRS")

abbrev pub native_warning : Text → Text
native_warning provider =
    codes "provider "
    ++ (provider ++ codes " contains native expressions not simulated by this destination check")

abbrev pub is_native_type : RuleType → Bool
is_native_type native = true
is_native_type _ = false

abbrev pub is_cidr_type : RuleType → Bool
is_cidr_type ip_cidr = true
is_cidr_type ip_cidr6 = true
is_cidr_type _ = false

abbrev pub is_range_list : MrsError → Bool
is_range_list not_domain_behavior = true
is_range_list _ = false

abbrev pub section_action : Option Section → Text
section_action none = []
section_action (some s) = s.action

abbrev pub info_of : Config → RuleProvider → MatchInfo
info_of c rp = record {
  provider = rp.name;
  section = rp.section;
  action = section_action (section_by_name c rp.section);
  rule = no_rule;
}

unfoldable pub match_keywords : Text → Dict → RuleProviderMatch
unfolding contains
match_keywords query [] = fallback
match_keywords query ((keyword, info) ∷ ks) =
    let rest = match_keywords query ks in if contains keyword query then to_match info else rest

module _ {A : Type 0} where
  abbrev pub stop_at :
      Option RuleProviderMatch
      → Index A
      → Option RuleProviderMatch × Index A
      → Option RuleProviderMatch × Index A
  stop_at none idx rest = rest
  stop_at (some m) idx rest = (some m, idx)

  -- `Match` of an index that has parsed nothing yet.
  abbrev pub closing : Text → Option RuleProviderMatch × Index A → RuleProviderMatch
  closing query (some m, idx) = m
  closing query (none, idx) = match_keywords query idx.keywords

  abbrev pub new_index : Index A
  new_index = record {
    warnings = [];
    domain_exact = [];
    domain_suffixes = [];
    domain_sets = [];
    keywords = [];
    cidrs = [];
  }

  abbrev pub warn : Index A → Text → Text → Index A
  warn idx provider text = record idx {
    warnings = idx.warnings ++ (codes "provider " ++ (provider ++ (codes ": " ++ text))) ∷ [];
  }

  -- `lookup`: the exact name, its suffixes, the binary sets.
  unfoldable pub lookup_index : Index A → Text → Option RuleProviderMatch
  lookup_index idx name = or_else (found (get name idx.domain_exact)) (
      or_else (lookup_suffixes (name ∷ parents name) idx.domain_suffixes)
        (lookup_sets name idx.domain_sets))

  module _ (w : World A) where
    abbrev pub put_cidr : Option A → MatchInfo → Index A → Index A
    put_cidr none info idx = idx
    put_cidr (some prefix) info idx = record idx { cidrs = idx.cidrs ++ (prefix, info) ∷ [] }

    abbrev pub add_cidr : MatchInfo → Index A → Index A
    add_cidr info idx = put_cidr (w.parse_prefix info.rule.value) info idx

    -- The `switch` over the type of a rule of a text list.
    abbrev pub add_typed : RuleType → MatchInfo → Index A → Index A
    add_typed RuleType.domain info idx = record idx {
      domain_exact = insert_new info.rule.value info idx.domain_exact;
    }
    add_typed domain_suffix info idx = record idx {
      domain_suffixes = insert_new info.rule.value info idx.domain_suffixes;
    }
    add_typed domain_keyword info idx = record idx {
      keywords = idx.keywords ++ (info.rule.value, info) ∷ [];
    }
    add_typed ip_cidr info idx = add_cidr info idx
    add_typed ip_cidr6 info idx = add_cidr info idx
    add_typed classical info idx = idx
    add_typed dst_port info idx = idx
    add_typed logical info idx = idx
    add_typed native info idx = idx
    add_typed geo_site info idx = idx
    add_typed geo_ip info idx = idx

    -- The first native rule of a list leaves a warning.
    abbrev pub note_native : Text → Rule → Index A × Bool → Index A × Bool
    note_native provider r (idx, warned) =
        if is_native_type r.type && not warned
        then (record idx { warnings = idx.warnings ++ native_warning provider ∷ [] }, true)
        else (idx, warned)

    abbrev pub add_noted : MatchInfo → Index A × Bool → Index A × Bool
    add_noted info (idx, warned) = (add_typed info.rule.type info idx, warned)

    unfoldable pub add_rules : MatchInfo → List Rule → Index A × Bool → Index A × Bool
    add_rules info [] state = state
    add_rules info (r ∷ rs) state =
        add_rules info rs (add_noted (record info { rule = r }) (note_native info.provider r state))

    -- The prefixes of a binary list of ranges.
    unfoldable pub add_mrs_cidrs : MatchInfo → List Rule → Index A → Index A
    add_mrs_cidrs info [] idx = idx
    add_mrs_cidrs info (r ∷ rs) idx =
        add_mrs_cidrs info rs
          (if is_cidr_type r.type then add_cidr (record info { rule = r }) idx else idx)

    abbrev pub add_mrs_list : MatchInfo → Result MrsError (List Rule) → Index A → Index A
    add_mrs_list info (err failure) idx = warn idx info.provider (w.error_text failure)
    add_mrs_list info (ok rs) idx = add_mrs_cidrs info rs idx

    abbrev pub add_mrs : MatchInfo → Text → Result MrsError DomainSet → Index A → Index A
    add_mrs info content (ok set) idx = record idx {
      domain_sets = idx.domain_sets ++ (set, info) ∷ [];
    }
    add_mrs info content (err failure) idx =
        if is_range_list failure
        then add_mrs_list info (parse_mrs w.prefix_text w.unpack w.net info.provider content) idx
        else warn idx info.provider (w.error_text failure)

    abbrev pub add_content : Config → RuleProvider → Result Text Text → Index A → Index A
    add_content c rp (err failure) idx = warn idx rp.name failure
    add_content c rp (ok content) idx =
        if is_mrs rp.format
        then add_mrs (info_of c rp) content (parse_mrs_domain_set w.unpack rp.name content) idx
        else (add_rules (info_of c rp) (parse_text w.net rp.name content) (idx, false)).0

    -- `parseNext` for the provider that it takes off the pending ones.
    unfoldable pub add_provider : Config → RuleProvider → Index A → Index A
    add_provider c rp idx = add_content c rp (w.read_file rp.path) idx

    -- The loop of `Match`: the match, or the index of all providers.
    unfoldable pub match_pending :
        Config → Text → List RuleProvider → Index A → Option RuleProviderMatch × Index A
    match_pending c name [] idx = (none, idx)
    match_pending c name (rp ∷ rps) idx =
        let next = add_provider c rp idx in
        let rest = match_pending c name rps next in stop_at (lookup_index next name) next rest

    unfoldable pub match_domain : Config → List RuleProvider → Text → RuleProviderMatch
    match_domain c pending query =
        closing query (match_pending c (normalize_domain query) pending new_index)

    unfoldable pub parse_all : Config → List RuleProvider → Index A → Index A
    parse_all c [] idx = idx
    parse_all c (rp ∷ rps) idx = parse_all c rps (add_provider c rp idx)

    module _ {Addr : Type 0} (holds : A → Addr → Bool) where
      unfoldable pub match_cidrs : Addr → List (A × MatchInfo) → RuleProviderMatch
      match_cidrs addr [] = fallback
      match_cidrs addr ((prefix, info) ∷ cs) =
          let rest = match_cidrs addr cs in if holds prefix addr then to_match info else rest

      unfoldable pub match_ip : Config → List RuleProvider → Addr → RuleProviderMatch
      unfolding parse_all match_cidrs
      match_ip c pending addr = match_cidrs addr (parse_all c pending new_index).cidrs

      -- `MatchRuleProviders` with the providers that `NewRuleProviderIndex` keeps.
      unfoldable pub match_rule_providers :
          (Text → Option Addr) → Config → List RuleProvider → Text → RuleProviderMatch
      unfolding match_ip match_domain
      match_rule_providers parse_addr c providers query = elim (parse_addr (trim_space query)) [
        | some addr ↦ match_ip c (enabled_by_name providers) addr
        | none ↦ match_domain c (enabled_by_name providers) query
      ]
