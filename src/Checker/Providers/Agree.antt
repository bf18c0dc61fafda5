-- ===== src/Checker/Providers/Agree.antt =====
-- Indexes of internal/checker/rules.go compared by what they find for a name.
use purewrt.Prelude.{
  ◌≡◌, refl, sym, ap, ap₂, subst, ◌∙◌, Bool, true, false, not, ◌&&◌, List, [], ◌∷◌, Option, none,
  some, Result, ok, err, Bool-cases, inl, inr, if◌then◌else◌,
}
use purewrt.Text.{Text, text_eq}
use purewrt.Config.Model.{Config}
use purewrt.Rules.{
  Rule, RuleType, domain_suffix, domain_keyword, ip_cidr, ip_cidr6, classical, dst_port, logical,
  native, geo_site, geo_ip,
}
use purewrt.Mrs.Reader.{MrsError}
use purewrt.Mrs.DomainSet.{DomainSet}
use purewrt.Checker.Providers.{
  RuleProvider, MatchInfo, get, or_else, found, parents, Index, World, lookup_sets, lookup_suffixes,
  new_index, lookup_index, warn, put_cidr, add_typed, note_native, is_native_type, add_rules,
  is_cidr_type, add_mrs_cidrs, add_mrs_list, is_range_list, add_mrs, add_content, add_provider,
  is_mrs, info_of,
}
use purewrt.Checker.Providers.Keys.{
  or_else-left, or_else-right, found-none, get-insert_new, lookup_sets-append, SameFor,
  SameFor-insert_new, lookup_suffixes-same, none-SameFor,
}

module _ {A : Type 0} (name : Text) where
  -- Two indexes find the same for the name.
  pub record Agree (idx idx' : Index A) : Type 0 where
    pub exact : get name idx.domain_exact ≡ get name idx'.domain_exact
    pub suffixes : SameFor (name ∷ parents name) idx.domain_suffixes idx'.domain_suffixes
    pub sets : lookup_sets name idx.domain_sets ≡ lookup_sets name idx'.domain_sets

  pub Agree-lookup :
      (idx idx' : Index A) → Agree idx idx' → lookup_index idx name ≡ lookup_index idx' name
  unfolding lookup_index
  Agree-lookup idx idx' h =
      ap₂ (λ o r. or_else (found o) r) h.exact
        (ap₂ or_else
          (lookup_suffixes-same (name ∷ parents name) idx.domain_suffixes idx'.domain_suffixes
            h.suffixes)
          h.sets)

  if-Agree :
      (test : Bool) (x y x' y' : Index A)
      → Agree x x'
      → Agree y y'
      → Agree (if test then x else y) (if test then x' else y')
  if-Agree true x y x' y' g h = g
  if-Agree false x y x' y' g h = h

  -- An index that does not claim the name is as good as an empty one.
  pub unclaimed-Agree : (idx : Index A) → lookup_index idx name ≡ none → Agree idx new_index
  unfolding lookup_index
  unclaimed-Agree idx h = record {
    exact =
        unfold get in
        found-none (get name idx.domain_exact)
          (or_else-left (found (get name idx.domain_exact)) _ h);
    suffixes = none-SameFor (name ∷ parents name) idx.domain_suffixes (
        or_else-left (lookup_suffixes (name ∷ parents name) idx.domain_suffixes) _
          (or_else-right (found (get name idx.domain_exact)) _ h));
    sets =
        unfold lookup_sets in
        or_else-right (lookup_suffixes (name ∷ parents name) idx.domain_suffixes) _
          (or_else-right (found (get name idx.domain_exact)) _ h);
  }

  module _ (w : World A) where
    put_cidr-Agree :
        (o : Option A) (info : MatchInfo) (idx idx' : Index A)
        → Agree idx idx'
        → Agree (put_cidr w o info idx) (put_cidr w o info idx')
    put_cidr-Agree none info idx idx' h = h
    put_cidr-Agree (some prefix) info idx idx' h = record {
      exact = h.exact;
      suffixes = h.suffixes;
      sets = h.sets;
    }

    add_typed-Agree :
        (type : RuleType) (info : MatchInfo) (idx idx' : Index A)
        → Agree idx idx'
        → Agree (add_typed w type info idx) (add_typed w type info idx')
    add_typed-Agree RuleType.domain info idx idx' h = record {
      exact =
          get-insert_new name info.rule.value info idx.domain_exact
          ∙ ap (λ o. or_else o (if text_eq info.rule.value name then some info else none)) h.exact
          ∙ sym (get-insert_new name info.rule.value info idx'.domain_exact);
      suffixes = h.suffixes;
      sets = h.sets;
    }
    add_typed-Agree domain_suffix info idx idx' h = record {
      exact = h.exact;
      suffixes =
          SameFor-insert_new (name ∷ parents name) info.rule.value info idx.domain_suffixes
            idx'.domain_suffixes h.suffixes;
      sets = h.sets;
    }
    add_typed-Agree domain_keyword info idx idx' h = record {
      exact = h.exact;
      suffixes = h.suffixes;
      sets = h.sets;
    }
    add_typed-Agree ip_cidr info idx idx' h =
        put_cidr-Agree (w.parse_prefix info.rule.value) info idx idx' h
    add_typed-Agree ip_cidr6 info idx idx' h =
        put_cidr-Agree (w.parse_prefix info.rule.value) info idx idx' h
    add_typed-Agree classical info idx idx' h = h
    add_typed-Agree dst_port info idx idx' h = h
    add_typed-Agree logical info idx idx' h = h
    add_typed-Agree native info idx idx' h = h
    add_typed-Agree geo_site info idx idx' h = h
    add_typed-Agree geo_ip info idx idx' h = h

    note_native-Agree :
        (provider : Text) (r : Rule) (idx idx' : Index A) (warned : Bool)
        → Agree idx idx'
        → Agree
            (note_native w provider r (idx, warned)).0
            (note_native w provider r (idx', warned)).0
          × ((note_native w provider r (idx, warned)).1
              ≡ (note_native w provider r (idx', warned)).1)
    note_native-Agree provider r idx idx' warned h =
        elim (Bool-cases (is_native_type r.type && not warned)) [
          | inl e ↦ rw e (record { exact = h.exact; suffixes = h.suffixes; sets = h.sets }, refl)
          | inr e ↦ rw e (h, refl)
        ]

    add_rules-Agree :
        (info : MatchInfo) (rs : List Rule) (s s' : Index A × Bool)
        → Agree s.0 s'.0
        → s.1 ≡ s'.1
        → Agree (add_rules w info rs s).0 (add_rules w info rs s').0
    unfolding add_rules
    add_rules-Agree info [] s s' h e = h
    add_rules-Agree info (r ∷ rs) s s' h e =
        let noted = note_native-Agree info.provider r s.0 s'.0 s.1 h in
        add_rules-Agree info rs _ _
          (add_typed-Agree r.type (record info { rule = r }) _ _
            (subst
              (λ b.
                Agree (note_native w info.provider r s).0
                  (note_native w info.provider r (s'.0, b)).0)
              e noted.0))
          (noted.1 ∙ ap (λ b. (note_native w info.provider r (s'.0, b)).1) e)

    add_mrs_cidrs-Agree :
        (info : MatchInfo) (rs : List Rule) (idx idx' : Index A)
        → Agree idx idx'
        → Agree (add_mrs_cidrs w info rs idx) (add_mrs_cidrs w info rs idx')
    unfolding add_mrs_cidrs
    add_mrs_cidrs-Agree info [] idx idx' h = h
    add_mrs_cidrs-Agree info (r ∷ rs) idx idx' h = add_mrs_cidrs-Agree info rs _ _ (
        if-Agree (is_cidr_type r.type) _ _ _ _
          (put_cidr-Agree (w.parse_prefix r.value) (record info { rule = r }) idx idx' h) h)

    warn-Agree :
        (provider text : Text) (idx idx' : Index A)
        → Agree idx idx'
        → Agree (warn idx provider text) (warn idx' provider text)
    warn-Agree provider text idx idx' h = record {
      exact = h.exact;
      suffixes = h.suffixes;
      sets = h.sets;
    }

    add_mrs_list-Agree :
        (info : MatchInfo) (r : Result MrsError (List Rule)) (idx idx' : Index A)
        → Agree idx idx'
        → Agree (add_mrs_list w info r idx) (add_mrs_list w info r idx')
    add_mrs_list-Agree info (err failure) idx idx' h = warn-Agree _ _ idx idx' h
    add_mrs_list-Agree info (ok rs) idx idx' h = add_mrs_cidrs-Agree info rs idx idx' h

    add_mrs-Agree :
        (info : MatchInfo) (content : Text) (r : Result MrsError DomainSet) (idx idx' : Index A)
        → Agree idx idx'
        → Agree (add_mrs w info content r idx) (add_mrs w info content r idx')
    add_mrs-Agree info content (ok set) idx idx' h = record {
      exact = h.exact;
      suffixes = h.suffixes;
      sets =
          lookup_sets-append name idx.domain_sets ((set, info) ∷ [])
          ∙ ap (λ o. or_else o (lookup_sets name ((set, info) ∷ []))) h.sets
          ∙ sym (lookup_sets-append name idx'.domain_sets ((set, info) ∷ []));
    }
    add_mrs-Agree info content (err failure) idx idx' h =
        elim (Bool-cases (is_range_list failure)) [
          | inl e ↦ rw e (add_mrs_list-Agree info _ idx idx' h)
          | inr e ↦ rw e (warn-Agree _ _ idx idx' h)
        ]

    pub add_provider-Agree :
        (c : Config) (rp : RuleProvider) (idx idx' : Index A)
        → Agree idx idx'
        → Agree (add_provider w c rp idx) (add_provider w c rp idx')
    unfolding add_provider
    add_provider-Agree c rp idx idx' h = content (w.read_file rp.path)
      where
        content :
            (r : Result Text Text) → Agree (add_content w c rp r idx) (add_content w c rp r idx')
        content (err failure) = warn-Agree _ _ idx idx' h
        content (ok text) =
            if-Agree (is_mrs rp.format) _ _ _ _ (add_mrs-Agree (info_of c rp) text _ idx idx' h)
              (add_rules-Agree (info_of c rp) _ (idx, false) (idx', false) h refl)
