-- ===== src/Tests/Lists.antt =====
-- internal/rules at a short list.
use purewrt.Prelude.{ℕ, ◌≡◌, refl, true, false, List, [], ◌∷◌, All}
use purewrt.Text.{Text, codes, text_eq}
use purewrt.Text.Space.{trim_space}
use purewrt.Text.Case.{to_lower}
use purewrt.Text.Parts.{split}
use purewrt.Config.Model.{is_empty}
use purewrt.Rules.{Rule, RuleType, domain_suffix, ip_cidr, dedup, normalize_domain, is_valid_domain}
use purewrt.Rules.Dedup.{OncePerKey, find_rule, dedup-OncePerKey}

abbrev rule_of : RuleType → Text → ℕ → Rule
rule_of type value line = record {
  type = type;
  value = value;
  no_resolve = false;
  source_provider = codes "list";
  source_line = line;
  supported_openwrt = true;
  supported_mihomo = true;
}

abbrev listed : List Rule
listed =
    rule_of domain_suffix (codes "example.org") 1
    ∷ rule_of ip_cidr (codes "example.org") 2
    ∷ rule_of domain_suffix [] 3
    ∷ rule_of domain_suffix (codes "example.org") 4
    ∷ []

dedup-OncePerKey_example :
    OncePerKey (dedup listed)
    × All (λ r. is_empty r.value ≡ false) (dedup listed)
    × ((key : Text) → find_rule key (dedup listed) ≡ find_rule key listed)
dedup-OncePerKey_example = dedup-OncePerKey listed

listed_once :
    dedup listed
    ≡ rule_of domain_suffix (codes "example.org") 1 ∷ rule_of ip_cidr (codes "example.org") 2 ∷ []
unfolding dedup text_eq
listed_once = refl

normal : normalize_domain (codes " +.Example.ORG. ") ≡ codes "example.org"
unfolding normalize_domain trim_space to_lower
normal = refl

-- A second leading dot stays.
two_dots : normalize_domain (codes "..a") ≡ codes ".a"
unfolding normalize_domain trim_space to_lower
two_dots = refl

not_valid : is_valid_domain (codes "a.-b") ≡ false
unfolding is_valid_domain normalize_domain trim_space to_lower split
not_valid = refl
