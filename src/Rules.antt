-- ===== src/Rules.antt =====
-- internal/rules/normalize.go, aggregate.go and model.go: rules from lists, in normal form and once
-- each.
pub mod Dedup
pub mod ParseText
use purewrt.Prelude.{
  ℕ, ◌+◌, Bool, true, false, not, ◌&&◌, ◌||◌, List, [], ◌∷◌, ◌++◌, Option, none, some, any, all,
  ltb, leb, ◌==◌, if◌then◌else◌, length, drop,
}
use purewrt.Text.{Text, codes, text_eq}
use purewrt.Text.Space.{trim_space}
use purewrt.Text.Case.{to_lower}
use purewrt.Text.Parts.{split}
use purewrt.Config.Model.{is_empty}
use purewrt.Text.Find.{has_prefix}

pub data RuleType : Type 0 where
  domain domain_suffix domain_keyword ip_cidr ip_cidr6 classical dst_port logical : RuleType
  native geo_site geo_ip : RuleType

abbrev pub type_text : RuleType → Text
type_text domain = codes "domain"
type_text domain_suffix = codes "domain_suffix"
type_text domain_keyword = codes "domain_keyword"
type_text ip_cidr = codes "ip_cidr"
type_text ip_cidr6 = codes "ip_cidr6"
type_text classical = codes "classical"
type_text dst_port = codes "dst_port"
type_text logical = codes "logical"
type_text native = codes "native"
type_text geo_site = codes "geosite"
type_text geo_ip = codes "geoip"

pub record Rule : Type 0 where
  pub type : RuleType
  pub value : Text
  pub no_resolve : Bool
  pub source_provider : Text
  pub source_line : ℕ
  pub supported_openwrt : Bool
  pub supported_mihomo : Bool

unfoldable pub trim_prefix : Text → Text → Text
unfolding has_prefix
trim_prefix prefix s = if has_prefix prefix s then drop (length prefix) s else s

-- `strings.TrimSuffix(v, ".")`.
unfoldable pub trim_dot : Text → Text
trim_dot [] = []
trim_dot (c ∷ []) = if c == b'.' then [] else c ∷ []
trim_dot (c ∷ d ∷ s) = c ∷ trim_dot (d ∷ s)

unfoldable pub normalize_domain : Text → Text
unfolding trim_prefix trim_dot
normalize_domain v =
    trim_dot (trim_prefix (codes ".") (trim_prefix (codes "+.") (trim_space (to_lower v))))

abbrev pub domain_char : ℕ → Bool
domain_char r =
    (leb b'a' r && leb r b'z') || (leb b'0' r && leb r b'9') || r == b'.' || r == b'-' || r == b'_'

unfoldable pub has_double_dot : Text → Bool
has_double_dot [] = false
has_double_dot (c ∷ []) = false
has_double_dot (c ∷ d ∷ s) = (c == b'.' && d == b'.') || has_double_dot (d ∷ s)

abbrev pub first_is : ℕ → Text → Bool
first_is c [] = false
first_is c (d ∷ s) = d == c

abbrev pub last_is : ℕ → Text → Bool
last_is c [] = false
last_is c (d ∷ []) = d == c
last_is c (d ∷ e ∷ s) = last_is c (e ∷ s)

unfoldable pub is_label : Text → Bool
unfolding is_empty
is_label label =
    not (is_empty label || ltb 63 (length label) || first_is b'-' label || last_is b'-' label)

unfoldable pub is_valid_domain : Text → Bool
unfolding is_empty has_double_dot is_label
is_valid_domain value =
    let v = normalize_domain value in
    if is_empty v || ltb 253 (length v) || any (λ c. c == b'*') v || has_double_dot v
    then false
    else if not (all domain_char v)
    then false
    else all is_label (split v b'.')

unfoldable pub rule_key : Rule → Text
rule_key r = type_text r.type ++ b'|' ∷ r.value

-- The loop of `Dedup` with the keys that it has seen.
unfoldable pub dedup_from : List Text → List Rule → List Rule
unfolding rule_key is_empty
dedup_from seen [] = []
dedup_from seen (r ∷ rs) =
    let kept = dedup_from (rule_key r ∷ seen) rs in
    let passed = dedup_from seen rs in
    if not (any (text_eq (rule_key r)) seen) && not (is_empty r.value) then r ∷ kept else passed

unfoldable pub dedup : List Rule → List Rule
unfolding dedup_from
dedup rs = dedup_from [] rs

-- The rules that the router enforces, and those that only mihomo can.
unfoldable pub split_openwrt : List Rule → List Rule × List Rule
split_openwrt [] = ([], [])
split_openwrt (r ∷ rs) =
    let (openwrt, mihomo_only) = split_openwrt rs in
    if r.supported_openwrt
    then (r ∷ openwrt, mihomo_only)
    else if r.supported_mihomo
    then (openwrt, r ∷ mihomo_only)
    else (openwrt, mihomo_only)
