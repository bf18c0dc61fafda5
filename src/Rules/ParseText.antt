-- ===== src/Rules/ParseText.antt =====
-- internal/rules/parse_text.go, and ClassifyValue of normalize.go: the lines of a text list.
pub mod Conditions
pub mod Comments
use purewrt.Prelude.{
  ℕ, zero, suc, ◌+◌, ◌-◌, Bool, true, false, not, ◌&&◌, ◌||◌, List, [], ◌∷◌, ◌++◌, Option, none,
  some, ltb, leb, ◌==◌, if◌then◌else◌, length,
}
use purewrt.Prelude.Int.{ℤ, pos, negsuc, ◌+ℤ◌}
use purewrt.Text.{Text, codes, text_eq}
use purewrt.Text.Space.{trim_space}
use purewrt.Text.Case.{to_lower, to_upper}
use purewrt.Text.Parts.{split, split_n, join}
use purewrt.Text.Find.{has_prefix, contains, before, after_first, before_last}
use purewrt.Config.Model.{is_empty}
use purewrt.Rules.{
  Rule, RuleType, domain, domain_suffix, domain_keyword, ip_cidr, ip_cidr6, logical, native,
  geo_site, geo_ip, trim_prefix, normalize_domain, is_valid_domain, dedup,
}

-- The rule without its provenance.
abbrev pub plain_rule : RuleType → Text → Bool → Bool → Bool → Rule
plain_rule type value no_resolve openwrt mihomo = record {
  type = type;
  value = value;
  no_resolve = no_resolve;
  source_provider = [];
  source_line = 0;
  supported_openwrt = openwrt;
  supported_mihomo = mihomo;
}

-- `Rule{}`: a value that is empty, which `Dedup` drops whatever its type. The empty type of Go stands
-- here as `classical`.
abbrev pub no_rule : Rule
no_rule = plain_rule RuleType.classical [] false false false

-- One byte of UTF-8, or more.
abbrev pub utf8_length : Text → ℕ
utf8_length [] = 0
utf8_length (c ∷ s) =
    (if ltb c 0x80 then 1 else if ltb c 0x800 then 2 else if ltb c 0x10000 then 3 else 4)
    + utf8_length s

-- A carriage return at the end of a line.
unfoldable pub drop_cr : Text → Text
drop_cr [] = []
drop_cr (c ∷ []) = if c == 13 then [] else c ∷ []
drop_cr (c ∷ d ∷ s) = c ∷ drop_cr (d ∷ s)

-- The tokens of a `bufio.Scanner`, which stops without a word at a line that does not fit its buffer
-- of 65,536 bytes. Behind a last line break the scanner gives no token and this list has an empty
-- line, which is skipped.
unfoldable pub scan_lines : List Text → List Text
unfolding drop_cr
scan_lines [] = []
scan_lines (line ∷ lines) =
    let rest = scan_lines lines in if leb 65536 (utf8_length line) then [] else drop_cr line ∷ rest

-- The part of a line before an inline comment by `mark`, behind a space or, failing that, a tab.
unfoldable pub cut_comment : Text → Text → Text
cut_comment mark line = elim (before (32 ∷ mark) line) [
  | some front ↦ trim_space front
  | none ↦ elim (before (9 ∷ mark) line) [ some front ↦ trim_space front | none ↦ line ]
]

abbrev pub hash : Text
hash = codes "#"

abbrev pub slashes : Text
slashes = codes "//"

unfoldable pub is_native_network : Text → Bool
unfolding to_lower trim_space text_eq
is_native_network v =
    let network = to_lower (trim_space v) in
    text_eq network (codes "tcp") || text_eq network (codes "udp")

abbrev pub is_zero : ℤ → Bool
is_zero (pos zero) = true
is_zero (pos (suc n)) = false
is_zero (negsuc n) = false

-- The loop of `splitLogicalConditions`: the depth, and the condition that is open with what it holds
-- so far.
unfoldable pub scan_conditions : ℤ → Option Text → Text → List Text
unfolding trim_space
scan_conditions depth cond [] = []
scan_conditions depth cond (c ∷ s) =
    let deeper : Option Text = elim cond [
      | none ↦ if is_zero depth then some [] else none
      | some held ↦ some (if is_zero depth then [] else held ++ c ∷ [])
    ] in
    let kept : Option Text = elim cond [ none ↦ none | some held ↦ some (held ++ c ∷ []) ] in
    let inner = scan_conditions (depth +ℤ pos 1) deeper s in
    let passed = scan_conditions depth kept s in
    let outer = scan_conditions (depth +ℤ negsuc 0) kept s in
    let closed = scan_conditions (depth +ℤ negsuc 0) none s in
    if c == b'(' then inner else if not (c == b')') then passed else elim cond [
      | none ↦ outer
      | some held ↦ if is_zero (depth +ℤ negsuc 0) then trim_space held ∷ closed else outer
    ]

abbrev pub before_end : Option Text → List Text
before_end none = []
before_end (some body) = scan_conditions (pos 0) none body

abbrev pub behind_first : Option Text → List Text
behind_first none = []
behind_first (some behind) = before_end (before_last b')' behind)

-- `line[start+1 : end]`, where the last closing parenthesis stands behind the first opening one.
unfoldable pub split_logical_conditions : Text → List Text
split_logical_conditions line = behind_first (after_first b'(' line)

unfoldable pub native_condition : Text → Text → Option Text
unfolding text_eq is_native_network to_lower
native_condition key val =
    if text_eq key (codes "ip-cidr")
    then some (codes "ip daddr " ++ val)
    else if text_eq key (codes "ip-cidr6")
    then some (codes "ip6 daddr " ++ val)
    else if text_eq key (codes "src-ip-cidr")
    then some (codes "ip saddr " ++ val)
    else if text_eq key (codes "src-ip-cidr6")
    then some (codes "ip6 saddr " ++ val)
    else if text_eq key (codes "network")
    then if is_native_network val then some (codes "meta l4proto " ++ to_lower val) else none
    else if text_eq key (codes "dst-port")
    then some (codes "th dport " ++ val)
    else if text_eq key (codes "src-port")
    then some (codes "th sport " ++ val)
    else none

abbrev pub condition_parts : List Text → Option Text
condition_parts (key ∷ val ∷ []) = native_condition (to_lower (trim_space key)) (trim_space val)
condition_parts _ = none

unfoldable pub native_conditions : List Text → Option (List Text)
unfolding split_n native_condition
native_conditions [] = some []
native_conditions (cond ∷ conds) = elim (condition_parts (split_n 1 cond b',')) [
  | none ↦ none
  | some expr ↦ elim (native_conditions conds) [ none ↦ none | some exprs ↦ some (expr ∷ exprs) ]
]

unfoldable pub parse_native_and : Text → Option Text
unfolding split_logical_conditions native_conditions join
parse_native_and line = elim (split_logical_conditions line) [
  | [] ↦ none
  | cond ∷ conds ↦ elim (native_conditions (cond ∷ conds)) [
    | none ↦ none
    | some exprs ↦ some (join exprs (32 ∷ []))
  ]
]

unfoldable pub parse_logical_rule : Text → Option Rule
unfolding trim_space to_upper has_prefix parse_native_and
parse_logical_rule line =
    let trimmed = trim_space line in
    let upper = to_upper trimmed in
    if has_prefix (codes "AND,") upper
    then elim (parse_native_and trimmed) [
      | some expr ↦ some (plain_rule native expr false true true)
      | none ↦ some (plain_rule logical trimmed false false true)
    ]
    else if has_prefix (codes "OR,") upper || has_prefix (codes "NOT,") upper
    then some (plain_rule logical trimmed false false true)
    else none

-- What the `net` package makes of a text: the address and the text of a network, and of an address its
-- IPv4 text, where it has one, and its text.
pub record NetParsers : Type 0 where
  pub parse_cidr : Text → Option (Text × Text)
  pub parse_ip : Text → Option (Option Text × Text)

abbrev pub listed : RuleType → Text → Rule
listed type value = plain_rule type value false true true

abbrev pub with_part : Option Text → (Text → Rule) → Rule
with_part none rule = no_rule
with_part (some v) rule = rule v

abbrev pub second : List Text → Option Text
second (a ∷ b ∷ rest) = some b
second _ = none

abbrev pub first : List Text → Text
first [] = []
first (a ∷ rest) = a

-- A line without its blanks and comments: empty where the loop goes on to the next line.
unfoldable pub clean_line : Text → Text
clean_line text =
    let line = trim_space text in
    if has_prefix hash line || has_prefix slashes line
    then []
    else cut_comment slashes (cut_comment hash line)

module _ (net : NetParsers) where
  unfoldable pub classify_value : Text → Rule
  unfolding contains trim_space is_valid_domain normalize_domain
  classify_value value =
      let v = trim_space value in
      let as_domain : Rule =
        if not (is_valid_domain v)
        then plain_rule domain_suffix (normalize_domain v) false false false
        else listed domain_suffix (normalize_domain v) in
      elim (net.parse_cidr v) [
        | some (ip, network) ↦
            if contains (codes ":") ip then listed ip_cidr6 network else listed ip_cidr network
        | none ↦ elim (net.parse_ip v) [
          | none ↦ as_domain
          | some (ip4, ip) ↦ elim ip4 [
            | some four ↦ listed ip_cidr (four ++ codes "/32")
            | none ↦ listed ip_cidr6 (ip ++ codes "/128")
          ]
        ]
      ]

  -- `switch strings.ToUpper(parts[0])` with the second part, where there is one.
  unfoldable pub typed_rule : Text → Text → Option Text → Rule
  unfolding text_eq classify_value contains is_native_network
  typed_rule line kind part =
      let named = λ (type : RuleType) (openwrt : Bool). with_part part (λ v.
        if is_valid_domain v
        then plain_rule type (normalize_domain v) false openwrt true
        else no_rule) in
      let network = λ (type : RuleType). with_part part (λ v.
        plain_rule type (trim_space v) (contains (codes "no-resolve") (to_lower line)) true true) in
      let geo = λ (type : RuleType).
        with_part part (λ v. plain_rule type (to_lower (trim_space v)) false false true) in
      if text_eq kind (codes "DOMAIN")
      then named domain true
      else if text_eq kind (codes "DOMAIN-SUFFIX")
      then named domain_suffix true
      else if text_eq kind (codes "DOMAIN-KEYWORD")
      then named domain_keyword false
      else if text_eq kind (codes "IP-CIDR")
      then network ip_cidr
      else if text_eq kind (codes "IP-CIDR6")
      then network ip_cidr6
      else if text_eq kind (codes "GEOSITE")
      then geo geo_site
      else if text_eq kind (codes "GEOIP")
      then geo geo_ip
      else if text_eq kind (codes "DST-PORT")
      then with_part part (λ v. listed native (codes "th dport " ++ trim_space v))
      else if text_eq kind (codes "SRC-PORT")
      then with_part part (λ v. listed native (codes "th sport " ++ trim_space v))
      else if text_eq kind (codes "NETWORK")
      then with_part part (λ v.
        if is_native_network v
        then listed native (codes "meta l4proto " ++ to_lower (trim_space v))
        else no_rule)
      else classify_value line

  -- The rule of a line behind its comments.
  unfoldable pub line_rule : Text → Rule
  unfolding parse_logical_rule typed_rule split to_upper
  line_rule line = elim (parse_logical_rule line) [
    | some r ↦ r
    | none ↦ let parts = split line b',' in typed_rule line (to_upper (first parts)) (second parts)
  ]

  abbrev pub from_line : Text → ℕ → Rule → Rule
  from_line name line_no r = record r { source_provider = name; source_line = line_no }

  unfoldable pub parse_lines : Text → ℕ → List Text → List Rule
  unfolding clean_line is_empty trim_prefix line_rule
  parse_lines name line_no [] = []
  parse_lines name line_no (text ∷ texts) =
      let rest = parse_lines name (line_no + 1) texts in
      let line = clean_line text in
      if is_empty line
      then rest
      else from_line name line_no (line_rule (trim_prefix (codes "+") line)) ∷ rest

  -- The rules of the provider that `ParseText` returns.
  unfoldable pub parse_text : Text → Text → List Rule
  unfolding dedup parse_lines scan_lines split
  parse_text name text = dedup (parse_lines name 1 (scan_lines (split text 10)))
