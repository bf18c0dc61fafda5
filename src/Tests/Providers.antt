-- ===== src/Tests/Providers.antt =====
-- internal/checker/rules.go at two text lists.
use purewrt.Prelude.{◌≡◌, true, List, [], ◌∷◌, none, ok, err, if◌then◌else◌}
use purewrt.Text.{Text, codes, text_eq}
use purewrt.Rules.{normalize_domain}
use purewrt.Checker.Providers.{RuleProvider, World, match_domain, closing, parse_all, new_index}
use purewrt.Checker.Providers.Lazy.{first_claim, match_domain-first_claim}
use purewrt.Tests.Routing.{home}

abbrev provider : Text → RuleProvider
provider name = record {
  name = name;
  enabled = true;
  path = name;
  format = codes "text";
  section = codes "media";
}

-- The file `a` claims a keyword, the file `b` a domain.
abbrev lists : World Text
lists = record {
  read_file = λ path.
      if text_eq path (codes "a")
      then ok (codes "DOMAIN-KEYWORD,tube\n")
      else if text_eq path (codes "b")
      then ok (codes "tube.example.org # the site\n")
      else err (codes "no such file");
  unpack = record { zstd = λ b. none; gzip = λ n b. none };
  net = record { parse_cidr = λ t. none; parse_ip = λ t. none };
  prefix_text = λ p. [];
  parse_prefix = λ t. none;
  error_text = λ e. [];
}

abbrev pending : List RuleProvider
pending = provider (codes "a") ∷ provider (codes "b") ∷ []

match_domain-first_claim_example :
    match_domain lists home pending (codes "www.tube.example.org")
    ≡ closing (codes "www.tube.example.org") (
      first_claim (normalize_domain (codes "www.tube.example.org")) lists home pending,
      parse_all lists home pending new_index,
    )
match_domain-first_claim_example =
    match_domain-first_claim lists home pending (codes "www.tube.example.org")
