-- ===== src/Tests/Library.antt =====
-- internal/config/candidates.go and zapret_references.go on a library of three entries.
use purewrt.Prelude.{◌≡◌, refl, true, false, List, [], ◌∷◌, none, Bool}
use purewrt.Text.{Text, codes, text_eq}
use purewrt.Config.Model.{ZapretStrategy, is_empty}
use purewrt.Config.Candidates.{
  ZapretCandidate, of_catalog, of_user, load_zapret_candidates, resolve_strategies,
  canonical_blob_path, base,
}
use purewrt.Config.Candidates.Library.{
  find_candidate, or_else, marked, load_zapret_candidates-catalog_first,
}
use purewrt.Config.Candidates.Resolved.{resolve_strategies-again}

abbrev pub entry : Text → Text → ZapretCandidate
entry name params = record {
  name = name;
  origin = [];
  isp = codes "common";
  service = [];
  protocols = codes "tcp" ∷ [];
  tcp_ports = codes "443";
  udp_ports = [];
  tcp_pkt_out = 20;
  tcp_pkt_in = 10;
  udp_pkt_out = 0;
  udp_pkt_in = 0;
  params = params;
  blobs = record { name = codes "tls"; file = codes "x/tls.bin"; sha256 = []; hex = [] } ∷ [];
}

abbrev catalog : List ZapretCandidate
catalog = entry (codes "fake") (codes "old") ∷ []

abbrev pub users : List ZapretCandidate
users = entry (codes "fake") (codes "mine") ∷ entry (codes "split") (codes "own") ∷ []

load_zapret_candidates-catalog_first_example :
    find_candidate (codes "fake") (load_zapret_candidates catalog users)
    ≡ or_else
        (marked of_catalog (find_candidate (codes "fake") catalog))
        (marked of_user (find_candidate (codes "fake") users))
load_zapret_candidates-catalog_first_example =
    load_zapret_candidates-catalog_first catalog users (codes "fake")

abbrev strategy : Text → ZapretStrategy
strategy candidate = record {
  selector_mark = 65536;
  library_blobs = [];
  candidate = candidate;
  name = codes "video_w1";
  enabled = true;
  profile = codes "video_w1";
  queue_num = 200;
  protocols = [];
  tcp_ports = [];
  udp_ports = [];
  tcp_pkt_out = 0;
  tcp_pkt_in = 0;
  udp_pkt_out = 0;
  udp_pkt_in = 0;
  preset = [];
  params = codes "typed";
}

abbrev strategies : List ZapretStrategy
strategies = strategy (codes "fake") ∷ strategy [] ∷ strategy (codes "split") ∷ []

abbrev pub nothing_shipped : Text → Bool
nothing_shipped path = false

users_complete : (resolve_strategies nothing_shipped users strategies).1 ≡ none
unfolding resolve_strategies is_empty text_eq
users_complete = refl

-- The catalog alone misses the last reference, and its settings of the first one do not stay.
resolve_strategies-again_example :
    resolve_strategies nothing_shipped users
      (resolve_strategies nothing_shipped catalog strategies).0
    ≡ resolve_strategies nothing_shipped users strategies
resolve_strategies-again_example =
    resolve_strategies-again nothing_shipped catalog users strategies users_complete

cached_path :
    canonical_blob_path nothing_shipped (codes "x/tls.bin//") ≡ codes "/etc/purewrt/blobs/tls.bin"
unfolding canonical_blob_path is_empty text_eq
cached_path = refl

root_name : base (codes "//") ≡ codes "/"
unfolding base is_empty
root_name = refl
