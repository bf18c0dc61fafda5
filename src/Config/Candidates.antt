-- ===== src/Config/Candidates.antt =====
-- internal/config/candidates.go and zapret_references.go: the library of strategies, and the
-- strategies of a configuration that refer to it.
pub mod Library
pub mod Resolved
use purewrt.Prelude.{
  ℕ, ◌≡◌, Bool, true, false, not, ◌||◌, List, [], ◌∷◌, ◌++◌, Option, none, some, any, map, ◌==◌,
  if◌then◌else◌,
}
use purewrt.Text.{Text, codes, text_eq}
use purewrt.Config.Model.{ZapretStrategy, is_empty, or_default}

pub record ZapretBlobRef : Type 0 where
  pub name : Text
  pub file : Text
  pub sha256 : Text
  pub hex : Text

pub record ZapretCandidate : Type 0 where
  pub name : Text
  pub origin : Text
  pub isp : Text
  pub service : Text
  pub protocols : List Text
  pub tcp_ports : Text
  pub udp_ports : Text
  pub tcp_pkt_out : ℕ
  pub tcp_pkt_in : ℕ
  pub udp_pkt_out : ℕ
  pub udp_pkt_in : ℕ
  pub params : Text
  pub blobs : List ZapretBlobRef

abbrev pub of_catalog : ZapretCandidate → ZapretCandidate
of_catalog c = record c { origin = codes "catalog" }

abbrev pub of_user : ZapretCandidate → ZapretCandidate
of_user c = record c { origin = codes "user" }

-- The loop over the user's entries, with the names seen so far: the entries that it appends.
unfoldable pub user_entries : List Text → List ZapretCandidate → List ZapretCandidate
user_entries seen [] = []
user_entries seen (c ∷ cs) =
    let added = user_entries (c.name ∷ seen) cs in
    let passed = user_entries seen cs in
    if any (text_eq c.name) seen then passed else of_user c ∷ added

abbrev pub names : List ZapretCandidate → List Text
names [] = []
names (c ∷ cs) = c.name ∷ names cs

-- The catalog and the entries of the user's file, none when it is missing, too large or malformed.
unfoldable pub load_zapret_candidates :
    List ZapretCandidate → List ZapretCandidate → List ZapretCandidate
unfolding user_entries
load_zapret_candidates catalog users =
    let listed = map of_catalog catalog in listed ++ user_entries (names listed) users

-- `filepath.Base`: `rest` is what a later slash leaves.
unfoldable pub without_slashes : Text → Text
unfolding is_empty
without_slashes [] = []
without_slashes (c ∷ s) =
    let rest = without_slashes s in
    if c == b'/' then (if is_empty rest then [] else c ∷ rest) else c ∷ rest

unfoldable pub after_slash : Text → Text → Text
after_slash [] part = part
after_slash (c ∷ s) part = after_slash s (if c == b'/' then [] else part ++ c ∷ [])

unfoldable pub base : Text → Text
unfolding is_empty without_slashes after_slash
base file =
    if is_empty file
    then codes "."
    else (let part = after_slash (without_slashes file) [] in
        if is_empty part then codes "/" else part)

-- `filepath.Join` of a clean directory, with its parent, and a name that `base` returned.
unfoldable pub join_name : Text → Text → Text → Text
join_name dir parent name =
    if text_eq name (codes ".") || text_eq name (codes "/")
    then dir
    else if text_eq name (codes "..")
    then parent
    else dir ++ b'/' ∷ name

abbrev pub zapret_fake_dirs : List (Text × Text)
zapret_fake_dirs =
    (codes "/usr/libexec/zapret/files/fake", codes "/usr/libexec/zapret/files")
    ∷ (codes "/opt/zapret2/files/fake", codes "/opt/zapret2/files")
    ∷ (codes "/opt/zapret/files/fake", codes "/opt/zapret/files")
    ∷ (codes "/usr/lib/zapret/fake", codes "/usr/lib/zapret")
    ∷ []

-- The entry that `byName` holds: the last one of a name.
unfoldable pub by_name : Text → List ZapretCandidate → Option ZapretCandidate
by_name name [] = none
by_name name (c ∷ cs) = elim (by_name name cs) [
  | some v ↦ some v
  | none ↦ if text_eq c.name name then some c else none
]

module _ (is_file : Text → Bool) where
  unfoldable pub shipped_path : Text → List (Text × Text) → Text
  unfolding join_name
  shipped_path file [] = join_name (codes "/etc/purewrt/blobs") (codes "/etc/purewrt") file
  shipped_path file ((dir, parent) ∷ dirs) =
      let rest = shipped_path file dirs in
      let p = join_name dir parent file in if is_file p then p else rest

  unfoldable pub canonical_blob_path : Text → Text
  unfolding base shipped_path
  canonical_blob_path file = shipped_path (base file) zapret_fake_dirs

  unfoldable pub library_blob : ZapretBlobRef → Text
  unfolding or_default canonical_blob_path
  library_blob b = b.name ++ b':' ∷ or_default b.hex (b'@' ∷ canonical_blob_path b.file)

  -- A strategy with the settings of its library entry.
  unfoldable pub expand : ZapretCandidate → ZapretStrategy → ZapretStrategy
  unfolding library_blob
  expand v s = record s {
    params = v.params;
    protocols = v.protocols;
    tcp_ports = v.tcp_ports;
    udp_ports = v.udp_ports;
    tcp_pkt_out = v.tcp_pkt_out;
    tcp_pkt_in = v.tcp_pkt_in;
    udp_pkt_out = v.udp_pkt_out;
    udp_pkt_in = v.udp_pkt_in;
    library_blobs = map library_blob v.blobs;
  }

  -- The strategies afterwards, and the one whose entry is missing: the loop stops there and leaves
  -- the earlier ones expanded.
  unfoldable pub resolve_strategies :
      List ZapretCandidate → List ZapretStrategy → List ZapretStrategy × Option ZapretStrategy
  unfolding is_empty expand by_name
  resolve_strategies list [] = ([], none)
  resolve_strategies list (s ∷ ss) =
      let (rest, error) = resolve_strategies list ss in
      if is_empty s.candidate then (s ∷ rest, error) else elim (by_name s.candidate list) [
        | none ↦ (s ∷ ss, some s)
        | some v ↦ (expand v s ∷ rest, error)
      ]
