-- ===== src/Mrs/DomainSet.antt =====
-- internal/rules/domainset.go: the lookup in a bitmap trie.
pub mod Suffix
use mathlib.Core.List.{reverse}
use purewrt.Prelude.{
  ℕ, zero, suc, ◌+◌, ◌-◌, ◌*◌, ◌/◌, ◌%◌, ◌^◌, Bool, true, false, not, ◌&&◌, ◌||◌, List, [], ◌∷◌,
  ◌++◌, Option, none, some, Result, ok, err, ◌>>=◌, ltb, leb, ◌==◌, if◌then◌else◌, length, get_or,
  set, drop, replicate, max,
}
use purewrt.Text.{Text}
use purewrt.Config.Model.{is_empty}
use purewrt.Rules.{trim_dot}
use purewrt.Mrs.Reader.{
  Bytes, MrsError, non_native, invalid_extra_length, not_domain_behavior, read_byte, read_int64,
  skip_extra, is_native,
}
use purewrt.Mrs.Trie.{
  MrsTrie, RankSelect, read_mrs_trie_raw, bit_at, build_rank_select, count_zeros, walk_node,
}
use purewrt.Mrs.Native.{Unpackers, decode_mrs_payload}

pub record DomainSet : Type 0 where
  pub name : Text
  pub trie : MrsTrie
  pub compact_leaves : List ℕ
  pub tables : RankSelect

unfoldable pub set_bit : List ℕ → ℕ → List ℕ
unfolding bit_at
set_bit bm i =
    if leb (length bm) (i / 64)
    then bm
    else if bit_at bm i
    then bm
    else set bm (i / 64) (get_or bm (i / 64) 0 + 2 ^ (i % 64))

-- `selectOne`, `none` for -1.
unfoldable pub select_one : RankSelect → ℕ → Option ℕ
select_one t idx =
    if ltb idx (length t.ones_positions) then some (get_or t.ones_positions idx 0) else none

-- Where the children of a node begin, `none` for -1.
unfoldable pub node_bm_start : RankSelect → ℕ → Option ℕ
unfolding select_one
node_bm_start t zero = some 0
node_bm_start t (suc n) = elim (select_one t n) [ none ↦ none | some p ↦ some (p + 1) ]

-- The loop of `findChildLabel`, with the rounds that are left up to the end of the bitmap.
unfoldable pub find_label : MrsTrie → RankSelect → ℕ → ℕ → ℕ → ℕ → Option (ℕ × Option ℕ)
unfolding bit_at count_zeros node_bm_start
find_label t tables zero parent bm_idx target = none
find_label t tables (suc rounds) parent bm_idx target =
    let rest = find_label t tables rounds parent (bm_idx + 1) target in
    let child = count_zeros tables (bm_idx + 1) in
    if bit_at t.label_bitmap bm_idx
    then none
    else if ltb bm_idx parent || leb (length t.labels) (bm_idx - parent)
    then none
    else if get_or t.labels (bm_idx - parent) 0 == target
    then some (child, node_bm_start tables child)
    else rest

unfoldable pub find_child_label : MrsTrie → RankSelect → ℕ → Option ℕ → ℕ → Option (ℕ × Option ℕ)
unfolding find_label
find_child_label t tables parent none target = none
find_child_label t tables parent (some start) target =
    find_label t tables (tables.bits_len - start) parent start target

-- What is done with a child, where there is one.
module _ {A : Type 0} where
  abbrev pub with_child : Option (ℕ × Option ℕ) → (ℕ → Option ℕ → Option A) → Option A
  with_child none next = none
  with_child (some (child, start)) next = next child start

-- The node behind a word of labels.
unfoldable pub follow : MrsTrie → RankSelect → ℕ → Option ℕ → Bytes → Option ℕ
follow t tables node start [] = some node
follow t tables node start (c ∷ word) =
    with_child (find_child_label t tables node start c)
      (λ child child_start. follow t tables child child_start word)

abbrev pub leaf_reached : MrsTrie → Option ℕ → Bool
leaf_reached t none = false
leaf_reached t (some node) = bit_at t.leaves node

-- The callback of `buildCompactLeaves`.
abbrev pub compact_visit : MrsTrie → RankSelect → List ℕ → ℕ → Bytes → List ℕ × Bool
compact_visit t tables out node_id current =
    let wildcard =
      follow t tables node_id (node_bm_start tables node_id) (b'.' ∷ b'+' ∷ b'.' ∷ []) in
    (if bit_at t.leaves node_id || leaf_reached t wildcard then set_bit out node_id else out, true)

unfoldable pub build_compact_leaves : MrsTrie → RankSelect → List ℕ
unfolding set_bit follow
build_compact_leaves t tables =
    let max_nodes = max 1 (1 + (tables.bits_len - length tables.ones_positions)) in
    (walk_node t tables (compact_visit t tables) 1025 0 0 []
      (replicate ((max_nodes + 63) / 64) 0)).0

abbrev pub domain_set : Text → MrsTrie → DomainSet
domain_set name t =
    let tables = build_rank_select t.label_bitmap in
    record {
      name = name;
      trie = t;
      compact_leaves = build_compact_leaves t tables;
      tables = tables;
    }

unfoldable pub parse_mrs_domain_set : Unpackers → Text → Bytes → Result MrsError DomainSet
unfolding decode_mrs_payload skip_extra build_compact_leaves
parse_mrs_domain_set unpack name data_in = do
  payload ← decode_mrs_payload unpack data_in
  r1 ← if is_native payload then ok (drop 4 payload) else err non_native
  (behavior, r2) ← read_byte r1
  (count, r3) ← (if behavior == 0 then read_int64 r2 else err not_domain_behavior)
  body ← skip_extra invalid_extra_length r3
  t ← read_mrs_trie_raw body
  ok (domain_set name t)

-- The domain may end here: nothing follows, or a dot does.
abbrev pub at_boundary : Bytes → Bool
at_boundary [] = true
at_boundary (c ∷ rest) = c == b'.'

-- The loop of `Lookup` over the reversed domain, with what has been read, turned back.
unfoldable pub lookup_from : DomainSet → ℕ → Option ℕ → Text → Bytes → Option Text
lookup_from d node start suffix [] = none
lookup_from d node start suffix (c ∷ rest) =
    with_child (find_child_label d.trie d.tables node start c) λ child child_start.
      let deeper = lookup_from d child child_start (c ∷ suffix) rest in
      if bit_at d.compact_leaves child && at_boundary rest then some (c ∷ suffix) else deeper

unfoldable pub lookup : DomainSet → Text → Option Text
lookup d name =
    let domain = trim_dot name in
    if is_empty domain
    then none
    else if bit_at d.compact_leaves 0
    then some []
    else lookup_from d 0 (some 0) [] (reverse domain)
