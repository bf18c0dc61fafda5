-- ===== src/Mrs/Trie.antt =====
-- internal/rules/parse_mrs.go: the bitmap trie of a list of domains. The ones of the bitmap end the
-- children of a node, the zeros are the nodes below the root, in order.
pub mod Grows
pub mod Streamed
use mathlib.Core.List.{reverse}
use purewrt.Prelude.{
  ℕ, zero, suc, ◌+◌, ◌-◌, ◌*◌, ◌/◌, ◌%◌, ◌^◌, Bool, true, false, not, ◌&&◌, ◌||◌, List, [], ◌∷◌,
  ◌++◌, map, min, ltb, leb, ◌==◌, if◌then◌else◌, length, get_or, Result, ok, err, ◌>>=◌, Option,
  none, some,
}
use purewrt.Text.{Text, text_eq}
use purewrt.Prelude.Sort.{sort_by}
use purewrt.Mrs.Reader.{
  Bytes, MrsError, invalid_domain_version, invalid_labels_length, depth_limit, invalid_bitmap_index,
  invalid_label_index, Read, read_full, read_int64, checked_length, read_uint64_slice,
}
use purewrt.Mrs.Stream.{Stopped, malformed, refused, call, with_read}

pub record MrsTrie : Type 0 where
  pub leaves : List ℕ
  pub label_bitmap : List ℕ
  pub labels : Bytes

unfoldable pub read_mrs_trie_raw : Bytes → Result MrsError MrsTrie
read_mrs_trie_raw r = do
  (version, r1) ← read_full 1 r
  (leaves, r2) ←
      (if text_eq version (1 ∷ []) then read_uint64_slice r1 else err invalid_domain_version)
  (bitmap, r3) ← read_uint64_slice r2
  (declared, r4) ← read_int64 r3
  n ← checked_length declared (length r4) invalid_labels_length
  (labels, end) ← read_full n r4
  ok (record { leaves = leaves; label_bitmap = bitmap; labels = labels })

unfoldable pub bit_at : List ℕ → ℕ → Bool
bit_at bm i = ltb (i / 64) (length bm) && get_or bm (i / 64) 0 / 2 ^ (i % 64) % 2 == 1

-- `prefixOnes` behind its first entry, and `onesPositions`, from bit `i` on.
unfoldable pub rank_tables : List ℕ → ℕ → ℕ → ℕ → List ℕ × List ℕ
rank_tables bm zero i ones = ([], [])
rank_tables bm (suc k) i ones =
    let here = bit_at bm i in
    let count : ℕ = if here then ones + 1 else ones in
    let (ranks, positions) = rank_tables bm k (i + 1) count in
    (count ∷ ranks, if here then i ∷ positions else positions)

pub record RankSelect : Type 0 where
  pub prefix_ones : List ℕ
  pub ones_positions : List ℕ
  pub bits_len : ℕ

unfoldable pub build_rank_select : List ℕ → RankSelect
unfolding rank_tables
build_rank_select bm =
    let (ranks, positions) = rank_tables bm (length bm * 64) 0 0 in
    record { prefix_ones = 0 ∷ ranks; ones_positions = positions; bits_len = length bm * 64 }

unfoldable pub count_zeros : RankSelect → ℕ → ℕ
count_zeros t n = let m = min n t.bits_len in m - get_or t.prefix_ones m 0

-- `selectOne(n - 1) + 1`: where the children of node `n` begin, 0 where there are fewer ones.
unfoldable pub after_one : RankSelect → ℕ → ℕ
after_one t zero = 0
after_one t (suc idx) =
    if ltb idx (length t.ones_positions) then get_or t.ones_positions idx 0 + 1 else 0

-- What a walk keeps: the state of its callback, or the fault that it met.
abbrev pub Walk : Type 0 → Type 0
Walk S = S × Option MrsError

module _ {S : Type 0} where
  abbrev pub walk_on : Walk S → (S → Walk S) → Walk S
  walk_on (s, some failure) next = (s, some failure)
  walk_on (s, none) next = next s

  -- What a callback answers: go on to the children, or leave them out.
  abbrev pub go_deeper : S × Bool → (S → Walk S) → Walk S
  go_deeper (s, true) next = next s
  go_deeper (s, false) next = (s, none)

module _ (t : MrsTrie) (tables : RankSelect) {S : Type 0} (visit : S → ℕ → Bytes → S × Bool) where
  -- The loop over the children of a node, which ends at a one. `labelIdx` leaves the labels after
  -- fewer than `rounds` rounds.
  unfoldable pub walk_children : (ℕ → ℕ → Bytes → S → Walk S) → ℕ → ℕ → ℕ → Bytes → S → Walk S
  unfolding bit_at count_zeros after_one
  walk_children descend zero node_id bm_idx current s = (s, some invalid_label_index)
  walk_children descend (suc rounds) node_id bm_idx current s =
      let next_node = count_zeros tables (bm_idx + 1) in
      let deeper =
        descend next_node (after_one tables next_node)
          (current ++ get_or t.labels (bm_idx - node_id) 0 ∷ []) s in
      let rest =
        walk_on deeper (λ s'. walk_children descend rounds node_id (bm_idx + 1) current s') in
      if bit_at t.label_bitmap bm_idx
      then (s, none)
      else if ltb bm_idx node_id || leb (length t.labels) (bm_idx - node_id)
      then (s, some invalid_label_index)
      else rest

  -- `walk`, with the levels that the depth limit leaves.
  unfoldable pub walk_node : ℕ → ℕ → ℕ → Bytes → S → Walk S
  unfolding walk_children
  walk_node zero node_id bm_idx current s = (s, some depth_limit)
  walk_node (suc levels) node_id bm_idx current s =
      let children : S → Walk S =
        λ s'. walk_children (walk_node levels) (length t.labels + 1) node_id bm_idx current s' in
      if leb tables.bits_len bm_idx
      then (s, some invalid_bitmap_index)
      else go_deeper (visit s node_id current) children

unfoldable pub walk_mrs_trie : {S : Type 0} → MrsTrie → (S → ℕ → Bytes → S × Bool) → S → Walk S
unfolding build_rank_select
walk_mrs_trie t visit s = walk_node t (build_rank_select t.label_bitmap) visit 1025 0 0 [] s

-- The callback of `readMRSDomainsWithOptions`.
abbrev pub collect : MrsTrie → List Bytes → ℕ → Bytes → List Bytes × Bool
collect t out node_id current =
    (if bit_at t.leaves node_id then out ++ reverse current ∷ [] else out, true)

abbrev pub walked : Walk (List Bytes) → Result MrsError (List Bytes)
walked (out, some failure) = err failure
walked (out, none) = ok out

-- The order of Go's strings, byte by byte.
abbrev pub bytes_less : Bytes → Bytes → Bool
bytes_less a [] = false
bytes_less [] (d ∷ b) = true
bytes_less (c ∷ a) (d ∷ b) = let rest = bytes_less a b in if c == d then rest else ltb c d

unfoldable pub read_mrs_domains : Bool → Bytes → Result MrsError (List Bytes)
read_mrs_domains sort_domains r = do
  t ← read_mrs_trie_raw r
  out ← walked (walk_mrs_trie t (collect t) [])
  ok (if sort_domains then sort_by bytes_less out else out)

-- `strings.TrimPrefix(d, "+.")`.
unfoldable pub trim_wildcard : Bytes → Bytes
trim_wildcard [] = []
trim_wildcard (c ∷ []) = c ∷ []
trim_wildcard (c ∷ d ∷ rest) = if c == b'+' && d == b'.' then rest else c ∷ d ∷ rest

module _ {S E : Type 0} (emit : Option (S → Bytes → S × Option E)) where
  -- The callback of `streamMRSDomains` keeps the first error of `emit` and goes no deeper from there.
  abbrev pub noted : S × Option E → (S × Option E) × Bool
  noted (s, some failure) = ((s, some failure), false)
  noted (s, none) = ((s, none), true)

  abbrev pub stream_visit : MrsTrie → S × Option E → ℕ → Bytes → (S × Option E) × Bool
  stream_visit t (s, some failure) node_id current = ((s, some failure), false)
  stream_visit t (s, none) node_id current =
      if bit_at t.leaves node_id
      then noted (call emit s (trim_wildcard (reverse current)))
      else ((s, none), true)

  abbrev pub close_walk : Walk (S × Option E) → S × Option (Stopped E)
  close_walk ((s, failed), some failure) = (s, some (malformed failure))
  close_walk ((s, some refusal), none) = (s, some (refused refusal))
  close_walk ((s, none), none) = (s, none)

  unfoldable pub stream_mrs_domains : S → Bytes → S × Option (Stopped E)
  stream_mrs_domains s r =
      with_read (read_mrs_trie_raw r) s λ t. close_walk (walk_mrs_trie t (stream_visit t) (s, none))
