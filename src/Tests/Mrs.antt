-- ===== src/Tests/Mrs.antt =====
-- internal/rules/parse_mrs.go and domainset.go at a range, at one list of ranges and at a trie that
-- holds the domain com alone.
use purewrt.Prelude.{
  ℕ, ◌≡◌, ◌⊎◌, refl, List, [], ◌∷◌, ◌++◌, map, Option, none, some, arith, ok, false,
}
use purewrt.Text.{Text, codes, text_eq}
use purewrt.Config.Model.{is_empty}
use purewrt.Rules.{domain_suffix, trim_dot}
use purewrt.Ipdb.Blocks.{range_to_prefixes6}
use purewrt.Mrs.Words.{Word128, MrsPrefix, range_to_prefixes, bit_len_of, value}
use purewrt.Mrs.Words.Exact.{to_cidr, range_to_prefixes-database}
use purewrt.Mrs.Reader.{Bytes, read_head, read_full, read_int64, read_uint64_slice, checked_length}
use purewrt.Mrs.Stream.{emit_all, call, with_read}
use purewrt.Mrs.Cidrs.{read_mrs_cidrs, stream_mrs_cidrs}
use purewrt.Mrs.Cidrs.Streamed.{stream_mrs_cidrs-read}
use purewrt.Mrs.Trie.{
  read_mrs_domains, read_mrs_trie_raw, walk_mrs_trie, stream_mrs_domains, trim_wildcard, bit_at,
  walk_node, build_rank_select,
}
use purewrt.Mrs.Trie.Streamed.{stream_mrs_domains-read}
use purewrt.Mrs.Native.{mrs_rule, parse_native_mrs, stream_native_mrs, emit_rule, domain_rules}
use purewrt.Mrs.Native.Agree.{stream_native_mrs-parse}
use purewrt.Mrs.DomainSet.{
  DomainSet, domain_set, lookup, lookup_from, build_compact_leaves, find_child_label,
}
use purewrt.Mrs.DomainSet.Suffix.{EndsWith, lookup-EndsWith}

-- 1.2.3.4 and 1.2.3.9 in their mapped form.
abbrev low : Word128
low = record { hi = 0; lo = 0xffff01020304 }

abbrev high : Word128
high = record { hi = 0; lo = 0xffff01020309 }

range_to_prefixes-database_example :
    map to_cidr (range_to_prefixes low high) ≡ range_to_prefixes6 (value low) (value high)
range_to_prefixes-database_example =
    range_to_prefixes-database low high (record { hi = omega arith; lo = omega arith })
      (record { hi = omega arith; lo = omega arith }) (unfold bit_len_of in refl) (omega arith)

-- A word of 64 bits below 256.
abbrev word : ℕ → Bytes
word b = 0 ∷ 0 ∷ 0 ∷ 0 ∷ 0 ∷ 0 ∷ 0 ∷ b ∷ []

-- One range, ::4 to ::9.
abbrev ranges : Bytes
ranges = 1 ∷ (word 1 ++ (word 0 ++ (word 4 ++ (word 0 ++ word 9))))

-- The callback keeps what it gets and refuses a third entry.
abbrev keep_two {ℓ} : {A : Type ℓ} → List A → A → List A × Option Text
keep_two (a ∷ b ∷ s) c = (a ∷ b ∷ s, some (codes "full"))
keep_two s c = (c ∷ s, none)

stream_mrs_cidrs-read_example :
    stream_mrs_cidrs (some keep_two) [] ranges
    ≡ with_read (read_mrs_cidrs ranges) [] (λ ps. emit_all (call (some keep_two)) [] ps)
stream_mrs_cidrs-read_example = stream_mrs_cidrs-read (some keep_two) [] ranges

-- The nodes are the root, m, mo and moc, which is the leaf.
abbrev trie_of_com : Bytes
trie_of_com =
    1 ∷ (word 1 ++ (word 8 ++ (word 1 ++ (word 106 ++ (word 3 ++ (b'm' ∷ b'o' ∷ b'c' ∷ []))))))

trie_of_com_read : read_mrs_domains false trie_of_com ≡ ok (codes "com" ∷ [])
unfolding read_mrs_domains read_mrs_trie_raw read_uint64_slice read_full read_int64 checked_length
    text_eq walk_mrs_trie walk_node bit_at
trie_of_com_read = refl

stream_mrs_domains-read_example :
    stream_mrs_domains (some keep_two) [] trie_of_com
    ≡ emit_all (call (some keep_two)) [] (map trim_wildcard (codes "com" ∷ []))
stream_mrs_domains-read_example =
    stream_mrs_domains-read (some keep_two) [] trie_of_com (codes "com" ∷ []) trie_of_com_read

abbrev list_of_com : Bytes
list_of_com = 77 ∷ 82 ∷ 83 ∷ 1 ∷ 0 ∷ (word 1 ++ (word 0 ++ trie_of_com))

abbrev no_text : MrsPrefix → Text
no_text p = []

list_of_com_parsed :
    parse_native_mrs no_text (codes "l") list_of_com false
    ≡ ok (mrs_rule (codes "l") 1 domain_suffix (codes "com") ∷ [])
unfolding parse_native_mrs read_head read_mrs_domains read_mrs_trie_raw read_uint64_slice read_full
    read_int64 checked_length text_eq walk_mrs_trie walk_node bit_at domain_rules trim_wildcard
list_of_com_parsed = refl

stream_native_mrs-parse_example :
    stream_native_mrs no_text (some keep_two) none [] list_of_com
    ≡ emit_all
        (emit_rule no_text (some keep_two) none)
        []
        (mrs_rule (codes "l") 1 domain_suffix (codes "com") ∷ [])
stream_native_mrs-parse_example =
    stream_native_mrs-parse no_text (some keep_two) none (codes "l") [] list_of_com
      (mrs_rule (codes "l") 1 domain_suffix (codes "com") ∷ []) list_of_com_parsed

abbrev set_of_com : DomainSet
set_of_com =
    domain_set (codes "l")
      (record { leaves = 8 ∷ []; label_bitmap = 106 ∷ []; labels = b'm' ∷ b'o' ∷ b'c' ∷ [] })

example_com_found : lookup set_of_com (codes "example.com.") ≡ some (codes "com")
unfolding lookup lookup_from find_child_label bit_at build_compact_leaves build_rank_select
    walk_node trim_dot is_empty
example_com_found = refl

lookup-EndsWith_example :
    (codes "com" ≡ []) ⊎ EndsWith (trim_dot (codes "example.com.")) (codes "com")
lookup-EndsWith_example =
    lookup-EndsWith set_of_com (codes "example.com.") (codes "com") example_com_found

-- The label before is not cut in two.
nocom_missed : lookup set_of_com (codes "examplecom") ≡ none
unfolding lookup lookup_from find_child_label bit_at build_compact_leaves build_rank_select
    walk_node trim_dot is_empty
nocom_missed = refl

-- A list of the entry +.com alone: it reads as a rule for com, and the lookup misses what is in com.
abbrev set_of_wildcard : DomainSet
set_of_wildcard = domain_set (codes "l") (record {
  leaves = 32 ∷ [];
  label_bitmap = 1706 ∷ [];
  labels = b'm' ∷ b'o' ∷ b'c' ∷ b'.' ∷ b'+' ∷ [];
})

wildcard_missed : lookup set_of_wildcard (codes "example.com") ≡ none
unfolding lookup lookup_from find_child_label bit_at build_compact_leaves build_rank_select
    walk_node trim_dot is_empty
wildcard_missed = refl
