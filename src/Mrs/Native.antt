-- ===== src/Mrs/Native.antt =====
-- internal/rules/parse_mrs.go: what wraps a binary list, and the functions that read a whole one.
pub mod Agree
use purewrt.Prelude.{
  ℕ, zero, suc, ◌+◌, ◌*◌, ◌^◌, Bool, true, false, not, ◌&&◌, ◌||◌, List, [], ◌∷◌, ◌++◌, map, any,
  Option, none, some, Result, ok, err, ◌>>=◌, ltb, leb, ◌==◌, if◌then◌else◌, length, take, drop,
}
use purewrt.Prelude.Int.{ℤ, pos, negsuc}
use purewrt.Text.{Text, codes, text_eq}
use purewrt.Text.Find.{contains}
use purewrt.Rules.{Rule, RuleType, domain, domain_suffix, ip_cidr, ip_cidr6}
use purewrt.Rules.ParseText.{NetParsers, parse_text}
use purewrt.Mrs.Words.{MrsPrefix}
use purewrt.Mrs.Reader.{
  Bytes, MrsError, zstd_failed, gzip_failed, payload_too_large, unsupported_encoding,
  unsupported_behavior, empty_decoded, non_native, invalid_count, read_full, read_byte, read_int64,
  is_native, Head, read_head,
}
use purewrt.Mrs.Stream.{Stopped, malformed, refused, call, with_read, emit_all}
use purewrt.Mrs.Cidrs.{read_mrs_cidrs, stream_mrs_cidrs}
use purewrt.Mrs.Trie.{read_mrs_domains, stream_mrs_domains, trim_wildcard}

-- What the compression packages answer: the whole of a zstd frame, and at most as many bytes as asked
-- for of a gzip stream; `none` where they report an error.
pub record Unpackers : Type 0 where
  pub zstd : Bytes → Option Bytes
  pub gzip : ℕ → Bytes → Option Bytes

abbrev pub max_mrs_payload_bytes : ℕ
max_mrs_payload_bytes = 128 * 2 ^ 20

abbrev pub zstd_magic : Bytes
zstd_magic = 0x28 ∷ 0xb5 ∷ 0x2f ∷ 0xfd ∷ []

abbrev pub gzip_magic : Bytes
gzip_magic = 0x1f ∷ 0x8b ∷ []

abbrev pub within_limit : MrsError → Option Bytes → Result MrsError Bytes
within_limit failure none = err failure
within_limit failure (some payload) =
    if ltb max_mrs_payload_bytes (length payload) then err payload_too_large else ok payload

unfoldable pub decode_mrs_payload : Unpackers → Bytes → Result MrsError Bytes
decode_mrs_payload unpack data_in =
    if leb 4 (length data_in) && text_eq (take 4 data_in) zstd_magic
    then within_limit zstd_failed (unpack.zstd data_in)
    else if leb 2 (length data_in) && text_eq (take 2 data_in) gzip_magic
    then within_limit gzip_failed (unpack.gzip (max_mrs_payload_bytes + 1) data_in)
    else ok data_in

abbrev pub mrs_rule : Text → ℕ → RuleType → Text → Rule
mrs_rule name line type value = record {
  type = type;
  value = value;
  no_resolve = false;
  source_provider = name;
  source_line = line;
  supported_openwrt = true;
  supported_mihomo = true;
}

-- The rules of the domains, numbered from `line` on.
unfoldable pub domain_rules : Text → ℕ → List Bytes → List Rule
domain_rules name line [] = []
domain_rules name line (d ∷ ds) =
    mrs_rule name line domain_suffix (trim_wildcard d) ∷ domain_rules name (line + 1) ds

abbrev pub is_positive : ℤ → Bool
is_positive (pos n) = not (n == 0)
is_positive (negsuc n) = false

module _ {S E : Type 0} where
  -- The callback for prefixes, by the one for their texts.
  abbrev pub rendered :
      (MrsPrefix → Text) → Option (S → Text → S × Option E) → Option (S → MrsPrefix → S × Option E)
  rendered prefix_text none = none
  rendered prefix_text (some emit) = some (λ s p. emit s (prefix_text p))

module _ (prefix_text : MrsPrefix → Text) where
  abbrev pub cidr_type : Text → RuleType
  cidr_type c = if contains (codes ":") c then ip_cidr6 else ip_cidr

  unfoldable pub cidr_rules : Text → ℕ → List MrsPrefix → List Rule
  cidr_rules name line [] = []
  cidr_rules name line (p ∷ ps) =
      mrs_rule name line (cidr_type (prefix_text p)) (prefix_text p) ∷ cidr_rules name (line + 1) ps

  -- `switch behavior`.
  unfoldable pub native_rules : Text → Bool → Head → Result MrsError (List Rule)
  native_rules name sort_domains head =
      if head.behavior == 0
      then (do domains ← read_mrs_domains sort_domains head.body; ok (domain_rules name 1 domains))
      else if head.behavior == 1
      then (do cidrs ← read_mrs_cidrs head.body; ok (cidr_rules name 1 cidrs))
      else err unsupported_behavior

  unfoldable pub parse_native_mrs : Text → Bytes → Bool → Result MrsError (List Rule)
  unfolding native_rules
  parse_native_mrs name payload sort_domains = do
    head ← read_head payload
    rules ← native_rules name sort_domains head
    (if length rules == 0 && is_positive head.count then err empty_decoded else ok rules)

  unfoldable pub payload_rules : NetParsers → Text → Bool → Bytes → Result MrsError (List Rule)
  unfolding parse_native_mrs
  payload_rules net name sort_domains payload =
      if is_native payload
      then parse_native_mrs name payload sort_domains
      else if not (contains (codes ".") payload) && not (contains (codes "/") payload)
      then err unsupported_encoding
      else ok (parse_text net name payload)

  unfoldable pub parse_mrs_with_options :
      Unpackers → NetParsers → Text → Bytes → Bool → Result MrsError (List Rule)
  unfolding payload_rules
  parse_mrs_with_options unpack net name data_in sort_domains =
      decode_mrs_payload unpack data_in >>= payload_rules net name sort_domains

  unfoldable pub parse_mrs : Unpackers → NetParsers → Text → Bytes → Result MrsError (List Rule)
  unfolding parse_mrs_with_options
  parse_mrs unpack net name data_in = parse_mrs_with_options unpack net name data_in true

  module _ {S E : Type 0} (on_domain on_cidr : Option (S → Text → S × Option E)) where
    unfoldable pub stream_native_mrs : S → Bytes → S × Option (Stopped E)
    stream_native_mrs s payload = with_read (read_head payload) s λ head.
        if head.behavior == 0
        then stream_mrs_domains on_domain s head.body
        else if head.behavior == 1
        then stream_mrs_cidrs (rendered prefix_text on_cidr) s head.body
        else (s, some (malformed unsupported_behavior))

    -- The callback for a rule, by its type.
    abbrev pub emit_rule : S → Rule → S × Option E
    emit_rule s r = elim (r.type) [
      | RuleType.domain ↦ call on_domain s r.value
      | domain_suffix ↦ call on_domain s r.value
      | ip_cidr ↦ call on_cidr s r.value
      | ip_cidr6 ↦ call on_cidr s r.value
      | _ ↦ (s, none)
    ]

    unfoldable pub stream_mrs : Unpackers → NetParsers → S → Bytes → S × Option (Stopped E)
    unfolding decode_mrs_payload stream_native_mrs
    stream_mrs unpack net s data_in = with_read (decode_mrs_payload unpack data_in) s λ payload.
        if is_native payload
        then stream_native_mrs s payload
        else emit_all emit_rule s (parse_text net (codes "mrs") payload)

pub record MrsInfo : Type 0 where
  pub behavior : ℕ
  pub count : ℕ

abbrev pub checked_count : ℕ → ℤ → Result MrsError ℕ
checked_count max_int (negsuc n) = err invalid_count
checked_count max_int (pos n) = if ltb max_int n then err invalid_count else ok n

-- `AnalyzeMRS` behind the unpacking: `max_int` is the greatest `int` of the router.
unfoldable pub analyze_mrs : Unpackers → ℕ → Bytes → Result MrsError MrsInfo
unfolding decode_mrs_payload
analyze_mrs unpack max_int data_in = do
  payload ← decode_mrs_payload unpack data_in
  r1 ← if is_native payload then ok (drop 4 payload) else err non_native
  (behavior, r2) ← read_byte r1
  (declared, r3) ← read_int64 r2
  count ← checked_count max_int declared
  (if leb behavior 1
      then ok (record { behavior = behavior; count = count })
      else err unsupported_behavior)
