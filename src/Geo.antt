-- ===== src/Geo.antt =====
-- internal/geodb/v2dat.go: the reader of geosite.dat and geoip.dat. A buffer is the list of its bytes
-- that are left.
pub mod Steps
pub mod Ends
pub mod Varint
pub mod Format
pub mod Encoded
use purewrt.Prelude.{
  ℕ, zero, suc, ◌+◌, ◌-◌, ◌*◌, ◌/◌, ◌%◌, ◌^◌, Bool, true, false, not, ◌&&◌, ◌||◌, List, [], ◌∷◌,
  ◌++◌, any, ltb, leb, ◌==◌, if◌then◌else◌, length, take, drop, Result, ok, err, ◌>>=◌,
}
use purewrt.Prelude.Sort.{sort_by}
use purewrt.Text.{Text, codes, text_eq}
use purewrt.Text.Space.{trim_space}
use purewrt.Text.Case.{to_lower}
use purewrt.Text.Decimal.{itoa}
use purewrt.Config.Model.{is_empty}
use purewrt.Rules.{Rule, RuleType, domain, domain_suffix, domain_keyword, ip_cidr, ip_cidr6}
use purewrt.Rules.ParseText.{plain_rule, no_rule}
use purewrt.Mrs.Reader.{Bytes}
use purewrt.Mrs.Trie.{bytes_less}

-- `stuck` is no error of the code: it marks a loop that is cut off.
pub data GeoError : Type 0 where
  varint_truncated varint_overflow overrun fixed_truncated unsupported_wire : GeoError
  empty_name not_found bad_address stuck : GeoError

abbrev pub GeoRead {ℓ} : Type ℓ → Type ℓ
GeoRead A = Result GeoError (A × Bytes)

-- The loop of `readVarint`: the seven bits of a byte go above `shift`, those beyond 64 bits are lost.
unfoldable pub read_varint_from : ℕ → ℕ → Bytes → GeoRead ℕ
read_varint_from v shift [] = err varint_truncated
read_varint_from v shift (b ∷ r) =
    let v' = v + b % 128 * 2 ^ shift % 2 ^ 64 in
    let rest = read_varint_from v' (shift + 7) r in
    if ltb b 128 then ok (v', r) else if ltb 63 (shift + 7) then err varint_overflow else rest

unfoldable pub read_varint : Bytes → GeoRead ℕ
read_varint r = read_varint_from 0 0 r

-- What a message loop does with a field: it took the field and goes on behind it, it has what it
-- looked for, or it leaves the field to `skipField`.
pub data Step (S : Type 0) : Type 0 where
  go : S → Bytes → Step S
  stop : S → Step S
  pass : Step S

abbrev pub Handler : Type 0 → Type 0
Handler S = S → ℕ → ℕ → Bytes → Result GeoError (Step S)

abbrev pub is_field : ℕ → ℕ → ℕ → ℕ → Bool
is_field number kind field wire = field == number && wire == kind

abbrev pub skip_fixed : ℕ → Bytes → Result GeoError Bytes
skip_fixed n r = if leb n (length r) then ok (drop n r) else err fixed_truncated

abbrev pub add_name : Text → List Text → List Text
add_name name seen = if any (text_eq name) seen then seen else name ∷ seen

-- The rule of a domain, and whether it is one that is skipped.
abbrev pub geo_rule : RuleType → Text → Rule
geo_rule type value = plain_rule type value false true true

unfoldable pub domain_rule : ℕ × Text → Rule × Bool
domain_rule (dtype, value) =
    if is_empty value
    then (no_rule, false)
    else if dtype == 0
    then (geo_rule domain_keyword value, false)
    else if dtype == 2
    then (geo_rule domain_suffix value, false)
    else if dtype == 3
    then (geo_rule RuleType.domain value, false)
    else (no_rule, true)

-- The rules so far and the number of the domains that are skipped.
abbrev pub keep_rule : List Rule × ℕ → Rule × Bool → List Rule × ℕ
keep_rule (out, skipped) (r, true) = (out, skipped + 1)
keep_rule (out, skipped) (r, false) = (if is_empty r.value then out else out ++ r ∷ [], skipped)

abbrev pub when_found : {S : Type 0} → Bool × S → Result GeoError S
when_found (found, s) = if found then ok s else err not_found

-- `ip_text` is `net.IP.String`.
module _ (ip_text : Bytes → Text) where
  abbrev pub network_rule : RuleType → Bytes → ℕ → Rule
  network_rule type ip prefix = plain_rule type (ip_text ip ++ b'/' ∷ itoa prefix) true true true

  unfoldable pub cidr_rule : Bytes × ℕ → Result GeoError Rule
  cidr_rule (ip, prefix) =
      if length ip == 0
      then ok no_rule
      else if length ip == 4
      then ok (network_rule ip_cidr ip prefix)
      else if length ip == 16
      then ok (network_rule ip_cidr6 ip prefix)
      else err bad_address

-- `width` is the number of bits of an int of the router. `int(n)` keeps that many bits of a length, and
-- is negative where the highest of them is set; the sum with an offset is too large for an int only
-- where it is too large for the buffer.
module _ (width : ℕ) where
  unfoldable pub read_bytes_field : Bytes → GeoRead Bytes
  read_bytes_field r = do
    (n, next) ← read_varint r
    (if ltb (n % 2 ^ width) (2 ^ (width - 1)) && leb (n % 2 ^ width) (length next)
        then ok (take (n % 2 ^ width) next, drop (n % 2 ^ width) next)
        else err overrun)

  unfoldable pub skip_field : ℕ → Bytes → Result GeoError Bytes
  skip_field wire r =
      if wire == 0
      then (do (v, next) ← read_varint r; ok next)
      else if wire == 1
      then skip_fixed 8 r
      else if wire == 2
      then (do (inner, next) ← read_bytes_field r; ok next)
      else if wire == 5
      then skip_fixed 4 r
      else err unsupported_wire

  module _ {S : Type 0} where
    abbrev pub resume : S → ℕ → Bytes → Step S → (S → Bytes → Result GeoError S) → Result GeoError S
    resume s wire next (go s' rest) on = on s' rest
    resume s wire next (stop s') on = ok s'
    resume s wire next pass on = skip_field wire next >>= λ rest. on s rest

    -- The loop over the fields of a message that every reader of the file has, on fuel.
    unfoldable pub fields : Handler S → ℕ → S → Bytes → Result GeoError S
    fields handle fuel s [] = ok s
    fields handle zero s (b ∷ r) = err stuck
    fields handle (suc fuel) s (b ∷ r) = do
      (tag, next) ← read_varint (b ∷ r)
      step ← handle s (tag / 8) (tag % 8) next
      resume s (tag % 8) next step (λ s' rest. fields handle fuel s' rest)

    -- A field takes a byte at least, so the bytes are fuel enough.
    abbrev pub message : Handler S → S → Bytes → Result GeoError S
    message handle s r = fields handle (length r) s r

    -- The field that `kind` tells, read as bytes and given to `use_bytes`.
    abbrev pub bytes_step : (Bytes → Result GeoError S) → Bytes → Result GeoError (Step S)
    bytes_step use_bytes next = do
      (payload, after) ← read_bytes_field next
      s ← use_bytes payload
      ok (go s after)

    abbrev pub varint_step : (ℕ → S) → Bytes → Result GeoError (Step S)
    varint_step use_number next = do (n, after) ← read_varint next; ok (go (use_number n) after)

    abbrev pub entry_handler : (S → Bytes → Result GeoError S) → Handler S
    entry_handler cb s field wire next =
        if is_field 1 2 field wire then bytes_step (cb s) next else ok pass

    unfoldable pub scan_entries : (S → Bytes → Result GeoError S) → S → Bytes → Result GeoError S
    scan_entries cb s buf = message (entry_handler cb) s buf

    -- The loop over the records of an entry.
    abbrev pub record_handler : (S → Bytes → Result GeoError S) → Handler S
    record_handler cb s field wire next =
        if is_field 2 2 field wire then bytes_step (cb s) next else ok pass

  abbrev pub name_handler : Handler Text
  name_handler s field wire next =
      if is_field 1 2 field wire
      then (do (name, after) ← read_bytes_field next; ok (stop name))
      else ok pass

  unfoldable pub entry_name : Bytes → Result GeoError Text
  entry_name payload = message name_handler [] payload

  abbrev pub see_entry : List Text → Bytes → Result GeoError (List Text)
  see_entry seen payload = do
    name ← entry_name payload
    ok (if is_empty name then seen else add_name (to_lower name) seen)

  -- `listEntries` on what the file holds.
  unfoldable pub list_entries : Bytes → Result GeoError (List Text)
  list_entries buf = do seen ← scan_entries see_entry [] buf; ok (sort_by bytes_less seen)

  abbrev pub domain_handler : Handler (ℕ × Text)
  domain_handler (dtype, value) field wire next =
      if is_field 1 0 field wire
      then varint_step (λ t. (t, value)) next
      else if is_field 2 2 field wire
      then bytes_step (λ b. ok (dtype, b)) next
      else ok pass

  unfoldable pub parse_domain : Bytes → Result GeoError (Rule × Bool)
  parse_domain payload = do read ← message domain_handler (0, []) payload; ok (domain_rule read)

  abbrev pub collect_domain : List Rule × ℕ → Bytes → Result GeoError (List Rule × ℕ)
  collect_domain s dom = do r ← parse_domain dom; ok (keep_rule s r)

  module _ {S : Type 0} where
    -- The callback of both extractions: an entry of another name is left.
    unfoldable pub visit_entry :
        (S → Bytes → Result GeoError S) → Text → Bool × S → Bytes → Result GeoError (Bool × S)
    visit_entry collect want (found, s) payload = do
      name ← entry_name payload
      (if text_eq (to_lower name) want
          then (do s' ← message (record_handler collect) s payload; ok (true, s'))
          else ok (found, s))

    unfoldable pub extract : (S → Bytes → Result GeoError S) → S → Text → Bytes → Result GeoError S
    extract collect start name buf =
        let want = to_lower (trim_space name) in
        if is_empty want
        then err empty_name
        else scan_entries (visit_entry collect want) (false, start) buf >>= when_found

  -- `ExtractGeoSiteRules` on what the file holds.
  unfoldable pub extract_geo_site_rules : Text → Bytes → Result GeoError (List Rule × ℕ)
  extract_geo_site_rules category buf = extract collect_domain ([], 0) category buf

  abbrev pub cidr_handler : Handler (Bytes × ℕ)
  cidr_handler (ip, prefix) field wire next =
      if is_field 1 2 field wire
      then bytes_step (λ b. ok (b, prefix)) next
      else if is_field 2 0 field wire
      then varint_step (λ p. (ip, p)) next
      else ok pass

  module _ (ip_text : Bytes → Text) where
    unfoldable pub parse_cidr : Bytes → Result GeoError Rule
    parse_cidr payload = message cidr_handler ([], 0) payload >>= cidr_rule ip_text

    abbrev pub collect_cidr : List Rule → Bytes → Result GeoError (List Rule)
    collect_cidr out cidr = do
      r ← parse_cidr cidr
      ok (if is_empty r.value then out else out ++ r ∷ [])

    -- `ExtractGeoIPRules` on what the file holds.
    unfoldable pub extract_geo_ip_rules : Text → Bytes → Result GeoError (List Rule)
    extract_geo_ip_rules country buf = extract collect_cidr [] country buf
