-- ===== src/Mesh/SyncCode.antt =====
-- internal/mesh/synccode.go: the code that carries the secrets of a group. A byte string is the list
-- of its bytes.
pub mod Payload
pub mod RoundTrip
use purewrt.Prelude.{
  ℕ, suc, zero, ◌+◌, ◌-◌, ◌%◌, Bool, true, false, not, List, [], ◌∷◌, ◌++◌, Option, none, some,
  Result, ok, err, ltb, ◌==◌, if◌then◌else◌, length, take, drop, get_or,
}
use purewrt.Text.{Text, codes, text_eq}
use purewrt.Text.Space.{trim_space}
use purewrt.Text.Case.{to_upper}
use purewrt.Text.Find.{has_prefix}

abbrev pub Bytes : Type 0
Bytes = List ℕ

-- The arrays have 8, 24 and 32 bytes.
pub record Code : Type 0 where
  pub name_entropy : Bytes
  pub network_secret : Bytes
  pub psk : Bytes
  pub extra_peers : List Bytes

pub data CodeError : Type 0 where
  not_a_code malformed too_short : CodeError
  unsupported_version : ℕ → CodeError
  checksum_mismatch truncated_extension : CodeError

unfoldable pub flags : Code → ℕ
flags c = elim c.extra_peers [ [] ↦ 0 | _ ↦ 1 ]

-- `byte(len(p))` keeps the low eight bits of the length.
unfoldable pub encode_peers : List Bytes → Bytes
encode_peers [] = []
encode_peers (p ∷ ps) = 1 ∷ length p % 256 ∷ p ++ encode_peers ps

unfoldable pub encode_body : Code → Bytes
unfolding flags encode_peers
encode_body c =
    1 ∷ flags c ∷ (c.name_entropy ++ (c.network_secret ++ (c.psk ++ encode_peers c.extra_peers)))

-- The loop over `i`, by the rest of the text; each round takes eight characters or the last ones.
unfoldable pub write_groups : ℕ → Bool → Text → Text
write_groups zero first enc = []
write_groups (suc fuel) first [] = []
write_groups (suc fuel) first (e ∷ enc) =
    let rest = write_groups fuel false (drop 8 (e ∷ enc)) in
    if first then take 8 (e ∷ enc) ++ rest else b'-' ∷ take 8 (e ∷ enc) ++ rest

abbrev pub code_prefix : Text
code_prefix = codes "PWMESH1-"

-- `strings.ReplaceAll(s, "-", "")`.
unfoldable pub remove_dashes : Text → Text
remove_dashes [] = []
remove_dashes (c ∷ s) = let rest = remove_dashes s in if c == b'-' then rest else c ∷ rest

-- The extensions, of which each takes two bytes or more.
unfoldable pub decode_peers : ℕ → Bytes → List Bytes → Result CodeError (List Bytes)
decode_peers fuel [] peers = ok peers
decode_peers zero (t ∷ tlvs) peers = err truncated_extension
decode_peers (suc fuel) (t ∷ []) peers = err truncated_extension
decode_peers (suc fuel) (t ∷ n ∷ rest) peers =
    let next =
      decode_peers fuel (drop n rest) (if t == 1 then peers ++ take n rest ∷ [] else peers) in
    if ltb (length rest) n then err truncated_extension else next

-- `hmac` is HMAC-SHA-256; `encode32` and `decode32` are base32 without padding.
module _ (hmac : Bytes → Bytes → Bytes) (encode32 : Bytes → Text)
    (decode32 : Text → Option Bytes) where
  unfoldable pub code_mac : Bytes → Bytes → Bytes
  code_mac psk payload = take 4 (hmac psk payload)

  unfoldable pub encode : Code → Text
  unfolding encode_body code_mac write_groups
  encode c =
      let payload = encode_body c ++ code_mac c.psk (encode_body c) in
      let enc = encode32 payload in code_prefix ++ write_groups (length enc) true enc

  -- What `DecodeCode` makes of the bytes.
  unfoldable pub decode_payload : Bytes → Result CodeError Code
  unfolding code_mac decode_peers
  decode_payload payload =
      if ltb (length payload) 70
      then err too_short
      else if not (get_or payload 0 0 == 1)
      then err (unsupported_version (get_or payload 0 0))
      else let psk = take 32 (drop 34 payload) in
        let body = take (length payload - 4) payload in
        let mac = drop (length payload - 4) payload in
        if not (text_eq (code_mac psk body) mac)
        then err checksum_mismatch
        else elim (decode_peers (length (drop 66 body)) (drop 66 body) []) [
          | err e ↦ err e
          | ok peers ↦ ok (record {
            name_entropy = take 8 (drop 2 payload);
            network_secret = take 24 (drop 10 payload);
            psk = psk;
            extra_peers = peers;
          })
        ]

  unfoldable pub decode_code : Text → Result CodeError Code
  unfolding decode_payload remove_dashes
  decode_code s =
      let t = to_upper (trim_space s) in
      if not (has_prefix code_prefix t)
      then err not_a_code
      else elim (decode32 (remove_dashes (drop 8 t))) [
        | none ↦ err malformed
        | some payload ↦ decode_payload payload
      ]
