-- ===== src/Mesh/SyncCode/RoundTrip.antt =====
-- `Encode` and `DecodeCode` of internal/mesh/synccode.go together.
use mathlib.Core.List.{reverse, reverse-append}
use purewrt.Prelude.{
  ℕ, suc, zero, ◌≤◌, ◌≡◌, ◌∙◌, refl, ap, ap₂, Bool, true, false, ◌&&◌, ◌||◌, List, [], ◌∷◌, ◌++◌,
  arith, Option, some, ok, leb, ◌==◌, if◌then◌else◌, length, take, drop, All, All-append, All-drop,
  take-append-drop, length-drop,
}
use purewrt.Text.{Text}
use purewrt.Text.Space.{trim_space, trim_space_lem, is_space, NoSpaceFirst}
use purewrt.Text.Case.{to_upper, upper}
use purewrt.Text.Find.{has_prefix}
use purewrt.Mesh.SyncCode.{
  Bytes, Code, encode, encode_body, code_mac, code_prefix, write_groups, remove_dashes, decode_code,
}
use purewrt.Mesh.SyncCode.Payload.{IsCode, decode_payload-encode_body}

-- The alphabet of base32: `A` to `Z` and `2` to `7`.
abbrev pub in_alphabet : ℕ → Bool
in_alphabet c = (leb b'A' c && leb c b'Z') || (leb b'2' c && leb c b'7')

abbrev pub Alphabet : Text → Type 0
Alphabet = All (λ c. in_alphabet c ≡ true)

-- Of a code: the alphabet, the dash, and the digit of the prefix.
abbrev is_code_char : ℕ → Bool
is_code_char c = in_alphabet c || c == b'-' || c == b'1'

abbrev CodeText : Text → Type 0
CodeText = All (λ c. is_code_char c ≡ true)

remove_dashes-append : (s t : Text) → Alphabet s → remove_dashes (s ++ t) ≡ s ++ remove_dashes t
unfolding remove_dashes
remove_dashes-append [] t a = refl
remove_dashes-append (c ∷ s) t (a, rest) = ground (arith, a, remove_dashes-append s t rest)

All-take {ℓ κ} : {A : Type ℓ} (P : A → Type κ) (n : ℕ) (xs : List A) → All P xs → All P (take n xs)
All-take P zero xs h = tt
All-take P (suc n) [] h = tt
All-take P (suc n) (x ∷ xs) (h, rest) = (h, All-take P n xs rest)

one_group :
    (first : Bool) (enc rest : Text)
    → Alphabet enc
    → remove_dashes rest ≡ drop 8 enc
    → remove_dashes (if first then take 8 enc ++ rest else b'-' ∷ take 8 enc ++ rest) ≡ enc
unfolding remove_dashes
one_group first enc rest a h = go first
  where
    group : remove_dashes (take 8 enc ++ rest) ≡ enc
    group =
        remove_dashes-append (take 8 enc) rest (All-take (λ c. in_alphabet c ≡ true) 8 enc a)
        ∙ ap (λ t. take 8 enc ++ t) h
        ∙ take-append-drop 8 enc

    go :
        (b : Bool)
        → remove_dashes (if b then take 8 enc ++ rest else b'-' ∷ take 8 enc ++ rest) ≡ enc
    go true = group
    go false = group

remove_dashes-write_groups :
    (fuel : ℕ) (first : Bool) (enc : Text)
    → Alphabet enc
    → length enc ≤ fuel
    → remove_dashes (write_groups fuel first enc) ≡ enc
unfolding write_groups
remove_dashes-write_groups zero first [] a h = unfold remove_dashes in refl
remove_dashes-write_groups zero first (e ∷ enc) a h = absurd (omega (arith, h))
remove_dashes-write_groups (suc fuel) first [] a h = unfold remove_dashes in refl
remove_dashes-write_groups (suc fuel) first (e ∷ enc) a h =
    one_group first (e ∷ enc) (write_groups fuel false (drop 8 (e ∷ enc))) a (
      remove_dashes-write_groups fuel false (drop 8 (e ∷ enc))
        (All-drop (λ c. in_alphabet c ≡ true) 8 (e ∷ enc) a)
        (omega (arith, h, length-drop 8 (e ∷ enc))))

Alphabet-CodeText : (s : Text) → Alphabet s → CodeText s
Alphabet-CodeText [] a = tt
Alphabet-CodeText (c ∷ s) (a, rest) = (ground (arith, a), Alphabet-CodeText s rest)

write_groups-CodeText :
    (fuel : ℕ) (first : Bool) (enc : Text) → Alphabet enc → CodeText (write_groups fuel first enc)
unfolding write_groups
write_groups-CodeText zero first enc a = tt
write_groups-CodeText (suc fuel) first [] a = tt
write_groups-CodeText (suc fuel) first (e ∷ enc) a = go first (
    All-append (λ c. is_code_char c ≡ true) (take 8 (e ∷ enc))
      (write_groups fuel false (drop 8 (e ∷ enc)))
      (All-take (λ c. is_code_char c ≡ true) 8 (e ∷ enc) (Alphabet-CodeText (e ∷ enc) a))
      (write_groups-CodeText fuel false (drop 8 (e ∷ enc))
        (All-drop (λ c. in_alphabet c ≡ true) 8 (e ∷ enc) a)))
  where
    rest : Text
    rest = write_groups fuel false (drop 8 (e ∷ enc))

    go :
        (b : Bool)
        → CodeText (take 8 (e ∷ enc) ++ rest)
        → CodeText (if b then take 8 (e ∷ enc) ++ rest else b'-' ∷ take 8 (e ∷ enc) ++ rest)
    go true h = h
    go false h = (refl, h)

upper-code_char : (c : ℕ) → is_code_char c ≡ true → upper c ≡ c
unfolding upper
upper-code_char c h = ground (arith, h)

to_upper-CodeText : (s : Text) → CodeText s → to_upper s ≡ s
unfolding to_upper
to_upper-CodeText [] h = refl
to_upper-CodeText (c ∷ s) (h, rest) = ap₂ ◌∷◌ (upper-code_char c h) (to_upper-CodeText s rest)

not_space : (c : ℕ) → is_code_char c ≡ true → is_space c ≡ false
unfolding is_space
not_space c h = ground (arith, h)

CodeText-reverse : (s : Text) → CodeText s → CodeText (reverse s)
CodeText-reverse [] h = tt
CodeText-reverse (c ∷ s) (h, rest) =
    rw (reverse-append (c ∷ []) s) (
      All-append (λ c. is_code_char c ≡ true) (reverse s) (c ∷ []) (CodeText-reverse s rest)
        (h, tt))

CodeText-no_space : (s : Text) → CodeText s → NoSpaceFirst s
CodeText-no_space [] h = tt
CodeText-no_space (c ∷ s) (h, rest) = not_space c h

trim_space-CodeText : (s : Text) → CodeText s → trim_space s ≡ s
trim_space-CodeText s h =
    trim_space_lem s (CodeText-no_space s h) (CodeText-no_space (reverse s) (CodeText-reverse s h))

-- A code with secrets of the right lengths and peers of at most 255 bytes is read back from its text,
-- where base32 reads back what it writes and writes in its alphabet, and the MAC has four bytes or
-- more.
pub decode_code-encode :
    (hmac : Bytes → Bytes → Bytes) (encode32 : Bytes → Text) (decode32 : Text → Option Bytes)
    (c : Code)
    → ((bytes : Bytes) → decode32 (encode32 bytes) ≡ some bytes)
    → ((bytes : Bytes) → Alphabet (encode32 bytes))
    → ((k m : Bytes) → 4 ≤ length (hmac k m))
    → IsCode c
    → decode_code hmac encode32 decode32 (encode hmac encode32 decode32 c) ≡ ok c
unfolding decode_code encode
decode_code-encode hmac encode32 decode32 c back letters long w =
    rw (clean, found, plain, back payload)
      (decode_payload-encode_body hmac encode32 decode32 c long w)
  where
    payload : Bytes
    payload = encode_body c ++ code_mac hmac encode32 decode32 c.psk (encode_body c)

    enc : Text
    enc = encode32 payload

    groups : Text
    groups = write_groups (length enc) true enc

    printed : CodeText (code_prefix ++ groups)
    printed =
        All-append (λ c. is_code_char c ≡ true) code_prefix groups
          (refl, (refl, (refl, (refl, (refl, (refl, (refl, (refl, tt))))))))
          (write_groups-CodeText (length enc) true enc (letters payload))

    clean : to_upper (trim_space (code_prefix ++ groups)) ≡ code_prefix ++ groups
    clean =
        ap to_upper (trim_space-CodeText (code_prefix ++ groups) printed)
        ∙ to_upper-CodeText (code_prefix ++ groups) printed

    found : has_prefix code_prefix (code_prefix ++ groups) ≡ true
    found = unfold has_prefix in refl

    plain : remove_dashes groups ≡ enc
    plain = remove_dashes-write_groups (length enc) true enc (letters payload) (omega arith)
