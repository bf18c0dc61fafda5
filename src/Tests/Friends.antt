-- ===== src/Tests/Friends.antt =====
-- internal/mesh at concrete requests and codes.
use purewrt.Prelude.{
  ℕ, suc, zero, ◌+◌, ◌*◌, ◌^◌, ◌≡◌, ◌≢◌, ◌∙◌, refl, ap, false, [], ◌∷◌, ◌++◌, Option, none, some,
  arith, ok, replicate, if◌then◌else◌, ◌==◌,
}
use purewrt.Text.{Text, codes, text_eq}
use purewrt.Text.Decimal.{itoa}
use purewrt.Mesh.{NonceCache, new_nonce_cache, Request, outside, verify_request, serve}
use purewrt.Mesh.Replay.{verify_request-replay}
use purewrt.Mesh.SyncCode.{Bytes, Code, encode, decode_code}
use purewrt.Mesh.SyncCode.Payload.{IsCode}
use purewrt.Mesh.SyncCode.RoundTrip.{Alphabet, decode_code-encode}

-- Stands for the MAC: the key before the message.
abbrev joined : Text → Text → Text
joined key message = key ++ message

abbrev same : Text → Text
same t = t

abbrev hello : ℕ → Text → Request
hello ts mac = record {
  ts = ts;
  nonce = codes "n1";
  method = codes "GET";
  path = codes "/info";
  mac = mac;
}

abbrev signed : ℕ → Request
signed ts = hello ts (
    codes "k"
    ++ itoa ts
    ++ b'\n' ∷ codes "n1"
    ++ b'\n' ∷ codes "GET"
    ++ b'\n' ∷ codes "/info"
    ++ b'\n' ∷ [])

abbrev key : Text
key = codes "k"

-- The cache that the handler makes.
abbrev handler_cache : NonceCache
handler_cache = new_nonce_cache 4096 (120 * 10 ^ 9)

abbrev at_first : ℕ
at_first = 1000 * 10 ^ 9

abbrev behind_first : ℕ → NonceCache
behind_first ts =
    (verify_request joined same some itoa key at_first (signed ts)
      (serve joined same some itoa key [] handler_cache)).1

signed_accepted :
    (verify_request joined same some itoa key at_first
      (signed 999)
      (serve joined same some itoa key [] handler_cache)).0
    ≡ none
unfolding verify_request serve new_nonce_cache text_eq itoa
signed_accepted = refl

verify_request-replay_example :
    (verify_request joined same some itoa key
      (at_first + 5)
      (signed 999)
      (serve joined same some itoa key ((at_first + 3, hello 1000 []) ∷ []) (behind_first 999))).0
    ≢ none
verify_request-replay_example =
    verify_request-replay joined same some itoa key 4096 (120 * 10 ^ 9) []
      ((at_first + 3, hello 1000 []) ∷ []) at_first (at_first + 5) (signed 999) signed_accepted
      (omega arith, tt) (omega arith) (omega arith) (omega arith) (omega arith)

-- A stamp 119 seconds ahead of the clock: accepted, and accepted again when the nonce has just gone.
ahead_accepted :
    (verify_request joined same some itoa key at_first
      (signed 1119)
      (serve joined same some itoa key [] handler_cache)).0
    ≡ none
unfolding verify_request serve new_nonce_cache text_eq itoa
ahead_accepted = refl

ahead_replayed :
    (verify_request joined same some itoa key (1121 * 10 ^ 9) (signed 1119) (behind_first 1119)).0
    ≡ none
unfolding verify_request serve new_nonce_cache text_eq itoa
ahead_replayed = refl

-- A time stamp half the range of int64 away: the negation of the skew overflows, and the window lets
-- the stamp through.
skew_wraps : outside at_first (1000 + 2 ^ 63) ≡ false
unfolding outside
skew_wraps = refl

-- Stands for base32: a byte is as many letters `A` and a `B`.
unfoldable unary : Bytes → Text
unary [] = []
unary (b ∷ bytes) = replicate b b'A' ++ b'B' ∷ unary bytes

unfoldable read_unary : ℕ → Text → Option Bytes
read_unary n [] = if n == 0 then some [] else none
read_unary n (c ∷ s) =
    let more = read_unary (n + 1) s in
    let next = read_unary 0 s in
    if c == b'A' then more else elim next [ none ↦ none | some bytes ↦ some (n ∷ bytes) ]

read_unary-replicate :
    (b n : ℕ) (s : Text) → read_unary n (replicate b b'A' ++ s) ≡ read_unary (n + b) s
unfolding read_unary
read_unary-replicate zero n s = ap (λ k. read_unary k s) (omega arith)
read_unary-replicate (suc b) n s =
    read_unary-replicate b (n + 1) s ∙ ap (λ k. read_unary k s) (omega arith)

read_unary-unary : (bytes : Bytes) → read_unary 0 (unary bytes) ≡ some bytes
unfolding read_unary unary
read_unary-unary [] = refl
read_unary-unary (b ∷ bytes) =
    read_unary-replicate b 0 (b'B' ∷ unary bytes) ∙ ground (arith, read_unary-unary bytes)

unary-Alphabet : (bytes : Bytes) → Alphabet (unary bytes)
unfolding unary
unary-Alphabet [] = tt
unary-Alphabet (b ∷ bytes) = letters b (refl, unary-Alphabet bytes)
  where
    letters :
        (n : ℕ) → Alphabet (b'B' ∷ unary bytes) → Alphabet (replicate n b'A' ++ b'B' ∷ unary bytes)
    letters zero h = h
    letters (suc n) h = (refl, letters n h)

abbrev seal : Bytes → Bytes → Bytes
seal k m = 1 ∷ 2 ∷ 3 ∷ 4 ∷ 5 ∷ []

abbrev friends : Code
friends = record {
  name_entropy = replicate 8 7;
  network_secret = replicate 24 8;
  psk = replicate 32 9;
  extra_peers = codes "tcp://a" ∷ [];
}

friends-IsCode : IsCode friends
friends-IsCode = (refl, refl, refl, (omega arith, tt))

decode_code-encode_example :
    decode_code seal unary (read_unary 0) (encode seal unary (read_unary 0) friends) ≡ ok friends
decode_code-encode_example =
    decode_code-encode seal unary (read_unary 0) friends read_unary-unary unary-Alphabet
      (λ k m. omega arith) friends-IsCode
