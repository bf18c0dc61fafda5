-- ===== src/Mesh/SyncCode/Payload.antt =====
-- The bytes of a code in internal/mesh/synccode.go, written and read.
use purewrt.Prelude.{
  ℕ, suc, zero, ◌+◌, ◌-◌, ◌%◌, ◌≤◌, ◌≡◌, ◌∙◌, refl, sym, ap, ap₂, true, false, List, [], ◌∷◌, ◌++◌,
  arith, Option, ok, ltb, length, take, drop, get_or, All, length-append, length-take, append_assoc,
  append-nil,
}
use purewrt.Text.{Text, text_eq, text_eq_refl}
use purewrt.Mesh.SyncCode.{
  Bytes, Code, encode_peers, encode_body, decode_peers, decode_payload, code_mac, flags,
}

pub take-append {ℓ} : {A : Type ℓ} (n : ℕ) (xs ys : List A) → length xs ≡ n → take n (xs ++ ys) ≡ xs
take-append zero [] ys h = refl
take-append zero (x ∷ xs) ys h = absurd (omega (arith, h))
take-append (suc n) [] ys h = absurd (omega (arith, h))
take-append (suc n) (x ∷ xs) ys h = ap (λ t. x ∷ t) (take-append n xs ys (omega (arith, h)))

pub drop-append {ℓ} : {A : Type ℓ} (n : ℕ) (xs ys : List A) → length xs ≡ n → drop n (xs ++ ys) ≡ ys
drop-append zero [] ys h = refl
drop-append zero (x ∷ xs) ys h = absurd (omega (arith, h))
drop-append (suc n) [] ys h = absurd (omega (arith, h))
drop-append (suc n) (x ∷ xs) ys h = drop-append n xs ys (omega (arith, h))

-- A peer whose length fits in its byte.
abbrev pub Short : List Bytes → Type 0
Short = All (λ p. length p ≤ 255)

decode-encode_peers :
    (fuel : ℕ) (ps peers : List Bytes)
    → Short ps
    → length (encode_peers ps) ≤ fuel
    → decode_peers fuel (encode_peers ps) peers ≡ ok (peers ++ ps)
unfolding encode_peers decode_peers
decode-encode_peers fuel [] peers s h = ap ok (sym (append-nil peers))
decode-encode_peers zero (p ∷ ps) peers s h = absurd (omega (arith, h))
decode-encode_peers (suc fuel) (p ∷ ps) peers (s, rest) h =
    rw
      (
        small,
        inside,
        drop-append (length p) p (encode_peers ps) refl,
        take-append (length p) p (encode_peers ps) refl,
      )
      (decode-encode_peers fuel ps (peers ++ p ∷ []) rest
          (omega (arith, h, length-append p (encode_peers ps)))
        ∙ ap ok (append_assoc peers (p ∷ []) ps))
  where
    small : length p % 256 ≡ length p
    small = omega (arith, s)

    inside : ltb (length (p ++ encode_peers ps)) (length p) ≡ false
    inside = ground (arith, length-append p (encode_peers ps))

abbrev pub IsCode : Code → Type 0
IsCode c =
    (length c.name_entropy ≡ 8)
    × (length c.network_secret ≡ 24)
    × (length c.psk ≡ 32)
    × Short c.extra_peers

length-encode_body :
    (c : Code) → IsCode c → length (encode_body c) ≡ 66 + length (encode_peers c.extra_peers)
unfolding encode_body
length-encode_body c (a, b, d, s) = omega (
  arith,
  a,
  b,
  d,
  length-append c.name_entropy (c.network_secret ++ (c.psk ++ encode_peers c.extra_peers)),
  length-append c.network_secret (c.psk ++ encode_peers c.extra_peers),
  length-append c.psk (encode_peers c.extra_peers),
)

zero_add : (m : ℕ) → 0 + m ≡ m
zero_add m = omega arith

suc-add : (n m : ℕ) → suc n + m ≡ suc (n + m)
suc-add n m = omega arith

drop-past {ℓ} :
    {A : Type ℓ} (n m : ℕ) (xs ys : List A) → length xs ≡ n → drop (n + m) (xs ++ ys) ≡ drop m ys
drop-past zero m [] ys h = ap (λ k. drop k ys) (zero_add m)
drop-past zero m (x ∷ xs) ys h = absurd (omega (arith, h))
drop-past (suc n) m [] ys h = absurd (omega (arith, h))
drop-past (suc n) m (x ∷ xs) ys h =
    ap (λ k. drop k (x ∷ (xs ++ ys))) (suc-add n m) ∙ drop-past n m xs ys (omega (arith, h))

-- Where the fields lie in the bytes that stand before something else.
module _ (c : Code) (w : IsCode c) (mac : Bytes) where
  tail_of : Bytes
  tail_of = encode_peers c.extra_peers ++ mac

  laid_out :
      encode_body c ++ mac
      ≡ 1 ∷ flags c ∷ (c.name_entropy ++ (c.network_secret ++ (c.psk ++ tail_of)))
  unfolding encode_body tail_of
  laid_out =
      rw
        (
          append_assoc c.name_entropy (c.network_secret ++ (c.psk ++ encode_peers c.extra_peers))
              mac,
          append_assoc c.network_secret (c.psk ++ encode_peers c.extra_peers) mac,
          append_assoc c.psk (encode_peers c.extra_peers) mac,
        )
        refl

  at_name : take 8 (drop 2 (encode_body c ++ mac)) ≡ c.name_entropy
  at_name = rw laid_out (take-append 8 c.name_entropy (c.network_secret ++ (c.psk ++ tail_of)) w.0)

  at_secret : take 24 (drop 10 (encode_body c ++ mac)) ≡ c.network_secret
  at_secret =
      rw (laid_out, drop-append 8 c.name_entropy (c.network_secret ++ (c.psk ++ tail_of)) w.0)
        (take-append 24 c.network_secret (c.psk ++ tail_of) w.1)

  at_psk : take 32 (drop 34 (encode_body c ++ mac)) ≡ c.psk
  at_psk =
      rw
        (
          laid_out,
          drop-past 8 24 c.name_entropy (c.network_secret ++ (c.psk ++ tail_of)) w.0,
          drop-append 24 c.network_secret (c.psk ++ tail_of) w.1,
        )
        (take-append 32 c.psk tail_of w.2)

  at_peers : drop 66 (encode_body c ++ mac) ≡ encode_peers c.extra_peers ++ mac
  unfolding tail_of
  at_peers =
      rw
        (
          laid_out,
          drop-past 8 56 c.name_entropy (c.network_secret ++ (c.psk ++ tail_of)) w.0,
          drop-past 24 32 c.network_secret (c.psk ++ tail_of) w.1,
          drop-append 32 c.psk tail_of w.2,
        )
        refl

  at_version : get_or (encode_body c ++ mac) 0 0 ≡ 1
  at_version = rw laid_out refl

peers_of : (c : Code) → IsCode c → drop 66 (encode_body c) ≡ encode_peers c.extra_peers
peers_of c w =
    ap (drop 66) (sym (append-nil (encode_body c)))
    ∙ at_peers c w []
    ∙ append-nil (encode_peers c.extra_peers)

-- The bytes of a code are read back, for a MAC of four bytes or more.
pub decode_payload-encode_body :
    (hmac : Bytes → Bytes → Bytes) (encode32 : Bytes → Text) (decode32 : Text → Option Bytes)
    (c : Code)
    → ((k m : Bytes) → 4 ≤ length (hmac k m))
    → IsCode c
    → decode_payload hmac encode32 decode32
        (encode_body c ++ code_mac hmac encode32 decode32 c.psk (encode_body c))
      ≡ ok c
unfolding decode_payload
decode_payload-encode_body hmac encode32 decode32 c long w =
    rw
      (
        enough,
        at_version c w mac,
        at_psk c w mac,
        checked,
        decoded,
        at_name c w mac,
        at_secret c w mac,
      )
      (ap (λ k. ok (record c { psk = k })) (at_psk c w mac))
  where
    body : Bytes
    body = encode_body c

    mac : Bytes
    mac = code_mac hmac encode32 decode32 c.psk (encode_body c)

    four : length mac ≡ 4
    four = unfold code_mac in omega (arith, length-take 4 (hmac c.psk body), long c.psk body)

    size : length (body ++ mac) - 4 ≡ length body
    size = omega (arith, length-append body mac, four)

    enough : ltb (length (body ++ mac)) 70 ≡ false
    enough = ground (arith, length-append body mac, four, length-encode_body c w)

    body_eq : take (length (body ++ mac) - 4) (body ++ mac) ≡ body
    body_eq = ap (λ n. take n (body ++ mac)) size ∙ take-append (length body) body mac refl

    mac_eq : drop (length (body ++ mac) - 4) (body ++ mac) ≡ mac
    mac_eq = ap (λ n. drop n (body ++ mac)) size ∙ drop-append (length body) body mac refl

    checked :
        text_eq
          (code_mac hmac encode32 decode32 c.psk (take (length (body ++ mac) - 4) (body ++ mac)))
          (drop (length (body ++ mac) - 4) (body ++ mac))
        ≡ true
    checked =
        ap₂ text_eq (ap (code_mac hmac encode32 decode32 c.psk) body_eq) mac_eq ∙ text_eq_refl mac

    peers_eq : drop 66 (take (length (body ++ mac) - 4) (body ++ mac)) ≡ encode_peers c.extra_peers
    peers_eq = ap (drop 66) body_eq ∙ peers_of c w

    decoded :
        decode_peers
          (length (drop 66 (take (length (body ++ mac) - 4) (body ++ mac))))
          (drop 66 (take (length (body ++ mac) - 4) (body ++ mac)))
          []
        ≡ ok c.extra_peers
    decoded =
        ap (λ bytes. decode_peers (length bytes) bytes []) peers_eq
        ∙ decode-encode_peers (length (encode_peers c.extra_peers)) c.extra_peers [] w.3
            (omega arith)
