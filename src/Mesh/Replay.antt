-- ===== src/Mesh/Replay.antt =====
-- internal/mesh/hmac.go: the nonce cache and the window over a sequence of requests.
use purewrt.Prelude.{
  ℕ, suc, ◌+◌, ◌/◌, ◌^◌, ◌≤◌, ◌<◌, ◌≡◌, ◌≢◌, ◌⊎◌, ◌∙◌, refl, sym, subst, true, false, List, [], ◌∷◌,
  arith, Option, none, leb, length, All, Bool-cases, leb→le, inl, inr,
}
use purewrt.Text.{Text, text_eq_refl}
use purewrt.Mesh.{
  NonceCache, new_nonce_cache, remember, Request, time_skew, outside, verify_request, serve,
}
use purewrt.Mesh.Nonces.{Held, Sound, remember-Sound, remember-limits, remember-new, remember-Held}

-- A time stamp that lies 121 seconds back is outside the window.
outside-later :
    (later ts : ℕ)
    → ts < 2 ^ 64
    → later / 10 ^ 9 < 2 ^ 62
    → ts + 121 ≤ later / 10 ^ 9
    → outside later ts ≡ true
unfolding outside time_skew
outside-later later ts t l gap = ground arith

div-gap : (ends later ts : ℕ) → ts + 121 ≤ ends / 10 ^ 9 → ends ≤ later → ts + 121 ≤ later / 10 ^ 9
div-gap ends later ts h k = ground arith

module _ (hmac : Text → Text → Text) (encode : Text → Text) (decode : Text → Option Text)
    (format_int : ℕ → Text) (key : Text) where
  -- The cache behind a call: as it was, or with the nonce remembered.
  verify_request-cache :
      (now : ℕ) (r : Request) (c : NonceCache)
      → ((verify_request hmac encode decode format_int key now r c).1 ≡ c)
        ⊎ ((verify_request hmac encode decode format_int key now r c).1
            ≡ (remember r.nonce now c).1)
  unfolding verify_request
  verify_request-cache now r c = ground arith

  verify_request-accepts :
      (now : ℕ) (r : Request) (c : NonceCache)
      → (verify_request hmac encode decode format_int key now r c).0 ≡ none
      → (outside now r.ts ≡ false)
        × ((remember r.nonce now c).0 ≡ true)
        × ((verify_request hmac encode decode format_int key now r c).1
            ≡ (remember r.nonce now c).1)
  unfolding verify_request
  verify_request-accepts now r c h = ground arith

  serve-Sound :
      (requests : List (ℕ × Request)) (c : NonceCache)
      → Sound c
      → Sound (serve hmac encode decode format_int key requests c)
  unfolding serve
  serve-Sound [] c k = k
  serve-Sound ((now, r) ∷ requests) c k =
      serve-Sound requests (verify_request hmac encode decode format_int key now r c).1
        (elim (verify_request-cache now r c) [
          | inl e ↦ rw e k
          | inr e ↦ rw e (remember-Sound r.nonce now c k)
        ])

  verify_request-limits :
      (now : ℕ) (r : Request) (c : NonceCache)
      → ((verify_request hmac encode decode format_int key now r c).1.ttl ≡ c.ttl)
        × ((verify_request hmac encode decode format_int key now r c).1.limit ≡ c.limit)
  verify_request-limits now r c = elim (verify_request-cache now r c) [
    | inl e ↦ rw e (refl, refl)
    | inr e ↦ rw e (remember-limits r.nonce now c)
  ]

  serve-limits :
      (requests : List (ℕ × Request)) (c : NonceCache)
      → ((serve hmac encode decode format_int key requests c).ttl ≡ c.ttl)
        × ((serve hmac encode decode format_int key requests c).limit ≡ c.limit)
  unfolding serve
  serve-limits [] c = (refl, refl)
  serve-limits ((now, r) ∷ requests) c =
      let next =
        serve-limits requests (verify_request hmac encode decode format_int key now r c).1 in
      let once = verify_request-limits now r c in (next.0 ∙ once.0, next.1 ∙ once.1)

  Held-later :
      (nonce : Text) (at a b : ℕ) (c : NonceCache) → a ≤ b → Held c nonce at a → Held c nonce at b
  Held-later nonce at a b c h k = record {
    front = k.front;
    back = k.back;
    split_order = k.split_order;
    seen_nonce = k.seen_nonce;
    apart = k.apart;
    few = omega (arith, h, k.few);
  }

  verify_request-Held :
      (nonce : Text) (at newer now : ℕ) (r : Request) (c : NonceCache)
      → Held c nonce at newer
      → now ≤ at + c.ttl
      → suc newer < c.limit
      → Held (verify_request hmac encode decode format_int key now r c).1 nonce at (suc newer)
  verify_request-Held nonce at newer now r c h fresh room = elim (verify_request-cache now r c) [
    | inl e ↦ rw e (Held-later nonce at newer (suc newer) c (omega arith) h)
    | inr e ↦ rw e (remember-Held nonce r.nonce now at newer c h fresh room).0
  ]

  serve-Held :
      (nonce : Text) (at newer : ℕ) (requests : List (ℕ × Request)) (c : NonceCache)
      → Held c nonce at newer
      → All (λ q. q.0 ≤ at + c.ttl) requests
      → newer + length requests < c.limit
      → Held (serve hmac encode decode format_int key requests c) nonce at (newer + length requests)
  unfolding serve
  serve-Held nonce at newer [] c h a room = Held-later nonce at newer (newer + 0) c (omega arith) h
  serve-Held nonce at newer ((now, r) ∷ requests) c h (a, rest) room =
      Held-later nonce at (suc newer + length requests) (newer + suc (length requests))
        (serve hmac encode decode format_int key requests next) (omega arith)
        (serve-Held nonce at (suc newer) requests next
          (verify_request-Held nonce at newer now r c h a (omega (arith, room)))
          (subst (λ ttl. All (λ q. q.0 ≤ at + ttl) requests) (sym (verify_request-limits now r c).0)
            rest)
          (omega (arith, room, (verify_request-limits now r c).1)))
    where
      next : NonceCache
      next = (verify_request hmac encode decode format_int key now r c).1

-- A request that was accepted is not accepted again at any later time, whatever requests were served
-- before it and whatever other requests in between, where its time stamp lies at least 121 seconds
-- before the second in which the cache lets go of its nonce. With the program's lifetime of 120
-- seconds that is every request accepted in a later second than its stamp names; one whose stamp
-- names the same second or a later one is left out. The requests in between are at least two fewer
-- than the cache holds, and the clock does not pass the later time in between. The later time lies
-- before second 2^62, and the time stamp is a 64-bit word.
pub verify_request-replay :
    (hmac : Text → Text → Text) (encode : Text → Text) (decode : Text → Option Text)
    (format_int : ℕ → Text) (key : Text) (limit ttl : ℕ) (before between : List (ℕ × Request))
    (now later : ℕ) (r : Request)
    → (verify_request hmac encode decode format_int key now r
        (serve hmac encode decode format_int key before (new_nonce_cache limit ttl))).0
      ≡ none
    → All (λ q. q.0 ≤ later) between
    → length between + 2 ≤ limit
    → r.ts + 121 ≤ (now + ttl) / 10 ^ 9
    → r.ts < 2 ^ 64
    → later / 10 ^ 9 < 2 ^ 62
    → (verify_request hmac encode decode format_int key later r (
        serve hmac encode decode format_int key between
          (verify_request hmac encode decode format_int key now r
            (serve hmac encode decode format_int key before (new_nonce_cache limit ttl))).1)).0
      ≢ none
unfolding new_nonce_cache
verify_request-replay hmac encode decode format_int key limit ttl before between now later r
      accepted earlier room old stamp l again =
    elim (Bool-cases (leb later (now + ttl))) [
      | inl t ↦ absurd (
          ground (
            arith,
            took_again.1,
            (remember-Held r.nonce r.nonce later now (length between) last (held t)
                  (omega (arith, ends.0, leb→le later (now + ttl) t))
                  (omega (arith, ends.1, room))).1
                (text_eq_refl r.nonce),
          ))
      | inr t ↦ absurd (
          ground (
            arith,
            took_again.0,
            outside-later later r.ts stamp l
                (div-gap (now + ttl) later r.ts old (ground (arith, t))),
          ))
    ]
  where
    start : NonceCache
    start = serve hmac encode decode format_int key before (new_nonce_cache limit ttl)

    first : NonceCache
    first = (verify_request hmac encode decode format_int key now r start).1

    last : NonceCache
    last = serve hmac encode decode format_int key between first

    took :
        (outside now r.ts ≡ false)
        × ((remember r.nonce now start).0 ≡ true)
        × (first ≡ (remember r.nonce now start).1)
    took = verify_request-accepts hmac encode decode format_int key now r start accepted

    took_again :
        (outside later r.ts ≡ false)
        × ((remember r.nonce later last).0 ≡ true)
        × ((verify_request hmac encode decode format_int key later r last).1
            ≡ (remember r.nonce later last).1)
    took_again = verify_request-accepts hmac encode decode format_int key later r last again

    limits : (first.ttl ≡ ttl) × (first.limit ≡ limit)
    limits =
        let once = verify_request-limits hmac encode decode format_int key now r start in
        let all =
          serve-limits hmac encode decode format_int key before (new_nonce_cache limit ttl) in
        (once.0 ∙ all.0, once.1 ∙ all.1)

    ends : (last.ttl ≡ ttl) × (last.limit ≡ limit)
    ends =
        let all = serve-limits hmac encode decode format_int key between first in
        (all.0 ∙ limits.0, all.1 ∙ limits.1)

    fresh : Held first r.nonce now 0
    fresh =
        subst (λ c. Held c r.nonce now 0) (sym took.2)
          (remember-new r.nonce now start
            (serve-Sound hmac encode decode format_int key before (new_nonce_cache limit ttl) tt)
            took.1)

    times :
        (requests : List (ℕ × Request))
        → later ≤ now + ttl
        → All (λ q. q.0 ≤ later) requests
        → All (λ q. q.0 ≤ now + first.ttl) requests
    times [] h a = tt
    times (q ∷ requests) h (a, rest) = (omega (arith, h, a, limits.0), times requests h rest)

    held : leb later (now + ttl) ≡ true → Held last r.nonce now (length between)
    held t =
        Held-later hmac encode decode format_int key r.nonce now (0 + length between)
          (length between) last (omega arith)
          (serve-Held hmac encode decode format_int key r.nonce now 0 between first fresh
            (times between (leb→le later (now + ttl) t) earlier) (omega (arith, room, limits.1)))
