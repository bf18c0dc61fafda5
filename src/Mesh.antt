-- ===== src/Mesh.antt =====
-- internal/mesh/hmac.go: who may call the mesh API, and the nonces that were seen.
pub mod Nonces
pub mod Replay
pub mod SyncCode
use purewrt.Prelude.{
  ℕ, suc, ◌+◌, ◌-◌, ◌*◌, ◌/◌, ◌%◌, ◌^◌, Bool, true, false, not, ◌&&◌, ◌||◌, List, [], ◌∷◌, ◌++◌,
  Option, none, some, ltb, leb, ◌==◌, if◌then◌else◌, length,
}
use purewrt.Prelude.Int.{ℤ, pos, negsuc}
use purewrt.Text.{Text, text_eq}

-- Times in nanoseconds since the epoch.
pub record NonceCache : Type 0 where
  pub ttl : ℕ
  pub limit : ℕ
  pub seen : List (Text × ℕ)
  pub order : List Text

unfoldable pub new_nonce_cache : ℕ → ℕ → NonceCache
new_nonce_cache limit ttl = record { ttl = ttl; limit = limit; seen = []; order = [] }

unfoldable pub seen_at : List (Text × ℕ) → Text → Option ℕ
seen_at [] nonce = none
seen_at ((name, at) ∷ seen) nonce =
    let rest = seen_at seen nonce in if text_eq name nonce then some at else rest

-- `delete(c.seen, oldest)`.
unfoldable pub forget : Text → List (Text × ℕ) → List (Text × ℕ)
forget nonce [] = []
forget nonce ((name, at) ∷ seen) =
    let rest = forget nonce seen in if text_eq name nonce then rest else (name, at) ∷ rest

-- `ok && now.Sub(at) <= c.ttl`.
abbrev pub is_fresh : ℕ → ℕ → Option ℕ → Bool
is_fresh ttl now none = false
is_fresh ttl now (some at) = not (ltb (at + ttl) now)

-- The loop: stop at a fresh entry with room behind it, and drop the oldest entry otherwise.
unfoldable pub expire : ℕ → ℕ → ℕ → List (Text × ℕ) → List Text → List (Text × ℕ) × List Text
unfolding forget seen_at
expire ttl limit now seen [] = (seen, [])
expire ttl limit now seen (oldest ∷ order) =
    let rest = expire ttl limit now (forget oldest seen) order in
    if is_fresh ttl now (seen_at seen oldest) && ltb (suc (length order)) limit
    then (seen, oldest ∷ order)
    else rest

-- The result, and the cache behind the call.
unfoldable pub remember : Text → ℕ → NonceCache → Bool × NonceCache
unfolding expire seen_at
remember nonce now c =
    let (seen, order) = expire c.ttl c.limit now c.seen c.order in
    elim (seen_at seen nonce) [
      | some _ ↦ (false, record c { seen = seen; order = order })
      | none ↦ (true, record c { seen = (nonce, now) ∷ seen; order = order ++ nonce ∷ [] })
    ]

pub data AuthError : Type 0 where
  missing_nonce outside_window mac_mismatch nonce_replay : AuthError

-- A 64-bit word for the `int64` time stamp.
pub record Request : Type 0 where
  pub ts : ℕ
  pub nonce : Text
  pub method : Text
  pub path : Text
  pub mac : Text

-- `now.Unix() - ts`, and its absolute value, as 64-bit words.
unfoldable pub time_skew : ℕ → ℕ → ℕ
time_skew now ts =
    let skew = (now / 10 ^ 9 + 2 ^ 64 - ts) % 2 ^ 64 in
    if leb (2 ^ 63) skew then (2 ^ 64 - skew) % 2 ^ 64 else skew

-- `skew > 120` on signed words.
unfoldable pub outside : ℕ → ℕ → Bool
unfolding time_skew
outside now ts = ltb 120 (time_skew now ts) && ltb (time_skew now ts) (2 ^ 63)

-- What the MAC is computed over: every field on a line of its own.
unfoldable pub request_payload : (ℕ → Text) → Request → Text
request_payload format_int r =
    format_int r.ts ++ b'\n' ∷ r.nonce ++ b'\n' ∷ r.method ++ b'\n' ∷ r.path ++ b'\n' ∷ []

-- `hmac` is HMAC-SHA-256, `encode` and `decode` are hexadecimal, `format_int` is
-- `strconv.FormatInt` of the word as `int64`.
module _ (hmac : Text → Text → Text) (encode : Text → Text) (decode : Text → Option Text)
    (format_int : ℕ → Text) where
  unfoldable pub sign_request : Text → Request → Text
  unfolding request_payload
  sign_request key r = encode (hmac key (request_payload format_int r))

  unfoldable pub hmac_equal_hex : Text → Text → Bool
  hmac_equal_hex a b = elim (decode a) [
    | none ↦ false
    | some ab ↦ elim (decode b) [ none ↦ false | some bb ↦ text_eq ab bb ]
  ]

  -- The error, none where the request is accepted, with the cache behind the call.
  unfoldable pub verify_request : Text → ℕ → Request → NonceCache → Option AuthError × NonceCache
  unfolding outside hmac_equal_hex sign_request remember
  verify_request key now r c =
      let (fresh, next) = remember r.nonce now c in
      if text_eq r.nonce []
      then (some missing_nonce, c)
      else if outside now r.ts
      then (some outside_window, c)
      else if not (hmac_equal_hex r.mac (sign_request key r))
      then (some mac_mismatch, c)
      else if not fresh
      then (some nonce_replay, next)
      else (none, next)

  -- A server that answers one request after another.
  unfoldable pub serve : Text → List (ℕ × Request) → NonceCache → NonceCache
  unfolding verify_request
  serve key [] c = c
  serve key ((now, r) ∷ requests) c = serve key requests (verify_request key now r c).1
