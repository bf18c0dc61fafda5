-- ===== src/Geo/Steps.antt =====
-- A round of a message loop of internal/geodb/v2dat.go, and what its reads leave.
use purewrt.Prelude.{
  ℕ, ◌+◌, ◌-◌, ◌*◌, ◌%◌, ◌^◌, ◌≤◌, ◌<◌, ◌≡◌, ◌≢◌, refl, ap, subst, arith, Bool, true, false, ◌&&◌,
  [], ◌∷◌, ltb, leb, ◌==◌, if◌then◌else◌, length, length-drop, Result, ok, err, ◌>>=◌, >>=-ok,
  ok-injective, Bool-cases, inl, inr,
}
use purewrt.Mrs.Reader.{Bytes}
use purewrt.Geo.{
  GeoError, stuck, read_varint_from, read_varint, Step, go, stop, pass, read_bytes_field,
  skip_fixed, skip_field,
}

-- The result is one that the code can have.
unfoldable pub Ends {ℓ} : {A : Type ℓ} → Result GeoError A → Type ℓ
Ends {A = A} r = ◌≢◌ {A = Result GeoError A} r (err stuck)

pub ok-Ends {ℓ} : {A : Type ℓ} (a : A) → Ends (ok a)
unfolding Ends
ok-Ends a h = cc

pub bind-Ends {ℓ κ} :
    {A : Type ℓ} {B : Type κ} (r : Result GeoError A) (next : A → Result GeoError B)
    → Ends r
    → ((a : A) → r ≡ ok a → Ends (next a))
    → Ends (r >>= next)
unfolding Ends
bind-Ends (ok a) next g h k = h a refl k
bind-Ends (err e) next g h k = g (ap err (error_of e k))
  where
    error_of :
        {B : Type κ} (e : GeoError) → ◌≡◌ {A = Result GeoError B} (err e) (err stuck) → e ≡ stuck
    error_of e k = ap (λ r. elim r [ ok a ↦ stuck | err e' ↦ e' ]) k

pub if-Ends {ℓ} :
    {A : Type ℓ} (test : Bool) (x y : Result GeoError A)
    → Ends x
    → Ends y
    → Ends (if test then x else y)
if-Ends true x y g h = g
if-Ends false x y g h = h

pub read_varint_from-Ends : (r : Bytes) (v shift : ℕ) → Ends (read_varint_from v shift r)
unfolding read_varint_from Ends
read_varint_from-Ends [] v shift = λ h. cc
read_varint_from-Ends (b ∷ r) v shift =
    if-Ends (ltb b 128) (ok (v + b % 128 * 2 ^ shift % 2 ^ 64, r)) _ (ok-Ends _)
      (if-Ends (ltb 63 (shift + 7)) (err _) _ (λ h. cc) (read_varint_from-Ends r _ (shift + 7)))

-- A read leaves fewer bytes than there were.
pub read_varint_from-shorter :
    (r : Bytes) (v shift n : ℕ) (rest : Bytes)
    → read_varint_from v shift r ≡ ok (n, rest)
    → length rest < length r
unfolding read_varint_from
read_varint_from-shorter [] v shift n rest h = cc
read_varint_from-shorter (b ∷ r) v shift n rest h = elim (Bool-cases (ltb b 128)) [
  | inl e ↦ omega (arith, ap (λ (p : ℕ × Bytes). length p.1) (ok-injective (rw e at h)))
  | inr e ↦ elim (Bool-cases (ltb 63 (shift + 7))) [
    | inl f ↦ cc (rw (e, f) at h)
    | inr f ↦ omega (arith, read_varint_from-shorter r _ (shift + 7) n rest (rw (e, f) at h))
  ]
]

-- What a step leaves to read, and that the code can take it.
unfoldable pub Within : {S : Type 0} → Bytes → Step S → Type 0
Within next (go s rest) = length rest ≤ length next
Within next (stop s) = Unit
Within next pass = Unit

pub record Steps {S : Type 0} (next : Bytes) (r : Result GeoError (Step S)) : Type 0 where
  pub ends : Ends r
  pub within : (step : Step S) → r ≡ ok step → Within next step

pub pass-Steps : {S : Type 0} (next : Bytes) → Steps {S = S} next (ok pass)
unfolding Within
pass-Steps next = record {
  ends = ok-Ends pass;
  within = λ step h. subst (Within next) (ok-injective h) tt;
}

pub if-Steps :
    {S : Type 0} (test : Bool) (next : Bytes) (x y : Result GeoError (Step S))
    → Steps next x
    → Steps next y
    → Steps next (if test then x else y)
if-Steps true next x y g h = g
if-Steps false next x y g h = h

module _ (width : ℕ) where
  pub read_bytes_field-Ends : (r : Bytes) → Ends (read_bytes_field width r)
  unfolding read_bytes_field read_varint Ends
  read_bytes_field-Ends r =
      bind-Ends (read_varint r) _ (read_varint_from-Ends r 0 0) (λ (n, next) h.
        if-Ends (ltb (n % 2 ^ width) (2 ^ (width - 1)) && leb (n % 2 ^ width) (length next)) (ok _)
          (err _) (ok-Ends _) (λ k. cc))

  pub read_bytes_field-shorter :
      (r inner rest : Bytes) → read_bytes_field width r ≡ ok (inner, rest) → length rest ≤ length r
  unfolding read_bytes_field read_varint
  read_bytes_field-shorter r inner rest h =
      let ((n, next), e, k) = >>=-ok (read_varint r) _ h in
      elim (Bool-cases
        (ltb (n % 2 ^ width) (2 ^ (width - 1)) && leb (n % 2 ^ width) (length next))) [
          | inl f ↦ omega (
            arith,
            read_varint_from-shorter r 0 0 n next e,
            length-drop (n % 2 ^ width) next,
            ap (λ (p : Bytes × Bytes). length p.1) (ok-injective (rw f at k)),
          )
          | inr f ↦ cc (rw f at k)
        ]

  skip_fixed-Ends : (n : ℕ) (r : Bytes) → Ends (skip_fixed n r)
  unfolding Ends
  skip_fixed-Ends n r = if-Ends (leb n (length r)) (ok _) (err _) (ok-Ends _) (λ k. cc)

  pub skip_field-Ends : (wire : ℕ) (r : Bytes) → Ends (skip_field width wire r)
  unfolding skip_field read_varint Ends
  skip_field-Ends wire r =
      if-Ends (wire == 0) _ _
        (bind-Ends (read_varint r) _ (read_varint_from-Ends r 0 0) (λ p h. ok-Ends p.1))
        (if-Ends (wire == 1) _ _ (skip_fixed-Ends 8 r) (
          if-Ends (wire == 2) _ _
            (bind-Ends (read_bytes_field width r) _ (read_bytes_field-Ends r) (λ p h. ok-Ends p.1))
            (if-Ends (wire == 5) _ (err _) (skip_fixed-Ends 4 r) (λ h. cc))))

  skip_fixed-shorter : (n : ℕ) (r rest : Bytes) → skip_fixed n r ≡ ok rest → length rest ≤ length r
  skip_fixed-shorter n r rest h = elim (Bool-cases (leb n (length r))) [
    | inl e ↦ omega (arith, length-drop n r, ap length (ok-injective (rw e at h)))
    | inr e ↦ cc (rw e at h)
  ]

  pub skip_field-shorter :
      (wire : ℕ) (r rest : Bytes) → skip_field width wire r ≡ ok rest → length rest ≤ length r
  unfolding skip_field read_varint
  skip_field-shorter wire r rest h = elim (Bool-cases (wire == 0)) [
    | inl e ↦
        let ((v, next), f, k) = >>=-ok (read_varint r) _ (rw e at h) in
        omega (arith, read_varint_from-shorter r 0 0 v next f, ap length (ok-injective k))
    | inr e0 ↦ elim (Bool-cases (wire == 1)) [
      | inl e ↦ skip_fixed-shorter 8 r rest (rw (e0, e) at h)
      | inr e1 ↦ elim (Bool-cases (wire == 2)) [
        | inl e ↦
            let ((inner, next), f, k) = >>=-ok (read_bytes_field width r) _ (rw (e0, e1, e) at h) in
            omega (arith, read_bytes_field-shorter r inner next f, ap length (ok-injective k))
        | inr e2 ↦ elim (Bool-cases (wire == 5)) [
          | inl e ↦ skip_fixed-shorter 4 r rest (rw (e0, e1, e2, e) at h)
          | inr e5 ↦ cc (rw (e0, e1, e2, e5) at h)
        ]
      ]
    ]
  ]
