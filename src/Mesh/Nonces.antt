-- ===== src/Mesh/Nonces.antt =====
-- `NonceCache` of internal/mesh/hmac.go, and how long a nonce stays in it.
use purewrt.Prelude.{
  ℕ, suc, ◌+◌, ◌≤◌, ◌<◌, ◌≡◌, ◌≢◌, ◌∙◌, refl, sym, ap, subst, Bool, true, false, ◌&&◌, List, [],
  ◌∷◌, ◌++◌, arith, none, some, ltb, length, length-append, append_assoc, All, All-append,
  Bool-cases, Option-cases, inl, inr,
}
use purewrt.Text.{Text, text_eq, text_eq_refl, text_eq_sound}
use purewrt.Mesh.{NonceCache, seen_at, forget, is_fresh, expire, remember}

seen_at-forget :
    (nonce other : Text) (seen : List (Text × ℕ))
    → text_eq other nonce ≡ false
    → seen_at (forget other seen) nonce ≡ seen_at seen nonce
unfolding seen_at forget
seen_at-forget nonce other [] h = refl
seen_at-forget nonce other ((name, at) ∷ seen) h = ground (
  arith,
  h,
  seen_at-forget nonce other seen h,
  text_eq_sound name other,
  ap (λ t. text_eq t nonce),
)

-- Every name in the order has an entry, and stands there once.
abbrev pub Kept : List (Text × ℕ) → List Text → Type 0
Kept seen [] = Unit
Kept seen (n ∷ order) =
    (seen_at seen n ≢ none) × All (λ m. text_eq n m ≡ false) order × Kept seen order

Kept-forget :
    (other : Text) (seen : List (Text × ℕ)) (order : List Text)
    → All (λ m. text_eq other m ≡ false) order
    → Kept seen order
    → Kept (forget other seen) order
Kept-forget other seen [] a k = tt
Kept-forget other seen (n ∷ order) (a, rest) (h, d, k) =
    ((λ e. h (sym (seen_at-forget n other seen a) ∙ e)), d, Kept-forget other seen order rest k)

abbrev KeptPair : List (Text × ℕ) × List Text → Type 0
KeptPair (seen, order) = Kept seen order

expire-Kept :
    (ttl limit now : ℕ) (seen : List (Text × ℕ)) (order : List Text)
    → Kept seen order
    → KeptPair (expire ttl limit now seen order)
unfolding expire
expire-Kept ttl limit now seen [] k = tt
expire-Kept ttl limit now seen (oldest ∷ order) (h, d, k) =
    elim (Bool-cases (is_fresh ttl now (seen_at seen oldest) && ltb (suc (length order)) limit)) [
      | inl t ↦ rw t (h, d, k)
      | inr t ↦
          rw t (
            expire-Kept ttl limit now (forget oldest seen) order
              (Kept-forget oldest seen order d k))
    ]

-- A nonce seen at `at`, with the names before and behind it.
pub record Held (c : NonceCache) (nonce : Text) (at newer : ℕ) : Type 0 where
  pub front : List Text
  pub back : List Text
  pub split_order : c.order ≡ front ++ nonce ∷ back
  pub seen_nonce : seen_at c.seen nonce ≡ some at
  pub apart : All (λ m. text_eq m nonce ≡ false) front
  pub few : length back ≤ newer

-- The loop does not reach a fresh nonce that has room behind it.
expire-held :
    (ttl limit now at : ℕ) (nonce : Text) (front back : List Text) (seen : List (Text × ℕ))
    → seen_at seen nonce ≡ some at
    → now ≤ at + ttl
    → suc (length back) < limit
    → All (λ m. text_eq m nonce ≡ false) front
    → (left : List Text) × ((expire ttl limit now seen (front ++ nonce ∷ back)).1
        ≡ left ++ nonce ∷ back)
      × (seen_at (expire ttl limit now seen (front ++ nonce ∷ back)).0 nonce ≡ some at)
      × All (λ m. text_eq m nonce ≡ false) left
unfolding expire
expire-held ttl limit now at nonce [] back seen s f r a = rw stop ([], refl, s, tt)
  where
    stop : (is_fresh ttl now (seen_at seen nonce) && ltb (suc (length back)) limit) ≡ true
    stop = ground (arith, s, f, r)
expire-held ttl limit now at nonce (m ∷ front) back seen s f r (a, rest) =
    elim (Bool-cases
      (is_fresh ttl now (seen_at seen m) && ltb (suc (length (front ++ nonce ∷ back))) limit)) [
        | inl t ↦ rw t (m ∷ front, refl, s, (a, rest))
        | inr t ↦ rw t (
            expire-held ttl limit now at nonce front back (forget m seen)
              (seen_at-forget nonce m seen a ∙ s) f r rest)
      ]

seen_at-new :
    (nonce other : Text) (now : ℕ) (seen : List (Text × ℕ))
    → seen_at seen nonce ≢ none
    → seen_at ((other, now) ∷ seen) nonce ≢ none
unfolding seen_at
seen_at-new nonce other now seen h = elim (Bool-cases (text_eq other nonce)) [
  | inl t ↦ rw t (λ e. cc)
  | inr t ↦ rw t h
]

-- A name that has no entry stands nowhere in the order.
Kept-apart :
    (nonce : Text) (seen : List (Text × ℕ)) (order : List Text)
    → Kept seen order
    → seen_at seen nonce ≡ none
    → All (λ m. text_eq m nonce ≡ false) order
Kept-apart nonce seen [] k e = tt
Kept-apart nonce seen (n ∷ order) (h, d, k) e = (other, Kept-apart nonce seen order k e)
  where
    other : text_eq n nonce ≡ false
    other = elim (Bool-cases (text_eq n nonce)) [
      | inl t ↦ absurd (h (ap (seen_at seen) (text_eq_sound n nonce t) ∙ e))
      | inr t ↦ t
    ]

Kept-append :
    (nonce : Text) (now : ℕ) (seen : List (Text × ℕ)) (order : List Text)
    → Kept seen order
    → All (λ m. text_eq m nonce ≡ false) order
    → Kept ((nonce, now) ∷ seen) (order ++ nonce ∷ [])
unfolding seen_at
Kept-append nonce now seen [] k a = (rw (text_eq_refl nonce) (λ e. cc), tt, tt)
Kept-append nonce now seen (n ∷ order) (h, d, k) (a, rest) = (
  seen_at-new n nonce now seen h,
  All-append (λ m. text_eq n m ≡ false) order (nonce ∷ []) d (a, tt),
  Kept-append nonce now seen order k rest,
)

abbrev pub Sound : NonceCache → Type 0
Sound c = Kept c.seen c.order

-- `remember` behind its loop.
abbrev add_nonce : Text → ℕ → NonceCache → List (Text × ℕ) × List Text → Bool × NonceCache
add_nonce nonce now c (seen, order) = elim (seen_at seen nonce) [
  | some _ ↦ (false, record c { seen = seen; order = order })
  | none ↦ (true, record c { seen = (nonce, now) ∷ seen; order = order ++ nonce ∷ [] })
]

pub remember-Sound :
    (nonce : Text) (now : ℕ) (c : NonceCache) → Sound c → Sound (remember nonce now c).1
unfolding remember
remember-Sound nonce now c k =
    go (expire c.ttl c.limit now c.seen c.order) (expire-Kept c.ttl c.limit now c.seen c.order k)
  where
    go : (p : List (Text × ℕ) × List Text) → KeptPair p → Sound (add_nonce nonce now c p).1
    go (seen, order) k = elim (Option-cases (seen_at seen nonce)) [
      | inl e ↦
          rw (add_nonce, e) (Kept-append nonce now seen order k (Kept-apart nonce seen order k e))
      | inr (at, e) ↦ rw (add_nonce, e) k
    ]

pub remember-limits :
    (nonce : Text) (now : ℕ) (c : NonceCache)
    → ((remember nonce now c).1.ttl ≡ c.ttl) × ((remember nonce now c).1.limit ≡ c.limit)
unfolding remember
remember-limits nonce now c = go (expire c.ttl c.limit now c.seen c.order)
  where
    go :
        (p : List (Text × ℕ) × List Text)
        → ((add_nonce nonce now c p).1.ttl ≡ c.ttl) × ((add_nonce nonce now c p).1.limit ≡ c.limit)
    go (seen, order) = elim (Option-cases (seen_at seen nonce)) [
      | inl e ↦ rw (add_nonce, e) (refl, refl)
      | inr (at, e) ↦ rw (add_nonce, e) (refl, refl)
    ]

-- A nonce that was new is held.
pub remember-new :
    (nonce : Text) (now : ℕ) (c : NonceCache)
    → Sound c
    → (remember nonce now c).0 ≡ true
    → Held (remember nonce now c).1 nonce now 0
unfolding remember
remember-new nonce now c k =
    go (expire c.ttl c.limit now c.seen c.order) (expire-Kept c.ttl c.limit now c.seen c.order k)
  where
    go :
        (p : List (Text × ℕ) × List Text)
        → KeptPair p
        → (add_nonce nonce now c p).0 ≡ true
        → Held (add_nonce nonce now c p).1 nonce now 0
    go (seen, order) k = elim (Option-cases (seen_at seen nonce)) [
      | inl e ↦
          rw (add_nonce, e)
            (λ h. record {
              front = order;
              back = [];
              split_order = refl;
              seen_nonce = unfold seen_at in rw (text_eq_refl nonce) refl;
              apart = Kept-apart nonce seen order k e;
              few = omega arith;
            })
      | inr (at, e) ↦ rw (add_nonce, e) (λ h. absurd cc)
    ]

-- A held nonce that is fresh and has room behind it is held by the next call, and refused by it.
pub remember-Held :
    (nonce other : Text) (now at newer : ℕ) (c : NonceCache)
    → Held c nonce at newer
    → now ≤ at + c.ttl
    → suc newer < c.limit
    → Held (remember other now c).1 nonce at (suc newer)
      × (text_eq other nonce ≡ true → (remember other now c).0 ≡ false)
unfolding remember
remember-Held nonce other now at newer c h fresh room =
    go (expire c.ttl c.limit now c.seen c.order) (
      subst (λ order. Left (expire c.ttl c.limit now c.seen order)) (sym h.split_order)
        (expire-held c.ttl c.limit now at nonce h.front h.back c.seen h.seen_nonce fresh
          (omega (arith, h.few, room)) h.apart))
  where
    Left : List (Text × ℕ) × List Text → Type 0
    Left (seen, order) =
        (left : List Text) × (order ≡ left ++ nonce ∷ h.back)
        × (seen_at seen nonce ≡ some at)
        × All (λ m. text_eq m nonce ≡ false) left

    go :
        (p : List (Text × ℕ) × List Text)
        → Left p
        → Held (add_nonce other now c p).1 nonce at (suc newer)
          × (text_eq other nonce ≡ true → (add_nonce other now c p).0 ≡ false)
    go (seen, order) (left, e, s, a) = elim (Option-cases (seen_at seen other)) [
      | inl t ↦
          rw (add_nonce, t)
            (
              record {
                front = left;
                back = h.back ++ other ∷ [];
                split_order =
                    ap (λ names. names ++ other ∷ []) e
                    ∙ append_assoc left (nonce ∷ h.back) (other ∷ []);
                seen_nonce = unfold seen_at in ground (arith, s, new t);
                apart = a;
                few = omega (arith, h.few, length-append h.back (other ∷ []));
              },
              λ q. absurd (new t q),
            )
      | inr (x, t) ↦
          rw (add_nonce, t)
            (
              record {
                front = left;
                back = h.back;
                split_order = e;
                seen_nonce = s;
                apart = a;
                few = omega (arith, h.few);
              },
              λ q. refl,
            )
    ]
      where
        new : seen_at seen other ≡ none → text_eq other nonce ≢ true
        new t q = cc (s, t, ap (seen_at seen) (text_eq_sound other nonce q))
