-- ===== src/Guard/Latency/Spread.antt =====
-- `latencyJitter` of internal/manager/proxy_guard.go and the samples of its window.
use purewrt.Prelude.{
  ℕ, suc, ◌+◌, ◌-◌, ◌≤◌, ◌≡◌, ◌∙◌, refl, sym, ap, subst, Bool, true, false, List, [], ◌∷◌, arith,
  ltb, ◌==◌, length, get_or, any, All, Bool-cases, inl, inr,
}
use purewrt.Prelude.Sort.{
  sort_by, any-sort_by, Ordered, sort_by-Ordered, Ordered-All, length-sort_by,
}
use purewrt.Guard.Latency.{good_samples, latency_jitter, spread}

abbrev pub is_in : ℕ → List ℕ → Bool
is_in a xs = any (λ d. d == a) xs

All-is_in : (P : ℕ → Type 0) (xs : List ℕ) (a : ℕ) → All P xs → is_in a xs ≡ true → P a
All-is_in P [] a h e = cc
All-is_in P (x ∷ xs) a (h, rest) e = elim (Bool-cases (x == a)) [
  | inl t ↦ subst P (ground (arith, t)) h
  | inr t ↦ All-is_in P xs a rest (ground (arith, t, e))
]

abbrev first_of : List ℕ → ℕ
first_of xs = get_or xs 0 0

abbrev final_of : List ℕ → ℕ
final_of xs = get_or xs (length xs - 1) 0

less-one : (n : ℕ) → suc n - 1 ≡ n
less-one n = omega arith

final_of-cons : (x y : ℕ) (ys : List ℕ) → final_of (x ∷ y ∷ ys) ≡ final_of (y ∷ ys)
final_of-cons x y ys = rw (less-one (suc (length ys)), less-one (length ys)) refl

ltb_asym : (a b : ℕ) → ltb a b ≡ true → ltb b a ≡ false
ltb_asym a b h = ground arith

ltb_through : (a b c : ℕ) → ltb b a ≡ false → ltb c b ≡ false → ltb c a ≡ false
ltb_through a b c h k = ground arith

-- Every sample of an ascending list lies between the first and the last one.
final_of-above :
    (x : ℕ) (xs : List ℕ) → Ordered ltb (x ∷ xs) → All (λ a. a ≤ final_of (x ∷ xs)) (x ∷ xs)
final_of-above x [] o = (omega arith, tt)
final_of-above x (y ∷ ys) o =
    let later : All (λ a. a ≤ final_of (x ∷ y ∷ ys)) (y ∷ ys) =
      subst (λ m. All (λ a. a ≤ m) (y ∷ ys)) (sym (final_of-cons x y ys))
        (final_of-above y ys o.1) in
    (ground (arith, o.0, later.0), later)

first_of-below : (x : ℕ) (xs : List ℕ) → Ordered ltb (x ∷ xs) → All (λ a. x ≤ a) (x ∷ xs)
first_of-below x xs o = (omega arith, weaken xs (Ordered-All ltb ltb_through x xs o))
  where
    weaken : (ys : List ℕ) → All (λ a. ltb a x ≡ false) ys → All (λ a. x ≤ a) ys
    weaken [] h = tt
    weaken (y ∷ ys) (h, rest) = (ground (arith, h), weaken ys rest)

final_of-is_in : (x : ℕ) (xs : List ℕ) → is_in (final_of (x ∷ xs)) (x ∷ xs) ≡ true
final_of-is_in x [] = ground arith
final_of-is_in x (y ∷ ys) = ground (
  arith,
  final_of-cons x y ys,
  ap (λ a. is_in a (y ∷ ys)) (final_of-cons x y ys),
  final_of-is_in y ys,
)

-- What the spread of an ascending list says.
Spreads : List ℕ → Type 0
Spreads xs =
    ((a b : ℕ) → is_in a xs ≡ true → is_in b xs ≡ true → a ≤ b + spread xs)
    × ((a : ℕ) × (b : ℕ) × (is_in a xs ≡ true) × (is_in b xs ≡ true) × (a ≡ b + spread xs))

Ordered-Spreads : (x : ℕ) (xs : List ℕ) → Ordered ltb (x ∷ xs) → Spreads (x ∷ xs)
unfolding Spreads spread
Ordered-Spreads x xs o = (
  λ a b i j. omega (
    arith,
    All-is_in (λ c. c ≤ final_of (x ∷ xs)) (x ∷ xs) a (final_of-above x xs o) i,
    All-is_in (λ c. x ≤ c) (x ∷ xs) b (first_of-below x xs o) j,
  ),
  (
    final_of (x ∷ xs),
    x,
    final_of-is_in x xs,
    ground arith,
    omega (
      arith,
      All-is_in (λ c. x ≤ c) (x ∷ xs) (final_of (x ∷ xs)) (first_of-below x xs o)
          (final_of-is_in x xs),
    ),
  ),
)

-- Of a window with two or more positive samples the jitter is the greatest distance between two of
-- them: any two lie no further apart, and some two lie exactly as far apart.
pub latency_jitter-greatest :
    (samples : List ℕ)
    → 2 ≤ length (good_samples samples)
    → (a b : ℕ) → is_in a (good_samples samples) ≡ true
    → is_in b (good_samples samples) ≡ true
    → (a ≤ b + latency_jitter samples)
      × ((c : ℕ) × (d : ℕ) × (is_in c (good_samples samples) ≡ true)
          × (is_in d (good_samples samples) ≡ true)
          × (c ≡ d + latency_jitter samples))
unfolding latency_jitter Spreads
latency_jitter-greatest samples two v w i j = rw enough (
    moved (
      go (sort_by ltb good) (sort_by-Ordered ltb ltb_asym good)
        (omega (arith, two, length-sort_by ltb good))))
  where
    good : List ℕ
    good = good_samples samples

    enough : ltb (length good) 2 ≡ false
    enough = ground (arith, two)

    go : (xs : List ℕ) → Ordered ltb xs → 1 ≤ length xs → Spreads xs
    go [] o h = absurd (omega (arith, h))
    go (x ∷ xs) o h = Ordered-Spreads x xs o

    same : (a : ℕ) → is_in a (sort_by ltb good) ≡ is_in a good
    same a = any-sort_by ltb (λ d. d == a) good

    moved :
        Spreads (sort_by ltb good)
        → (v ≤ w + spread (sort_by ltb good))
          × ((c : ℕ) × (d : ℕ) × (is_in c good ≡ true)
              × (is_in d good ≡ true)
              × (c ≡ d + spread (sort_by ltb good)))
    moved (bound, (c, d, k, l, e)) =
        (bound v w (same v ∙ i) (same w ∙ j), (c, d, sym (same c) ∙ k, sym (same d) ∙ l, e))
