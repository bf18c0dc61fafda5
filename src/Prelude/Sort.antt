-- ===== src/Prelude/Sort.antt =====
-- `sort.SliceStable`, and `sort.Slice` where the order of equals does not show: insertion sort by the
-- test that the code passes in.

use mathlib.Core.Path.{◌≡◌, refl}
use mathlib.Core.Bool.{Bool, true, false, ◌||◌}
use mathlib.Core.List.{List, [], ◌∷◌, Perm}
use mathlib.Core.List.Perm
use native.Mathlib.Omega.{arith}
use mathlib.Core.Logic.{◌≢◌, inl, inr}
use purewrt.Prelude.Tests.{if◌then◌else◌, Bool-cases}
use Prim.Native.Nat.{ℕ, zero, suc}
use purewrt.Prelude.Lists.{length, All, any, take, drop, All-drop}

module _ {ℓ} {A : Type ℓ} (less : A → A → Bool) where
  unfoldable pub insert_by : A → List A → List A
  insert_by x [] = x ∷ []
  insert_by x (y ∷ ys) = if less y x then y ∷ insert_by x ys else x ∷ y ∷ ys

  unfoldable pub sort_by : List A → List A
  unfolding insert_by
  sort_by [] = []
  sort_by (x ∷ xs) = insert_by x (sort_by xs)

  pub any-insert_by :
      (p : A → Bool) (x : A) (ys : List A) → any p (insert_by x ys) ≡ (p x || any p ys)
  unfolding insert_by
  any-insert_by p x [] = refl
  any-insert_by p x (y ∷ ys) = ground (arith, any-insert_by p x ys)

  -- Sorting keeps what some element satisfies.
  pub any-sort_by : (p : A → Bool) (xs : List A) → any p (sort_by xs) ≡ any p xs
  unfolding sort_by
  any-sort_by p [] = refl
  any-sort_by p (x ∷ xs) = ground (arith, any-insert_by p x (sort_by xs), any-sort_by p xs)

module _ {ℓ κ} {A : Type ℓ} (less : A → A → Bool) (P : A → Type κ) where
  pub All-insert_by : (x : A) (ys : List A) → P x → All P ys → All P (insert_by less x ys)
  unfolding insert_by
  All-insert_by x [] px h = (px, tt)
  All-insert_by x (y ∷ ys) px h = elim (Bool-cases (less y x)) [
    | inl e ↦ rw e (h.0, All-insert_by x ys px h.1)
    | inr e ↦ rw e (px, h)
  ]

  pub All-sort_by : (xs : List A) → All P xs → All P (sort_by less xs)
  unfolding sort_by
  All-sort_by [] h = tt
  All-sort_by (x ∷ xs) h = All-insert_by x (sort_by less xs) h.0 (All-sort_by xs h.1)

  All-insert_by_back : (x : A) (ys : List A) → All P (insert_by less x ys) → P x × All P ys
  unfolding insert_by
  All-insert_by_back x [] h = h
  All-insert_by_back x (y ∷ ys) h = go (less y x) (All-insert_by_back x ys) h
    where
      go :
          (b : Bool)
          → (All P (insert_by less x ys) → P x × All P ys)
          → All P (if b then y ∷ insert_by less x ys else x ∷ y ∷ ys)
          → P x × (P y × All P ys)
      go true step (py, rest) = ((step rest).0, (py, (step rest).1))
      go false step h = h

  pub All-sort_by_back : (xs : List A) → All P (sort_by less xs) → All P xs
  unfolding sort_by
  All-sort_by_back [] h = tt
  All-sort_by_back (x ∷ xs) h =
      let (px, rest) = All-insert_by_back x (sort_by less xs) h in (px, All-sort_by_back xs rest)

-- Each element is not above the next one.
abbrev pub Ordered {ℓ} : {A : Type ℓ} → (A → A → Bool) → List A → Type 0
Ordered less [] = Unit
Ordered less (x ∷ []) = Unit
Ordered less (x ∷ y ∷ ys) = (less y x ≡ false) × Ordered less (y ∷ ys)

module _ {ℓ} {A : Type ℓ} (less : A → A → Bool)
    (asym : (x y : A) → less x y ≡ true → less y x ≡ false) where
  insert_by-Ordered_at :
      (w x : A) (ys : List A)
      → less x w ≡ false
      → Ordered less (w ∷ ys)
      → Ordered less (w ∷ insert_by less x ys)
  unfolding insert_by
  insert_by-Ordered_at w x [] h o = (h, tt)
  insert_by-Ordered_at w x (y ∷ ys) h o = elim (Bool-cases (less y x)) [
    | inl e ↦ rw e (o.0, insert_by-Ordered_at y x ys (asym y x e) o.1)
    | inr e ↦ rw e (h, (e, o.1))
  ]

  insert_by-Ordered : (x : A) (ys : List A) → Ordered less ys → Ordered less (insert_by less x ys)
  unfolding insert_by
  insert_by-Ordered x [] o = tt
  insert_by-Ordered x (y ∷ ys) o = elim (Bool-cases (less y x)) [
    | inl e ↦ rw e (insert_by-Ordered_at y x ys (asym y x e) o)
    | inr e ↦ rw e (e, o)
  ]

  pub sort_by-Ordered : (xs : List A) → Ordered less (sort_by less xs)
  unfolding sort_by
  sort_by-Ordered [] = tt
  sort_by-Ordered (x ∷ xs) = insert_by-Ordered x (sort_by less xs) (sort_by-Ordered xs)

module _ {ℓ} {A : Type ℓ} (less : A → A → Bool) where
  perm-insert_by : (x : A) (ys : List A) → Perm (insert_by less x ys) (x ∷ ys)
  unfolding insert_by
  perm-insert_by x [] = Perm.refl (x ∷ [])
  perm-insert_by x (y ∷ ys) = elim (Bool-cases (less y x)) [
    | inl e ↦ rw e (Perm.trans (Perm.cons y (perm-insert_by x ys)) (Perm.swap x y ys))
    | inr e ↦ rw e (Perm.refl (x ∷ y ∷ ys))
  ]

  length-insert_by : (x : A) (ys : List A) → length (insert_by less x ys) ≡ suc (length ys)
  unfolding insert_by
  length-insert_by x [] = refl
  length-insert_by x (y ∷ ys) = ground (arith, length-insert_by x ys)

  pub length-sort_by : (xs : List A) → length (sort_by less xs) ≡ length xs
  unfolding sort_by
  length-sort_by [] = refl
  length-sort_by (x ∷ xs) = omega (arith, length-insert_by x (sort_by less xs), length-sort_by xs)

  -- Sorting only reorders.
  pub perm-sort_by : (xs : List A) → Perm (sort_by less xs) xs
  unfolding sort_by
  perm-sort_by [] = Perm.refl []
  perm-sort_by (x ∷ xs) =
      Perm.trans (perm-insert_by x (sort_by less xs)) (Perm.cons x (perm-sort_by xs))

  insert_by-ne-nil : (x : A) (xs : List A) → insert_by less x xs ≢ []
  unfolding insert_by
  insert_by-ne-nil x [] h = cc
  insert_by-ne-nil x (y ∷ ys) h = ground arith

  pub sort_by-ne-nil : (xs : List A) → xs ≢ [] → sort_by less xs ≢ []
  unfolding sort_by
  sort_by-ne-nil [] h = h
  sort_by-ne-nil (x ∷ xs) h = insert_by-ne-nil x (sort_by less xs)

-- What is not below passes through a third one: then every later element is not below an earlier one.
module _ {ℓ} {A : Type ℓ} (less : A → A → Bool)
    (through : (x y z : A) → less y x ≡ false → less z y ≡ false → less z x ≡ false) where
  not_below-All :
      (x y : A) (ys : List A)
      → less y x ≡ false
      → Ordered less (y ∷ ys)
      → All (λ z. less z x ≡ false) (y ∷ ys)
  not_below-All x y [] h o = (h, tt)
  not_below-All x y (z ∷ ys) h o = (h, not_below-All x z ys (through x y z h o.0) o.1)

  pub Ordered-All : (x : A) (ys : List A) → Ordered less (x ∷ ys) → All (λ z. less z x ≡ false) ys
  Ordered-All x [] o = tt
  Ordered-All x (y ∷ ys) o = not_below-All x y ys o.0 o.1

  Ordered-tail : (x : A) (ys : List A) → Ordered less (x ∷ ys) → Ordered less ys
  Ordered-tail x [] o = tt
  Ordered-tail x (y ∷ ys) o = o.1

  -- The elements that a cut leaves in front are not above those behind it.
  pub Ordered-take :
      (n : ℕ) (xs : List A)
      → Ordered less xs
      → All (λ x. All (λ z. less z x ≡ false) (drop n xs)) (take n xs)
  Ordered-take zero xs o = tt
  Ordered-take (suc n) [] o = tt
  Ordered-take (suc n) (x ∷ xs) o = (
    All-drop (λ z. less z x ≡ false) n xs (Ordered-All x xs o),
    Ordered-take n xs (Ordered-tail x xs o),
  )
