-- ===== src/Prelude/Search.antt =====
-- `sort.Search`: binary search for the first index at which a test holds.
use Prim.Native.Nat.{ℕ, zero, suc, ◌+◌, ◌/◌, ◌≤◌, ◌<◌}
use mathlib.Core.Path.{◌≡◌}
use mathlib.Core.Bool.{Bool, true, false}
use mathlib.Core.Logic.{inl, inr}
use native.Mathlib.Omega.{arith}
use purewrt.Prelude.Tests.{ltb, if◌then◌else◌, Bool-cases}

module _ (f : ℕ → Bool) where
  -- The loop `for i < j`; the range shrinks in every round, so a fuel of its length is enough.
  unfoldable pub search_loop : ℕ → ℕ → ℕ → ℕ
  search_loop zero i j = i
  search_loop (suc fuel) i j =
      let h = (i + j) / 2 in
      let upper = search_loop fuel (suc h) j in
      let lower = search_loop fuel i h in if ltb i j then (if f h then lower else upper) else i

  unfoldable pub search_first : ℕ → ℕ
  unfolding search_loop
  search_first n = search_loop n 0 n

  module _ (n : ℕ) (mono : (a b : ℕ) → a ≤ b → b < n → f a ≡ true → f b ≡ true) where
    -- Below `i` the test fails, and from `j` on it holds.
    record Bracket (i j : ℕ) : Type 0 where
      ordered : i ≤ j
      inside : j ≤ n
      fails : (k : ℕ) → k < i → f k ≡ false
      holds : (k : ℕ) → j ≤ k → k < n → f k ≡ true

    raise : {i j h : ℕ} → Bracket i j → i ≤ h → h < j → f h ≡ false → Bracket (suc h) j
    raise {i} {j} {h} b lo hi e = record {
      ordered = hi;
      inside = b.inside;
      fails = λ k lt. elim (Bool-cases (f k)) [
        | inl t ↦ cc (mono k h (omega arith) (omega (arith, b.inside)) t)
        | inr t ↦ t
      ];
      holds = b.holds;
    }

    drop_to : {i j h : ℕ} → Bracket i j → i ≤ h → h < j → f h ≡ true → Bracket i h
    drop_to {i} {j} {h} b lo hi e = record {
      ordered = lo;
      inside = omega (arith, b.inside);
      fails = b.fails;
      holds = λ k le lt. mono h k le lt e;
    }

    loop-Bracket :
        (fuel i j : ℕ)
        → j ≤ i + fuel
        → Bracket i j
        → Bracket (search_loop fuel i j) (search_loop fuel i j)
    unfolding search_loop
    loop-Bracket zero i j w b = let e : j ≡ i = omega (arith, b.ordered) in rw e at b
    loop-Bracket (suc fuel) i j w b = elim (Bool-cases (ltb i j)) [
      | inl lt ↦ elim (Bool-cases (f ((i + j) / 2))) [
        | inl t ↦
            rw (lt, t)
              (loop-Bracket fuel i ((i + j) / 2) (ground arith)
                (drop_to b (ground arith) (ground arith) t))
        | inr t ↦
            rw (lt, t)
              (loop-Bracket fuel (suc ((i + j) / 2)) j (ground arith)
                (raise b (ground arith) (ground arith) t))
      ]
      | inr ge ↦ let e : j ≡ i = ground (arith, b.ordered) in rw ge (rw e at b)
    ]

    search-Bracket : Bracket (search_first n) (search_first n)
    unfolding search_first
    search-Bracket = loop-Bracket n 0 n (omega arith) (record {
      ordered = omega arith;
      inside = omega arith;
      fails = λ k lt. absurd (omega arith);
      holds = λ k le lt. absurd (omega arith);
    })

    -- The search ends within its bounds at the first index that passes the test.
    pub search_first_lem :
        (search_first n ≤ n)
        × ((k : ℕ) → k < search_first n → f k ≡ false)
        × ((k : ℕ) → search_first n ≤ k → k < n → f k ≡ true)
    search_first_lem = (search-Bracket.inside, search-Bracket.fails, search-Bracket.holds)
