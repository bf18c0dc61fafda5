-- ===== src/Ipdb/Lookup.antt =====
-- `Lookup` of internal/ipdb/db.go: the binary search over the rows.
use mathlib.Core.Option.{some-injective}
use purewrt.Prelude.{
  subst, ℕ, zero, suc, ◌≤◌, ◌<◌, ◌≡◌, ◌∙◌, refl, sym, Bool, true, false, ◌&&◌, List, [], ◌∷◌, arith,
  some, if◌then◌else◌, ltb, leb, length, get_elem?, All,
}
use purewrt.Prelude.Search.{search_first, search_first_lem}
use purewrt.Ipdb.{Entry, Answer, no_answer, answer, starts_after, entry_before, lookup_entries}

abbrev pub holds : Entry → ℕ → Bool
holds e n = leb e.start_ip n && leb n e.end_ip

-- The rows one by one: the first that holds the address answers.
unfoldable pub scan_rows : List Entry → ℕ → Answer
unfolding answer
scan_rows [] n = no_answer
scan_rows (e ∷ es) n = let rest = scan_rows es n in if holds e n then answer e n else rest

-- Ranges that ascend and do not meet.
abbrev pub Separate : List Entry → Type 0
Separate [] = Unit
Separate (e ∷ es) = (e.start_ip ≤ e.end_ip) × All (λ f. e.end_ip < f.start_ip) es × Separate es

All-get_elem? {ℓ} :
    {A : Type ℓ} (P : A → Type 0) (xs : List A) (i : ℕ) (a : A)
    → All P xs
    → get_elem? xs i ≡ some a
    → P a
All-get_elem? P [] i a h e = cc
All-get_elem? P (x ∷ xs) zero a h e = subst P (some-injective x a e) h.0
All-get_elem? P (x ∷ xs) (suc i) a h e = All-get_elem? P xs i a h.1 e

start_mono :
    (es : List Entry) (i j : ℕ) (e f : Entry)
    → Separate es
    → i ≤ j
    → get_elem? es i ≡ some e
    → get_elem? es j ≡ some f
    → e.start_ip ≤ f.start_ip
start_mono [] i j e f s h p q = cc
start_mono (x ∷ xs) zero zero e f s h p q = ground arith
start_mono (x ∷ xs) zero (suc j) e f s h p q =
    ground (arith, All-get_elem? (λ f. x.end_ip < f.start_ip) xs j f s.1 q)
start_mono (x ∷ xs) (suc i) zero e f s h p q = absurd (omega arith)
start_mono (x ∷ xs) (suc i) (suc j) e f s h p q = start_mono xs i j e f s.2 (omega arith) p q

get_elem?-lt {ℓ} :
    {A : Type ℓ} (xs : List A) (i : ℕ) → i < length xs → (a : A) × (get_elem? xs i ≡ some a)
get_elem?-lt [] i h = absurd (omega arith)
get_elem?-lt (x ∷ xs) zero h = (x, refl)
get_elem?-lt (x ∷ xs) (suc i) h = get_elem?-lt xs i (omega arith)

abbrev Later : ℕ → List Entry → Type 0
Later n = All (λ f. n < f.start_ip)

scan_rows-Later : (n : ℕ) (es : List Entry) → Later n es → scan_rows es n ≡ no_answer
unfolding scan_rows
scan_rows-Later n [] h = refl
scan_rows-Later n (e ∷ es) h = ground (arith, scan_rows-Later n es h.1)

answer_beyond : (e : Entry) (n : ℕ) → e.end_ip < n → answer e n ≡ no_answer
unfolding answer
answer_beyond e n h = ground arith

lt-get_elem? {ℓ} :
    {A : Type ℓ} (xs : List A) (i : ℕ) (a : A) → get_elem? xs i ≡ some a → i < length xs
lt-get_elem? [] i a h = cc
lt-get_elem? (x ∷ xs) zero a h = omega arith
lt-get_elem? (x ∷ xs) (suc i) a h = omega (arith, lt-get_elem? xs i a h)

Later-get_elem? :
    (n : ℕ) (fs : List Entry)
    → ((j : ℕ) (f : Entry) → get_elem? fs j ≡ some f → n < f.start_ip)
    → Later n fs
Later-get_elem? n [] q = tt
Later-get_elem? n (f ∷ fs) q = (q zero f refl, Later-get_elem? n fs (λ j g r. q (suc j) g r))

-- The row at `i` is the last that begins at or below the address.
scan_rows-at :
    (es : List Entry) (i n : ℕ) (e : Entry)
    → Separate es
    → get_elem? es i ≡ some e
    → e.start_ip ≤ n
    → ((j : ℕ) (f : Entry) → i < j → get_elem? es j ≡ some f → n < f.start_ip)
    → scan_rows es n ≡ answer e n
scan_rows-at [] i n e s p h later = cc
scan_rows-at (x ∷ xs) zero n e s p h later =
    unfold scan_rows in
    ground (
      arith,
      answer_beyond e n,
      some-injective x e p,
      scan_rows-Later n xs (Later-get_elem? n xs (λ j f q. later (suc j) f (omega arith) q)),
    )
scan_rows-at (x ∷ xs) (suc i) n e s p h later =
    step (scan_rows-at xs i n e s.2 p h (λ j f lt q. later (suc j) f (omega arith) q))
  where
    below : x.end_ip < n
    below = omega (arith, All-get_elem? (λ f. x.end_ip < f.start_ip) xs i e s.1 p)

    step : scan_rows xs n ≡ answer e n → scan_rows (x ∷ xs) n ≡ answer e n
    step ih = unfold scan_rows in ground (arith, below, ih)

starts_after_mono :
    (es : List Entry) (n : ℕ)
    → Separate es
    → (a b : ℕ) → a ≤ b
    → b < length es
    → starts_after es n a ≡ true
    → starts_after es n b ≡ true
unfolding starts_after
starts_after_mono es n s a b h lt t =
    let (e, p) = get_elem?-lt es a (omega arith) in
    let (f, q) = get_elem?-lt es b lt in ground (arith, p, q, start_mono es a b e f s h p q)

starts_after-start :
    (es : List Entry) (n i : ℕ) (e : Entry) (b : Bool)
    → get_elem? es i ≡ some e
    → starts_after es n i ≡ b
    → ltb n e.start_ip ≡ b
unfolding starts_after
starts_after-start es n i e b p h = rw (starts_after, p) at h

-- What the search tells of the rows at and above its result.
passes-later :
    (es : List Entry) (n i : ℕ) (e : Entry)
    → get_elem? es i ≡ some e
    → starts_after es n i ≡ true
    → n < e.start_ip
passes-later es n i e p h = ground (arith, starts_after-start es n i e true p h)

fails-not_later :
    (es : List Entry) (n i : ℕ) (e : Entry)
    → get_elem? es i ≡ some e
    → starts_after es n i ≡ false
    → e.start_ip ≤ n
fails-not_later es n i e p h = ground (arith, starts_after-start es n i e false p h)

entry_before-suc :
    (es : List Entry) (n i : ℕ) (e : Entry)
    → get_elem? es i ≡ some e
    → entry_before es n (suc i) ≡ answer e n
unfolding entry_before answer
entry_before-suc es n i e p = rw (entry_before, p)

-- On separate ranges the binary search answers as the scan does.
pub lookup_entries-scan :
    (es : List Entry) (n : ℕ) → Separate es → lookup_entries es n ≡ scan_rows es n
unfolding lookup_entries
lookup_entries-scan es n s =
    go (search_first (starts_after es n) (length es))
      (search_first_lem (starts_after es n) (length es) (starts_after_mono es n s))
  where
    go :
        (r : ℕ)
        → (r ≤ length es)
          × ((k : ℕ) → k < r → starts_after es n k ≡ false)
          × ((k : ℕ) → r ≤ k → k < length es → starts_after es n k ≡ true)
        → entry_before es n r ≡ scan_rows es n
    go zero (inside, fails, passes) = sym (
        scan_rows-Later n es (
          Later-get_elem? n es
            (λ j f q. passes-later es n j f q (passes j (omega arith) (lt-get_elem? es j f q)))))
    go (suc r) (inside, fails, passes) =
        let (e, p) = get_elem?-lt es r (omega arith) in
        entry_before-suc es n r e p
        ∙ sym (
            scan_rows-at es r n e s p (fails-not_later es n r e p (fails r (omega arith)))
              (λ j f lt q.
                passes-later es n j f q (passes j (omega arith) (lt-get_elem? es j f q))))
