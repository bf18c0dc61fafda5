-- ===== src/Mrs/Stream.antt =====
-- internal/rules/parse_mrs.go: MRSStreamHandlers. A callback gets the state that the calls before it
-- left and may refuse an entry; a callback that is not given does nothing.
use purewrt.Prelude.{◌≡◌, refl, List, [], ◌∷◌, ◌++◌, Option, none, some, Result, ok, err}
use purewrt.Mrs.Reader.{MrsError}

-- Why a stream stopped: a fault of the data, or the error of a callback.
pub data Stopped (E : Type 0) : Type 0 where
  malformed : MrsError → Stopped E
  refused : E → Stopped E

module _ {S E : Type 0} where
  abbrev pub and_then :
      S × Option (Stopped E) → (S → S × Option (Stopped E)) → S × Option (Stopped E)
  and_then (s, some stopped) next = (s, some stopped)
  and_then (s, none) next = next s

  abbrev pub after_call : S × Option E → (S → S × Option (Stopped E)) → S × Option (Stopped E)
  after_call (s, some failure) next = (s, some (refused failure))
  after_call (s, none) next = next s

  pub and_then_assoc :
      (r : S × Option (Stopped E)) (f g : S → S × Option (Stopped E))
      → and_then (and_then r f) g ≡ and_then r (λ s. and_then (f s) g)
  and_then_assoc (s, none) f g = refl
  and_then_assoc (s, some stopped) f g = refl

module _ {S E A : Type 0} where
  abbrev pub call : Option (S → A → S × Option E) → S → A → S × Option E
  call none s a = (s, none)
  call (some emit) s a = emit s a

  abbrev pub with_read :
      Result MrsError A → S → (A → S × Option (Stopped E)) → S × Option (Stopped E)
  with_read (err failure) s next = (s, some (malformed failure))
  with_read (ok a) s next = next a

  -- The entries in order, up to the first that the callback refuses.
  unfoldable pub emit_all : (S → A → S × Option E) → S → List A → S × Option (Stopped E)
  emit_all emit s [] = (s, none)
  emit_all emit s (a ∷ rest) = after_call (emit s a) (λ s'. emit_all emit s' rest)

  pub emit_all-append :
      (emit : S → A → S × Option E) (s : S) (xs ys : List A)
      → emit_all emit s (xs ++ ys) ≡ and_then (emit_all emit s xs) (λ s'. emit_all emit s' ys)
  unfolding emit_all
  emit_all-append emit s [] ys = refl
  emit_all-append emit s (x ∷ xs) ys = after (emit s x) (λ s'. emit_all-append emit s' xs ys)
    where
      after :
          (r : S × Option E)
          → ((s' : S)
              → emit_all emit s' (xs ++ ys)
                ≡ and_then (emit_all emit s' xs) (λ u. emit_all emit u ys))
          → after_call r (λ s'. emit_all emit s' (xs ++ ys))
            ≡ and_then (after_call r (λ s'. emit_all emit s' xs)) (λ u. emit_all emit u ys)
      after (s', none) later = later s'
      after (s', some failure) later = refl
