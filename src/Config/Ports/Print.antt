-- ===== src/Config/Ports/Print.antt =====
-- `formatPortRanges` and `parsePortRanges` of internal/config/section_match.go together.
use mathlib.Core.List.{reverse, reverse-append}
use purewrt.Prelude.{
  ℕ, ◌≤◌, ◌≡◌, ◌≢◌, refl, sym, ap, ◌∙◌, true, false, List, [], ◌∷◌, ◌++◌, map, arith, ◌==◌, some,
  ok, ◌>>=◌, All, All-append, Bool-cases, inl, inr, append-nil,
}
use purewrt.Prelude.Int.{pos}
use purewrt.Prelude.Sort.{sort_by}
use purewrt.Text.{Text}
use purewrt.Text.Decimal.{is_digit, itoa, atoi, atoi-itoa, itoa-AllDigits, itoa-ne-nil, AllDigits}
use purewrt.Text.Space.{is_space, trim_space, trim_space_lem, trim_space-ne-nil, NoSpaceFirst}
use purewrt.Text.Parts.{split, join, Lacks, split-Lacks, split-append}
use purewrt.Config.Ports.{
  PortRange, first_port, last_port, parse_parts, parse_token, parse_tokens, parse_port_ranges,
  merge, first_less, format_range, format_port_ranges,
}
use purewrt.Config.Ports.Cover.{IsRange, covers-merge-sort_by}
use purewrt.Config.Ports.Canonical.{Canonical, Canonical-unique, merge-sort_by-Canonical}

-- The code points that a printed range is made of.
abbrev Plain : ℕ → Type 0
Plain c = (is_space c ≡ false) × ((c == b',') ≡ false)

digit-Plain : (c : ℕ) → is_digit c ≡ true → Plain c
unfolding is_space
digit-Plain c h = ground arith

digit-ne-dash : (c : ℕ) → is_digit c ≡ true → (c == b'-') ≡ false
digit-ne-dash c h = ground arith

AllDigits-Plain : (s : Text) → AllDigits s → All Plain s
AllDigits-Plain [] h = tt
AllDigits-Plain (c ∷ s) h = (digit-Plain c h.0, AllDigits-Plain s h.1)

AllDigits-Lacks : (s : Text) → AllDigits s → Lacks b'-' s
AllDigits-Lacks [] h = tt
AllDigits-Lacks (c ∷ s) h = (digit-ne-dash c h.0, AllDigits-Lacks s h.1)

Plain-Lacks : (s : Text) → All Plain s → Lacks b',' s
Plain-Lacks [] h = tt
Plain-Lacks (c ∷ s) h = (h.0.1, Plain-Lacks s h.1)

All-reverse : (s : Text) → All Plain s → All Plain (reverse s)
All-reverse [] h = tt
All-reverse (c ∷ s) h =
    rw (reverse-append (c ∷ []) s)
      (All-append Plain (reverse s) (c ∷ []) (All-reverse s h.1) (h.0, tt))

Plain-first : (s : Text) → All Plain s → NoSpaceFirst s
Plain-first [] h = tt
Plain-first (c ∷ s) h = h.0.0

trim-Plain : (s : Text) → All Plain s → trim_space s ≡ s
trim-Plain s h = trim_space_lem s (Plain-first s h) (Plain-first (reverse s) (All-reverse s h))

trim_space-blank : (s : Text) → trim_space (b' ' ∷ s) ≡ trim_space s
unfolding trim_space is_space
trim_space-blank s = refl

dash-Plain : Plain b'-'
unfolding is_space
dash-Plain = (refl, refl)

format_range-Plain : (r : PortRange) → All Plain (format_range r)
unfolding format_range
format_range-Plain r = elim (Bool-cases (r.last == r.first)) [
  | inl e ↦ rw e (AllDigits-Plain (itoa r.first) (itoa-AllDigits r.first))
  | inr e ↦ rw e (
      All-append Plain (itoa r.first) (b'-' ∷ itoa r.last)
        (AllDigits-Plain (itoa r.first) (itoa-AllDigits r.first))
        (dash-Plain, AllDigits-Plain (itoa r.last) (itoa-AllDigits r.last)))
]

-- Both bounds of a range are read back.
atoi-port : (n : ℕ) → n ≤ 65535 → atoi (trim_space (itoa n)) ≡ some (pos n)
atoi-port n h =
    rw (trim-Plain (itoa n) (AllDigits-Plain (itoa n) (itoa-AllDigits n)))
      (atoi-itoa n (omega arith))

first_port-itoa : (t : Text) (n : ℕ) → 1 ≤ n → n ≤ 65535 → first_port t (itoa n) ≡ ok n
unfolding first_port
first_port-itoa t n h k = rw (first_port, atoi-port n k) (ground arith)

last_port-itoa :
    (t : Text) (a n : ℕ)
    → a ≤ n
    → n ≤ 65535
    → last_port t a (itoa n) ≡ ok (record { first = a; last = n })
unfolding last_port
last_port-itoa t a n h k = rw (last_port, atoi-port n k) (ground arith)

parse_token-trimmed : (t s : Text) → trim_space t ≡ s → parse_token t ≡ parse_parts t (split s b'-')
unfolding parse_token
parse_token-trimmed t s e = rw e

parse_parts-format_range :
    (t : Text) (r : PortRange) → IsRange r → parse_parts t (split (format_range r) b'-') ≡ ok r
unfolding format_range
parse_parts-format_range t r v = elim (Bool-cases (r.last == r.first)) [
  | inl e ↦
      rw
        (
          e,
          split-Lacks (itoa r.first) b'-' (AllDigits-Lacks (itoa r.first) (itoa-AllDigits r.first)),
        )
        (unfold parse_parts in
          rw (first_port-itoa t r.first v.from_one (omega arith)) (ground arith))
  | inr e ↦
      rw
        (
          e,
          split-append (itoa r.first) (itoa r.last) b'-'
              (AllDigits-Lacks (itoa r.first) (itoa-AllDigits r.first)),
          split-Lacks (itoa r.last) b'-' (AllDigits-Lacks (itoa r.last) (itoa-AllDigits r.last)),
        )
        (unfold parse_parts in
          rw (first_port-itoa t r.first v.from_one (omega arith))
            (last_port-itoa t r.first r.last v.ascending v.to_max))
]

parse_token-format_range : (r : PortRange) → IsRange r → parse_token (format_range r) ≡ ok r
parse_token-format_range r v =
    parse_token-trimmed (format_range r) (format_range r)
      (trim-Plain (format_range r) (format_range-Plain r))
    ∙ parse_parts-format_range (format_range r) r v

parse_token-blank : (r : PortRange) → IsRange r → parse_token (b' ' ∷ format_range r) ≡ ok r
parse_token-blank r v =
    parse_token-trimmed (b' ' ∷ format_range r) (format_range r)
      (trim_space-blank (format_range r) ∙ trim-Plain (format_range r) (format_range-Plain r))
    ∙ parse_parts-format_range (b' ' ∷ format_range r) r v

-- The tokens of a printed list: all but the first have the blank that `Join` puts in front.
abbrev blank_range : PortRange → Text
blank_range r = b' ' ∷ format_range r

split-blank :
    (r : PortRange) (rs : List PortRange)
    → split (b' ' ∷ format_port_ranges (r ∷ rs)) b',' ≡ blank_range r ∷ map blank_range rs
unfolding format_port_ranges join
split-blank r [] =
    split-Lacks (blank_range r) b',' (refl, Plain-Lacks (format_range r) (format_range-Plain r))
split-blank r (s ∷ rs) =
    split-append (blank_range r) (b' ' ∷ format_port_ranges (s ∷ rs)) b','
      (refl, Plain-Lacks (format_range r) (format_range-Plain r))
    ∙ ap (λ ts. blank_range r ∷ ts) (split-blank s rs)

split-format :
    (r : PortRange) (rs : List PortRange)
    → split (format_port_ranges (r ∷ rs)) b',' ≡ format_range r ∷ map blank_range rs
unfolding format_port_ranges join
split-format r [] =
    split-Lacks (format_range r) b',' (Plain-Lacks (format_range r) (format_range-Plain r))
split-format r (s ∷ rs) =
    split-append (format_range r) (b' ' ∷ format_port_ranges (s ∷ rs)) b','
      (Plain-Lacks (format_range r) (format_range-Plain r))
    ∙ ap (λ ts. format_range r ∷ ts) (split-blank s rs)

parse_tokens-blank :
    (rs : List PortRange) → All IsRange rs → parse_tokens (map blank_range rs) ≡ ok rs
unfolding parse_tokens
parse_tokens-blank [] v = refl
parse_tokens-blank (r ∷ rs) v = rw (parse_token-blank r v.0, parse_tokens-blank rs v.1)

parse_tokens-format :
    (r : PortRange) (rs : List PortRange)
    → All IsRange (r ∷ rs)
    → parse_tokens (format_range r ∷ map blank_range rs) ≡ ok (r ∷ rs)
unfolding parse_tokens
parse_tokens-format r rs v = rw (parse_token-format_range r v.0, parse_tokens-blank rs v.1)

Canonical-IsRange : (rs : List PortRange) → Canonical rs → All IsRange rs
Canonical-IsRange [] c = tt
Canonical-IsRange (r ∷ rs) c = (c.0, Canonical-IsRange rs c.2)

-- A normal form is left alone by sorting and merging.
merge-sort_by-id : (rs : List PortRange) → Canonical rs → merge (sort_by first_less rs) ≡ rs
merge-sort_by-id rs c =
    Canonical-unique (merge (sort_by first_less rs)) rs
      (merge-sort_by-Canonical rs (Canonical-IsRange rs c)) c
      (λ p. covers-merge-sort_by p rs (Canonical-IsRange rs c))

format_range-ne-nil : (r : PortRange) → format_range r ≢ []
unfolding format_range
format_range-ne-nil r = ground (arith, itoa-ne-nil r.first)

format-append :
    (r : PortRange) (rs : List PortRange)
    → (t : Text) × (format_port_ranges (r ∷ rs) ≡ format_range r ++ t)
unfolding format_port_ranges join
format-append r [] = ([], sym (append-nil (format_range r)))
format-append r (s ∷ rs) = (b',' ∷ b' ' ∷ format_port_ranges (s ∷ rs), refl)

trim-Plain-ne-nil : (s t : Text) → s ≢ [] → All Plain s → trim_space (s ++ t) ≢ []
trim-Plain-ne-nil [] t h v = absurd (h refl)
trim-Plain-ne-nil (c ∷ s) t h v = trim_space-ne-nil c (s ++ t) v.0.0

format-ne-blank :
    (r : PortRange) (rs : List PortRange) → trim_space (format_port_ranges (r ∷ rs)) ≢ []
format-ne-blank r rs =
    let (t, e) = format-append r rs in
    rw e (trim-Plain-ne-nil (format_range r) t (format_range-ne-nil r) (format_range-Plain r))

parse_nonblank :
    (v : Text) (raw : List PortRange)
    → trim_space v ≢ []
    → parse_tokens (split v b',') ≡ ok raw
    → parse_port_ranges v ≡ ok (merge (sort_by first_less raw))
unfolding parse_port_ranges
parse_nonblank v raw h e = blank-or (trim_space v) h
  where
    blank-or :
        (t : Text)
        → t ≢ []
        → (elim t [
          | [] ↦ ok []
          | _ ↦ do out ← parse_tokens (split v b','); ok (merge (sort_by first_less out))
        ])
          ≡ ok (merge (sort_by first_less raw))
    blank-or [] h = absurd (h refl)
    blank-or (c ∷ t) h = rw e

-- A normal form is read back from its print.
pub parse-format :
    (rs : List PortRange) → Canonical rs → parse_port_ranges (format_port_ranges rs) ≡ ok rs
parse-format [] c = unfold parse_port_ranges format_port_ranges join trim_space in refl
parse-format (r ∷ rs) c =
    parse_nonblank (format_port_ranges (r ∷ rs)) (r ∷ rs) (format-ne-blank r rs)
      (rw (split-format r rs) (parse_tokens-format r rs (Canonical-IsRange (r ∷ rs) c)))
    ∙ ap ok (merge-sort_by-id (r ∷ rs) c)
