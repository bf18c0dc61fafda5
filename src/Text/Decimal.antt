-- ===== src/Text/Decimal.antt =====
-- `strconv.Itoa` and `strconv.Atoi`, on numbers that a 64-bit `int` holds.
use purewrt.Prelude.{
  ℕ, zero, suc, ◌+◌, ◌-◌, ◌*◌, ◌/◌, ◌%◌, ◌^◌, ◌≤◌, ◌<◌, ◌≡◌, ◌≢◌, refl, [], ◌∷◌, Bool, true, ◌&&◌,
  Option, none, some, arith, ltb, leb, ◌==◌, if◌then◌else◌,
}
use purewrt.Prelude.Int.{ℤ, pos, negsuc}
use purewrt.Text.{Text}

abbrev pub is_digit : ℕ → Bool
is_digit c = leb b'0' c && leb c b'9'

-- The digits of `n` in front of `out`; each round takes one digit, so `suc n` rounds are enough.
pub digits : ℕ → ℕ → Text → Text
digits zero n out = out
digits (suc f) n out =
    let rest = digits f (n / 10) ((b'0' + n % 10) ∷ out) in
    if ltb n 10 then (b'0' + n) ∷ out else rest

unfoldable pub itoa : ℕ → Text
unfolding digits
itoa n = digits (suc n) n []

-- The number that digits spell behind `n`; `none` on any other code point.
pub scan : Text → ℕ → Option ℕ
scan [] n = some n
scan (c ∷ s) n = if is_digit c then scan s (n * 10 + (c - b'0')) else none

abbrev pub max_int : ℕ
max_int = 2 ^ 63 - 1

-- Out of the range of `int` is an error, as is a text with no digit.
pub positive : Option ℕ → Option ℤ
positive none = none
positive (some n) = if leb n max_int then some (pos n) else none

pub negative : Option ℕ → Option ℤ
negative none = none
negative (some zero) = some (pos 0)
negative (some (suc n)) = if leb n max_int then some (negsuc n) else none

pub magnitude : Text → Option ℕ
unfolding scan
magnitude [] = none
magnitude (c ∷ s) = scan (c ∷ s) 0

unfoldable pub atoi : Text → Option ℤ
unfolding positive negative magnitude
atoi [] = none
atoi (c ∷ s) =
    if c == b'-'
    then negative (magnitude s)
    else if c == b'+'
    then positive (magnitude s)
    else positive (magnitude (c ∷ s))

abbrev pub AllDigits : Text → Type 0
AllDigits [] = Unit
AllDigits (c ∷ s) = (is_digit c ≡ true) × AllDigits s

pub digits-AllDigits : (f n : ℕ) (out : Text) → AllDigits out → AllDigits (digits f n out)
unfolding digits
digits-AllDigits zero n out h = h
digits-AllDigits (suc f) n out h =
    ground (arith, digits-AllDigits f (n / 10) ((b'0' + n % 10) ∷ out))

pub digits-ne-nil : (f n : ℕ) (out : Text) → out ≢ [] → digits f n out ≢ []
unfolding digits
digits-ne-nil zero n out h = h
digits-ne-nil (suc f) n out h = ground (arith, digits-ne-nil f (n / 10) ((b'0' + n % 10) ∷ out))

scan-digits : (f n : ℕ) (out : Text) → n < f → scan (digits f n out) 0 ≡ scan out n
unfolding digits scan
scan-digits zero n out h = absurd (omega arith)
scan-digits (suc f) n out h = ground (arith, scan-digits f (n / 10) ((b'0' + n % 10) ∷ out))

pub itoa-AllDigits : (n : ℕ) → AllDigits (itoa n)
unfolding itoa
itoa-AllDigits n = digits-AllDigits (suc n) n [] tt

pub itoa-ne-nil : (n : ℕ) → itoa n ≢ []
unfolding itoa
itoa-ne-nil n = ground (arith, digits-ne-nil n (n / 10) ((b'0' + n % 10) ∷ []))

atoi_digits :
    (s : Text) (n : ℕ)
    → s ≢ []
    → AllDigits s
    → scan s 0 ≡ some n
    → n ≤ max_int
    → atoi s ≡ some (pos n)
unfolding atoi
atoi_digits [] n h d e b = absurd (h refl)
atoi_digits (c ∷ s) n h d e b = ground arith

-- Every `int` that is not negative is read back from its decimal print.
pub atoi-itoa : (n : ℕ) → n ≤ max_int → atoi (itoa n) ≡ some (pos n)
atoi-itoa n h =
    atoi_digits (itoa n) n (itoa-ne-nil n) (itoa-AllDigits n)
      (unfold itoa scan in scan-digits (suc n) n [] (omega arith)) h

-- `strconv.ParseUint(s, 10, 32)`: digits only, within 32 bits.
unfoldable pub parse_uint32 : Text → Option ℕ
unfolding magnitude
parse_uint32 s = elim (magnitude s) [
  | none ↦ none
  | some n ↦ if ltb n (2 ^ 32) then some n else none
]
