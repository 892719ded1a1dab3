-- ===== src/Text/Decimal.antt =====
-- `strconv.Itoa`, `strconv.FormatInt` in base ten and `strconv.Atoi`.
use devbrowser.Prelude.{
  ℕ, zero, suc, ◌+◌, ◌-◌, ◌*◌, ◌/◌, ◌%◌, ◌^◌, ◌≤◌, ◌<◌, ◌≡◌, ◌≢◌, refl, Bool, true, false, ◌&&◌,
  Option, none, some, [], ◌∷◌, arith, ◌==◌, ltb, leb, if◌then◌else◌, All, ℤ, pos, negsuc, InRange,
}
use devbrowser.Text.{Text, Lacks}

unfoldable pub is_digit : ℕ → Bool
is_digit c = leb b'0' c && leb c b'9'

abbrev pub IsDigit : ℕ → Type 0
IsDigit c = (b'0' ≤ c) × (c ≤ b'9')

-- Each round takes the last digit off `n`; the fuel is above `n`, which falls.
digits : ℕ → ℕ → Text → Text
digits zero n out = out
digits (suc fuel) n out = elim (n / 10 == 0) [
  | true ↦ (b'0' + n % 10) ∷ out
  | false ↦ digits fuel (n / 10) ((b'0' + n % 10) ∷ out)
]

pub format_nat : ℕ → Text
unfolding digits
format_nat n = digits (suc n) n []

unfoldable pub itoa : ℤ → Text
unfolding format_nat
itoa (pos n) = format_nat n
itoa (negsuc n) = b'-' ∷ format_nat (suc n)

-- The number that the digits spell behind `n`.
pub read_digits : Text → ℕ → Option ℕ
unfolding is_digit
read_digits [] n = some n
read_digits (c ∷ s) n = if is_digit c then read_digits s (n * 10 + (c - b'0')) else none

magnitude : Text → Option ℕ
unfolding read_digits
magnitude [] = none
magnitude (c ∷ s) = read_digits (c ∷ s) 0

-- Out of the range of `int64` is an error.
abbrev positive : Option ℕ → Option ℤ
positive none = none
positive (some n) = if ltb n (2 ^ 63) then some (pos n) else none

abbrev negative : Option ℕ → Option ℤ
negative none = none
negative (some zero) = some (pos 0)
negative (some (suc n)) = if ltb n (2 ^ 63) then some (negsuc n) else none

unfoldable pub atoi : Text → Option ℤ
unfolding magnitude
atoi [] = none
atoi (c ∷ s) =
    if c == b'-'
    then negative (magnitude s)
    else if c == b'+'
    then positive (magnitude s)
    else positive (magnitude (c ∷ s))

digits-IsDigit : (fuel n : ℕ) (out : Text) → All IsDigit out → All IsDigit (digits fuel n out)
unfolding digits
digits-IsDigit zero n out h = h
digits-IsDigit (suc fuel) n out h =
    ground (arith, digits-IsDigit fuel (n / 10) ((b'0' + n % 10) ∷ out))

pub format_nat-IsDigit : (n : ℕ) → All IsDigit (format_nat n)
unfolding format_nat
format_nat-IsDigit n = digits-IsDigit (suc n) n [] tt

read_digits-digits :
    (fuel n : ℕ) (out : Text) → n < fuel → read_digits (digits fuel n out) 0 ≡ read_digits out n
unfolding digits read_digits
read_digits-digits zero n out h = absurd (omega arith)
read_digits-digits (suc fuel) n out h =
    ground (arith, read_digits-digits fuel (n / 10) ((b'0' + n % 10) ∷ out))

pub read_digits-format_nat : (n : ℕ) → read_digits (format_nat n) 0 ≡ some n
unfolding format_nat read_digits
read_digits-format_nat n = ground (arith, read_digits-digits (suc n) n [])

digits-ne-nil : (fuel n : ℕ) (out : Text) → n < fuel → digits fuel n out ≢ []
unfolding digits
digits-ne-nil zero n out h = absurd (omega arith)
digits-ne-nil (suc fuel) n out h =
    ground (arith, digits-ne-nil fuel (n / 10) ((b'0' + n % 10) ∷ out))

pub format_nat-ne-nil : (n : ℕ) → format_nat n ≢ []
unfolding format_nat
format_nat-ne-nil n = digits-ne-nil (suc n) n [] (omega arith)

magnitude-format_nat : (n : ℕ) → magnitude (format_nat n) ≡ some n
magnitude-format_nat n = go (format_nat n) (format_nat-ne-nil n) (read_digits-format_nat n)
  where
    go : (s : Text) → s ≢ [] → read_digits s 0 ≡ some n → magnitude s ≡ some n
    go [] h e = absurd (h refl)
    go (c ∷ s) h e = unfold magnitude in e

atoi-unsigned :
    (s : Text) (n : ℕ) → All IsDigit s → s ≢ [] → magnitude s ≡ some n → atoi s ≡ positive (some n)
unfolding atoi
atoi-unsigned [] n h nonempty e = absurd (nonempty refl)
atoi-unsigned (c ∷ s) n h nonempty e = ground arith

-- Every `int` is read back from its decimal print.
pub atoi-itoa : (i : ℤ) → InRange i → atoi (itoa i) ≡ some i
unfolding itoa
atoi-itoa (pos n) h = ground (
  arith,
  atoi-unsigned (format_nat n) n (format_nat-IsDigit n) (format_nat-ne-nil n)
      (magnitude-format_nat n),
)
atoi-itoa (negsuc n) h = unfold atoi in ground (arith, magnitude-format_nat (suc n))

digits-Lacks : (c : ℕ) (s : Text) → is_digit c ≡ false → All IsDigit s → Lacks c s
unfolding is_digit
digits-Lacks c [] d h = tt
digits-Lacks c (x ∷ s) d (hx, h) = (ground arith, digits-Lacks c s d h)

-- What is read is a value of `int`.
pub atoi-InRange : (s : Text) (i : ℤ) → atoi s ≡ some i → InRange i
unfolding atoi
atoi-InRange [] i e = cc
atoi-InRange (c ∷ s) i e = ground arith

-- A print holds digits and a sign, and nothing else.
pub itoa-Lacks : (c : ℕ) (i : ℤ) → c ≢ b'-' → is_digit c ≡ false → Lacks c (itoa i)
unfolding itoa
itoa-Lacks c (pos n) h d = digits-Lacks c (format_nat n) d (format_nat-IsDigit n)
itoa-Lacks c (negsuc n) h d =
    (ground arith, digits-Lacks c (format_nat (suc n)) d (format_nat-IsDigit (suc n)))

-- The print of a number without a sign holds digits alone.
pub itoa_pos-Lacks : (c n : ℕ) → is_digit c ≡ false → Lacks c (itoa (pos n))
unfolding itoa
itoa_pos-Lacks c n d = digits-Lacks c (format_nat n) d (format_nat-IsDigit n)

pub itoa_pos-ne-nil : (n : ℕ) → itoa (pos n) ≢ []
unfolding itoa
itoa_pos-ne-nil n = format_nat-ne-nil n
