-- ===== src/Text/Scan/RoundTrip.antt =====
-- `Sscanf` reads back what `Sprintf` wrote with the same format.
use devbrowser.Prelude.{
  suc, ◌≡◌, refl, ◌≢◌, some, false, [], ◌∷◌, ◌++◌, arith, All, ℤ, pos, negsuc, InRange, append-nil,
}
use devbrowser.Text.{Text}
use devbrowser.Text.Decimal.{
  IsDigit, is_digit, itoa, atoi-itoa, format_nat, format_nat-IsDigit, format_nat-ne-nil,
}
use devbrowser.Text.Scan.{
  span_digits, token, skip_space, scan_token, scan_int, scan_comma, sscanf_pair, sprintf_pair,
}

-- No number goes on into the text.
abbrev Stops : Text → Type 0
Stops [] = Unit
Stops (c ∷ s) = is_digit c ≡ false

span_digits-append :
    (s rest : Text) → All IsDigit s → Stops rest → span_digits (s ++ rest) ≡ (s, rest)
unfolding span_digits
span_digits-append [] [] h stops = refl
span_digits-append [] (c ∷ rest) h stops = ground arith
span_digits-append (c ∷ s) rest (h, hs) stops = ground (arith, span_digits-append s rest hs stops)

token-unsigned :
    (s rest : Text) → All IsDigit s → s ≢ [] → Stops rest → token (s ++ rest) ≡ (s, rest)
unfolding token
token-unsigned [] rest h nonempty stops = absurd (nonempty refl)
token-unsigned (c ∷ s) rest (h, hs) nonempty stops =
    ground (arith, span_digits-append (c ∷ s) rest (h, hs) stops)

token-negative :
    (s rest : Text) → All IsDigit s → Stops rest → token (b'-' ∷ s ++ rest) ≡ (b'-' ∷ s, rest)
unfolding token
token-negative s rest h stops = ground (arith, span_digits-append s rest h stops)

token-itoa : (i : ℤ) (rest : Text) → Stops rest → token (itoa i ++ rest) ≡ (itoa i, rest)
unfolding itoa
token-itoa (pos n) rest stops =
    token-unsigned (format_nat n) rest (format_nat-IsDigit n) (format_nat-ne-nil n) stops
token-itoa (negsuc n) rest stops =
    token-negative (format_nat (suc n)) rest (format_nat-IsDigit (suc n)) stops

skip_space-unsigned :
    (s rest : Text) → All IsDigit s → s ≢ [] → skip_space (s ++ rest) ≡ some (s ++ rest)
unfolding skip_space
skip_space-unsigned [] rest h nonempty = absurd (nonempty refl)
skip_space-unsigned (c ∷ s) rest (h, hs) nonempty = ground arith

skip_space-itoa : (i : ℤ) (rest : Text) → skip_space (itoa i ++ rest) ≡ some (itoa i ++ rest)
unfolding itoa
skip_space-itoa (pos n) rest =
    skip_space-unsigned (format_nat n) rest (format_nat-IsDigit n) (format_nat-ne-nil n)
skip_space-itoa (negsuc n) rest = unfold skip_space in refl

scan_int-itoa :
    (i : ℤ) (rest : Text) → InRange i → Stops rest → scan_int (itoa i ++ rest) ≡ some (i, rest)
unfolding scan_int scan_token
scan_int-itoa i rest h stops =
    ground (arith, skip_space-itoa i rest, token-itoa i rest stops, atoi-itoa i h)

scan_int-itoa_end : (i : ℤ) → InRange i → scan_int (itoa i) ≡ some (i, [])
scan_int-itoa_end i h = rw (append-nil (itoa i)) at (scan_int-itoa i [] h tt)

comma-Stops : (s : Text) → Stops (b',' ∷ s)
unfolding is_digit
comma-Stops s = refl

-- A pair of numbers is read back from its print.
pub sscanf_pair-sprintf_pair :
    (w h : ℤ) → InRange w → InRange h → sscanf_pair (sprintf_pair w h) ≡ some (w, h)
unfolding sscanf_pair sprintf_pair scan_comma
sscanf_pair-sprintf_pair w h hw hh =
    ground (arith, scan_int-itoa w (b',' ∷ itoa h) hw (comma-Stops _), scan_int-itoa_end h hh)
