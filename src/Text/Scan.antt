-- ===== src/Text/Scan.antt =====
-- `fmt.Sscanf` with the format `%d,%d` (and `fmt.Sprintf` with it): what stands behind the second
-- number is left unread.
pub mod RoundTrip
use devbrowser.Prelude.{
  ℕ, Bool, ◌||◌, ◌&&◌, Option, none, some, [], ◌∷◌, ◌++◌, ◌==◌, leb, if◌then◌else◌, ℤ,
}
use devbrowser.Text.{Text}
use devbrowser.Text.Decimal.{is_digit, atoi, itoa}

-- The white space of `fmt`, line feeds apart.
is_space : ℕ → Bool
is_space c =
    c == 0x9
    || leb 0xb c && leb c 0xd
    || c == 0x20
    || c == 0x85
    || c == 0xa0
    || c == 0x1680
    || leb 0x2000 c && leb c 0x200a
    || leb 0x2028 c && leb c 0x2029
    || c == 0x202f
    || c == 0x205f
    || c == 0x3000

-- A line feed in the input is an error.
skip_space : Text → Option Text
unfolding is_space
skip_space [] = some []
skip_space (c ∷ s) =
    let rest = skip_space s in if c == 0xa then none else if is_space c then rest else some (c ∷ s)

-- The digits at the front, and what stands behind them.
span_digits : Text → Text × Text
unfolding is_digit
span_digits [] = ([], [])
span_digits (c ∷ s) =
    let (ds, rest) = span_digits s in if is_digit c then (c ∷ ds, rest) else ([], c ∷ s)

-- The token of a `%d`: an optional sign and the digits.
token : Text → Text × Text
unfolding span_digits
token [] = ([], [])
token (c ∷ s) =
    let (ds, rest) = span_digits s in
    if c == b'-' || c == b'+' then (c ∷ ds, rest) else span_digits (c ∷ s)

abbrev behind : Option ℤ → Text → Option (ℤ × Text)
behind none rest = none
behind (some i) rest = some (i, rest)

scan_token : Text → Option (ℤ × Text)
unfolding token
scan_token s = let (word, rest) = token s in behind (atoi word) rest

scan_int : Text → Option (ℤ × Text)
unfolding scan_token skip_space
scan_int s = elim (skip_space s) [ none ↦ none | some t ↦ scan_token t ]

scan_comma : Text → Option Text
scan_comma [] = none
scan_comma (c ∷ s) = if c == b',' then some s else none

abbrev second : ℤ → Option Text → Option (ℤ × ℤ)
unfolding scan_int
second w none = none
second w (some s) = elim (scan_int s) [ none ↦ none | some (h, _) ↦ some (w, h) ]

unfoldable pub sscanf_pair : Text → Option (ℤ × ℤ)
unfolding scan_int scan_comma
sscanf_pair s = elim (scan_int s) [ none ↦ none | some (w, rest) ↦ second w (scan_comma rest) ]

unfoldable pub sprintf_pair : ℤ → ℤ → Text
sprintf_pair w h = itoa w ++ b',' ∷ itoa h
