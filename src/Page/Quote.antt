-- ===== src/Page/Quote.antt =====
-- `strconv.Quote`, which is also the verb `%q`: a text between double quotes, with the characters
-- escaped that are not printable.
pub mod Literal
use devbrowser.Prelude.{
  ℕ, zero, suc, ◌+◌, ◌-◌, ◌/◌, ◌%◌, Bool, ◌&&◌, ◌||◌, List, [], ◌∷◌, ◌++◌, ltb, leb, ◌==◌,
  if◌then◌else◌,
}
use devbrowser.Text.{Text}

abbrev pub backslash : ℕ
backslash = 92

abbrev hex_digit : ℕ → ℕ
hex_digit d = if ltb d 10 then b'0' + d else b'a' + (d - 10)

-- The last digits of a number, in base sixteen.
hex : ℕ → ℕ → Text
hex zero n = []
hex (suc k) n = hex k (n / 16) ++ hex_digit (n % 16) ∷ []

-- How a character is written that is not printable.
unfoldable pub control_escape : ℕ → Text
unfolding hex
control_escape c =
    if c == 7
    then backslash ∷ b'a' ∷ []
    else if c == 8
    then backslash ∷ b'b' ∷ []
    else if c == 12
    then backslash ∷ b'f' ∷ []
    else if c == 10
    then backslash ∷ b'n' ∷ []
    else if c == 13
    then backslash ∷ b'r' ∷ []
    else if c == 9
    then backslash ∷ b't' ∷ []
    else if c == 11
    then backslash ∷ b'v' ∷ []
    else if ltb c 32 || c == 127
    then backslash ∷ b'x' ∷ hex 2 c
    else if ltb c 65536
    then backslash ∷ b'u' ∷ hex 4 c
    else backslash ∷ b'U' ∷ hex 8 c

module _ (is_print : ℕ → Bool) where
  abbrev pub printable : ℕ → Bool
  printable c = if ltb c 128 then leb 32 c && ltb c 127 else is_print c

  unfoldable pub escape : ℕ → Text
  unfolding control_escape
  escape c =
      if c == b'"' || c == backslash
      then backslash ∷ c ∷ []
      else if printable c
      then c ∷ []
      else control_escape c

  unfoldable pub escaped : Text → Text
  unfolding escape
  escaped [] = []
  escaped (c ∷ s) = escape c ++ escaped s

  unfoldable pub quote : Text → Text
  unfolding escaped
  quote s = b'"' ∷ (escaped s ++ b'"' ∷ [])
