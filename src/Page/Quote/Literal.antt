-- ===== src/Page/Quote/Literal.antt =====
-- What a text literal of JavaScript reads back to, for the literals that `strconv.Quote` writes.
use devbrowser.Prelude.{
  ℕ, ◌≡◌, ◌≢◌, ap, ◌∙◌, Bool, true, false, ◌||◌, ◌⊎◌, inl, inr, Option, none, some, [], ◌∷◌, ◌++◌,
  append_assoc, All, arith, ◌==◌, ==_iff, if◌then◌else◌, Bool-cases,
}
use devbrowser.Text.{Text}
use devbrowser.Page.Quote.{backslash, printable, control_escape, escape, escaped, quote}

-- The character that an escape of one character stands for. Escapes with digits are not read.
abbrev unescaped : ℕ → Option ℕ
unescaped c =
    if c == b'n'
    then some 10
    else if c == b't'
    then some 9
    else if c == b'r'
    then some 13
    else if c == b'b'
    then some 8
    else if c == b'f'
    then some 12
    else if c == b'v'
    then some 11
    else if c == b'x' || c == b'u'
    then none
    else some c

abbrev put : Option ℕ → Option (Text × Text) → Option (Text × Text)
put none r = none
put (some c) none = none
put (some c) (some (s, rest)) = some (c ∷ s, rest)

-- The literal whose opening quote, which is the argument, was read: its text, and what follows its
-- closing quote. A line break ends it without a result.
pub literal : ℕ → Text → Option (Text × Text)
literal q [] = none
literal q (c ∷ []) = if c == q then some ([], []) else none
literal q (c ∷ d ∷ s) =
    let behind_escape = put (unescaped d) (literal q s) in
    let behind = put (some c) (literal q (d ∷ s)) in
    if c == q
    then some ([], d ∷ s)
    else if c == backslash
    then behind_escape
    else if c == 10 || c == 13
    then none
    else behind

-- A text literal at the beginning of a script, between quotes of either kind.
unfoldable pub text_literal : Text → Option (Text × Text)
unfolding literal
text_literal [] = none
text_literal (c ∷ s) = if c == b'"' || c == b'\'' then literal c s else none

-- A character that stands in a literal for itself.
abbrev pub IsBare : ℕ → ℕ → Type 0
IsBare q c = (c ≢ q) × (c ≢ backslash) × (c ≢ 10) × (c ≢ 13)

literal_bare : (q c : ℕ) (s : Text) → IsBare q c → literal q (c ∷ s) ≡ put (some c) (literal q s)
unfolding literal
literal_bare q c [] (h, h', h'', h''') = ground (arith, ==_iff c q)
literal_bare q c (d ∷ s) (h, h', h'', h''') =
    ground (arith, ==_iff c q, ==_iff c backslash, ==_iff c 10, ==_iff c 13)

literal_escape :
    (q e : ℕ) (s : Text)
    → q ≢ backslash
    → literal q (backslash ∷ e ∷ s) ≡ put (unescaped e) (literal q s)
unfolding literal
literal_escape q e s h = ground (arith, ==_iff backslash q)

-- A text of characters that stand for themselves is read up to the closing quote.
pub literal-append :
    (q : ℕ) (s rest : Text) → All (IsBare q) s → literal q (s ++ q ∷ rest) ≡ some (s, rest)
unfolding literal
literal-append q [] [] h = ground (arith, ==_iff q q)
literal-append q [] (d ∷ rest) h = ground (arith, ==_iff q q)
literal-append q (c ∷ s) rest (h, hs) =
    literal_bare q c (s ++ q ∷ rest) h ∙ ap (put (some c)) (literal-append q s rest hs)

-- A character that `strconv.Quote` writes so that JavaScript reads the same.
abbrev pub IsShared : (ℕ → Bool) → ℕ → Type 0
IsShared is_print c = (printable is_print c ≡ true) ⊎ ((c ≡ 9) ⊎ ((c ≡ 10) ⊎ (c ≡ 13)))

-- The three line and tab characters, as they are escaped.
literal-control_escape :
    (c : ℕ) (s : Text)
    → ((c ≡ 9) ⊎ ((c ≡ 10) ⊎ (c ≡ 13)))
    → literal b'"' (control_escape c ++ s) ≡ put (some c) (literal b'"' s)
unfolding control_escape
literal-control_escape c s (inl e) = rw e (literal_escape b'"' b't' s (omega arith))
literal-control_escape c s (inr (inl e)) = rw e (literal_escape b'"' b'n' s (omega arith))
literal-control_escape c s (inr (inr e)) = rw e (literal_escape b'"' b'r' s (omega arith))

-- The two characters that are escaped by themselves.
unescaped_self : (c : ℕ) → ((c == b'"') || (c == backslash)) ≡ true → unescaped c ≡ some c
unescaped_self c h = ground (arith, ==_iff c b'"', ==_iff c backslash)

module _ (is_print : ℕ → Bool) where
  printable-IsBare :
      (c : ℕ)
      → ((c == b'"') || (c == backslash)) ≡ false
      → printable is_print c ≡ true
      → IsBare b'"' c
  printable-IsBare c h p = (ground arith, ground arith, ground arith, ground arith)

  control_of :
      (c : ℕ) → printable is_print c ≡ false → IsShared is_print c → (c ≡ 9) ⊎ ((c ≡ 10) ⊎ (c ≡ 13))
  control_of c n (inl p) = cc
  control_of c n (inr e) = e

  literal-escape :
      (c : ℕ) (s : Text)
      → IsShared is_print c
      → literal b'"' (escape is_print c ++ s) ≡ put (some c) (literal b'"' s)
  unfolding escape
  literal-escape c s h = elim (Bool-cases ((c == b'"') || (c == backslash))) [
    | inl e ↦ rw e (
        literal_escape b'"' c s (omega arith)
        ∙ ap (λ u. put u (literal b'"' s)) (unescaped_self c e))
    | inr n ↦ elim (Bool-cases (printable is_print c)) [
      | inl p ↦ rw (n, p) (literal_bare b'"' c s (printable-IsBare c n p))
      | inr p ↦ rw (n, p) (literal-control_escape c s (control_of c p h))
    ]
  ]

  literal-escaped :
      (s rest : Text)
      → All (IsShared is_print) s
      → literal b'"' (escaped is_print s ++ b'"' ∷ rest) ≡ some (s, rest)
  unfolding escaped
  literal-escaped [] rest h = literal-append b'"' [] rest tt
  literal-escaped (c ∷ s) rest (h, hs) =
      ap (literal b'"') (append_assoc (escape is_print c) (escaped is_print s) (b'"' ∷ rest))
      ∙ (literal-escape c (escaped is_print s ++ b'"' ∷ rest) h
          ∙ ap (put (some c)) (literal-escaped s rest hs))

  -- A text of printable characters, tabs and line breaks that `strconv.Quote` wrote is read back
  -- as one literal, and what follows it is read behind it.
  pub text_literal-quote :
      (s rest : Text)
      → All (IsShared is_print) s
      → text_literal (quote is_print s ++ rest) ≡ some (s, rest)
  unfolding quote text_literal
  text_literal-quote s rest h =
      ap (literal b'"') (append_assoc (escaped is_print s) (b'"' ∷ []) rest)
      ∙ literal-escaped s rest h
