-- ===== src/Capture.antt =====
-- The captures of console, network, errors and intercepted requests, with their tools. Here is what
-- the tools share: the newest entries of a list. The bound of a slice that is out of range panics.
pub mod Console
pub mod Network
pub mod Errors
pub mod Intercept
use devbrowser.Prelude.{
  ℕ, suc, ◌+◌, ◌-◌, ◌^◌, ◌≤◌, ◌≡◌, refl, Bool, true, false, List, [], ◌∷◌, ltb, if◌then◌else◌, ℤ,
  pos, negsuc, eq_ℤ, ltb_ℤ, add64, Outcome, done, panic, arith, length, drop, take_last, sub_ℕ,
  Bool-cases, inl, inr,
}
use devbrowser.Text.{Text, codes}

-- `ErrBrowserNotOpen` of mcp-tools.go
abbrev pub browser_not_open : Text
browser_not_open =
    codes
      "browser is not open: start a project with the start_development tool (the browser opens automatically); if it was closed, call start_development again"

-- A limit of zero stands for the default.
abbrev pub or_default : ℤ → ℤ → ℤ
or_default default limit = if eq_ℤ limit (pos 0) then default else limit

abbrev negated : ℤ → ℤ
negated (pos n) = sub_ℕ 0 n
negated (negsuc n) = pos (suc n)

start : (n len : ℕ) → suc len ≤ 2 ^ 63 → n ≤ len → add64 (pos len) (negated (pos n)) ≡ pos (len - n)
start n len h le = ground arith

module _ {ℓ} {A : Type ℓ} where
  -- `xs[i:]`
  slice_from : ℤ → List A → Outcome (List A)
  slice_from (pos i) xs = if ltb (length xs) i then panic else done (drop i xs)
  slice_from (negsuc i) xs = panic

  -- `if len(xs) > limit { xs = xs[len(xs)-limit:] }`
  unfoldable pub newest : ℤ → List A → Outcome (List A)
  unfolding slice_from
  newest limit xs =
      if ltb_ℤ limit (pos (length xs))
      then slice_from (add64 (pos (length xs)) (negated limit)) xs
      else done xs

  pub newest-take_last :
      (n : ℕ) (xs : List A) → suc (length xs) ≤ 2 ^ 63 → newest (pos n) xs ≡ done (take_last n xs)
  unfolding newest
  newest-take_last n xs h = elim (Bool-cases (ltb_ℤ (pos n) (pos (length xs)))) [
    | inl more ↦
        let i = start n (length xs) h (ground arith) in
        let inside : ltb (length xs) (length xs - n) ≡ false = ground arith in rw (more, i, inside)
    | inr few ↦ let e : length xs - n ≡ 0 = ground arith in rw (few, e)
  ]

  pub newest_negative :
      (n : ℕ) (xs : List A)
      → suc (length xs) ≤ 2 ^ 63
      → suc n ≤ 2 ^ 63
      → newest (negsuc n) xs ≡ panic
  unfolding newest
  newest_negative n xs h g = ground arith
