-- ===== src/Position/Parse.antt =====
-- What `getBrowserPositionAndSize` accepts, and what it returns.
use devbrowser.Prelude.{
  ℕ, ◌≡◌, ◌≢◌, refl, Option, none, some, List, [], ◌∷◌, ◌++◌, ℤ, ok, InRange, arith, All-append,
}
use devbrowser.Text.{Text, Lacks}
use devbrowser.Text.Split.{split, split-Lacks, split-append}
use devbrowser.Text.Decimal.{itoa, atoi, atoi-itoa, atoi-InRange, itoa-Lacks, is_digit}
use devbrowser.Text.Scan.{sprintf_pair}
use devbrowser.Position.{
  Parts, parse_numbers, parse_sizes, parse_halves, parse_current, get_browser_position_and_size,
}

itoa-Lacks_comma : (i : ℤ) → Lacks b',' (itoa i)
unfolding is_digit
itoa-Lacks_comma i = itoa-Lacks b',' i (omega arith) refl

itoa-Lacks_colon : (i : ℤ) → Lacks b':' (itoa i)
unfolding is_digit
itoa-Lacks_colon i = itoa-Lacks b':' i (omega arith) refl

sprintf_pair-Lacks : (w h : ℤ) → Lacks b':' (sprintf_pair w h)
unfolding sprintf_pair
sprintf_pair-Lacks w h =
    All-append (λ (c : ℕ). c ≢ b':') (itoa w) (b',' ∷ itoa h) (itoa-Lacks_colon w)
      (omega arith, itoa-Lacks_colon h)

split-sprintf_pair : (w h : ℤ) → split b',' (sprintf_pair w h) ≡ itoa w ∷ itoa h ∷ []
unfolding sprintf_pair
split-sprintf_pair w h = rw (
  split-append b',' (itoa w) (itoa h) (itoa-Lacks_comma w),
  split-Lacks b',' (itoa h) (itoa-Lacks_comma h),
)

parse_sizes_pair :
    (position : Text) (w h : ℤ)
    → InRange w
    → InRange h
    → parse_sizes position (itoa w ∷ itoa h ∷ []) ≡ ok (position, itoa w, itoa h)
unfolding parse_sizes
parse_sizes_pair position w h rw_ rh = ground (arith, atoi-itoa w rw_, atoi-itoa h rh)

-- A position of two coordinates that hold neither separator, and any size of two `int` values,
-- are read back from their print.
pub get_browser_position_and_size_print :
    (x y : Text) (w h : ℤ)
    → Lacks b',' x
    → Lacks b',' y
    → Lacks b':' x
    → Lacks b':' y
    → InRange w
    → InRange h
    → get_browser_position_and_size ((x ++ b',' ∷ y) ++ b':' ∷ sprintf_pair w h)
      ≡ ok (x ++ b',' ∷ y, itoa w, itoa h)
unfolding get_browser_position_and_size
get_browser_position_and_size_print x y w h cx cy nx ny rw_ rh =
    let position = x ++ b',' ∷ y in
    let no_colon : Lacks b':' position =
      All-append (λ (c : ℕ). c ≢ b':') x (b',' ∷ y) nx (omega arith, ny) in
    let halves : split b':' (position ++ b':' ∷ sprintf_pair w h)
        ≡ position ∷ sprintf_pair w h ∷ [] =
      rw (
        split-append b':' position (sprintf_pair w h) no_colon,
        split-Lacks b':' (sprintf_pair w h) (sprintf_pair-Lacks w h),
      ) in
    let coordinates : split b',' position ≡ x ∷ y ∷ [] =
      rw (split-append b',' x y cx, split-Lacks b',' y cy) in
    ground
      (arith, halves, coordinates, split-sprintf_pair w h, parse_sizes_pair position w h rw_ rh)

-- A result holds the prints of two values of `int`.
pub record IsParsed (parts : Parts) : Type 0 where
  pub w : ℤ
  pub h : ℤ
  pub width : parts.1 ≡ itoa w
  pub height : parts.2 ≡ itoa h
  pub w_range : InRange w
  pub h_range : InRange h

parse_numbers-IsParsed :
    (position width height : Text) (parts : Parts)
    → parse_numbers position (atoi width) (atoi height) ≡ ok parts
    → IsParsed parts
parse_numbers-IsParsed position width height parts e = go (atoi width) (atoi height) refl refl e
  where
    go :
        (w h : Option ℤ)
        → atoi width ≡ w
        → atoi height ≡ h
        → parse_numbers position w h ≡ ok parts
        → IsParsed parts
    go none h ew eh p = unfold parse_numbers in cc
    go (some w) none ew eh p = unfold parse_numbers in cc
    go (some w) (some h) ew eh p = record {
      w = w;
      h = h;
      width = unfold parse_numbers in cc;
      height = unfold parse_numbers in cc;
      w_range = atoi-InRange width w ew;
      h_range = atoi-InRange height h eh;
    }

parse_sizes-IsParsed :
    (position : Text) (sizes : List Text) (parts : Parts)
    → parse_sizes position sizes ≡ ok parts
    → IsParsed parts
unfolding parse_sizes
parse_sizes-IsParsed position [] parts e = cc
parse_sizes-IsParsed position (w ∷ []) parts e = cc
parse_sizes-IsParsed position (w ∷ h ∷ []) parts e = parse_numbers-IsParsed position w h parts e
parse_sizes-IsParsed position (w ∷ h ∷ x ∷ xs) parts e = cc

parse_halves-IsParsed :
    (xy : List Text) (position sizes : Text) (parts : Parts)
    → parse_halves xy position sizes ≡ ok parts
    → IsParsed parts
unfolding parse_halves
parse_halves-IsParsed [] position sizes parts e = cc
parse_halves-IsParsed (x ∷ []) position sizes parts e = cc
parse_halves-IsParsed (x ∷ y ∷ []) position sizes parts e =
    parse_sizes-IsParsed position (split b',' sizes) parts e
parse_halves-IsParsed (x ∷ y ∷ z ∷ zs) position sizes parts e = cc

parse_current-IsParsed :
    (current : List Text) (parts : Parts) → parse_current current ≡ ok parts → IsParsed parts
unfolding parse_current
parse_current-IsParsed [] parts e = cc
parse_current-IsParsed (x ∷ []) parts e = cc
parse_current-IsParsed (p ∷ s ∷ []) parts e = parse_halves-IsParsed (split b',' p) p s parts e
parse_current-IsParsed (x ∷ y ∷ z ∷ zs) parts e = cc

pub get_browser_position_and_size-IsParsed :
    (config : Text) (parts : Parts)
    → get_browser_position_and_size config ≡ ok parts
    → IsParsed parts
unfolding get_browser_position_and_size
get_browser_position_and_size-IsParsed config parts e =
    parse_current-IsParsed (split b':' config) parts e
