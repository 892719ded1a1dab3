-- ===== src/Position.antt =====
-- The window's position and size as one text, such as `1930,0:800,600` (position.go).
pub mod Parse
pub mod Apply
use devbrowser.Prelude.{ℕ, Option, none, some, List, [], ◌∷◌, ◌++◌, ℤ, Result, ok, err}
use devbrowser.Text.{Text, codes}
use devbrowser.Text.Split.{split}
use devbrowser.Text.Decimal.{itoa, atoi}
use devbrowser.Browser.{DevBrowser}
use devbrowser.Config.{Store, save_config}

-- Position, width and height.
abbrev pub Parts : Type 0
Parts = Text × Text × Text

abbrev bad_format : Result Parts
bad_format = err (codes "browse config must be in the format: 1930,0:800,600")

abbrev bad_position : Result Parts
bad_position = err (codes "position must be with commas e.g.: 1930,0:800,600")

abbrev bad_size : Result Parts
bad_size = err (codes "width and height must be with commas e.g.: 1930,0:800,600")

parse_numbers : Text → Option ℤ → Option ℤ → Result Parts
parse_numbers position none height = err (codes "width must be an integer number")
parse_numbers position (some w) none = err (codes "height must be an integer number")
parse_numbers position (some w) (some h) = ok (position, itoa w, itoa h)

parse_sizes : Text → List Text → Result Parts
unfolding parse_numbers atoi
parse_sizes position (width ∷ height ∷ []) = parse_numbers position (atoi width) (atoi height)
parse_sizes position _ = bad_size

-- The first list is the split position.
parse_halves : List Text → Text → Text → Result Parts
unfolding parse_sizes split
parse_halves (x ∷ y ∷ []) position sizes = parse_sizes position (split b',' sizes)
parse_halves _ position sizes = bad_position

parse_current : List Text → Result Parts
unfolding parse_halves
parse_current (position ∷ sizes ∷ []) = parse_halves (split b',' position) position sizes
parse_current _ = bad_format

unfoldable pub get_browser_position_and_size : Text → Result Parts
unfolding parse_current
get_browser_position_and_size config = parse_current (split b':' config)

abbrev pub this : Text
this = codes "setBrowserPositionAndSize"

-- The text of `errors.Join(this, err)`.
abbrev pub joined : Text → Text
joined e = this ++ (codes "\n" ++ e)

-- What `strconv.Atoi` returns beside an error, and the error's message, are an argument.
module _ (store : Store) (atoi_failure : Text → ℤ × Text) where
  open store use {State}

  abbrev pub saved : DevBrowser → Option Text × State → Option Text × DevBrowser × State
  saved b (none, s) = (none, b, s)
  saved b (some e, s) = (some (joined e), b, s)

  -- A failed `Atoi` is assigned too.
  set_height : DevBrowser → Text → Option ℤ → State → Option Text × DevBrowser × State
  unfolding save_config
  set_height b height none s =
      let (h, e) = atoi_failure height in (some (joined e), record b { height = h }, s)
  set_height b height (some h) s =
      let b' = record b { height = h } in saved b' (save_config store b' s)

  set_width : DevBrowser → Text → Text → Option ℤ → State → Option Text × DevBrowser × State
  unfolding set_height
  set_width b width height none s =
      let (w, e) = atoi_failure width in (some (joined e), record b { width = w }, s)
  set_width b width height (some w) s = set_height (record b { width = w }) height (atoi height) s

  set_parts : DevBrowser → Result Parts → State → Option Text × DevBrowser × State
  unfolding set_width
  set_parts b (err e) s = (some (joined e), b, s)
  set_parts b (ok (position, width, height)) s =
      set_width (record b { position = position }) width height (atoi width) s

  unfoldable pub set_browser_position_and_size :
      Text → DevBrowser → State → Option Text × DevBrowser × State
  unfolding set_parts get_browser_position_and_size
  set_browser_position_and_size config b s = set_parts b (get_browser_position_and_size config) s
