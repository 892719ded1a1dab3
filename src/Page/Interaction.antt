-- ===== src/Page/Interaction.antt =====
-- The tools that act on an element (mcp-interaction.go).
use devbrowser.Prelude.{
  ℕ, suc, ◌-◌, ◌*◌, ◌%◌, ◌^◌, true, false, Option, none, some, [], ◌∷◌, ◌++◌, ltb, if◌then◌else◌, ℤ,
  pos, negsuc, sub_ℕ, ltb_ℤ, Result, ok, err,
}
use devbrowser.Text.{Text, codes, text_eq}
use devbrowser.Text.Decimal.{itoa}
use devbrowser.Capture.{or_default}
use devbrowser.Session.{logged}
use devbrowser.Models.Actions.{ClickElementArgs, FillElementArgs, SwipeElementArgs}
use devbrowser.Page.{
  source, center, moved, pressed, released, evaluate, wait_ready, wait_visible, click, send_keys,
  sleep, mouse, Scope, browser_ctx, timeout_ctx, Tab, Visit, Step, returned, ◌>>=◌, ◌>>◌, on_error,
  perform, act,
}
use devbrowser.Page.Quote.{quote}

-- A number of 64 bits, read as a signed one.
abbrev signed64 : ℕ → ℤ
signed64 n = if ltb n (2 ^ 63) then pos n else sub_ℕ n (2 ^ 64)

-- `time.Duration(ms) * time.Millisecond`, which wraps around.
unfoldable pub nanoseconds : ℤ → ℤ
nanoseconds (pos n) = signed64 (1000000 * n % 2 ^ 64)
nanoseconds (negsuc n) = signed64 ((2 ^ 64 - 1000000 * suc n % 2 ^ 64) % 2 ^ 64)

abbrev pub deadline : ℕ → ℤ → Scope
unfolding nanoseconds
deadline c timeout = timeout_ctx c (nanoseconds (or_default (pos 5000) timeout))

-- Where the swipe ends: the sum or the difference with the distance, on one axis.
abbrev pub end_of : (tab : Tab) → Text → ℤ → tab.Float × tab.Float → tab.Float × tab.Float
unfolding text_eq
end_of tab direction distance (x, y) =
    if text_eq direction (codes "up")
    then (x, tab.minus y distance)
    else if text_eq direction (codes "down")
    then (x, tab.plus y distance)
    else if text_eq direction (codes "left")
    then (tab.minus x distance, y)
    else if text_eq direction (codes "right")
    then (tab.plus x distance, y)
    else (x, y)

-- The selector as the swipe formats it in, with nothing escaped.
abbrev pub single_quoted : Text → Text
single_quoted selector = b'\'' ∷ (selector ++ b'\'' ∷ [])

module _ (tab : Tab) where
  open tab use {Float}

  unfoldable pub click_script : Text → Text
  unfolding quote
  click_script selector =
      codes "document.querySelector(" ++ (quote tab.is_print selector ++ codes ").click()")

  -- A click that failed is made by a script.
  unfoldable pub clicked :
      Scope → Text → Result (Unit {0}) × Visit Float → Result Text × Visit Float
  unfolding perform logged click_script
  clicked scope selector (ok _, v) = (ok (codes "Clicked element: " ++ selector), v)
  clicked scope selector (err e, v) =
      (do
        on_error (codes "JS click fallback failed for " ++ (selector ++ codes ": "))
            (act tab scope (evaluate (source (click_script selector)) false false))
        returned (codes "Clicked element (JS fallback): " ++ selector))
        (record v {
          session =
              logged
                ((codes "Standard click failed ("
                    ++ (e ++ (codes "), attempting JS fallback for: " ++ selector)))
                  ∷ [])
                v.session;
        })

  unfoldable pub click_or_script : Scope → Text → Step Float Text
  unfolding perform clicked
  click_or_script scope selector v = clicked scope selector (act tab scope (click selector) v)

  -- The error of the pause is not looked at.
  unfoldable pub paused : Scope → ℤ → Text → Step Float Text
  unfolding perform nanoseconds
  paused scope wait text v =
      if ltb_ℤ (pos 0) wait
      then (ok text, (act tab scope (sleep (nanoseconds wait)) v).1)
      else (ok text, v)

  unfoldable pub click_element : ℕ → ClickElementArgs → Step Float Text
  unfolding perform nanoseconds click_or_script paused
  click_element c args = do
    on_error (codes "Error waiting for element " ++ (args.selector ++ codes ": "))
        (act tab (deadline c args.timeout) (wait_ready args.selector))
    text ← click_or_script (deadline c args.timeout) args.selector
    paused (deadline c args.timeout) (or_default (pos 100) args.wait_after) text

  unfoldable pub fill_element : ℕ → FillElementArgs → Step Float Text
  unfolding perform nanoseconds
  fill_element c args = do
    on_error (codes "Error filling element " ++ (args.selector ++ codes ": ")) (do
      act tab (deadline c args.timeout) (wait_visible args.selector)
      act tab (deadline c args.timeout) (send_keys args.selector args.value)
      act tab (deadline c args.timeout)
          (sleep (nanoseconds (or_default (pos 100) args.wait_after))))
    returned (
        codes "Filled element "
        ++ (args.selector ++ (codes " with '" ++ (args.value ++ codes "'"))))

  -- A coordinate that the script did not return is zero.
  abbrev pub start_of : Option Float × Option Float → Float × Float
  start_of (none, none) = (tab.zero_float, tab.zero_float)
  start_of (none, some y) = (tab.zero_float, y)
  start_of (some x, none) = (x, tab.zero_float)
  start_of (some x, some y) = (x, y)

  -- The mouse is moved to the start, pressed, moved to the end and released.
  unfoldable pub dragged : Scope → Float × Float → Float × Float → Step Float (Unit {0})
  unfolding perform
  dragged scope (x, y) (x', y') = do
    act tab scope (mouse moved x y false 0)
    act tab scope (mouse pressed x y true 1)
    act tab scope (mouse moved x' y' true 0)
    act tab scope (mouse released x' y' true 1)

  unfoldable pub swiped : ℕ → SwipeElementArgs → Step Float (Unit {0})
  unfolding perform dragged
  swiped c args = do
    act tab (browser_ctx c) (wait_visible args.selector)
    point ←
        perform tab tab.center_of (browser_ctx c)
          (evaluate (center (single_quoted args.selector)) false false)
    dragged (browser_ctx c) (start_of point)
        (end_of tab args.direction args.distance (start_of point))

  unfoldable pub swipe_element : ℕ → SwipeElementArgs → Step Float Text
  unfolding swiped itoa
  swipe_element c args = do
    on_error (codes "Error swiping element " ++ (args.selector ++ codes ": ")) (swiped c args)
    returned (
        codes "Swiped "
        ++ (args.direction
            ++ (codes " on "
                ++ (args.selector ++ (codes " by " ++ (itoa args.distance ++ codes "px"))))))
