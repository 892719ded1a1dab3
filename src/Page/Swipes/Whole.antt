-- ===== src/Page/Swipes/Whole.antt =====
-- The mouse events of `browser_swipe_element` (mcp-interaction.go), and the button that it leaves
-- pressed when the drag fails.
use devbrowser.Prelude.{
  ap, ◌∙◌, append_assoc, sym, ℕ, ◌≡◌, refl, true, false, Option, none, some, List, [], ◌∷◌, ◌++◌,
  Result, ok, err,
}
use mathlib.Core.Path.{subst}
use devbrowser.Text.{Text, codes}
use devbrowser.Text.Decimal.{itoa}
use devbrowser.Models.Actions.{SwipeElementArgs}
use devbrowser.Page.{
  evaluate, wait_visible, center, Command, mouse, moved, browser_ctx, Action, Tab, Visit, after,
  with_prefix, returned, perform, title, location, wait_ready, click, send_keys, sleep, pressed,
  released,
}
use devbrowser.Page.Interaction.{swipe_element, swiped, dragged, start_of, end_of, single_quoted}
use devbrowser.Page.Swipes.{
  IsPrefix, gesture, mouse_commands, held_after, behind-IsPrefix, dragged-IsPrefix,
}

module _ (tab : Tab) where
  open tab use {Float}

  abbrev wait_action : ℕ → SwipeElementArgs → Action Float
  wait_action c args = record { scope = browser_ctx c; command = wait_visible args.selector }

  abbrev center_action : ℕ → SwipeElementArgs → Action Float
  center_action c args = record {
    scope = browser_ctx c;
    command = evaluate (center (single_quoted args.selector)) false false;
  }

  -- Where the swipe starts: the centre of the element once it is visible.
  abbrev pub swipe_start : ℕ → SwipeElementArgs → Visit Float → Float × Float
  swipe_start c args v =
      start_of tab (tab.center_of (v.actions ++ wait_action c args ∷ []) (center_action c args))

  abbrev pub swipe_end : ℕ → SwipeElementArgs → Visit Float → Float × Float
  swipe_end c args v = end_of tab args.direction args.distance (swipe_start c args v)

  swiped-IsPrefix :
      (c : ℕ) (args : SwipeElementArgs) (v : Visit Float)
      → IsPrefix Float
          (Unit {0})
          v
          (gesture (swipe_start c args v) (swipe_end c args v))
          (swiped tab c args v)
  unfolding swiped perform
  swiped-IsPrefix c args v =
      let w : Visit Float = record v { actions = v.actions ++ wait_action c args ∷ [] } in
      behind-IsPrefix tab (browser_ctx c) (tab.error v.actions (wait_action c args)) tt
        (wait_visible args.selector) _ _ v refl
        (behind-IsPrefix tab (browser_ctx c) (tab.error w.actions (center_action c args))
          (tab.center_of w.actions (center_action c args))
          (evaluate (center (single_quoted args.selector)) false false) _
          (λ point.
            dragged tab (browser_ctx c) (start_of tab point)
              (end_of tab args.direction args.distance (start_of tab point)))
          w refl
          (dragged-IsPrefix tab (browser_ctx c) (swipe_start c args v) (swipe_end c args v) _))

  finished-IsPrefix :
      (v : Visit Float) (cs : List (Command Float)) (pre text : Text)
      (p : Result (Unit {0}) × Visit Float)
      → IsPrefix Float (Unit {0}) v cs p
      → IsPrefix Float Text v cs (after (with_prefix pre p) (λ _. returned text))
  finished-IsPrefix v cs pre text (ok _, w) g = record {
    made = g.made;
    moves = g.moves;
    whole = g.whole;
  }
  finished-IsPrefix v cs pre text (err e, w) g = record {
    made = g.made;
    moves = g.moves;
    whole = g.whole;
  }

  -- The events of the mouse that a swipe makes are a beginning of one drag, in its order: the mouse
  -- is moved to the start, the left button is pressed there, the mouse is moved to the end, and the
  -- button is released there; if the tool succeeds, it made all four. The start is the centre that
  -- the page gives once the element is visible, with zero for a coordinate that it does not give.
  pub swipe_element-IsPrefix :
      (c : ℕ) (args : SwipeElementArgs) (v : Visit Float)
      → IsPrefix Float Text v
          (gesture (swipe_start c args v) (swipe_end c args v))
          (swipe_element tab c args v)
  unfolding swipe_element
  swipe_element-IsPrefix c args v =
      finished-IsPrefix v _ (codes "Error swiping element " ++ (args.selector ++ codes ": "))
        (codes "Swiped "
          ++ (args.direction
              ++ (codes " on "
                  ++ (args.selector ++ (codes " by " ++ (itoa args.distance ++ codes "px"))))))
        _ (swiped-IsPrefix c args v)

-- The page fails at a move of the mouse with the button held, and nowhere else.
abbrev pub held_move_error : {F : Type 0} → Text → Command F → Option Text
held_move_error e (mouse moved x y true n) = some e
held_move_error e (mouse moved x y false n) = none
held_move_error e (mouse pressed x y b n) = none
held_move_error e (mouse released x y b n) = none
held_move_error e title = none
held_move_error e location = none
held_move_error e (evaluate s a b) = none
held_move_error e (wait_ready s) = none
held_move_error e (wait_visible s) = none
held_move_error e (click s) = none
held_move_error e (send_keys s k) = none
held_move_error e (sleep d) = none

-- The tool ended with that error, and the button is pressed.
abbrev EndsHeld : (tab : Tab) → ℕ → SwipeElementArgs → Visit tab.Float → Text → Type 0
EndsHeld tab c args v e =
    ((swipe_element tab c args v).0
      ≡ err (codes "Error swiping element " ++ (args.selector ++ (codes ": " ++ e))))
    × (added : List (Action tab.Float)) × ((swipe_element tab c args v).1.actions
        ≡ v.actions ++ added)
    × (held_after false (mouse_commands added) ≡ true)

-- The first three events of a drag.
abbrev begun : {F : Type 0} → ℕ → F × F → F × F → List (Action F)
begun c (x, y) (x', y') =
    record { scope = browser_ctx c; command = mouse moved x y false 0 }
    ∷ record { scope = browser_ctx c; command = mouse pressed x y true 1 }
    ∷ record { scope = browser_ctx c; command = mouse moved x' y' true 0 }
    ∷ []

one_by_one :
    {A : Type 0} (l : List A) (a b c d e : A)
    → ((((l ++ a ∷ []) ++ b ∷ []) ++ c ∷ []) ++ d ∷ []) ++ e ∷ [] ≡ l ++ a ∷ b ∷ c ∷ d ∷ e ∷ []
one_by_one l a b c d e = simp append_assoc

failing_move-EndsHeld :
    (tab : Tab) (c : ℕ) (args : SwipeElementArgs) (v : Visit tab.Float) (e : Text)
    → EndsHeld (record tab { error = λ log a. held_move_error e a.command }) c args v e
unfolding swipe_element swiped dragged perform mouse_commands
failing_move-EndsHeld tab c args v e =
    let tab' : Tab = record tab { error = λ log a. held_move_error e a.command } in
    (
      ap err (
          append_assoc (codes "Error swiping element ") (args.selector ++ codes ": ") e
          ∙ ap (λ s. codes "Error swiping element " ++ s)
              (append_assoc args.selector (codes ": ") e)),
      wait_action tab' c args
          ∷ center_action tab' c args
          ∷ begun c (swipe_start tab' c args v) (swipe_end tab' c args v),
      one_by_one v.actions _ _ _ _ _,
      refl,
    )

-- If the move with the pressed button fails, and nothing else does, the tool ends with that error
-- and the button is still pressed: it is never released.
pub swipe_element-held :
    (tab : Tab) (c : ℕ) (args : SwipeElementArgs) (v : Visit tab.Float) (e : Text)
    → ((log : List (Action tab.Float)) (a : Action tab.Float)
        → tab.error log a ≡ held_move_error e a.command)
    → ((swipe_element tab c args v).0
        ≡ err (codes "Error swiping element " ++ (args.selector ++ (codes ": " ++ e))))
      × (added : List (Action tab.Float)) × ((swipe_element tab c args v).1.actions
          ≡ v.actions ++ added)
      × (held_after false (mouse_commands added) ≡ true)
swipe_element-held tab c args v e h =
    let same : (λ log a. held_move_error e a.command) ≡ tab.error = λ i log a. sym (h log a) i in
    subst (λ f. EndsHeld (record tab { error = f }) c args v e) same
      (failing_move-EndsHeld tab c args v e)
