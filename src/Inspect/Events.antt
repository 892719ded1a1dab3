-- ===== src/Inspect/Events.antt =====
-- The listener of selections (`installSelectionCapture` of selection_capture.go). The goroutine
-- that an event starts is one step: `captureMu` lets one capture run at a time.
use devbrowser.Prelude.{ℕ, Bool, true, false, Option, none, some, if◌then◌else◌, ℤ, pos, eq_ℤ}
use devbrowser.Text.{Text, codes, is_empty, text_eq}
use devbrowser.Selection.{inspect_pointer, alt_click}
use devbrowser.Selection
use devbrowser.Session.{Session, update}
use devbrowser.Inspect.{PageApi, Site}
use devbrowser.Inspect.Capture.{enqueue_node, capture_selection}

-- The events that the listener takes: a node of the inspect pointer, a call of a binding, and a
-- navigation of a frame, with the id of the parent if there is a frame.
pub data SelectionEvent : Type 0 where
  inspect_node_requested : ℤ → SelectionEvent
  binding_called : Text → SelectionEvent
  frame_navigated : Option Text → SelectionEvent

unfoldable pub forget_selections : Session → Session
unfolding Selection.clear
forget_selections s =
    let (history, n) = Selection.clear s.browser.selections in
    update (λ b. record b { selections = history }) s

module _ (api : PageApi) where
  open api use {World}

  unfoldable pub pointer_queued : Bool × World → Session → Site api
  unfolding capture_selection
  pointer_queued (true, w) s = capture_selection api inspect_pointer (s, w)
  pointer_queued (false, w) s = (s, w)

  -- A listener keeps the context `c` that it was installed on.
  unfoldable pub on_selection_event : ℕ → SelectionEvent → Site api → Site api
  unfolding pointer_queued enqueue_node capture_selection forget_selections
  on_selection_event c (inspect_node_requested id) (s, w) =
      let queued = pointer_queued (enqueue_node api c id w) s in
      if eq_ℤ id (pos 0) then (s, w) else queued
  on_selection_event c (binding_called name) site =
      let captured = capture_selection api alt_click site in
      if text_eq name (codes "__webtyp_mark") then captured else site
  on_selection_event c (frame_navigated none) site = site
  on_selection_event c (frame_navigated (some parent)) (s, w) =
      if is_empty parent then (forget_selections s, w) else (s, w)
