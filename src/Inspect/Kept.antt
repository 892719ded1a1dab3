-- ===== src/Inspect/Kept.antt =====
-- What captures and events of the listener keep of the program's state (selection_capture.go): they
-- write to its log and to its history, and to nothing else.
use devbrowser.Prelude.{
  ℕ, Bool, true, false, Option, none, some, List, if_either, Option_either, pos, eq_ℤ,
}
use devbrowser.Text.{Text, is_empty, codes, text_eq}
use devbrowser.Browser.{DevBrowser, logger}
use devbrowser.Selection.{Selection, SelectionSource, History, empty, inspect_pointer, alt_click}
use devbrowser.Selection
use devbrowser.Session.{Session, logged}
use devbrowser.Inspect.{PageApi, Site, SelectedElementData}
use devbrowser.Inspect.Capture.{badged, captured_data, capture_selection, enqueue_node}
use devbrowser.Inspect.Events.{
  SelectionEvent, inspect_node_requested, binding_called, frame_navigated, forget_selections,
  pointer_queued, on_selection_event,
}

-- What survives a line in the log, a new selection and an emptied history.
pub record IsStable (P : DevBrowser → Type 0) : Type 0 where
  pub log-stable :
      (b : DevBrowser) (log : Option (List (List Text))) → P b → P (record b { log = log })
  pub push-stable :
      (b : DevBrowser) (s : Selection)
      → P b
      → P (record b { selections = (Selection.push b.selections s).0 })
  pub clear-stable : (b : DevBrowser) → P b → P (record b { selections = empty })

module _ (api : PageApi) (P : DevBrowser → Type 0) (stable : IsStable P) where
  open api use {World}

  abbrev pub Holds : Site api → Type 0
  Holds (s, w) = P s.browser

  badged-Holds :
      (c : ℕ) (source : SelectionSource) (d : SelectedElementData api.Float)
      (added : Option Selection) (site : Site api)
      → Holds site
      → Holds (badged api c source d added site)
  unfolding badged logged logger
  badged-Holds c source d none site v = v
  badged-Holds c source d (some added) (s, w) v =
      Option_either P s.browser.log _ _ v (λ calls. stable.log-stable s.browser _ v)

  captured-Holds :
      (c : ℕ) (source : SelectionSource) (d : Option (SelectedElementData api.Float))
      (site : Site api)
      → Holds site
      → Holds (captured_data api c source d site)
  unfolding captured_data
  captured-Holds c source none site v = v
  captured-Holds c source (some d) (s, w) v =
      badged-Holds c source d _ _ (stable.push-stable s.browser _ v)

  pub capture-Holds :
      (source : SelectionSource) (site : Site api)
      → Holds site
      → Holds (capture_selection api source site)
  unfolding capture_selection
  capture-Holds source (s, w) v =
      Option_either Holds s.browser.ctx _ _ v (λ c. captured-Holds c source _ _ v)

  pointer-Holds : (r : Bool × World) (s : Session) → P s.browser → Holds (pointer_queued api r s)
  unfolding pointer_queued
  pointer-Holds (true, w) s v = capture-Holds inspect_pointer (s, w) v
  pointer-Holds (false, w) s v = v

  pub event-Holds :
      (c : ℕ) (e : SelectionEvent) (site : Site api)
      → Holds site
      → Holds (on_selection_event api c e site)
  unfolding on_selection_event forget_selections Selection.clear
  event-Holds c (inspect_node_requested id) (s, w) v =
      if_either Holds (eq_ℤ id (pos 0)) _ _ v (pointer-Holds (enqueue_node api c id w) s v)
  event-Holds c (binding_called name) site v =
      if_either Holds (text_eq name (codes "__webtyp_mark")) _ _ (capture-Holds alt_click site v) v
  event-Holds c (frame_navigated none) site v = v
  event-Holds c (frame_navigated (some parent)) (s, w) v =
      if_either Holds (is_empty parent) _ _ (stable.clear-stable s.browser v) v
