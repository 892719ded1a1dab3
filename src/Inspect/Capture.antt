-- ===== src/Inspect/Capture.antt =====
-- The capture of a selected element (selection_capture.go).
use devbrowser.Prelude.{
  ℕ, Bool, true, false, ◌&&◌, Option, none, some, List, [], ◌∷◌, ◌++◌, if◌then◌else◌, ℤ, pos, eq_ℤ,
  Result, ok, err,
}
use devbrowser.Text.{Text, codes, contains}
use devbrowser.Text.Decimal.{itoa}
use devbrowser.Text.Sequences.{behind_last}
use devbrowser.Selection.{Selection, SelectionSource, History, source_text}
use devbrowser.Selection
use devbrowser.Session.{update, logged}
use devbrowser.Inspect.{PageApi, Site, SelectedElementData, Target}
use devbrowser.Inspect.Report.{format_selected_element_report}

module _ (api : PageApi) where
  open api use {World, Float}

  abbrev enqueued : Option Text × World → Bool × World
  enqueued (none, w) = (true, w)
  enqueued (some e, w) = (false, w)

  -- The object of the node, which is none if its id is empty.
  abbrev enqueue_resolved : ℕ → Result Text × World → Bool × World
  enqueue_resolved c (err e, w) = (false, w)
  enqueue_resolved c (ok [], w) = (false, w)
  enqueue_resolved c (ok (x ∷ object), w) = enqueued (api.enqueue_object c (x ∷ object) w)

  unfoldable pub enqueue_node : ℕ → ℤ → World → Bool × World
  enqueue_node c id w = enqueue_resolved c (api.resolve_node c id w)

  abbrev picture : Result (List ℕ) → Option (List ℕ)
  picture (err e) = none
  picture (ok []) = none
  picture (ok (b ∷ bytes)) = some (b ∷ bytes)

  -- The outline is taken away again in every case.
  unfoldable pub capture_highlighted :
      ℕ → SelectedElementData Float → World → Option (List ℕ) × World
  capture_highlighted c d w =
      if api.is_positive d.clip_width && api.is_positive d.clip_height
      then (let (image, w') = api.clip_screenshot c d (api.apply_highlight c w) in
          (picture image, api.remove_highlight c w'))
      else (none, w)

  abbrev pub decoded : Option (SelectedElementData Float) → Option (SelectedElementData Float)
  decoded none = none
  decoded (some d) = if d.has_selection then some d else none

  -- The next queued element, if there is one and its description can be decoded.
  abbrev pub selection_data : Result Text → Option (SelectedElementData Float)
  selection_data (err e) = none
  selection_data (ok raw) = decoded (api.decode_data raw)

  tail_of : Text → Text
  unfolding behind_last
  tail_of crumbs = elim (behind_last (codes " > ") crumbs) [ none ↦ crumbs | some t ↦ t ]

  -- The badge and the log line of a selection that was added.
  unfoldable pub badged :
      ℕ → SelectionSource → SelectedElementData Float → Option Selection → Site api → Site api
  unfolding tail_of itoa logged
  badged c source d none (s, w) = (s, w)
  badged c source d (some added) (s, w) = (
    logged
        (api.translate (
            codes "Selection"
            ∷ (codes "#" ++ itoa (pos added.seq))
            ∷ codes "captured"
            ∷ codes "("
            ∷ source_text source
            ∷ codes "):"
            ∷ tail_of d.breadcrumbs
            ∷ [])
          ∷ [])
        s,
    api.show_badge c added.seq w,
  )

  -- From the description of the element on.
  unfoldable pub captured_data :
      ℕ → SelectionSource → Option (SelectedElementData Float) → Site api → Site api
  unfolding capture_highlighted format_selected_element_report Selection.push badged
  captured_data c source none (s, w) = (s, w)
  captured_data c source (some d) (s, w) =
      let (node, w1) = api.target_node c w in
      let (image, w2) = capture_highlighted c d w1 in
      let (url, w3) = api.location c w2 in
      let (history, added) = Selection.push s.browser.selections (record {
        seq = 0;
        source = source;
        at = api.now w3;
        page_url = url;
        node_id = node;
        report = format_selected_element_report api d;
        screenshot = image;
      }) in
      badged c source d added (update (λ b. record b { selections = history }) s, w3)

  unfoldable pub capture_selection : SelectionSource → Site api → Site api
  unfolding captured_data
  capture_selection source (s, w) = elim s.browser.ctx [
    | none ↦ (s, w)
    | some c ↦
        let (raw, w') = api.next_selected c w in captured_data c source (selection_data raw) (s, w')
  ]

  -- What a DevTools window says is selected there; 0 is nothing.
  abbrev panel_id : Text → ℤ
  panel_id [] = pos 0
  panel_id (x ∷ raw) = elim (api.decode_panel (x ∷ raw)) [ none ↦ pos 0 | some id ↦ id ]

  -- The first DevTools window with a selected node.
  search_panels : ℕ → List Target → World → ℤ × World
  unfolding contains
  search_panels c [] w = (pos 0, w)
  search_panels c (t ∷ ts) w =
      let (raw, w') = api.panel_node c t.id w in
      let found = search_panels c ts w' in
      let skipped = search_panels c ts w in
      if contains t.url (codes "devtools")
      then (if eq_ℤ (panel_id raw) (pos 0) then found else (panel_id raw, w'))
      else skipped

  unfoldable pub dev_tools_panel_node_id : Option ℕ → World → ℤ × World
  unfolding search_panels
  dev_tools_panel_node_id none w = (pos 0, w)
  dev_tools_panel_node_id (some c) w =
      let (targets, w') = api.targets c w in search_panels c targets w'
