-- ===== src/Inspect/Panel.antt =====
-- The node that is selected in a panel of DevTools (mcp-selected.go): when it is captured.
use devbrowser.Prelude.{
  ℕ, ◌≡◌, refl, sym, ◌∙◌, ◌⊎◌, inl, inr, Bool, true, false, List, [], ◌∷◌, if_either, Bool-cases, ℤ,
  pos, eq_ℤ, eq_ℤ_iff, ap,
}
use devbrowser.Browser.{DevBrowser}
use devbrowser.Selection.{dev_tools_panel}
use devbrowser.Session.{Chrome, Session}
use devbrowser.Inspect.{PageApi, Site}
use devbrowser.Inspect.Capture.{enqueue_node, dev_tools_panel_node_id}
use devbrowser.Inspect.Tool.{panel_queued, panel_selected, poll_panel}
use devbrowser.Inspect.Events.{SelectionEvent, on_selection_event}
use devbrowser.Inspect.Kept.{IsStable, Holds, capture-Holds, event-Holds}

-- The id that was last found in the panel.
abbrev LastIs : ℤ → DevBrowser → Type 0
LastIs id b = b.last_panel_node_id ≡ id

LastIs-stable : (id : ℤ) → IsStable (LastIs id)
LastIs-stable id = record {
  log-stable = λ b log v. v;
  push-stable = λ b s v. v;
  clear-stable = λ b v. v;
}

module _ (api : PageApi) where
  open api use {World}

  -- Gestures on the page, each with the context of its listener.
  abbrev pub run_gestures : List (ℕ × SelectionEvent) → Site api → Site api
  run_gestures [] site = site
  run_gestures ((c, e) ∷ es) site = run_gestures es (on_selection_event api c e site)

  run_gestures_lem :
      (id : ℤ) (es : List (ℕ × SelectionEvent)) (site : Site api)
      → Holds api (LastIs id) (LastIs-stable id) site
      → Holds api (LastIs id) (LastIs-stable id) (run_gestures es site)
  run_gestures_lem id [] site v = v
  run_gestures_lem id ((c, e) ∷ es) site v =
      run_gestures_lem id es _ (event-Holds api (LastIs id) (LastIs-stable id) c e site v)

  module _ (chrome : Chrome) where
    queued-last :
        (id : ℤ) (r : Bool × World) (s : Session)
        → s.browser.last_panel_node_id ≡ id
        → (panel_queued api chrome r s).0.browser.last_panel_node_id ≡ id
    unfolding panel_queued
    queued-last id (true, w) s v =
        capture-Holds api (LastIs id) (LastIs-stable id) dev_tools_panel (s, w) v
    queued-last id (false, w) s v = v

    -- A node that was found is remembered.
    panel_selected-last :
        (c : ℕ) (id : ℤ) (w : World) (s : Session)
        → (id ≡ pos 0) ⊎ ((panel_selected api chrome c (id, w) s).0.browser.last_panel_node_id ≡ id)
    unfolding panel_selected
    panel_selected-last c id w s = elim (Bool-cases (eq_ℤ id (pos 0))) [
      | inl z ↦ inl ((eq_ℤ_iff id (pos 0)).0 z)
      | inr nz ↦ inr (
          rw nz (
            if_either Remembered (eq_ℤ id s.browser.last_panel_node_id) _ _ refl
              (queued-last id (enqueue_node api c id w) _ refl)))
    ]
      where
        Remembered : Site api → Type 0
        Remembered site = site.0.browser.last_panel_node_id ≡ id

    -- A node that is remembered adds nothing.
    panel_selected-kept :
        (c : ℕ) (id : ℤ) (w : World) (s : Session)
        → (id ≡ pos 0) ⊎ (s.browser.last_panel_node_id ≡ id)
        → (panel_selected api chrome c (id, w) s).0.browser.selections ≡ s.browser.selections
    unfolding panel_selected
    panel_selected-kept c id w s (inl z) = rw ((eq_ℤ_iff id (pos 0)).1 z) refl
    panel_selected-kept c id w s (inr e) =
        rw ((eq_ℤ_iff id s.browser.last_panel_node_id).1 (sym e)) (
          if_either (λ (site : Site api). site.0.browser.selections ≡ s.browser.selections)
            (eq_ℤ id (pos 0)) _ _ refl refl)

    again :
        (c c' : ℕ) (id id' : ℤ) (w w' : World) (s : Session) (es : List (ℕ × SelectionEvent))
        (t : Session)
        → t ≡ (run_gestures es (panel_selected api chrome c (id, w) s)).0
        → id' ≡ id
        → (panel_selected api chrome c' (id', w') t).0.browser.selections ≡ t.browser.selections
    again c c' id id' w w' s es t e same =
        panel_selected-kept c' id' w' t (elim (panel_selected-last c id w s) [
          | inl z ↦ inl (same ∙ z)
          | inr m ↦
              inr
                (ap (λ x. x.browser.last_panel_node_id) e ∙ (run_gestures_lem id es _ m ∙ sym same))
        ])

    -- While DevTools goes on to show the same node as selected, the second look of the tool at its
    -- panel adds nothing, whatever was selected in the page between the two and whether or not the
    -- first could capture the node.
    pub poll_panel-again :
        (c c' : ℕ) (s : Session) (w : World) (es : List (ℕ × SelectionEvent)) (t : Session)
        (w' : World)
        → run_gestures es (poll_panel api chrome c (s, w)) ≡ (t, w')
        → (dev_tools_panel_node_id api t.browser.ctx w').0
          ≡ (dev_tools_panel_node_id api s.browser.ctx w).0
        → (poll_panel api chrome c' (t, w')).0.browser.selections ≡ t.browser.selections
    unfolding poll_panel
    poll_panel-again c c' s w es t w' e same = again c c' _ _ _ _ s es t (λ i. (sym e i).0) same
