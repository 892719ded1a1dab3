-- ===== src/Inspect/Numbers.antt =====
-- What captures, events and calls of the tool keep of the history (selection_capture.go,
-- mcp-selected.go). A call that clears, and a navigation, set the counter back to zero.
use devbrowser.Prelude.{
  ℕ, Bool, true, false, Option, none, some, List, [], ◌∷◌, if_either, Option_either, ℤ, pos, eq_ℤ,
  Result, ok, err,
}
use devbrowser.Selection.{
  Selection, SelectionSource, History, empty, inspect_pointer, alt_click, dev_tools_panel,
}
use devbrowser.Selection
use devbrowser.Selection.Numbers.{IsNumbered, push-IsNumbered, empty-IsNumbered}
use devbrowser.Browser.{DevBrowser}
use devbrowser.Session.{Chrome, Session, tell}
use devbrowser.Session.Open.{install_selection_capture}
use devbrowser.Inspect.{PageApi, Site}
use devbrowser.Inspect.Capture.{enqueue_node, dev_tools_panel_node_id}
use devbrowser.Inspect.Tool.{
  GetSelectedElementArgs, default_count, is_bad_count, panel_queued, panel_selected, poll_panel,
  with_count, cleared, answered, executed, on_context, get_selected_element,
}
use devbrowser.Inspect.Kept.{IsStable, capture-Holds, event-Holds}
use devbrowser.Inspect.Steps.{Step, gesture, called, step, run_steps}

abbrev HistoryIsNumbered : DevBrowser → Type 0
HistoryIsNumbered b = IsNumbered b.selections

history-stable : IsStable HistoryIsNumbered
history-stable = record {
  log-stable = λ b log v. v;
  push-stable = λ b s v. push-IsNumbered b.selections s v;
  clear-stable = λ b v. empty-IsNumbered;
}

module _ (api : PageApi) where
  open api use {World}

  abbrev pub Numbered : Site api → Type 0
  Numbered (s, w) = IsNumbered s.browser.selections

  module _ (chrome : Chrome) where
    abbrev Kept : {A : Type 0} → A × Site api → Type 0
    Kept (a, site) = Numbered site

    abbrev HistoryNumbered : Session → Type 0
    HistoryNumbered s = IsNumbered s.browser.selections

    queued-Numbered :
        (r : Bool × World) (s : Session)
        → IsNumbered s.browser.selections
        → Numbered (panel_queued api chrome r s)
    unfolding panel_queued
    queued-Numbered (true, w) s v =
        capture-Holds api HistoryIsNumbered history-stable dev_tools_panel (s, w) v
    queued-Numbered (false, w) s v = v

    panel-Numbered :
        (c : ℕ) (r : ℤ × World) (s : Session)
        → IsNumbered s.browser.selections
        → Numbered (panel_selected api chrome c r s)
    unfolding panel_selected
    panel-Numbered c (id, w) s v = if_either Numbered (eq_ℤ id (pos 0)) _ _ v (
        if_either Numbered (eq_ℤ id s.browser.last_panel_node_id) _ _ v
          (queued-Numbered (enqueue_node api c id w) _ v))

    with_count-Numbered :
        (c : ℕ) (count : ℤ) (site : Site api)
        → Numbered site
        → Numbered (with_count api chrome c count site).1
    unfolding with_count answered poll_panel
    with_count-Numbered c count (s, w) v =
        if_either Kept (is_bad_count count) _ _ v
          (panel-Numbered c (dev_tools_panel_node_id api s.browser.ctx w) s v)

    executed-Numbered :
        (c : ℕ) (args : Result GetSelectedElementArgs) (site : Site api)
        → Numbered site
        → Numbered (executed api chrome c args site).1
    unfolding executed cleared Selection.clear
    executed-Numbered c (err e) site v = v
    executed-Numbered c (ok args) (s, w) v =
        if_either Kept args.clear _ _ empty-IsNumbered
          (with_count-Numbered c (default_count args.count) (s, w) v)

    install-Numbered :
        (s : Session)
        → IsNumbered s.browser.selections
        → IsNumbered (install_selection_capture chrome s).browser.selections
    unfolding install_selection_capture tell
    install-Numbered s v =
        Option_either HistoryNumbered s.browser.ctx s _ v
          (λ c. if_either HistoryNumbered s.browser.selection_capture_installed _ _ v v)

    on_context-Numbered :
        (o : Option ℕ) (args : Result GetSelectedElementArgs) (site : Site api)
        → Numbered site
        → Numbered (on_context api chrome o args site).1
    unfolding on_context
    on_context-Numbered none args site v = v
    on_context-Numbered (some c) args (s, w) v = executed-Numbered c args _ (install-Numbered s v)

    tool-Numbered :
        (args : Result GetSelectedElementArgs) (site : Site api)
        → Numbered site
        → Numbered (get_selected_element api chrome args site).1
    unfolding get_selected_element
    tool-Numbered args (s, w) v =
        if_either Kept s.browser.is_open_flag _ _ (on_context-Numbered s.browser.ctx args (s, w) v)
          v

    -- If the history holds ten selections, or as many as its counter says where that is less, and
    -- they carry the consecutive numbers up to the counter, the oldest first, then that holds after
    -- any sequence of gestures on the page, navigations and calls of the tool too, whatever the page
    -- answers. So the counter is zero, and the next number is one, whenever the history is empty.
    pub run_steps-IsNumbered :
        (steps : List Step) (site : Site api)
        → Numbered site
        → Numbered (run_steps api chrome steps site)
    unfolding run_steps step
    run_steps-IsNumbered [] site v = v
    run_steps-IsNumbered (gesture c e ∷ steps) site v =
        run_steps-IsNumbered steps _ (event-Holds api HistoryIsNumbered history-stable c e site v)
    run_steps-IsNumbered (called args ∷ steps) site v =
        run_steps-IsNumbered steps _ (tool-Numbered args site v)
