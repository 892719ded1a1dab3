-- ===== src/Inspect/Errors.antt =====
-- The errors of the tool `browser_get_selected_element` (mcp-selected.go).
use devbrowser.Prelude.{
  ℕ, ◌≡◌, refl, Option, none, some, List, if_either, Option_either, Result, ok, err,
}
use devbrowser.Text.{Text}
use devbrowser.Session.{Chrome, Session, tell}
use devbrowser.Session.Open.{install_selection_capture}
use devbrowser.Inspect.{PageApi, Site}
use devbrowser.Inspect.Tool.{
  Block, GetSelectedElementArgs, default_count, is_bad_count, to_nat, poll_panel, with_count,
  cleared, answered, executed, on_context, get_selected_element,
}

module _ (api : PageApi) (chrome : Chrome) (s0 : Session) (w0 : api.World) where
  -- The history and the page of `s0` and `w0`, unless the call succeeded.
  UnlessOk : Result (List Block) × Site api → Type 0
  UnlessOk (ok blocks, site) = Unit
  UnlessOk (err e, (s, w)) = (s.browser.selections ≡ s0.browser.selections) × (w ≡ w0)

  SameHistory : Session → Type 0
  SameHistory s = s.browser.selections ≡ s0.browser.selections

  answered-UnlessOk : (n : ℕ) (site : Site api) → UnlessOk (answered api chrome n site)
  unfolding answered UnlessOk
  answered-UnlessOk n (s, w) = tt

  executed-UnlessOk :
      (c : ℕ) (args : Result GetSelectedElementArgs) (s : Session)
      → SameHistory s
      → UnlessOk (executed api chrome c args (s, w0))
  unfolding executed cleared with_count UnlessOk SameHistory
  executed-UnlessOk c (err e) s v = (v, refl)
  executed-UnlessOk c (ok args) s v = if_either UnlessOk args.clear _ _ tt (
      if_either UnlessOk (is_bad_count (default_count args.count)) _ _ (v, refl)
        (answered-UnlessOk (to_nat (default_count args.count)) (poll_panel api chrome c (s, w0))))

  install-SameHistory : SameHistory (install_selection_capture chrome s0)
  unfolding install_selection_capture tell SameHistory
  install-SameHistory =
      Option_either SameHistory s0.browser.ctx s0 _ refl
        (λ c. if_either SameHistory s0.browser.selection_capture_installed _ _ refl refl)

  on_context-UnlessOk :
      (o : Option ℕ) (args : Result GetSelectedElementArgs)
      → UnlessOk (on_context api chrome o args (s0, w0))
  unfolding on_context UnlessOk
  on_context-UnlessOk none args = (refl, refl)
  on_context-UnlessOk (some c) args = executed-UnlessOk c args _ install-SameHistory

  UnlessOk-err :
      (r : Result (List Block) × Site api) (e : Text)
      → UnlessOk r
      → r.0 ≡ err e
      → (r.1.0.browser.selections ≡ s0.browser.selections) × (r.1.1 ≡ w0)
  unfolding UnlessOk
  UnlessOk-err (ok blocks, site) e v h = absurd (cc)
  UnlessOk-err (err e', site) e v h = v

  -- A call of the tool that ends with an error, whatever the error is, leaves the history as it was;
  -- beyond the listeners that it may install, it has asked nothing of the page.
  pub get_selected_element-error :
      (args : Result GetSelectedElementArgs) (e : Text)
      → (get_selected_element api chrome args (s0, w0)).0 ≡ err e
      → ((get_selected_element api chrome args (s0, w0)).1.0.browser.selections
          ≡ s0.browser.selections)
        × ((get_selected_element api chrome args (s0, w0)).1.1 ≡ w0)
  unfolding get_selected_element UnlessOk
  get_selected_element-error args e h =
      UnlessOk-err _ e
        (if_either UnlessOk s0.browser.is_open_flag _ _ (on_context-UnlessOk s0.browser.ctx args)
          (refl, refl))
        h
