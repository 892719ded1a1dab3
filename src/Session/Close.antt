-- ===== src/Session/Close.antt =====
-- Closing (CloseBrowser.go), and the window that the user closes (devbrowser.go).
pub mod Laws
pub mod Safety
use devbrowser.Prelude.{
  ℕ, Bool, true, false, Option, none, some, List, [], ◌∷◌, ℤ, pos, if◌then◌else◌, Outcome, done,
  ◌>>=◌, ◌+◌,
}
use devbrowser.Text.{Text, codes}
use devbrowser.Browser.{DevBrowser}
use devbrowser.Session.{
  Chrome, Session, Call, close_gracefully, cancel_allocator, cancel_context, tell, update, logged,
  status_message, refresh_ui,
}

abbrev pub flags_reset : DevBrowser → DevBrowser
flags_reset b = record b {
  is_open_flag = false;
  ready = false;
  pending_reload = false;
  selection_capture_installed = false;
  last_panel_node_id = pos 0;
}

module _ (chrome : Chrome) where
  -- Only a context that started Chrome can close it gracefully.
  pub close_ctx : Session → Session
  unfolding tell
  close_ctx s = elim s.browser.ctx [
    | none ↦ s
    | some c ↦
        update (λ b. record b { ctx = none })
          (if chrome.has_browser s.calls c then tell (close_gracefully c) s else s)
  ]

  pub close_allocator : Session → Session
  unfolding tell
  close_allocator s = elim s.browser.alloc_cancel [
    | none ↦ s
    | some c ↦ update (λ b. record b { alloc_cancel = none }) (tell (cancel_allocator c) s)
  ]

  pub close_cancel : Session → Session
  unfolding tell
  close_cancel s = elim s.browser.cancel [
    | none ↦ s
    | some c ↦ update (λ b. record b { cancel = none }) (tell (cancel_context c) s)
  ]

  unfoldable pub shutdown_chrome : Session → Session
  unfolding close_ctx close_allocator close_cancel
  shutdown_chrome s = close_cancel (close_allocator (close_ctx s))

  unfoldable pub close_browser : Session → Outcome Session
  unfolding shutdown_chrome logged status_message refresh_ui
  close_browser s =
      let s' = shutdown_chrome (update flags_reset s) in
      if s.browser.is_open_flag
      then refresh_ui (logged (status_message s'.browser ∷ []) s')
      else done s'

-- `monitorBrowserClose`, once the context that it watches is done.
unfoldable pub browser_closed_by_user : Session → Session
unfolding logged
browser_closed_by_user s =
    if s.browser.is_open_flag
    then update
        (λ b. record b {
          is_open_flag = false;
          ctx = none;
          cancel = none;
          ui = elim b.ui [ none ↦ none | some n ↦ some (n + 1) ];
        })
        (logged (codes "Browser closed by user" ∷ []) s)
    else s
