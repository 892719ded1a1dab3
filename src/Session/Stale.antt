-- ===== src/Session/Stale.antt =====
-- A browser that the user closes by hand against one that the program closes: what each leaves for
-- the next opening (devbrowser.go, CloseBrowser.go, OpenBrowser.go).
use devbrowser.Prelude.{
  ℕ, ◌≡◌, Bool, true, false, ◌&&◌, Option, none, some, List, [], ◌∷◌, ◌++◌, if◌then◌else◌, arith,
  ◌∙◌, Returns, Returns-map, append_assoc, append-nil,
}
use devbrowser.Browser.{DevBrowser}
use devbrowser.Session.{Chrome, Session, Call, reload, listen_selection, install_selection, update}
use devbrowser.Session.Close.{close_browser, browser_closed_by_user}
use devbrowser.Session.Close.Laws.{IsClosed, close_browser-IsClosed}
use devbrowser.Session.Context.{create_browser_context}
use devbrowser.Session.Context.Kept.{create_browser_context-IsNewContext}
use devbrowser.Session.Reload.{reload_page}
use devbrowser.Session.Reload.Gate.{reload_calls, reload_page-IsGated}
use devbrowser.Session.Open.{install_selection_capture}

-- `Open` sets the flag before its goroutine runs.
abbrev opening_again : Session → Session
opening_again s = update (λ b. record b { is_open_flag = true; opened_once = true }) s

reload_calls_on : Bool → Bool → Option ℕ → List Call
reload_calls_on ready is_open none = []
reload_calls_on ready is_open (some c) = if ready && is_open then reload c ∷ [] else []

reload_calls_lem : (b : DevBrowser) → reload_calls b ≡ reload_calls_on b.ready b.is_open_flag b.ctx
unfolding reload_calls_on
reload_calls_lem b = ground arith

module _ (chrome : Chrome) where
  -- The context that the next opening creates.
  abbrev pub created : Session → Session
  created s = create_browser_context chrome (opening_again s)

  reload_created :
      (s : Session) (ready : Bool)
      → s.browser.ready ≡ ready
      → (reload_page chrome (created s)).1.calls
        ≡ (created s).calls ++ (if ready then reload s.next_ctx ∷ [] else [])
  unfolding reload_calls_on
  reload_created s ready e =
      let new = create_browser_context-IsNewContext chrome (opening_again s) in
      let gate = reload_page-IsGated chrome (created s) in
      gate.calls
      ∙ rw (reload_calls_lem (created s).browser, new.ctx, new.same.ready, new.same.is_open, e)
          (ground arith)

  install_on : Bool → Option ℕ → List Call
  install_on installed none = []
  install_on installed (some c) =
      if installed then [] else listen_selection c ∷ install_selection c ∷ []

  calls-install_selection_capture :
      (s : Session)
      → (install_selection_capture chrome s).calls
        ≡ s.calls ++ install_on s.browser.selection_capture_installed s.browser.ctx
  unfolding install_selection_capture install_on
  calls-install_selection_capture s = grind (arith, append-nil, append_assoc)

  install_created :
      (s : Session) (installed : Bool)
      → s.browser.selection_capture_installed ≡ installed
      → (install_selection_capture chrome (created s)).calls
        ≡ (created s).calls ++ install_on installed (some s.next_ctx)
  install_created s installed e =
      let new = create_browser_context-IsNewContext chrome (opening_again s) in
      calls-install_selection_capture (created s) ∙ rw (new.ctx, new.same.installed, e)

  ready-browser_closed_by_user :
      (s : Session) → (browser_closed_by_user s).browser.ready ≡ s.browser.ready
  unfolding browser_closed_by_user
  ready-browser_closed_by_user s = ground arith

  installed-browser_closed_by_user :
      (s : Session)
      → (browser_closed_by_user s).browser.selection_capture_installed
        ≡ s.browser.selection_capture_installed
  unfolding browser_closed_by_user
  installed-browser_closed_by_user s = ground arith

  -- After the user closed a ready browser by hand, a reload that is asked for during the next
  -- opening, when the new context exists and Chrome was not started on it yet, is passed to that
  -- context at once.
  pub reload_created-browser_closed_by_user :
      (s : Session)
      → s.browser.ready ≡ true
      → (reload_page chrome (created (browser_closed_by_user s))).1.calls
        ≡ (created (browser_closed_by_user s)).calls
          ++ reload (browser_closed_by_user s).next_ctx ∷ []
  reload_created-browser_closed_by_user s ready =
      reload_created (browser_closed_by_user s) true (ready-browser_closed_by_user s ∙ ready)

  -- After `CloseBrowser`, with a user interface, a reload that is asked for during the next
  -- opening, when the new context exists and Chrome was not started on it yet, makes no call.
  pub reload_created-close_browser :
      (s : Session) (n : ℕ)
      → s.browser.ui ≡ some n
      → Returns
          (close_browser chrome s)
          (λ t. (reload_page chrome (created t)).1.calls ≡ (created t).calls)
  reload_created-close_browser s n ui =
      Returns-map (close_browser chrome s) (IsClosed chrome s)
        (λ t. (reload_page chrome (created t)).1.calls ≡ (created t).calls)
        (close_browser-IsClosed chrome s n ui)
        λ t closed. reload_created t false closed.ready ∙ append-nil (created t).calls

  -- After the user closed by hand a browser that captured selections, the next opening installs
  -- no capture in its new context.
  pub install_created-browser_closed_by_user :
      (s : Session)
      → s.browser.selection_capture_installed ≡ true
      → (install_selection_capture chrome (created (browser_closed_by_user s))).calls
        ≡ (created (browser_closed_by_user s)).calls
  unfolding install_on
  install_created-browser_closed_by_user s installed =
      install_created (browser_closed_by_user s) true
        (installed-browser_closed_by_user s ∙ installed)
      ∙ append-nil (created (browser_closed_by_user s)).calls

  -- After `CloseBrowser`, with a user interface, the next opening listens to the selections of its
  -- new context and installs their capture, in this order.
  pub install_created-close_browser :
      (s : Session) (n : ℕ)
      → s.browser.ui ≡ some n
      → Returns (close_browser chrome s) (λ t.
        (install_selection_capture chrome (created t)).calls
        ≡ (created t).calls ++ listen_selection t.next_ctx ∷ install_selection t.next_ctx ∷ [])
  unfolding install_on
  install_created-close_browser s n ui =
      Returns-map (close_browser chrome s) (IsClosed chrome s) _
        (close_browser-IsClosed chrome s n ui) λ t closed. install_created t false closed.installed
