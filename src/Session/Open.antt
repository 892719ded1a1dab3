-- ===== src/Session/Open.antt =====
-- Opening (OpenBrowser.go). `Open` waits for the goroutine that starts Chrome, so the steps of
-- both are written in one sequence.
pub mod Laws
pub mod Safety
use devbrowser.Prelude.{
  ℕ, Bool, true, false, not, ◌&&◌, ◌||◌, Option, none, some, List, [], ◌∷◌, ◌++◌, if◌then◌else◌,
  Outcome, done, panic, ◌>>=◌, Result, ok, err,
}
use devbrowser.Text.{Text, codes, is_empty, text_eq}
use devbrowser.Browser.{DevBrowser}
use devbrowser.Geometry.{detect_monitor_size, start_with_detected_size}
use devbrowser.Session.{
  Chrome, Session, Call, start, listen_console, enable_console, listen_network, listen_errors,
  listen_intercept, listen_selection, install_selection, navigate, navigate_ready, tell, ask,
  update, logged, status_message, refresh_ui,
}
use devbrowser.Session.Close.{close_browser}
use devbrowser.Session.Context.{create_browser_context}
use devbrowser.Session.Emulation.{is_plain, apply_device_emulation}
use devbrowser.Session.Reload.{process_pending_reload}

module _ (chrome : Chrome) where
  -- The listeners of a context are installed once.
  unfoldable pub install_selection_capture : Session → Session
  unfolding tell
  install_selection_capture s = elim s.browser.ctx [
    | none ↦ s
    | some c ↦
        if s.browser.selection_capture_installed
        then s
        else tell (install_selection c) (
            tell (listen_selection c)
              (update (λ b. record b { selection_capture_installed = true }) s))
  ]

  abbrev warned : Option Text × Session → Session
  warned (none, s) = s
  warned (some e, s) =
      logged
        (codes "Warning: failed to initialize console capture:"
          ∷ (codes "initializeConsoleCapture: " ++ e)
          ∷ [])
        s

  -- `initializeConsoleCapture` empties the log, listens and enables the domains.
  initialize_console_capture : ℕ → Session → Session
  unfolding tell ask logged
  initialize_console_capture c s = warned (
      ask chrome (enable_console c)
        (tell (listen_console c) (update (λ b. record b { console_logs = [] }) s)))

  pub capture : ℕ → Session → Session
  unfolding initialize_console_capture install_selection_capture tell
  capture c s = install_selection_capture (
      tell (listen_intercept c)
        (tell (listen_errors c) (tell (listen_network c) (initialize_console_capture c s))))

  abbrev pub emulation_failed : Option Text × Session → Session
  emulation_failed (none, s) = s
  emulation_failed (some e, s) = logged ((codes "Failed to restore emulation: " ++ e) ∷ []) s

  unfoldable pub restore_emulation : ℕ → Session → Session
  unfolding apply_device_emulation logged
  restore_emulation c s =
      if is_plain s.browser.viewport_mode
      then s
      else emulation_failed (apply_device_emulation chrome c s)

  -- From the first navigation on: the error, if there was one.
  abbrev pub navigated : ℕ → Text → Option Text × Session → Option Text × Session
  navigated c url (some e, s) =
      (some (codes "error navigating to " ++ (url ++ (codes ": " ++ e))), s)
  navigated c url (none, s) = (
    none,
    process_pending_reload chrome (update (λ b. record b { ready = true }) (restore_emulation c s)),
  )

  -- From the start of Chrome on.
  abbrev pub started : ℕ → Text → Option Text × Session → Option Text × Session
  started c url (some e, s) = (some (codes "chrome failed to start: " ++ e), s)
  started c url (none, s) = navigated c url (ask chrome (navigate_ready c url) (capture c s))

  -- `chromedp.Run` on a nil context panics.
  unfoldable pub finish_on : Text → Option ℕ → Session → Outcome (Option Text × Session)
  unfolding ask capture restore_emulation process_pending_reload
  finish_on url none s = panic
  finish_on url (some c) s = done (started c url (ask chrome (start c) s))

  -- The goroutine of `Open`, behind the creation of the context.
  unfoldable pub finish : Text → Session → Outcome (Option Text × Session)
  unfolding finish_on
  finish url s = finish_on url s.browser.ctx s

  -- The size of the monitor is taken over, unless a size is configured.
  unfoldable pub detected : Session → Outcome Session
  unfolding detect_monitor_size start_with_detected_size
  detected s = if s.browser.size_configured then done s else do
    b ← detect_monitor_size chrome.monitor s.browser
    b' ← start_with_detected_size b
    done (record s { browser = b' })

  abbrev failed : Text → Outcome Session → Outcome (Option Text × Session)
  failed e closed = do s ← closed; done (some e, s)

  -- What `Open` does when the goroutine has sent its error or its readiness.
  pub concluded : Option Text × Session → Outcome (Option Text × Session)
  unfolding close_browser logged status_message refresh_ui
  concluded (some e, s) =
      failed e (close_browser chrome (logged (codes "Error opening DevBrowser: " ∷ e ∷ []) s))
  concluded (none, s) = do
    s' ← refresh_ui (logged (status_message s.browser ∷ []) s)
    done (none, s')

  unfoldable pub launch : Text → Session → Outcome (Option Text × Session)
  unfolding detected create_browser_context finish concluded
  launch url s = do s' ← detected s; r ← finish url (create_browser_context chrome s'); concluded r

  unfoldable pub navigate_to_url : Text → Session → Option Text × Session
  unfolding ask
  navigate_to_url url s = elim s.browser.ctx [
    | none ↦ (some (codes "context not initialized"), s)
    | some c ↦ ask chrome (navigate c url) s
  ]

  unfoldable pub is_alive : Session → Bool
  is_alive s = elim s.browser.ctx [
    | none ↦ false
    | some c ↦ s.browser.is_open_flag && not (chrome.is_done s.calls c)
  ]

  unfoldable pub open_url : Text → Session → Outcome (Option Text × Session)
  unfolding navigate_to_url is_alive logged launch
  open_url url s =
      let first = s.browser.first_call in
      let s' = update (λ b. record b { first_call = false; last_url = url }) s in
      if is_alive s
      then done (navigate_to_url url s')
      else if first && not s.browser.auto_start
      then done (none, s')
      else if s.browser.test_mode
      then done (
        none,
        logged (codes "Skipping browser open in TestMode" ∷ [])
            (update (λ b. record b { opened_once = true }) s'),
      )
      else launch url (update (λ b. record b { is_open_flag = true; opened_once = true }) s')

  abbrev pub url_of : Text → Bool → Text
  url_of port https =
      (if https then codes "https" else codes "http")
      ++ (codes "://localhost:" ++ (port ++ codes "/"))

  abbrev without_error : Outcome (Option Text × Session) → Outcome Session
  without_error r = do (_, s) ← r; done s

  unfoldable pub open_browser : Text → Bool → Session → Outcome Session
  unfolding open_url
  open_browser port https s =
      if is_empty port
      then done s
      else without_error (
          open_url (url_of port https)
            (update (λ b. record b { last_port = port; last_https = https }) s))
