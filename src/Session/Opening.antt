-- ===== src/Session/Opening.antt =====
-- The goroutine of `Open` step by step (OpenBrowser.go), and what other threads can do between its
-- steps. Each step reads the browser context again, as the code does.
pub mod Whole
pub mod Safety
pub mod Races
use devbrowser.Prelude.{
  ℕ, zero, suc, ◌≡◌, Bool, true, false, Option, none, some, List, [], ◌∷◌, ◌++◌, if◌then◌else◌,
  Outcome, done, panic, ◌>>=◌,
}
use devbrowser.Text.{Text, codes}
use devbrowser.Browser.{DevBrowser}
use devbrowser.Session.{Chrome, Session, start, navigate_ready, ask, update}
use devbrowser.Session.Context.{create_browser_context}
use devbrowser.Session.Emulation.{is_plain, apply_device_emulation}
use devbrowser.Session.Reload.{reload_page, process_pending_reload}
use devbrowser.Session.Open.{capture, emulation_failed, detected, concluded}

-- What the goroutine does next. `reporting` sends its error or its readiness to `Open`, which then
-- returns.
pub data Phase : Type 0 where
  detecting creating starting capturing navigating : Text → Phase
  restoring readying applying : Phase
  reporting returned : Option Text → Phase

module _ (chrome : Chrome) where
  -- A call of `chromedp` on a nil context panics, of the captures `initializeNetworkCapture`.
  abbrev pub on_ctx : Option ℕ → (ℕ → Phase × Session) → Outcome (Phase × Session)
  on_ctx none f = panic
  on_ctx (some c) f = done (f c)

  abbrev pub after_start : Text → Option Text × Session → Phase × Session
  after_start url (some e, s) = (reporting (some (codes "chrome failed to start: " ++ e)), s)
  after_start url (none, s) = (capturing url, s)

  abbrev pub after_navigation : Text → Option Text × Session → Phase × Session
  after_navigation url (some e, s) =
      (reporting (some (codes "error navigating to " ++ (url ++ (codes ": " ++ e)))), s)
  after_navigation url (none, s) = (restoring, s)

  abbrev pub returning : Outcome (Option Text × Session) → Outcome (Phase × Session)
  returning r = do (e, s) ← r; done (returned e, s)

  unfoldable pub advance : Phase → Session → Outcome (Phase × Session)
  advance (detecting url) s = do s' ← detected chrome s; done (creating url, s')
  advance (creating url) s = done (starting url, create_browser_context chrome s)
  advance (starting url) s = on_ctx s.browser.ctx (λ c. after_start url (ask chrome (start c) s))
  advance (capturing url) s = on_ctx s.browser.ctx (λ c. (navigating url, capture chrome c s))
  advance (navigating url) s =
      on_ctx s.browser.ctx (λ c. after_navigation url (ask chrome (navigate_ready c url) s))
  advance restoring s =
      if is_plain s.browser.viewport_mode
      then done (readying, s)
      else on_ctx s.browser.ctx
          (λ c. (readying, emulation_failed chrome (apply_device_emulation chrome c s)))
  advance readying s = done (applying, update (λ b. record b { ready = true }) s)
  advance applying s = done (reporting none, process_pending_reload chrome s)
  advance (reporting e) s = returning (concluded chrome (e, s))
  advance (returned e) s = done (returned e, s)

  -- So many steps of the goroutine, with nothing in between.
  unfoldable pub run_opening : ℕ → Phase → Session → Outcome (Phase × Session)
  unfolding advance
  run_opening zero p s = done (p, s)
  run_opening (suc n) p s = do (p', s') ← advance p s; run_opening n p' s'

  -- A step of the goroutine, or a reload that another thread asks for.
  pub data Turn : Phase → Session → Phase → Session → Type 0 where
    advancing :
        (p : Phase) (s : Session) (p' : Phase) (s' : Session)
        → advance p s ≡ done (p', s')
        → Turn p s p' s'
    reloading : (p : Phase) (s : Session) → Turn p s p (reload_page chrome s).1

  pub data Turns (p : Phase) (s : Session) : Phase → Session → Type 0 where
    at_first : Turns p s p s
    then_turn :
        (p1 : Phase) (s1 : Session) (p2 : Phase) (s2 : Session)
        → Turns p s p1 s1
        → Turn p1 s1 p2 s2
        → Turns p s p2 s2
