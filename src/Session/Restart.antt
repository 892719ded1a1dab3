-- ===== src/Session/Restart.antt =====
-- The restart of the browser, its toggle (tui.go), and the calls that the rest of the program makes on a session one
-- after the other (devbrowser.go).
pub mod Safety
use devbrowser.Prelude.{
  ℕ, ◌≡◌, Bool, true, false, not, Option, none, some, List, [], ◌∷◌, if◌then◌else◌, ◌&&◌, ◌==◌,
  Outcome, done, panic, Returns, Returns-bind, ◌>>=◌, refl, inl, inr, Bool-cases, arith,
}
use devbrowser.Text.{Text, codes, is_empty}
use devbrowser.Browser.{DevBrowser}
use devbrowser.Session.{Chrome, Session, Call, update, logged}
use devbrowser.Session.Trace.{IsAttended, safe, is_set}
use devbrowser.Session.Close.{close_browser, browser_closed_by_user}
use devbrowser.Session.Close.Safety.{close_browser-IsSafe}
use devbrowser.Session.Reload.{reload_page}
use devbrowser.Session.Reload.Laws.{IsSafe, Quiet-IsSafe, update-IsSafe, reload_page-IsSafe}
use devbrowser.Session.Trace.{logged-Quiet}
use devbrowser.Session.Open.{open_url, open_browser}
use devbrowser.Session.Open.Safety.{IsSafeEnd, open_url-IsSafe}

module _ (chrome : Chrome) where
  abbrev pub without_session : Outcome Session → Outcome (Option Text × Session)
  without_session r = do s ← r; done (none, s)

  reopen : Text → Text → Bool → Session → Outcome (Option Text × Session)
  unfolding open_url open_browser
  reopen url port https s =
      if not (is_empty url)
      then open_url chrome url s
      else without_session (open_browser chrome port https s)

  -- `RestartBrowser`: the last URL is opened again, or the last port if there is no URL.
  unfoldable pub restart_browser : Session → Outcome (Option Text × Session)
  unfolding close_browser reopen
  restart_browser s =
      let port = s.browser.last_port in
      let url = s.browser.last_url in
      if is_empty url && is_empty port
      then done (none, s)
      else do s' ← close_browser chrome s; reopen url port s.browser.last_https s'

  unfoldable pub browser_start_url_changed : Session → Outcome (Option Text × Session)
  unfolding restart_browser
  browser_start_url_changed s =
      if not s.browser.is_open_flag then done (none, s) else restart_browser s

  toggled : Session → Outcome Session
  unfolding close_browser open_browser
  toggled s =
      if s.browser.is_open_flag
      then close_browser chrome s
      else open_browser chrome s.browser.last_port s.browser.last_https s

  -- `Execute` of tui.go: the swap of `Busy`, and its reset behind the call.
  unfoldable pub execute : Session → Outcome Session
  unfolding toggled
  execute s =
      if s.browser.busy == 0
      then (do
        t ← toggled (update (λ b. record b { busy = 1 }) s)
        done (update (λ b. record b { busy = 0 }) t))
      else done s

  -- One call after the other. A call that panics has no step.
  pub data Step : Session → Session → Type 0 where
    opening :
        (url : Text) (s t : Session) (e : Option Text)
        → open_url chrome url s ≡ done (e, t)
        → Step s t
    opening_port :
        (port : Text) (https : Bool) (s t : Session)
        → open_browser chrome port https s ≡ done t
        → Step s t
    closing : (s t : Session) → close_browser chrome s ≡ done t → Step s t
    reloading : (s : Session) → Step s (reload_page chrome s).1
    restarting : (s t : Session) (e : Option Text) → restart_browser s ≡ done (e, t) → Step s t
    start_url_changing :
        (s t : Session) (e : Option Text) → browser_start_url_changed s ≡ done (e, t) → Step s t
    toggling : (s t : Session) → execute s ≡ done t → Step s t
    closing_by_user : (s : Session) → Step s (browser_closed_by_user s)

  pub data Reach (first : Session) : Session → Type 0 where
    at_first : Reach first first
    then_step : (s t : Session) → Reach first s → Step s t → Reach first t
