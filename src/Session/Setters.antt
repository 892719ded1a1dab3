-- ===== src/Session/Setters.antt =====
-- The setters of the browser and what it tells of itself (devbrowser.go, tui.go).
use devbrowser.Prelude.{
  ◌≡◌, refl, Bool, true, false, not, ◌&&◌, Option, none, List, [], ◌∷◌, if◌then◌else◌, Outcome,
  Returns, if_either, Option_either,
}
use devbrowser.Text.{Text, codes}
use devbrowser.Browser.{DevBrowser, logger}
use devbrowser.Session.{Chrome, Session, update, logged}
use devbrowser.Session.Open.{open_url, is_alive}

-- A logger, which has written nothing yet, or nil.
unfoldable pub set_log : Option (List (List Text)) → DevBrowser → DevBrowser
set_log log b = record b { log = log }

unfoldable pub set_headless : Bool → DevBrowser → DevBrowser
set_headless headless b = record b { headless = headless }

unfoldable pub set_test_mode : Bool → DevBrowser → DevBrowser
set_test_mode test_mode b = record b { test_mode = test_mode }

unfoldable pub label : DevBrowser → Text
label b = if b.is_open_flag then codes "Close Browser" else codes "Open Browser"

unfoldable pub is_open : DevBrowser → Bool
is_open b = b.is_open_flag

unfoldable pub is_ready : DevBrowser → Bool
is_ready b = b.ready

unfoldable pub is_pending_reload : DevBrowser → Bool
is_pending_reload b = b.pending_reload

-- What the browser tells of itself.
abbrev pub TellsAlike : DevBrowser → DevBrowser → Type 0
TellsAlike b b' = (is_open b' ≡ is_open b) × (is_ready b' ≡ is_ready b) × (label b' ≡ label b)

logger-TellsAlike :
    (m : List Text) (b b' : DevBrowser) → TellsAlike b b' → TellsAlike b (logger m b')
unfolding logger is_open is_ready label
logger-TellsAlike m b b' h = Option_either (TellsAlike b) b'.log _ _ h (λ calls. h)

-- `Open` returned no error, called nothing of Chrome, and left what the browser tells of itself.
abbrev pub StaysQuiet : Session → Option Text × Session → Type 0
StaysQuiet s p = (p.0 ≡ none) × (p.1.calls ≡ s.calls) × TellsAlike s.browser p.1.browser

module _ (chrome : Chrome) (url : Text) (s : Session) where
  abbrev testing : Session
  unfolding set_test_mode
  testing = update (set_test_mode true) s

  -- In test mode, `Open` of a browser that is not alive calls nothing of Chrome, on its first call and
  -- on any later one, with and without auto-start: it returns no error, the browser is not marked as
  -- open, and its readiness and its label stay as they were.
  pub open_url-set_test_mode :
      is_alive chrome s ≡ false
      → Returns (open_url chrome url (update (set_test_mode true) s)) (StaysQuiet s)
  unfolding open_url is_alive set_test_mode is_open is_ready label logged
  open_url-set_test_mode h =
      let s' : Session = update (set_test_mode true) s in
      let not_alive : is_alive chrome s' ≡ false = h in
      let asked : Session = update (λ b. record b { first_call = false; last_url = url }) s' in
      rw not_alive (
        if_either (λ (r : Outcome (Option Text × Session)). Returns r (StaysQuiet s))
          (s.browser.first_call && not s.browser.auto_start) _ _ (refl, refl, (refl, refl, refl))
          (
            refl,
            refl,
            logger-TellsAlike (codes "Skipping browser open in TestMode" ∷ []) s.browser
                (record asked.browser { opened_once = true }) (refl, refl, refl),
          ))
