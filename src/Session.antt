-- ===== src/Session.antt =====
-- The browser session: what the program asks of Chrome, in order, and the state of a session
-- between those calls. The operations are in the modules below: closing (CloseBrowser.go), the
-- launch options and the browser context (context.go), opening (OpenBrowser.go) and reloading
-- (devbrowser.go).
pub mod Trace
pub mod Close
pub mod Context
pub mod Emulation
pub mod Reload
pub mod Open
pub mod Restart
pub mod Resize
pub mod Opening
pub mod Stale
pub mod Setters
use devbrowser.Prelude.{
  ℕ, ◌+◌, Bool, true, false, Option, none, some, List, [], ◌∷◌, ◌++◌, if◌then◌else◌, ℤ, Outcome,
  done, panic,
}
use devbrowser.Text.{Text, codes}
use devbrowser.Browser
use devbrowser.Browser.{DevBrowser}

-- One switch or option of the command line that Chrome is started with.
pub data Switch : Type 0 where
  flag : Text → Bool → Switch
  flag_text : Text → Text → Switch
  window_size : ℤ → ℤ → Switch
  user_data_dir : Text → Switch
  exec_path : Text → Switch

-- A call of `chromedp` or of a cancel function, on the browser context of that number.
pub data Call : Type 0 where
  new_context : ℕ → List Switch → Call
  close_gracefully cancel_allocator cancel_context : ℕ → Call
  start : ℕ → Call
  listen_console enable_console listen_network listen_errors listen_intercept : ℕ → Call
  listen_selection install_selection : ℕ → Call
  navigate navigate_ready : ℕ → Text → Call
  locate reload : ℕ → Call
  clear_overrides : ℕ → Call
  emulate_device : ℕ → Text → Call
  read_inner_size : ℕ → Call
  override_metrics : ℕ → ℤ → Text → Call

-- How Chrome and the code around the program answer, given all calls so far. `error` is the error
-- of a call; `has_browser` tells whether a context started its browser, `is_done` whether it was
-- cancelled. The rest is what other packages return: the translation of a log line, the launch
-- options that `chromedp` starts from, the names in its table of devices, the inner size of the
-- window, the monitor, the path of the executable, and, for the profile directory, whether another
-- process holds it and how marking its clean exit failed.
pub record Chrome : Type 0 where
  pub error : List Call → Call → Option Text
  pub has_browser : List Call → ℕ → Bool
  pub is_done : List Call → ℕ → Bool
  pub location : List Call → ℕ → Text
  pub inner_size : List Call → ℕ → ℤ × ℤ
  pub translate : List Text → Text
  pub default_switches : List Switch
  pub device_names : List Text
  pub monitor : ℤ × ℤ
  pub chrome_path : Text
  pub profile_locked : Text → Bool
  pub mark_error : Text → Option Text

pub record Session : Type 0 where
  pub browser : DevBrowser
  pub calls : List Call
  -- the number of the next browser context
  pub next_ctx : ℕ

-- A call whose answer is not looked at.
unfoldable pub tell : Call → Session → Session
tell c s = record s { calls = s.calls ++ c ∷ [] }

abbrev pub update : (DevBrowser → DevBrowser) → Session → Session
update f s = record s { browser = f s.browser }

unfoldable pub logged : List Text → Session → Session
unfolding Browser.logger
logged args s = update (Browser.logger args) s

module _ (chrome : Chrome) where
  -- A call, and its error.
  unfoldable pub ask : Call → Session → Option Text × Session
  unfolding tell
  ask c s = (chrome.error s.calls c, tell c s)

-- `StatusMessage` of tui.go
unfoldable pub status_message : DevBrowser → Text
status_message b =
    (if b.is_open_flag then codes "Open" else codes "Closed") ++ codes " | Shortcut B"

-- `UI.RefreshUI()`, which panics if there is no user interface.
unfoldable pub refresh_ui : Session → Outcome Session
refresh_ui s = elim s.browser.ui [
  | none ↦ panic
  | some n ↦ done (update (λ b. record b { ui = some (n + 1) }) s)
]
