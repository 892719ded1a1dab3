-- ===== src/Page/Navigation.antt =====
-- The tool `browser_navigate` (mcp-navigation.go) and `CurrentURL` (devbrowser.go). The addresses of
-- `net/url` are a parameter.
pub mod Laws
use devbrowser.Prelude.{
  ℕ, ◌≡◌, refl, sym, ap, ◌∙◌, Bool, true, false, Option, none, some, List, [], ◌∷◌, ◌++◌,
  append_assoc, if◌then◌else◌, Result, ok, err,
}
use devbrowser.Text.{Text, codes, contains, is_empty}
use devbrowser.Capture.{browser_not_open}
use devbrowser.Browser.{DevBrowser}
use devbrowser.Session.{Chrome, Session, Call, navigate, locate, ask}
use devbrowser.Session.Open.{navigate_to_url}
use devbrowser.Models.Actions.{NavigateArgs}
use devbrowser.Page.Clicks.{is_none, is_ok}

-- `url.Parse`, `ResolveReference` and `String`
pub record Urls : Type 1 where
  pub Url : Type 0
  pub parse : Text → Result Url
  pub resolve_reference : Url → Url → Url
  pub text : Url → Text

module _ (urls : Urls) where
  open urls use {Url, parse, resolve_reference, text}

  abbrev pub resolved_url : Result Url → Result Url → Result Text
  resolved_url (err e) rel = err (codes "failed to parse base Url: " ++ e)
  resolved_url (ok base) (err e) = err (codes "failed to parse target path: " ++ e)
  resolved_url (ok base) (ok rel) = ok (text (resolve_reference base rel))

  -- An address without a scheme is taken relative to the app that was opened last.
  unfoldable pub target_url : Text → DevBrowser → Result Text
  unfolding contains
  target_url url b =
      if contains url (codes "://")
      then ok url
      else if is_empty b.last_port
      then err (codes "browser has no active app port; open the app first")
      else resolved_url
          (parse (
            (if b.last_https then codes "https" else codes "http")
            ++ (codes "://localhost:" ++ b.last_port)))
          (parse url)

abbrev pub located_url : Text → Option Text × Session → Result Text × Session
located_url url (none, s) = (ok url, s)
located_url url (some e, s) = (err e, s)

-- An address that cannot be read back is no error.
abbrev pub told : Text → Result Text × Session → Result Text × Session
told target (ok current, s) =
    (ok (codes "Navigated to " ++ (target ++ (codes " (current: " ++ (current ++ codes ")")))), s)
told target (err e, s) = (
  ok (
      codes "Navigated to "
      ++ (target ++ (codes " (could not get current Url: " ++ (e ++ codes ")")))),
  s,
)

module _ (chrome : Chrome) where
  unfoldable pub current_url : Session → Result Text × Session
  unfolding ask
  current_url s = elim s.browser.ctx [
    | none ↦ (err (codes "context not initialized"), s)
    | some c ↦ located_url (chrome.location s.calls c) (ask chrome (locate c) s)
  ]

  unfoldable pub arrived : Text → Option Text × Session → Result Text × Session
  unfolding current_url
  arrived target (some e, s) =
      (err (codes "Error navigating to " ++ (target ++ (codes ": " ++ e))), s)
  arrived target (none, s) = told target (current_url s)

  unfoldable pub go_to : Result Text → Session → Result Text × Session
  unfolding arrived navigate_to_url
  go_to (err e) s = (err e, s)
  go_to (ok target) s = arrived target (navigate_to_url chrome target s)

module _ (urls : Urls) (chrome : Chrome) where
  abbrev pub on_args : Result NavigateArgs → Session → Result Text × Session
  unfolding go_to target_url
  on_args (err e) s = (err e, s)
  on_args (ok args) s = go_to chrome (target_url urls args.url s.browser) s

  unfoldable pub browser_navigate : Result NavigateArgs → Session → Result Text × Session
  unfolding go_to target_url
  browser_navigate bound s =
      if s.browser.is_open_flag then on_args bound s else (err browser_not_open, s)
