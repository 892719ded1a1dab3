-- ===== src/Screenshot.antt =====
-- Screenshots of the page (screenshot_utils.go), the tool that saves one (mcp-screenshot.go) and
-- the tool that emulates a device (mcp-management.go). What the page and the file system answer is
-- the record `ScreenApi`.
pub mod Paths
pub mod Inside
pub mod Save
pub mod Emulate
pub mod Written
pub mod Modes
pub mod Viewport
pub mod Copy
use devbrowser.Prelude.{
  ℕ, Bool, true, false, Option, none, some, List, [], ◌∷◌, ◌++◌, if◌then◌else◌, ℤ, pos, Result, ok,
  err,
}
use devbrowser.Text.{Text, codes}
use devbrowser.Browser.{DevBrowser}
use devbrowser.Session.{Session, logged}

-- What a run of actions wrote into the result about the page.
pub record PageContext : Type 0 where
  pub title : Text
  pub url : Text
  pub width : ℤ
  pub height : ℤ
  pub html_structure : Text

pub record ScreenshotResult : Type 0 where
  pub image_data : List ℕ
  pub page : PageContext

-- The calls of `chromedp` on a browser context and those of `os`, each of which acts on the world.
pub record ScreenApi : Type 1 where
  pub World : Type 0
  pub full_screenshot : ℕ → World → Result (List ℕ) × World
  pub viewport_screenshot : ℕ → World → Result (List ℕ) × World
  pub element_screenshot : ℕ → Text → World → Result (List ℕ) × World
  -- title, URL, size and structure, as far as they were read, and the error
  pub page_context : ℕ → World → (PageContext × Option Text) × World
  -- the same without the structure
  pub element_context : ℕ → World → (PageContext × Option Text) × World
  -- `os.Getwd`
  pub getwd : World → Result Text
  -- whether `os.Stat` succeeds
  pub exists : Text → World → Bool
  pub mkdir_all : Text → World → Option Text × World
  pub write_file : Text → List ℕ → World → Option Text × World
  -- a path for display
  pub tilde : Text → Text

-- The session, and the world around it.
abbrev pub Scene : ScreenApi → Type 0
Scene api = Session × api.World

module _ (api : ScreenApi) where
  open api use {World}

  -- A failure of the context is a warning.
  abbrev pub warned : Option Text → Session → Session
  warned none s = s
  warned (some e) s = logged ((codes "Warning: failed to capture context metadata: " ++ e) ∷ []) s

  abbrev pub with_context :
      List ℕ → (PageContext × Option Text) × World → Session → Result ScreenshotResult × Scene api
  unfolding logged
  with_context image ((page, e), w) s =
      (ok (record { image_data = image; page = page }), (warned e s, w))

  unfoldable pub shot : ℕ → Result (List ℕ) × World → Session → Result ScreenshotResult × Scene api
  unfolding logged
  shot c (err e, w) s = (err (codes "failed to capture screenshot: " ++ e), (s, w))
  shot c (ok image, w) s = with_context image (api.page_context c w) s

  abbrev not_open : Scene api → Result ScreenshotResult × Scene api
  not_open scene = (err (codes "browser is not open"), scene)

  unfoldable pub capture_screenshot : Bool → Scene api → Result ScreenshotResult × Scene api
  unfolding shot
  capture_screenshot fullpage (s, w) = elim s.browser.ctx [
    | none ↦ not_open (s, w)
    | some c ↦
        if s.browser.is_open_flag
        then shot c (if fullpage then api.full_screenshot c w else api.viewport_screenshot c w) s
        else not_open (s, w)
  ]

  unfoldable pub element_shot :
      ℕ → Result (List ℕ) × World → Session → Result ScreenshotResult × Scene api
  element_shot c (err e, w) s = (err (codes "failed to capture element screenshot: " ++ e), (s, w))
  element_shot c (ok image, w) s =
      let ((page, e), w') = api.element_context c w in
      (ok (record { image_data = image; page = page }), (s, w'))

  unfoldable pub capture_element_screenshot : Text → Scene api → Result ScreenshotResult × Scene api
  unfolding element_shot
  capture_element_screenshot selector (s, w) = elim s.browser.ctx [
    | none ↦ not_open (s, w)
    | some c ↦
        if s.browser.is_open_flag
        then element_shot c (api.element_screenshot c selector w) s
        else not_open (s, w)
  ]
