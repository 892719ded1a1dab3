-- ===== src/Screenshot/Copy.antt =====
-- The tool `browser_screenshot` (mcp-screenshot.go), which copies its image to the clipboard of the
-- system (clipboard_utils.go).
use devbrowser.Prelude.{
  inl, inr, Bool-cases, ℕ, ◌≡◌, ◌/◌, refl, Option, none, some, List, [], ◌∷◌, ◌++◌, if◌then◌else◌,
  pos, length, Result, ok, err,
}
use devbrowser.Text.{Text, codes, text_eq, is_empty}
use devbrowser.Text.Decimal.{itoa}
use devbrowser.Session.{Session, logged}
use devbrowser.Inspect.Tool.{Block, text_block, image_block}
use devbrowser.Models.Records.{ScreenshotArgs}
use devbrowser.Screenshot.{ScreenApi, ScreenshotResult, Scene, capture_screenshot}

-- The system: `runtime.GOOS`, the value of `WAYLAND_DISPLAY`, and a command that is run with its
-- input and its arguments.
pub record Clipboard (World : Type 0) : Type 0 where
  pub os : Text
  pub wayland_display : Text
  pub run : Text → List ℕ → List Text → World → Option Text × World

-- Any error of a command of Linux is told as a missing package.
abbrev pub not_found : {World : Type 0} → Text → Option Text × World → Option Text × World
not_found missing (none, w) = (none, w)
not_found missing (some e, w) =
    (some (codes "clipboard tool not found: run `sudo apt install " ++ (missing ++ codes "`")), w)

module _ {World : Type 0} (clipboard : Clipboard World) where
  open clipboard use {os, wayland_display, run}

  unfoldable pub write_to_clipboard : List ℕ → World → Option Text × World
  unfolding text_eq
  write_to_clipboard image w =
      if text_eq os (codes "linux")
      then (if is_empty wayland_display
          then not_found (codes "xclip") (
              run (codes "xclip") image
                (codes "-selection" ∷ codes "clipboard" ∷ codes "-t" ∷ codes "image/png" ∷ []) w)
          else not_found (codes "wl-clipboard") (run (codes "wl-copy") image [] w))
      else if text_eq os (codes "darwin")
      then run (codes "pbcopy") image [] w
      else if text_eq os (codes "windows")
      then (some (codes "clipboard writing not supported on Windows without cgo/libraries"), w)
      else (some (codes "unsupported operating system for clipboard"), w)

-- The text beside the image.
unfoldable pub context_report : ScreenshotResult → Text
unfolding itoa
context_report res =
    codes "Screenshot captured ("
    ++ (itoa (pos (length res.image_data / 1024))
        ++ (codes " KB)\nUrl: "
            ++ (res.page.url
                ++ (codes " | Title: "
                    ++ (res.page.title
                        ++ (codes " | Viewport: "
                            ++ (itoa res.page.width
                                ++ (codes "x"
                                    ++ (itoa res.page.height
                                        ++ (codes "\n\n" ++ res.page.html_structure))))))))))

module _ (api : ScreenApi) (clipboard : Clipboard api.World) where
  open api use {World}

  -- A clipboard that cannot be written is only logged.
  abbrev pub copy_logged : Option Text × World → Session → Scene api
  unfolding logged
  copy_logged (none, w) s = (s, w)
  copy_logged (some e, w) s =
      (logged ((codes "Failed to copy screenshot to clipboard: " ++ e) ∷ []) s, w)

  unfoldable pub copied : ScreenshotResult → Scene api → Result (List Block) × Scene api
  unfolding write_to_clipboard context_report
  copied res (s, w) = (
    ok (text_block (context_report res) ∷ image_block res.image_data ∷ []),
    copy_logged (write_to_clipboard clipboard res.image_data w) s,
  )

  unfoldable pub shown : Result ScreenshotResult × Scene api → Result (List Block) × Scene api
  unfolding copied
  shown (err e, scene) = (err e, scene)
  shown (ok res, scene) =
      if is_empty res.image_data
      then (err (codes "Screenshot capture returned empty buffer"), scene)
      else copied res scene

  unfoldable pub browser_screenshot :
      Result ScreenshotArgs → Scene api → Result (List Block) × Scene api
  unfolding shown capture_screenshot
  browser_screenshot (err e) scene = (err e, scene)
  browser_screenshot (ok args) scene = shown (capture_screenshot api args.fullpage scene)

-- What the tool answers to a capture.
abbrev pub answer_of : Result ScreenshotResult → Result (List Block)
unfolding context_report
answer_of (err e) = err e
answer_of (ok res) =
    if is_empty res.image_data
    then err (codes "Screenshot capture returned empty buffer")
    else ok (text_block (context_report res) ∷ image_block res.image_data ∷ [])

module _ (api : ScreenApi) (clipboard : Clipboard api.World) where
  shown-answer_of :
      (p : Result ScreenshotResult × Scene api) → (shown api clipboard p).0 ≡ answer_of p.0
  unfolding shown copied
  shown-answer_of (err e, scene) = refl
  shown-answer_of (ok res, scene) = elim (Bool-cases (is_empty res.image_data)) [
    | inl e ↦ rw e refl
    | inr e ↦ rw e refl
  ]

  -- The tool answers with the error of the capture, with an error for an empty image, or with the
  -- report and the image that was captured. It does so whatever the clipboard of the system does: on
  -- no system does an error of the clipboard, or a command of it, change the answer.
  pub browser_screenshot-answer_of :
      (args : ScreenshotArgs) (scene : Scene api)
      → (browser_screenshot api clipboard (ok args) scene).0
        ≡ answer_of (capture_screenshot api args.fullpage scene).0
  unfolding browser_screenshot
  browser_screenshot-answer_of args scene =
      shown-answer_of (capture_screenshot api args.fullpage scene)
