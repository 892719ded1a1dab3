-- ===== src/Screenshot/Save.antt =====
-- The tool `browser_save_screenshot` (mcp-screenshot.go). Its bound arguments, or the error of
-- binding them, are an argument.
use devbrowser.Prelude.{
  ℕ, ◌≡◌, refl, Bool, true, false, not, ◌&&◌, Option, none, some, List, [], ◌∷◌, ◌++◌,
  if◌then◌else◌, Result, ok, err,
}
use devbrowser.Text.{Text, codes, is_empty}
use devbrowser.Text.Decimal.{itoa}
use devbrowser.Capture.{browser_not_open}
use devbrowser.Session.{Session}
use devbrowser.Screenshot.{
  ScreenApi, ScreenshotResult, Scene, capture_screenshot, capture_element_screenshot,
}
use devbrowser.Text.Paths.{dir}
use devbrowser.Screenshot.Paths.{clean_and_validate_path}

pub record SaveScreenshotArgs : Type 0 where
  pub directory : Text
  pub name : Text
  pub selector : Text
  pub fullpage : Bool
  pub overwrite : Bool

module _ (api : ScreenApi) where
  open api use {World}

  saved_text : Text → ScreenshotResult → Session → Text
  unfolding itoa
  saved_text path res s =
      codes "Screenshot saved to: "
      ++ (api.tilde path
          ++ (codes "\nDimensions: "
              ++ (itoa res.page.width
                  ++ (codes "x"
                      ++ (itoa res.page.height
                          ++ (codes "\nEmulation Mode: "
                              ++ ((if is_empty s.browser.viewport_mode
                                    then codes "off"
                                    else s.browser.viewport_mode)
                                  ++ codes "\n")))))))

  written : Text → ScreenshotResult → Session → Option Text × World → Result Text × Scene api
  unfolding saved_text
  written path res s (some e, w) = (err (codes "failed to write screenshot file: " ++ e), (s, w))
  written path res s (none, w) = (ok (saved_text path res s), (s, w))

  in_directory : Text → ScreenshotResult → Session → Option Text × World → Result Text × Scene api
  unfolding written dir
  in_directory path res s (some e, w) =
      (err (codes "failed to create directory " ++ (dir path ++ (codes ": " ++ e))), (s, w))
  in_directory path res s (none, w) = written path res s (api.write_file path res.image_data w)

  not_empty : List ℕ → Bool
  not_empty [] = false
  not_empty (x ∷ xs) = true

  -- The directory is made only when there is a picture.
  store_image : Text → Result ScreenshotResult × Scene api → Result Text × Scene api
  unfolding in_directory dir not_empty
  store_image path (err e, scene) = (err e, scene)
  store_image path (ok res, (s, w)) =
      let stored = in_directory path res s (api.mkdir_all (dir path) w) in
      if not_empty res.image_data
      then stored
      else (err (codes "screenshot capture returned empty buffer"), (s, w))

  taken : SaveScreenshotArgs → Scene api → Result ScreenshotResult × Scene api
  unfolding capture_screenshot capture_element_screenshot
  taken args scene =
      if is_empty args.selector
      then capture_screenshot api args.fullpage scene
      else capture_element_screenshot api args.selector scene

  pub is_live : Session → Bool
  is_live s = elim s.browser.ctx [ none ↦ false | some c ↦ s.browser.is_open_flag ]

  at_path : SaveScreenshotArgs → Result Text → Scene api → Result Text × Scene api
  unfolding taken store_image is_live
  at_path args (err e) scene = (err e, scene)
  at_path args (ok path) (s, w) =
      if not args.overwrite && api.exists path w
      then (err (codes "file already exists: " ++ api.tilde path), (s, w))
      else if is_live s
      then store_image path (taken args (s, w))
      else (err browser_not_open, (s, w))

  unfoldable pub save_screenshot : Result SaveScreenshotArgs → Scene api → Result Text × Scene api
  unfolding at_path clean_and_validate_path
  save_screenshot (err e) scene = (err e, scene)
  save_screenshot (ok args) (s, w) =
      if not (is_empty args.selector) && args.fullpage
      then (err (codes "selector and fullpage are mutually exclusive"), (s, w))
      else at_path args (clean_and_validate_path (api.getwd w) args.directory args.name) (s, w)

  -- What an answer without an error promises.
  pub record IsAllowed (args : SaveScreenshotArgs) (s : Session) (w : World) : Type 0 where
    pub path : Text
    pub valid : clean_and_validate_path (api.getwd w) args.directory args.name ≡ ok path
    pub no_loss : (not args.overwrite && api.exists path w) ≡ false
    pub live : is_live s ≡ true
    pub one_kind : (not (is_empty args.selector) && args.fullpage) ≡ false

  IsOk : Result Text → Type 0
  IsOk (ok text) = Unit
  IsOk (err e) = ⊥

  ok-IsOk : (r : Result Text) (text : Text) → r ≡ ok text → IsOk r
  unfolding IsOk
  ok-IsOk (ok t) text e = tt
  ok-IsOk (err x) text e = absurd (cc)

  -- If the tool answers without an error, then the path was accepted, no file stood there or it was
  -- to be overwritten, the browser was open with a context, and not both a selector and the full
  -- page were asked for.
  pub save_screenshot-IsAllowed :
      (args : SaveScreenshotArgs) (s : Session) (w : World) (text : Text)
      → (save_screenshot (ok args) (s, w)).0 ≡ ok text
      → IsAllowed args s w
  unfolding save_screenshot at_path IsOk
  save_screenshot-IsAllowed args s w text e =
      go (not (is_empty args.selector) && args.fullpage) refl
        (clean_and_validate_path (api.getwd w) args.directory args.name) refl (ok-IsOk _ text e)
    where
      last :
          (path : Text) (b c : Bool)
          → (not args.overwrite && api.exists path w) ≡ b
          → is_live s ≡ c
          → (not (is_empty args.selector) && args.fullpage) ≡ false
          → clean_and_validate_path (api.getwd w) args.directory args.name ≡ ok path
          → IsOk (
              (if b
                then (err (codes "file already exists: " ++ api.tilde path), (s, w))
                else if c
                then store_image path (taken args (s, w))
                else (err browser_not_open, (s, w))).0)
          → IsAllowed args s w
      last path true c f g h v i = absurd i
      last path false false f g h v i = absurd i
      last path false true f g h v i = record {
        path = path;
        valid = v;
        no_loss = f;
        live = g;
        one_kind = h;
      }

      go :
          (b : Bool)
          → (not (is_empty args.selector) && args.fullpage) ≡ b
          → (r : Result Text) → clean_and_validate_path (api.getwd w) args.directory args.name ≡ r
          → IsOk (
              (if b
                then (err (codes "selector and fullpage are mutually exclusive"), (s, w))
                else at_path args r (s, w)).0)
          → IsAllowed args s w
      go true h r v i = absurd i
      go false h (err x) v i = absurd i
      go false h (ok path) v i = last path _ _ refl refl h v i
