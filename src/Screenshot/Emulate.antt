-- ===== src/Screenshot/Emulate.antt =====
-- The tool `browser_emulate_device` (mcp-management.go). Its bound arguments, or the error of
-- binding them, are an argument.
use devbrowser.Prelude.{
  ℕ, Bool, false, ◌&&◌, ◌||◌, Option, none, some, List, [], ◌∷◌, ◌++◌, if◌then◌else◌, ℤ, pos, ltb_ℤ,
  inl, inr, Result, ok, err, Outcome, done, ◌>>=◌,
}
use devbrowser.Text.{Text, codes, text_eq, is_empty, join}
use devbrowser.Text.Decimal.{itoa}
use devbrowser.Config.{Store, save_config}
use devbrowser.Session.{Chrome, Session, read_inner_size, ask, update, logged, refresh_ui}
use devbrowser.Session.Emulation.{is_plain, resolve_device, apply_device_emulation}
use devbrowser.Screenshot.{
  ScreenApi, ScreenshotResult, Scene, capture_screenshot, capture_element_screenshot,
}

pub record EmulateDeviceArgs : Type 0 where
  pub mode : Text
  pub device : Text
  pub capture : Bool
  pub selector : Text

-- The error, if there is one, of a device or a mode that is not supported.
unfoldable pub device_error : List Text → Text → Option Text
unfolding resolve_device join
device_error names device = if is_empty device then none else elim (resolve_device names device) [
  | inl found ↦ none
  | inr available ↦ some (
      codes "unsupported device: "
      ++ (device ++ (codes ". Available devices: " ++ join available (codes ", "))))
]

unfoldable pub mode_error : Text → Option Text
unfolding text_eq
mode_error mode =
    if text_eq mode (codes "mobile") || (text_eq mode (codes "tablet") || is_plain mode)
    then none
    else some (codes "unsupported mode: " ++ mode)

-- The device is looked at first.
unfoldable pub args_error : List Text → EmulateDeviceArgs → Option Text
unfolding device_error mode_error
args_error names args = elim (device_error names args.device) [
  | some e ↦ some e
  | none ↦ mode_error args.mode
]

abbrev emulation_name : EmulateDeviceArgs → Text
emulation_name args = if is_empty args.device then args.mode else args.device

set_text : EmulateDeviceArgs → Text
set_text args = codes "Device emulation set to " ++ emulation_name args

-- The size is zero if it was not read.
pub status_text : EmulateDeviceArgs → Bool → ℤ × ℤ → Text
unfolding set_text itoa
status_text args is_live (w, h) =
    if is_live && (ltb_ℤ (pos 0) w && ltb_ℤ (pos 0) h)
    then set_text args ++ (codes " (viewport " ++ (itoa w ++ (codes "x" ++ (itoa h ++ codes ")"))))
    else set_text args

abbrev pub is_live : Session → Bool
is_live s = elim s.browser.ctx [ none ↦ false | some c ↦ s.browser.is_open_flag ]

module _ (chrome : Chrome) (store : Store) (api : ScreenApi) where
  -- The session, the store and the world.
  abbrev pub State : Type 0
  State = Session × store.State × api.World

  unfoldable pub save_logged : Option Text × store.State → Session → Session × store.State
  unfolding logged
  save_logged (none, kv) s = (s, kv)
  save_logged (some e, kv) s = (logged ((codes "Error saving emulation config: " ++ e) ∷ []) s, kv)

  -- The mode and the device are assigned, and saved.
  unfoldable pub assigned : EmulateDeviceArgs → Session → store.State → Session × store.State
  unfolding save_logged save_config
  assigned args s kv =
      let s' =
        update (λ b. record b { viewport_mode = args.mode; viewport_device = args.device }) s in
      save_logged (save_config store s'.browser kv) s'

  -- The size of the viewport, or zero on an error.
  unfoldable pub read_back : ℤ × ℤ → Option Text × Session → (ℤ × ℤ) × Session
  unfolding logged
  read_back size (none, s) = (size, s)
  read_back size (some e, s) =
      ((pos 0, pos 0), logged ((codes "Failed to read back viewport: " ++ e) ∷ []) s)

  unfoldable pub refreshed : ℕ → Outcome Session → Outcome (Result (ℤ × ℤ) × Session)
  unfolding read_back ask
  refreshed c r = do
    s ← r
    (let (size, s') = read_back (chrome.inner_size s.calls c) (ask chrome (read_inner_size c) s) in
        done (ok size, s'))

  unfoldable pub applied : ℕ → Option Text × Session → Outcome (Result (ℤ × ℤ) × Session)
  unfolding refreshed refresh_ui
  applied c (some e, s) = done (err e, s)
  applied c (none, s) = refreshed c (refresh_ui s)

  -- A browser that is open is emulated at once.
  unfoldable pub emulated : Session → Outcome (Result (ℤ × ℤ) × Session)
  unfolding applied apply_device_emulation
  emulated s = elim s.browser.ctx [
    | none ↦ done (ok (pos 0, pos 0), s)
    | some c ↦
        if s.browser.is_open_flag
        then applied c (apply_device_emulation chrome c s)
        else done (ok (pos 0, pos 0), s)
  ]

  unfoldable pub report : Text → Result ScreenshotResult × Scene api → Result Text × Scene api
  unfolding itoa
  report status (err e, scene) =
      (err (status ++ (codes ". Failed to capture screenshot: " ++ e)), scene)
  report status (ok res, scene) = (
    ok (
        status
        ++ (codes "\nURL: "
            ++ (res.page.url
                ++ (codes " | Title: "
                    ++ (res.page.title
                        ++ (codes " | Viewport: "
                            ++ (itoa res.page.width
                                ++ (codes "x"
                                    ++ (itoa res.page.height
                                        ++ (codes "\n\n" ++ res.page.html_structure)))))))))),
    scene,
  )

  unfoldable pub answered : EmulateDeviceArgs → Text → Scene api → Result Text × Scene api
  unfolding report capture_screenshot capture_element_screenshot
  answered args status scene =
      if args.capture
      then (if is_empty args.selector
          then report status (capture_screenshot api false scene)
          else report status (capture_element_screenshot api args.selector scene))
      else (ok status, scene)

  unfoldable pub with_store : store.State → Result Text × Scene api → Result Text × State
  with_store kv (r, (s, w)) = (r, (s, kv, w))

  unfoldable pub reported :
      EmulateDeviceArgs → store.State → api.World → Result (ℤ × ℤ) × Session → Result Text × State
  unfolding answered with_store status_text
  reported args kv w (err e, s) = (err e, (s, kv, w))
  reported args kv w (ok size, s) =
      with_store kv (answered args (status_text args (is_live s) size) (s, w))

  unfoldable pub checked :
      EmulateDeviceArgs → Session × store.State → api.World → Outcome (Result Text × State)
  unfolding emulated reported
  checked args (s, kv) w = do r ← emulated s; done (reported args kv w r)

  -- A refusal leaves everything as it was.
  unfoldable pub decided : EmulateDeviceArgs → Option Text → State → Outcome (Result Text × State)
  unfolding assigned checked
  decided args (some e) state = done (err e, state)
  decided args none (s, kv, w) = checked args (assigned args s kv) w

  unfoldable pub emulate_device : Result EmulateDeviceArgs → State → Outcome (Result Text × State)
  unfolding args_error decided
  emulate_device (err e) state = done (err e, state)
  emulate_device (ok args) state = decided args (args_error chrome.device_names args) state
