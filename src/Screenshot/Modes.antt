-- ===== src/Screenshot/Modes.antt =====
-- The mode and the device of the tool `browser_emulate_device` (mcp-management.go).
use devbrowser.Prelude.{
  ℕ, ◌≡◌, ◌≢◌, refl, ◌∙◌, Option, none, some, List, [], Option-cases, inl, inr, InRange, Result, ok,
  err, Returns, Returns-map,
}
use devbrowser.Text.{Text}
use devbrowser.Browser.{DevBrowser}
use devbrowser.Config.{Store, IsStore, load_config, save_config, saved_mode}
use devbrowser.Config.RoundTrip.{load_config-save_config}
use devbrowser.Session.{Chrome, Session, update}
use devbrowser.Screenshot.{ScreenApi}
use devbrowser.Screenshot.Emulate.{
  EmulateDeviceArgs, State, mode_error, device_error, args_error, assigned, save_logged, decided,
  emulate_device,
}
use devbrowser.Screenshot.Written.{IsCalm, Ends, accepted-Ends}

-- There is a user interface, and the mode and the device are ones that `applyDeviceEmulation` has.
pub record IsSupported (names : List Text) (b : DevBrowser) : Type 0 where
  pub n : ℕ
  pub ui : b.ui ≡ some n
  pub mode : mode_error b.viewport_mode ≡ none
  pub device : device_error names b.viewport_device ≡ none

IsSupported-calm : (names : List Text) → IsCalm (IsSupported names)
IsSupported-calm names = record {
  log-calm = λ b log q. record { n = q.n; ui = q.ui; mode = q.mode; device = q.device };
  ui-calm = λ b n q. record { n = n; ui = refl; mode = q.mode; device = q.device };
  has_ui = λ b q. (q.n, q.ui);
}

pub args_error-none :
    (names : List Text) (args : EmulateDeviceArgs)
    → args_error names args ≡ none
    → (mode_error args.mode ≡ none) × (device_error names args.device ≡ none)
unfolding args_error
args_error-none names args = go (device_error names args.device)
  where
    go :
        (d : Option Text)
        → (elim d [ some e ↦ some e | none ↦ mode_error args.mode ]) ≡ none
        → (mode_error args.mode ≡ none) × (d ≡ none)
    go none e = (e, refl)
    go (some x) e = absurd (cc)

module _ (chrome : Chrome) (store : Store) (api : ScreenApi) where
  -- Every call of the tool on a browser with a user interface ends, whatever its arguments are and
  -- whatever Chrome, the store and the page answer, and leaves a mode and a device that are
  -- supported, if they were before.
  pub emulate_device-IsSupported :
      (args : Result EmulateDeviceArgs) (s : Session) (kv : store.State) (w : api.World)
      → IsSupported chrome.device_names s.browser
      → Returns
          (emulate_device chrome store api args (s, kv, w))
          (λ r. IsSupported chrome.device_names r.1.0.browser)
  unfolding emulate_device decided assigned
  emulate_device-IsSupported (err e) s kv w q = q
  emulate_device-IsSupported (ok args) s kv w q =
      elim (Option-cases (args_error chrome.device_names args)) [
        | inl e ↦
            let (mode, device) = args_error-none chrome.device_names args e in
            Returns-map (emulate_device chrome store api (ok args) (s, kv, w)) (Accepted s kv) After
              (accepted-Ends (IsSupported chrome.device_names)
                (IsSupported-calm chrome.device_names) api chrome store args s kv w e
                (record { n = q.n; ui = q.ui; mode = mode; device = device }))
              (λ r p. p.0)
        | inr (x, e) ↦ rw (e, Returns) q
      ]
    where
      Accepted : Session → store.State → Result Text × State chrome store api → Type 0
      Accepted s kv =
          Ends (IsSupported chrome.device_names) (IsSupported-calm chrome.device_names) api chrome
            store (assigned chrome store api args s kv).1

      After : Result Text × State chrome store api → Type 0
      After r = IsSupported chrome.device_names r.1.0.browser

  HasUi : DevBrowser → Type 0
  HasUi b = (n : ℕ) × (b.ui ≡ some n)

  HasUi-calm : IsCalm HasUi
  unfolding HasUi
  HasUi-calm = record { log-calm = λ b log q. q; ui-calm = λ b n q. (n, refl); has_ui = λ b q. q }

  saved_store :
      (args : EmulateDeviceArgs) (s : Session) (kv : store.State)
      → (assigned chrome store api args s kv).1
        ≡ (save_config store
            (record s.browser { viewport_mode = args.mode; viewport_device = args.device })
            kv).1
  unfolding assigned
  saved_store args s kv = go (save_config store (update chosen s).browser kv)
    where
      chosen : DevBrowser → DevBrowser
      chosen b = record b { viewport_mode = args.mode; viewport_device = args.device }

      go :
          (r : Option Text × store.State)
          → (save_logged chrome store api r (update chosen s)).1 ≡ r.1
      go (none, kv') = refl
      go (some e, kv') = refl

  -- A mode that the tool accepted is there again in the next run: if the store keeps its documented
  -- behaviour and had no error, the browser has a user interface, a position that is not empty and
  -- sides that are values of `int`, then the call ends, and `LoadConfig` over the store that it
  -- leaves restores the mode into any browser, as `desktop` if it was `off` or empty.
  pub load_config-emulate_device :
      (laws : IsStore store) (args : EmulateDeviceArgs) (s : Session) (kv : store.State)
      (w : api.World) (n : ℕ)
      → args_error chrome.device_names args ≡ none
      → s.browser.ui ≡ some n
      → (save_config store
          (record s.browser { viewport_mode = args.mode; viewport_device = args.device })
          kv).0
        ≡ none
      → s.browser.position ≢ []
      → InRange s.browser.width
      → InRange s.browser.height
      → Returns (emulate_device chrome store api (ok args) (s, kv, w)) (λ r.
        (b : DevBrowser) → (load_config store b r.1.1).0.viewport_mode ≡ saved_mode store args.mode)
  unfolding HasUi
  load_config-emulate_device laws args s kv w n e ui ok_ p rw_ rh =
      Returns-map (emulate_device chrome store api (ok args) (s, kv, w)) _ _
        (accepted-Ends HasUi HasUi-calm api chrome store args s kv w e (n, ui))
        (λ r end b. rw (end.1 ∙ saved_store args s kv) (
          (load_config-save_config store laws
            (record s.browser { viewport_mode = args.mode; viewport_device = args.device }) b kv ok_
            p rw_ rh).mode))
