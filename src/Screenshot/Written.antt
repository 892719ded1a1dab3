-- ===== src/Screenshot/Written.antt =====
-- What the tool `browser_emulate_device` leaves in the program and in the store
-- (mcp-management.go).
use devbrowser.Prelude.{
  ℕ, ◌+◌, ◌≡◌, refl, Bool, false, Option, none, some, List, if_either, Option_either, ℤ, Result, ok,
  err, Outcome, done, panic, Returns, Returns-bind,
}
use devbrowser.Text.{Text, is_empty}
use devbrowser.Browser.{DevBrowser, logger}
use devbrowser.Config.{Store, save_config}
use devbrowser.Session.{Chrome, Session, read_inner_size, ask, tell, update, logged, refresh_ui}
use devbrowser.Session.Emulation.{apply_device_emulation}
use devbrowser.Session.Emulation.Laws.{browser-apply_device_emulation}
use devbrowser.Screenshot.{
  ScreenApi, ScreenshotResult, Scene, warned, shot, element_shot, capture_screenshot,
  capture_element_screenshot,
}
use devbrowser.Screenshot.Emulate.{
  EmulateDeviceArgs, args_error, assigned, save_logged, read_back, refreshed, applied, emulated,
  report, answered, with_store, State, is_live, status_text, reported, checked, decided,
  emulate_device,
}

-- What survives a line in the log and a refresh of the user interface, of a browser with one.
pub record IsCalm (Q : DevBrowser → Type 0) : Type 0 where
  pub log-calm :
      (b : DevBrowser) (log : Option (List (List Text))) → Q b → Q (record b { log = log })
  pub ui-calm : (b : DevBrowser) (n : ℕ) → Q b → Q (record b { ui = some n })
  pub has_ui : (b : DevBrowser) → Q b → (n : ℕ) × (b.ui ≡ some n)

module _ (Q : DevBrowser → Type 0) (calm : IsCalm Q) where
  logged-calm : (args : List Text) (s : Session) → Q s.browser → Q (logged args s).browser
  unfolding logged logger
  logged-calm args s q = Option_either Q s.browser.log _ _ q (λ calls. calm.log-calm s.browser _ q)

  refresh-calm : (s : Session) → Q s.browser → Returns (refresh_ui s) (λ t. Q t.browser)
  unfolding refresh_ui
  refresh-calm s q = go s.browser.ui (calm.has_ui s.browser q).1
    where
      go :
          (o : Option ℕ)
          → o ≡ some (calm.has_ui s.browser q).0
          → Returns
              (elim o as (λ _. Outcome Session) [
                | none ↦ panic
                | some n ↦ done (update (λ b. record b { ui = some (n + 1) }) s)
              ])
              (λ t. Q t.browser)
      go none e = absurd (cc)
      go (some n) e = calm.ui-calm s.browser (n + 1) q

  module _ (api : ScreenApi) where
    Calm : {A : Type 0} → A × Scene api → Type 0
    Calm (a, (s, w)) = Q s.browser

    warned-calm : (e : Option Text) (s : Session) → Q s.browser → Q (warned api e s).browser
    warned-calm none s q = q
    warned-calm (some e) s q = logged-calm _ s q

    shot-Calm :
        (c : ℕ) (r : Result (List ℕ) × api.World) (s : Session)
        → Q s.browser
        → Calm (shot api c r s)
    unfolding shot Calm
    shot-Calm c (err e, w) s q = q
    shot-Calm c (ok image, w) s q = warned-calm (api.page_context c w).0.1 s q

    element_shot-Calm :
        (c : ℕ) (r : Result (List ℕ) × api.World) (s : Session)
        → Q s.browser
        → Calm (element_shot api c r s)
    unfolding element_shot Calm
    element_shot-Calm c (err e, w) s q = q
    element_shot-Calm c (ok image, w) s q = q

    capture-Calm :
        (fullpage : Bool) (s : Session) (w : api.World)
        → Q s.browser
        → Calm (capture_screenshot api fullpage (s, w))
    unfolding capture_screenshot Calm
    capture-Calm fullpage s w q =
        Option_either Calm s.browser.ctx _ _ q
          (λ c. if_either Calm s.browser.is_open_flag _ _ (shot-Calm c _ s q) q)

    capture_element-Calm :
        (selector : Text) (s : Session) (w : api.World)
        → Q s.browser
        → Calm (capture_element_screenshot api selector (s, w))
    unfolding capture_element_screenshot Calm
    capture_element-Calm selector s w q = Option_either Calm s.browser.ctx _ _ q (λ c.
        if_either Calm s.browser.is_open_flag _ _
          (element_shot-Calm c (api.element_screenshot c selector w) s q) q)

    module _ (chrome : Chrome) (store : Store) where
      report-Calm :
          (status : Text) (r : Result ScreenshotResult × Scene api)
          → Calm r
          → Calm (report chrome store api status r)
      unfolding report Calm
      report-Calm status (err e, scene) q = q
      report-Calm status (ok res, scene) q = q

      answered-Calm :
          (args : EmulateDeviceArgs) (status : Text) (s : Session) (w : api.World)
          → Q s.browser
          → Calm (answered chrome store api args status (s, w))
      unfolding answered Calm
      answered-Calm args status s w q =
          if_either Calm args.capture _ _
            (if_either Calm (is_empty args.selector) _ _
              (report-Calm status (capture_screenshot api false (s, w)) (capture-Calm false s w q))
              (report-Calm status (capture_element_screenshot api args.selector (s, w))
                (capture_element-Calm args.selector s w q)))
            q

      -- The property, and the store as it was when the tool had saved.
      abbrev pub Ends : store.State → Result Text × State chrome store api → Type 0
      Ends kv0 (r, (s, kv, w)) = Q s.browser × (kv ≡ kv0)

      with_store-Ends :
          (kv : store.State) (r : Result Text × Scene api)
          → Calm r
          → Ends kv (with_store chrome store api kv r)
      unfolding with_store Calm
      with_store-Ends kv (r, (s, w)) q = (q, refl)

      reported-Ends :
          (args : EmulateDeviceArgs) (kv : store.State) (w : api.World)
          (r : Result (ℤ × ℤ) × Session)
          → Q r.1.browser
          → Ends kv (reported chrome store api args kv w r)
      unfolding reported
      reported-Ends args kv w (err e, s) q = (q, refl)
      reported-Ends args kv w (ok size, s) q =
          with_store-Ends kv _ (answered-Calm args (status_text args (is_live s) size) s w q)

      After : Outcome (Result (ℤ × ℤ) × Session) → Type 0
      After m = Returns m (λ r. Q r.1.browser)

      read_back-calm :
          (size : ℤ × ℤ) (r : Option Text × Session)
          → Q r.1.browser
          → Q (read_back chrome store api size r).1.browser
      unfolding read_back
      read_back-calm size (none, s) q = q
      read_back-calm size (some e, s) q = logged-calm _ s q

      refreshed-calm :
          (c : ℕ) (m : Outcome Session)
          → Returns m (λ s. Q s.browser)
          → After (refreshed chrome store api c m)
      unfolding refreshed After ask tell
      refreshed-calm c (done s) q = read_back-calm _ (ask chrome (read_inner_size c) s) q
      refreshed-calm c panic q = q

      applied-calm :
          (c : ℕ) (r : Option Text × Session) → Q r.1.browser → After (applied chrome store api c r)
      unfolding applied After
      applied-calm c (some e, s) q = q
      applied-calm c (none, s) q = refreshed-calm c (refresh_ui s) (refresh-calm s q)

      emulated-calm : (s : Session) → Q s.browser → After (emulated chrome store api s)
      unfolding emulated After
      emulated-calm s q = Option_either After s.browser.ctx _ _ q (λ c.
          if_either After s.browser.is_open_flag _ _
            (applied-calm c (apply_device_emulation chrome c s)
              (rw (browser-apply_device_emulation chrome c s) q))
            q)

      save_logged-calm :
          (r : Option Text × store.State) (s : Session)
          → Q s.browser
          → Q (save_logged chrome store api r s).0.browser
      unfolding save_logged
      save_logged-calm (none, kv) s q = q
      save_logged-calm (some e, kv) s q = logged-calm _ s q

      -- A call with supported arguments ends, with the property and with the store of `saved`.
      checked-Ends :
          (args : EmulateDeviceArgs) (s : Session) (kv : store.State) (w : api.World)
          → Q s.browser
          → Returns (checked chrome store api args (s, kv) w) (Ends kv)
      unfolding checked After
      checked-Ends args s kv w q =
          Returns-bind (emulated chrome store api s) _ (λ r. Q r.1.browser) (Ends kv)
            (emulated-calm s q) (λ r p. reported-Ends args kv w r p)

      abbrev chosen : EmulateDeviceArgs → DevBrowser → DevBrowser
      chosen args b = record b { viewport_mode = args.mode; viewport_device = args.device }

      -- A call with supported arguments ends, with what it saved in the store.
      pub accepted-Ends :
          (args : EmulateDeviceArgs) (s : Session) (kv : store.State) (w : api.World)
          → args_error chrome.device_names args ≡ none
          → Q (chosen args s.browser)
          → Returns
              (emulate_device chrome store api (ok args) (s, kv, w))
              (Ends (assigned chrome store api args s kv).1)
      unfolding emulate_device decided assigned
      accepted-Ends args s kv w e q =
          rw (e, Returns)
            (checked-Ends args _ _ w (
              save_logged-calm (save_config store (chosen args s.browser) kv)
                (update (chosen args) s) q))
