-- ===== src/Session/Open/Safety.antt =====
-- Opening, in every state of the session.
use devbrowser.Prelude.{
  if_either, Returns-map, ℕ, ◌≡◌, refl, Bool, true, false, not, ◌&&◌, Option, none, some, List, [],
  ◌∷◌, if◌then◌else◌, arith, Outcome, done, Returns, Returns-bind, ℤ, pos, eq_ℤ, ◌||◌,
}
use devbrowser.Text.{Text, codes}
use devbrowser.Browser.{DevBrowser, call_log}
use devbrowser.Geometry.{detect_monitor_size, start_with_detected_size}
use devbrowser.Session.{Chrome, Session, navigate, ask, update, logged, status_message, refresh_ui}
use devbrowser.Session.Trace.{IsAttended, is_set, ask-Quiet, logged-Quiet}
use devbrowser.Session.Reload.Laws.{IsSafe, Quiet-IsSafe, update-IsSafe}
use devbrowser.Session.Close.{close_browser}
use devbrowser.Session.Close.Safety.{close_browser-IsSafe, refresh_ui-IsSafe}
use devbrowser.Session.Context.{create_browser_context}
use devbrowser.Session.Context.Kept.{create_browser_context-IsNewContext}
use devbrowser.Session.Context.Laws.{create_browser_context-IsAttended}
use devbrowser.Session.Open.{
  finish, detected, concluded, launch, navigate_to_url, is_alive, open_url,
}
use devbrowser.Session.Open.Laws.{Ended, finish-Ended}

-- There are a user interface and a logger, and the readiness is the one given.
abbrev IsEquipped : Bool → DevBrowser → Type 0
IsEquipped ready b = (is_set b.ui ≡ true) × (is_set b.log ≡ true) × (b.ready ≡ ready)

module _ (ready : Bool) where
  call_log-IsEquipped :
      (m : List Text) (b : DevBrowser)
      → IsEquipped ready b
      → Returns (call_log m b) (IsEquipped ready)
  unfolding call_log
  call_log-IsEquipped m b h = ground (arith, h.0, h.1, h.2)

  detect_monitor_size-IsEquipped :
      (m : ℤ × ℤ) (b : DevBrowser)
      → IsEquipped ready b
      → Returns (detect_monitor_size m b) (IsEquipped ready)
  unfolding detect_monitor_size
  detect_monitor_size-IsEquipped (w, h) b e =
      if_either (λ o. Returns o (IsEquipped ready)) (eq_ℤ w (pos 0) || eq_ℤ h (pos 0)) _ _
        (call_log-IsEquipped _ b e)
        (call_log-IsEquipped _ (record b { monitor_width = w; monitor_height = h }) e)

  start_with_detected_size-IsEquipped :
      (b : DevBrowser)
      → IsEquipped ready b
      → Returns (start_with_detected_size b) (IsEquipped ready)
  unfolding start_with_detected_size
  start_with_detected_size-IsEquipped b e =
      if_either (λ o. Returns o (IsEquipped ready)) b.size_configured (done b) _ e
        (if_either (λ o. Returns o (IsEquipped ready))
          (eq_ℤ b.monitor_width (pos 0) || eq_ℤ b.monitor_height (pos 0)) (done b) _ e
          (call_log-IsEquipped _ (record b { width = b.monitor_width; height = b.monitor_height })
            e))

module _ (chrome : Chrome) where
  abbrev pub Detected : Bool → Session → Type 0
  Detected ready s = IsAttended s × (s.browser.ready ≡ ready)

  pub detected-Detected :
      (s : Session) → IsAttended s → Returns (detected chrome s) (Detected s.browser.ready)
  unfolding detected
  detected-Detected s h =
      let r = s.browser.ready in
      if_either (λ o. Returns o (Detected r)) s.browser.size_configured (done s) _ (h, refl)
        (Returns-bind (detect_monitor_size chrome.monitor s.browser) _ (IsEquipped r) (Detected r)
          (detect_monitor_size-IsEquipped r chrome.monitor s.browser (h.ui, h.log, refl))
          λ b e.
            Returns-bind (start_with_detected_size b) _ (IsEquipped r) (Detected r)
              (start_with_detected_size-IsEquipped r b e)
              λ b' e'. (record { trace = h.trace; ui = e'.0; log = e'.1 }, e'.2))

  detected-IsAttended : (s : Session) → IsAttended s → Returns (detected chrome s) IsAttended
  detected-IsAttended s h =
      Returns-map (detected chrome s) (Detected s.browser.ready) IsAttended (detected-Detected s h)
        λ t d. d.0

  abbrev pub IsSafeEnd : Option Text × Session → Type 0
  IsSafeEnd r = IsSafe r.1

  pub concluded-IsSafe :
      (r : Option Text × Session) → Ended chrome r → Returns (concluded chrome r) IsSafeEnd
  unfolding concluded
  concluded-IsSafe (some e, s) h =
      let s' = logged (codes "Error opening DevBrowser: " ∷ e ∷ []) s in
      Returns-bind (close_browser chrome s') _ IsSafe IsSafeEnd
        (close_browser-IsSafe chrome s' ((logged-Quiet _ s).attended h)) λ t safe. safe
  concluded-IsSafe (none, s) h =
      let s' = logged (status_message s.browser ∷ []) s in
      Returns-bind (refresh_ui s') _ IsSafe IsSafeEnd
        (refresh_ui-IsSafe s' (Quiet-IsSafe s s' (logged-Quiet _ s) h)) λ t safe. safe

  launch-IsSafe :
      (url : Text) (s : Session) → IsAttended s → Returns (launch chrome url s) IsSafeEnd
  unfolding launch
  launch-IsSafe url s h =
      Returns-bind (detected chrome s) _ IsAttended IsSafeEnd (detected-IsAttended s h) λ t e.
        let new = create_browser_context-IsNewContext chrome t in
        Returns-bind (finish chrome url (create_browser_context chrome t)) _ (Ended chrome)
          IsSafeEnd
          (finish-Ended chrome url t.next_ctx (create_browser_context chrome t) new.ctx
            (create_browser_context-IsAttended chrome t e))
          λ r ended. concluded-IsSafe r ended

  navigate_on : Text → Option ℕ → Session → Option Text × Session
  navigate_on url none s = (some (codes "context not initialized"), s)
  navigate_on url (some c) s = ask chrome (navigate c url) s

  navigate_on-IsSafe :
      (url : Text) (o : Option ℕ) (s : Session) → IsSafe s → IsSafe (navigate_on url o s).1
  unfolding navigate_on
  navigate_on-IsSafe url none s h = h
  navigate_on-IsSafe url (some c) s h =
      Quiet-IsSafe s (ask chrome (navigate c url) s).1 (ask-Quiet chrome (navigate c url) s tt) h

  navigate_to_url_lem :
      (url : Text) (s : Session) → navigate_to_url chrome url s ≡ navigate_on url s.browser.ctx s
  unfolding navigate_to_url navigate_on
  navigate_to_url_lem url s = ground arith

  if-IsSafeEnd :
      (c : Bool) (t u : Outcome (Option Text × Session))
      → Returns t IsSafeEnd
      → Returns u IsSafeEnd
      → Returns (if c then t else u) IsSafeEnd
  if-IsSafeEnd true t u p q = p
  if-IsSafeEnd false t u p q = q

  pub open_url-IsSafe :
      (url : Text) (s : Session) → IsSafe s → Returns (open_url chrome url s) IsSafeEnd
  unfolding open_url
  open_url-IsSafe url s h =
      let s' = update (λ b. record b { first_call = false; last_url = url }) s in
      let h' =
        update-IsSafe (λ b. record b { first_call = false; last_url = url }) s refl refl refl refl
          h in
      if-IsSafeEnd (is_alive chrome s) (done (navigate_to_url chrome url s')) _
        (rw (navigate_to_url_lem url s') (navigate_on-IsSafe url s'.browser.ctx s' h'))
        (if-IsSafeEnd (s.browser.first_call && not s.browser.auto_start) (done (none, s')) _ h' (
          if-IsSafeEnd s.browser.test_mode _ _
            (Quiet-IsSafe (update (λ b. record b { opened_once = true }) s') _ (logged-Quiet _ _)
              (update-IsSafe (λ b. record b { opened_once = true }) s' refl refl refl refl h'))
            (launch-IsSafe url
              (update (λ b. record b { is_open_flag = true; opened_once = true }) s')
              (record { trace = h.attended.trace; ui = h.attended.ui; log = h.attended.log }))))
