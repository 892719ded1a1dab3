-- ===== src/Page/Opening.antt =====
-- The tools of the page while the browser opens (OpenBrowser.go, and the guard of the tools).
use mathlib.Core.Path.{subst}
use devbrowser.Prelude.{
  ◌≡◌, true, none, List, ◌||◌, if_either, Option_either, ℤ, pos, eq_ℤ, ok, Outcome, done, panic,
  ◌>>=◌,
}
use devbrowser.Text.{Text}
use devbrowser.Browser.{DevBrowser, call_log}
use devbrowser.Geometry.{detect_monitor_size, start_with_detected_size}
use devbrowser.Session.{Chrome, Session}
use devbrowser.Session.Open.{detected}
use devbrowser.Session.Opening.{Phase, detecting, creating, advance}
use devbrowser.Page.{Action, Tab}
use devbrowser.Page.Tools.{PageTool, PageArgs, execute_tool}
use devbrowser.Page.Safety.{execute_tool-without_context}

-- The flag of an open browser is set, and there is no context.
abbrev pub IsAwaited : DevBrowser → Type 0
IsAwaited b = (b.is_open_flag ≡ true) × (b.ctx ≡ none)

-- What holds of the value, if there is one.
abbrev Unless {ℓ} : {A : Type ℓ} → Outcome A → (A → Type 0) → Type 0
Unless (done a) P = P a
Unless panic P = Unit

Unless-bind :
    {A B : Type 0} (m : Outcome A) (f : A → Outcome B) (P : A → Type 0) (Q : B → Type 0)
    → Unless m P
    → ((a : A) → P a → Unless (f a) Q)
    → Unless (m >>= f) Q
Unless-bind (done a) f P Q h k = k a h
Unless-bind panic f P Q h k = tt

call_log-IsAwaited :
    (m : List Text) (b : DevBrowser) → IsAwaited b → Unless (call_log m b) IsAwaited
unfolding call_log
call_log-IsAwaited m b h = Option_either (λ o. Unless o IsAwaited) b.log _ _ tt (λ calls. h)

detect_monitor_size-IsAwaited :
    (m : ℤ × ℤ) (b : DevBrowser) → IsAwaited b → Unless (detect_monitor_size m b) IsAwaited
unfolding detect_monitor_size
detect_monitor_size-IsAwaited (w, h) b e =
    if_either (λ o. Unless o IsAwaited) (eq_ℤ w (pos 0) || eq_ℤ h (pos 0)) _ _
      (call_log-IsAwaited _ b e)
      (call_log-IsAwaited _ (record b { monitor_width = w; monitor_height = h }) e)

start_with_detected_size-IsAwaited :
    (b : DevBrowser) → IsAwaited b → Unless (start_with_detected_size b) IsAwaited
unfolding start_with_detected_size
start_with_detected_size-IsAwaited b e =
    if_either (λ o. Unless o IsAwaited) b.size_configured (done b) _ e
      (if_either (λ o. Unless o IsAwaited)
        (eq_ℤ b.monitor_width (pos 0) || eq_ℤ b.monitor_height (pos 0)) (done b) _ e
        (call_log-IsAwaited _ (record b { width = b.monitor_width; height = b.monitor_height }) e))

detected-IsAwaited :
    (chrome : Chrome) (s : Session)
    → IsAwaited s.browser
    → Unless (detected chrome s) (λ t. IsAwaited t.browser)
unfolding detected
detected-IsAwaited chrome s h =
    if_either (λ o. Unless o (λ (t : Session). IsAwaited t.browser)) s.browser.size_configured
      (done s) _ h
      (Unless-bind (detect_monitor_size chrome.monitor s.browser) _ IsAwaited
        (λ t. IsAwaited t.browser) (detect_monitor_size-IsAwaited chrome.monitor s.browser h)
        λ b e.
          Unless-bind (start_with_detected_size b) _ IsAwaited (λ t. IsAwaited t.browser)
            (start_with_detected_size-IsAwaited b e) λ b' e'. e')

abbrev at_phase : Phase → Session → Outcome (Phase × Session)
at_phase q t = done (q, t)

same_session : (q p : Phase) (t s : Session) → at_phase q t ≡ at_phase p s → t ≡ s
same_session q p t s e = cc

value_of :
    (P : Session → Type 0) (m : Outcome Session) (q p : Phase) (s : Session)
    → Unless m P
    → (m >>= at_phase q) ≡ at_phase p s
    → P s
value_of P (done t) q p s h e = subst P (same_session q p t s e) h
value_of P panic q p s h e = cc

-- After `Open` has set the flag, and before its goroutine has created the context, every tool of the
-- page panics with whatever arguments it is called: at once, and after the monitor was detected.
pub execute_tool-opening :
    (chrome : Chrome) (url : Text) (s s' : Session) (p : Phase) (tab : Tab) (t : PageTool)
    (args : PageArgs t) (actions : List (Action tab.Float))
    → s.browser.is_open_flag ≡ true
    → s.browser.ctx ≡ none
    → advance chrome (detecting url) s ≡ done (p, s')
    → (execute_tool tab t (ok args) (record { session = s; actions = actions }) ≡ panic)
      × (execute_tool tab t (ok args) (record { session = s'; actions = actions }) ≡ panic)
unfolding advance
execute_tool-opening chrome url s s' p tab t args actions f n e =
    let awaited : IsAwaited s'.browser =
      value_of (λ (u : Session). IsAwaited u.browser) (detected chrome s) (creating url) p s'
        (detected-IsAwaited chrome s (f, n)) e in
    (
      execute_tool-without_context tab t args (record { session = s; actions = actions }) f n,
      execute_tool-without_context tab t args (record { session = s'; actions = actions }) awaited.0
          awaited.1,
    )
