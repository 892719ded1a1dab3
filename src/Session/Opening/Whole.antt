-- ===== src/Session/Opening/Whole.antt =====
-- With nothing in between, the steps of the goroutine make up the whole opening.
use devbrowser.Prelude.{
  ℕ, zero, suc, ◌≡◌, refl, ◌∙◌, ap, sym, Bool, true, false, Option, none, some, if◌then◌else◌,
  Outcome, done, panic, ◌>>=◌,
}
use devbrowser.Text.{Text}
use devbrowser.Session.{Chrome, Session, start, navigate_ready, ask, update}
use devbrowser.Session.Trace.{ask-Quiet}
use devbrowser.Session.Context.{create_browser_context}
use devbrowser.Session.Context.Kept.{create_browser_context-IsNewContext}
use devbrowser.Session.Emulation.{is_plain, apply_device_emulation}
use devbrowser.Session.Reload.{process_pending_reload}
use devbrowser.Session.Open.{
  capture, restore_emulation, emulation_failed, navigated, started, finish_on, finish, detected,
  concluded, launch,
}
use devbrowser.Session.Open.Laws.{capture-Quiet}
use devbrowser.Session.Opening.{
  Phase, detecting, creating, starting, capturing, navigating, restoring, readying, reporting,
  returned, after_start, after_navigation, on_ctx, returning, advance, run_opening,
}

-- Two calls in sequence, and what follows both.
>>=-assoc {ℓ κ ι} :
    {A : Type ℓ} {B : Type κ} {C : Type ι} (m : Outcome A) (f : A → Outcome B) (g : B → Outcome C)
    → ((m >>= f) >>= g) ≡ (m >>= (λ a. f a >>= g))
>>=-assoc (done a) f g = refl
>>=-assoc panic f g = refl

module _ (chrome : Chrome) where
  run_returned :
      (n : ℕ) (e : Option Text) (s : Session)
      → run_opening chrome n (returned e) s ≡ done (returned e, s)
  unfolding run_opening advance
  run_returned zero e s = refl
  run_returned (suc n) e s = run_returned n e s

  after_report : Option Text × Session → Outcome (Phase × Session)
  after_report (e, s) = returning chrome (concluded chrome (e, s))

  run_reporting :
      (n : ℕ) (r : Option Text × Session)
      → run_opening chrome (suc n) (reporting r.0) r.1 ≡ after_report r
  unfolding run_opening advance after_report
  run_reporting n (e, s) = go (concluded chrome (e, s))
    where
      go :
          (o : Outcome (Option Text × Session))
          → (returning chrome o >>= (λ ps. run_opening chrome n ps.0 ps.1)) ≡ returning chrome o
      go (done (e', s')) = run_returned n e' s'
      go panic = refl

  abbrev made_ready : Session → Session
  made_ready s = process_pending_reload chrome (update (λ b. record b { ready = true }) s)

  on : ℕ → Outcome (Phase × Session) → Outcome (Phase × Session)
  on n m = m >>= (λ ps. run_opening chrome n ps.0 ps.1)

  on_ctx-some :
      (o : Option ℕ) (c : ℕ) (f : ℕ → Phase × Session) → o ≡ some c → on_ctx chrome o f ≡ done (f c)
  on_ctx-some o c f e = ap (λ (x : Option ℕ). on_ctx chrome x f) e

  run_readying :
      (n : ℕ) (s : Session)
      → run_opening chrome (suc (suc (suc n))) readying s ≡ after_report (none, made_ready s)
  unfolding run_opening advance
  run_readying n s = run_reporting n (none, made_ready s)

  pub advance_restoring :
      (c : ℕ) (s : Session)
      → s.browser.ctx ≡ some c
      → advance chrome restoring s ≡ done (readying, restore_emulation chrome c s)
  unfolding advance restore_emulation
  advance_restoring c s e = go (is_plain s.browser.viewport_mode)
    where
      f : ℕ → Phase × Session
      f d = (readying, emulation_failed chrome (apply_device_emulation chrome d s))

      go :
          (b : Bool)
          → (if b then done (readying, s) else on_ctx chrome s.browser.ctx f)
            ≡ done (
              readying,
              if b then s else emulation_failed chrome (apply_device_emulation chrome c s),
            )
      go true = refl
      go false = on_ctx-some s.browser.ctx c f e

  run_restoring :
      (n c : ℕ) (s : Session)
      → s.browser.ctx ≡ some c
      → run_opening chrome (suc (suc (suc (suc n)))) restoring s
        ≡ after_report (none, made_ready (restore_emulation chrome c s))
  unfolding run_opening on
  run_restoring n c s e =
      ap (λ m. on (suc (suc (suc n))) m) (advance_restoring c s e)
      ∙ run_readying n (restore_emulation chrome c s)

  module _ (n c : ℕ) (url : Text) where
    run_navigated :
        (r : Option Text × Session)
        → r.1.browser.ctx ≡ some c
        → run_opening chrome
            (suc (suc (suc (suc n))))
            (after_navigation chrome url r).0
            (after_navigation chrome url r).1
          ≡ after_report (navigated chrome c url r)
    run_navigated (none, t) e = run_restoring n c t e
    run_navigated (some x, t) e = run_reporting (suc (suc (suc n))) _

    run_navigating :
        (s : Session)
        → s.browser.ctx ≡ some c
        → run_opening chrome (suc (suc (suc (suc (suc n))))) (navigating url) s
          ≡ after_report (navigated chrome c url (ask chrome (navigate_ready c url) s))
    unfolding run_opening advance on
    run_navigating s e =
        ap (λ m. on (suc (suc (suc (suc n)))) m)
          (on_ctx-some s.browser.ctx c
            (λ d. after_navigation chrome url (ask chrome (navigate_ready d url) s)) e)
        ∙ run_navigated (ask chrome (navigate_ready c url) s)
            ((ask-Quiet chrome (navigate_ready c url) s tt).ctx ∙ e)

    run_capturing :
        (s : Session)
        → s.browser.ctx ≡ some c
        → run_opening chrome (suc (suc (suc (suc (suc (suc n)))))) (capturing url) s
          ≡ after_report
              (navigated chrome c url (ask chrome (navigate_ready c url) (capture chrome c s)))
    unfolding run_opening advance on
    run_capturing s e =
        ap (λ m. on (suc (suc (suc (suc (suc n))))) m)
          (on_ctx-some s.browser.ctx c (λ d. (navigating url, capture chrome d s)) e)
        ∙ run_navigating (capture chrome c s) ((capture-Quiet chrome c s).ctx ∙ e)

    run_started :
        (r : Option Text × Session)
        → r.1.browser.ctx ≡ some c
        → run_opening chrome
            (suc (suc (suc (suc (suc (suc n))))))
            (after_start chrome url r).0
            (after_start chrome url r).1
          ≡ after_report (started chrome c url r)
    run_started (none, t) e = run_capturing t e
    run_started (some x, t) e = run_reporting (suc (suc (suc (suc (suc n))))) _

    run_starting :
        (s : Session)
        → s.browser.ctx ≡ some c
        → run_opening chrome (suc (suc (suc (suc (suc (suc (suc n))))))) (starting url) s
          ≡ (finish chrome url s >>= after_report)
    unfolding run_opening advance on finish finish_on
    run_starting s e =
        ap (λ m. on (suc (suc (suc (suc (suc (suc n)))))) m)
          (on_ctx-some s.browser.ctx c (λ d. after_start chrome url (ask chrome (start d) s)) e)
        ∙ run_started (ask chrome (start c) s) ((ask-Quiet chrome (start c) s tt).ctx ∙ e)
        ∙ ap (λ (o : Option ℕ). finish_on chrome url o s >>= after_report) (sym e)

  run_creating :
      (n : ℕ) (url : Text) (s : Session)
      → run_opening chrome (suc (suc (suc (suc (suc (suc (suc (suc n)))))))) (creating url) s
        ≡ (finish chrome url (create_browser_context chrome s) >>= after_report)
  unfolding run_opening advance
  run_creating n url s =
      run_starting n s.next_ctx url (create_browser_context chrome s)
        (create_browser_context-IsNewContext chrome s).ctx

  abbrev found : Text → Session → Outcome (Phase × Session)
  found url s = done (creating url, s)

  whole :
      (n : ℕ) (url : Text) (o : Outcome Session)
      → on (suc (suc (suc (suc (suc (suc (suc (suc n)))))))) (o >>= found url)
        ≡ (o >>= (λ s. finish chrome url (create_browser_context chrome s) >>= after_report))
  unfolding on
  whole n url (done s) = run_creating n url s
  whole n url panic = refl

  assembled :
      (o : Outcome Session) (f : Session → Outcome (Option Text × Session))
      → (o >>= (λ s. f s >>= after_report))
        ≡ returning chrome (o >>= (λ s. f s >>= (λ r. concluded chrome r)))
  unfolding after_report
  assembled (done s) f = go (f s)
    where
      go :
          (r : Outcome (Option Text × Session))
          → (r >>= after_report) ≡ returning chrome (r >>= (λ x. concluded chrome x))
      go (done x) = refl
      go panic = refl
  assembled panic f = refl

  -- Nine steps of the goroutine, with nothing in between, are the opening as it is written in one
  -- piece: with the same calls, the same state and the same result, a panic included.
  pub run_opening-launch :
      (url : Text) (s : Session)
      → run_opening chrome 9 (detecting url) s ≡ returning chrome (launch chrome url s)
  unfolding run_opening advance launch on
  run_opening-launch url s =
      whole 0 url (detected chrome s)
      ∙ assembled (detected chrome s) (λ t. finish chrome url (create_browser_context chrome t))
