-- ===== src/Session/Open/Laws.antt =====
-- No way through `Open` reloads a context that was not started.
use devbrowser.Prelude.{
  Returns, ℕ, ◌≡◌, refl, ◌∙◌, Bool, true, false, Option, none, some, [], if◌then◌else◌, arith,
}
use devbrowser.Text.{Text}
use devbrowser.Browser.{DevBrowser}
use devbrowser.Session.{
  Chrome, Session, start, navigate_ready, enable_console, listen_console, listen_network,
  listen_errors, listen_intercept, listen_selection, install_selection, ask, tell, update,
}
use devbrowser.Session.Trace.{
  IsAttended, update-Quiet, is_started, is_started-start, Quiet, Quiet-trans, Quiet-refl,
  logged-Quiet, tell-Quiet, ask-Quiet,
}
use devbrowser.Session.Emulation.{is_plain, apply_device_emulation}
use devbrowser.Session.Emulation.Laws.{apply_device_emulation-Quiet}
use devbrowser.Session.Reload.Laws.{IsSafe, Covered, process_pending_reload-IsSafe}
use devbrowser.Session.Open.{
  install_selection_capture, initialize_console_capture, warned, capture, emulation_failed,
  restore_emulation, navigated, started, finish_on, finish,
}

module _ (chrome : Chrome) where
  install_on : Option ℕ → Session → Session
  install_on none s = s
  install_on (some c) s =
      if s.browser.selection_capture_installed
      then s
      else tell (install_selection c) (
          tell (listen_selection c)
            (update (λ b. record b { selection_capture_installed = true }) s))

  install_selection_capture_lem :
      (s : Session) → install_selection_capture chrome s ≡ install_on s.browser.ctx s
  unfolding install_selection_capture install_on
  install_selection_capture_lem s = ground arith

  if_new : (b : Bool) (s t u : Session) → Quiet s t → Quiet s u → Quiet s (if b then t else u)
  if_new true s t u p q = p
  if_new false s t u p q = q

  install_on-Quiet : (o : Option ℕ) (s : Session) → Quiet s (install_on o s)
  unfolding install_on
  install_on-Quiet none s = Quiet-refl s
  install_on-Quiet (some c) s =
      if_new s.browser.selection_capture_installed s s (tell (install_selection c) t2)
        (Quiet-refl s)
        (Quiet-trans s t2 (tell (install_selection c) t2)
          (Quiet-trans s t1 t2 (update-Quiet f s refl refl refl refl)
            (tell-Quiet (listen_selection c) t1 tt))
          (tell-Quiet (install_selection c) t2 tt))
    where
      f : DevBrowser → DevBrowser
      f b = record b { selection_capture_installed = true }

      t1 : Session
      t1 = update f s

      t2 : Session
      t2 = tell (listen_selection c) t1

  warned-Quiet : (s : Session) (r : Option Text × Session) → Quiet s r.1 → Quiet s (warned chrome r)
  warned-Quiet s (none, t) q = q
  warned-Quiet s (some e, t) q = Quiet-trans s t _ q (logged-Quiet _ t)

  initialize_console_capture-Quiet :
      (c : ℕ) (s : Session) → Quiet s (initialize_console_capture chrome c s)
  unfolding initialize_console_capture
  initialize_console_capture-Quiet c s = warned-Quiet s (ask chrome (enable_console c) t2) (
      Quiet-trans s t2 (ask chrome (enable_console c) t2).1
        (Quiet-trans s t1 t2 (update-Quiet f s refl refl refl refl)
          (tell-Quiet (listen_console c) t1 tt))
        (ask-Quiet chrome (enable_console c) t2 tt))
    where
      f : DevBrowser → DevBrowser
      f b = record b { console_logs = [] }

      t1 : Session
      t1 = update f s

      t2 : Session
      t2 = tell (listen_console c) t1

  pub capture-Quiet : (c : ℕ) (s : Session) → Quiet s (capture chrome c s)
  unfolding capture
  capture-Quiet c s = rw install_selection_capture_lem (
      Quiet-trans s t4 (install_on t4.browser.ctx t4)
        (Quiet-trans s t3 t4
          (Quiet-trans s t2 t3
            (Quiet-trans s t1 t2 (initialize_console_capture-Quiet c s)
              (tell-Quiet (listen_network c) t1 tt))
            (tell-Quiet (listen_errors c) t2 tt))
          (tell-Quiet (listen_intercept c) t3 tt))
        (install_on-Quiet t4.browser.ctx t4))
    where
      t1 : Session
      t1 = initialize_console_capture chrome c s

      t2 : Session
      t2 = tell (listen_network c) t1

      t3 : Session
      t3 = tell (listen_errors c) t2

      t4 : Session
      t4 = tell (listen_intercept c) t3

  emulation_failed-Quiet :
      (s : Session) (r : Option Text × Session) → Quiet s r.1 → Quiet s (emulation_failed chrome r)
  emulation_failed-Quiet s (none, t) q = q
  emulation_failed-Quiet s (some e, t) q = Quiet-trans s t _ q (logged-Quiet _ t)

  pub restore_emulation-Quiet : (c : ℕ) (s : Session) → Quiet s (restore_emulation chrome c s)
  unfolding restore_emulation
  restore_emulation-Quiet c s =
      if_new (is_plain s.browser.viewport_mode) s s
        (emulation_failed chrome (apply_device_emulation chrome c s)) (Quiet-refl s)
        (emulation_failed-Quiet s (apply_device_emulation chrome c s)
          (apply_device_emulation-Quiet chrome c s))

  -- The goroutine ended: with an error the calls are still safe, and else the session is.
  abbrev pub Ended : Option Text × Session → Type 0
  Ended (none, s) = IsSafe s
  Ended (some e, s) = IsAttended s

  pub become_ready-IsSafe :
      (c : ℕ) (s : Session)
      → IsAttended s
      → s.browser.ctx ≡ some c
      → is_started c s.calls ≡ true
      → IsSafe (update (λ b. record b { ready = true }) s)
  become_ready-IsSafe c s h e st = record {
    attended = record { trace = h.trace; ui = h.ui; log = h.log };
    covered = covered_at s.browser.ctx e;
  }
    where
      covered_at : (o : Option ℕ) → o ≡ some c → Covered true o s.calls
      covered_at none p = cc
      covered_at (some d) p = ground arith

  module _ (c : ℕ) (url : Text) where
    navigated-Ended :
        (s : Session) (r : Option Text × Session)
        → Quiet s r.1
        → IsAttended s
        → s.browser.ctx ≡ some c
        → is_started c s.calls ≡ true
        → Ended (navigated chrome c url r)
    navigated-Ended s (some e, t) q h ec st = q.attended h
    navigated-Ended s (none, t) q h ec st =
        let t' = restore_emulation chrome c t in
        let q' = Quiet-trans s t t' q (restore_emulation-Quiet c t) in
        process_pending_reload-IsSafe chrome (update (λ b. record b { ready = true }) t')
          (become_ready-IsSafe c t' (q'.attended h) (q'.ctx ∙ ec) (q'.started c st))

    started-Ended :
        (r : Option Text × Session)
        → IsAttended r.1
        → r.1.browser.ctx ≡ some c
        → is_started c r.1.calls ≡ true
        → Ended (started chrome c url r)
    started-Ended (some e, t) h ec st = h
    started-Ended (none, t) h ec st =
        let t' = capture chrome c t in
        navigated-Ended t (ask chrome (navigate_ready c url) t')
          (Quiet-trans t t' (ask chrome (navigate_ready c url) t').1 (capture-Quiet c t)
            (ask-Quiet chrome (navigate_ready c url) t' tt))
          h ec st

    start_and_finish :
        (s : Session)
        → IsAttended s
        → s.browser.ctx ≡ some c
        → Ended (started chrome c url (ask chrome (start c) s))
    start_and_finish s h ec =
        let q = ask-Quiet chrome (start c) s tt in
        started-Ended (ask chrome (start c) s) (q.attended h) (q.ctx ∙ ec)
          (unfold ask in is_started-start c s.calls)

  finish_on-Ended :
      (url : Text) (o : Option ℕ) (c : ℕ) (s : Session)
      → s.browser.ctx ≡ o
      → o ≡ some c
      → IsAttended s
      → Returns (finish_on chrome url o s) Ended
  unfolding finish_on
  finish_on-Ended url none c s e p h = cc
  finish_on-Ended url (some d) c s e p h = start_and_finish d url s h e

  pub finish-Ended :
      (url : Text) (c : ℕ) (s : Session)
      → s.browser.ctx ≡ some c
      → IsAttended s
      → Returns (finish chrome url s) Ended
  unfolding finish
  finish-Ended url c s e h = finish_on-Ended url s.browser.ctx c s refl e h
