-- ===== src/Session/Close/Safety.antt =====
-- Closing reloads nothing and leaves nothing ready.
use devbrowser.Prelude.{
  ℕ, ◌≡◌, refl, ◌∙◌, ap, Bool, true, false, Option, none, some, List, [], ◌∷◌, ◌++◌, if◌then◌else◌,
  Outcome, done, panic, ◌+◌, Returns, arith, inl, inr, Bool-cases, All, All-append, append_assoc,
  append-nil,
}
use devbrowser.Text.{Text}
use devbrowser.Session.{
  Chrome, Session, Call, close_gracefully, update, logged, status_message, refresh_ui,
}
use devbrowser.Session.Trace.{IsAttended, IsQuiet, is_set, safe, safe-quiet, logged-Quiet}
use devbrowser.Session.Close.{shutdown_chrome, flags_reset, close_browser}
use devbrowser.Session.Close.Laws.{
  shutdown_calls, graceful, allocator_call, cancel_call, calls-shutdown_chrome, closed,
  was_open_lem, was_closed_lem,
}
use devbrowser.Session.Reload.Laws.{IsSafe, Quiet-IsSafe}

safe-All : (xs ys : List Call) → All IsQuiet ys → safe xs ≡ true → safe (xs ++ ys) ≡ true
safe-All xs [] q h = rw append-nil h
safe-All xs (y ∷ ys) (q, qs) h =
    rw (append_assoc xs (y ∷ []) ys) at (safe-All (xs ++ y ∷ []) ys qs (safe-quiet xs y q h))

refreshed : ℕ → Session → Session
refreshed n s = update (λ b. record b { ui = some (n + 1) }) s

refresh_on : Option ℕ → Session → Outcome Session
refresh_on none s = panic
refresh_on (some n) s = done (refreshed n s)

refresh_ui_lem : (s : Session) → refresh_ui s ≡ refresh_on s.browser.ui s
unfolding refresh_ui refresh_on refreshed
refresh_ui_lem s = ground arith

refresh_on-IsSafe :
    (o : Option ℕ) (s : Session) → is_set o ≡ true → IsSafe s → Returns (refresh_on o s) IsSafe
unfolding refresh_on refreshed
refresh_on-IsSafe none s e h = absurd (ground (arith, e))
refresh_on-IsSafe (some n) s e h = record {
  attended = record { trace = h.attended.trace; ui = refl; log = h.attended.log };
  covered = h.covered;
}

pub refresh_ui-IsSafe : (s : Session) → IsSafe s → Returns (refresh_ui s) IsSafe
refresh_ui-IsSafe s h = rw refresh_ui_lem (refresh_on-IsSafe s.browser.ui s h.attended.ui h)

module _ (chrome : Chrome) where
  graceful-All : (s : Session) (o : Option ℕ) → All IsQuiet (graceful chrome s o)
  graceful-All s none = tt
  graceful-All s (some c) = go (chrome.has_browser s.calls c)
    where
      go : (b : Bool) → All IsQuiet (if b then close_gracefully c ∷ [] else [])
      go true = (tt, tt)
      go false = tt

  allocator-All : (o : Option ℕ) → All IsQuiet (allocator_call chrome o)
  allocator-All none = tt
  allocator-All (some c) = (tt, tt)

  cancel-All : (o : Option ℕ) → All IsQuiet (cancel_call chrome o)
  cancel-All none = tt
  cancel-All (some c) = (tt, tt)

  shutdown_calls-All : (s : Session) → All IsQuiet (shutdown_calls chrome s)
  shutdown_calls-All s =
      All-append IsQuiet (graceful chrome s s.browser.ctx) _ (graceful-All s s.browser.ctx) (
        All-append IsQuiet (allocator_call chrome s.browser.alloc_cancel)
          (cancel_call chrome s.browser.cancel) (allocator-All s.browser.alloc_cancel)
          (cancel-All s.browser.cancel))

  kept-shutdown_chrome :
      (s : Session)
      → ((shutdown_chrome chrome s).browser.ui ≡ s.browser.ui)
        × ((shutdown_chrome chrome s).browser.log ≡ s.browser.log)
        × ((shutdown_chrome chrome s).browser.ready ≡ s.browser.ready)
  unfolding shutdown_chrome
  kept-shutdown_chrome s = (ground arith, ground arith, ground arith)

  pub shutdown_chrome-IsAttended :
      (s : Session) → IsAttended s → IsAttended (shutdown_chrome chrome s)
  shutdown_chrome-IsAttended s h = record {
    trace =
        rw (calls-shutdown_chrome chrome s)
          (safe-All s.calls (shutdown_calls chrome s) (shutdown_calls-All s) h.trace);
    ui = ap (λ (o : Option ℕ). is_set o) (kept-shutdown_chrome s).0 ∙ h.ui;
    log = ap (λ (o : Option (List (List Text))). is_set o) (kept-shutdown_chrome s).1 ∙ h.log;
  }

  closed-IsSafe : (s : Session) → IsAttended s → IsSafe (closed chrome s)
  closed-IsSafe s h =
      let s' = update flags_reset s in
      record {
        attended =
            shutdown_chrome-IsAttended s' (record { trace = h.trace; ui = h.ui; log = h.log });
        covered = rw ((kept-shutdown_chrome s').2) tt;
      }

  -- From every attended session `CloseBrowser` ends in a safe one.
  pub close_browser-IsSafe : (s : Session) → IsAttended s → Returns (close_browser chrome s) IsSafe
  close_browser-IsSafe s h = elim (Bool-cases s.browser.is_open_flag) [
    | inl was_open ↦ rw (was_open_lem chrome s was_open) (
        refresh_ui-IsSafe (logged (status_message (closed chrome s).browser ∷ []) (closed chrome s))
          (Quiet-IsSafe (closed chrome s) _
            (logged-Quiet (status_message (closed chrome s).browser ∷ []) (closed chrome s))
            (closed-IsSafe s h)))
    | inr was_closed ↦ rw (was_closed_lem chrome s was_closed) (closed-IsSafe s h)
  ]
