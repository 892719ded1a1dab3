-- ===== src/Session/Close/Laws.antt =====
-- What closing leaves behind.
use devbrowser.Prelude.{
  ℕ, ◌≡◌, true, false, Option, none, some, List, [], ◌∷◌, ◌++◌, if◌then◌else◌, done, Returns, arith,
  append-nil, append_assoc, inl, inr, Bool-cases, ◌∙◌,
}
use devbrowser.Text.{Text}
use devbrowser.Session.{
  Chrome, Session, Call, close_gracefully, cancel_allocator, cancel_context, update, logged,
  status_message, refresh_ui,
}
use devbrowser.Session.Close.{
  close_ctx, close_allocator, close_cancel, shutdown_chrome, flags_reset, close_browser,
}

module _ (chrome : Chrome) where
  abbrev pub graceful : Session → Option ℕ → List Call
  graceful s none = []
  graceful s (some c) = if chrome.has_browser s.calls c then close_gracefully c ∷ [] else []

  abbrev pub allocator_call : Option ℕ → List Call
  allocator_call none = []
  allocator_call (some c) = cancel_allocator c ∷ []

  abbrev pub cancel_call : Option ℕ → List Call
  cancel_call none = []
  cancel_call (some c) = cancel_context c ∷ []

  -- The calls of a shutdown, in their order.
  abbrev pub shutdown_calls : Session → List Call
  shutdown_calls s =
      graceful s s.browser.ctx
      ++ (allocator_call s.browser.alloc_cancel ++ cancel_call s.browser.cancel)

  -- Nothing of the browser is left in the state.
  pub record IsDown (s : Session) : Type 0 where
    pub ctx : s.browser.ctx ≡ none
    pub cancel : s.browser.cancel ≡ none
    pub alloc_cancel : s.browser.alloc_cancel ≡ none

  pub shutdown_chrome-IsDown : (s : Session) → IsDown (shutdown_chrome chrome s)
  unfolding shutdown_chrome
  shutdown_chrome-IsDown s = ground arith

  calls-close_ctx : (s : Session) → (close_ctx chrome s).calls ≡ s.calls ++ graceful s s.browser.ctx
  unfolding close_ctx
  calls-close_ctx s = ground (arith, append-nil s.calls)

  kept-close_ctx :
      (s : Session)
      → ((close_ctx chrome s).browser.alloc_cancel ≡ s.browser.alloc_cancel)
        × ((close_ctx chrome s).browser.cancel ≡ s.browser.cancel)
  unfolding close_ctx
  kept-close_ctx s = ground arith

  calls-close_allocator :
      (s : Session)
      → (close_allocator chrome s).calls ≡ s.calls ++ allocator_call s.browser.alloc_cancel
  unfolding close_allocator
  calls-close_allocator s = ground (arith, append-nil s.calls)

  kept-close_allocator :
      (s : Session) → (close_allocator chrome s).browser.cancel ≡ s.browser.cancel
  unfolding close_allocator
  kept-close_allocator s = ground arith

  calls-close_cancel :
      (s : Session) → (close_cancel chrome s).calls ≡ s.calls ++ cancel_call s.browser.cancel
  unfolding close_cancel
  calls-close_cancel s = ground (arith, append-nil s.calls)

  -- A shutdown asks a started browser to close, then cancels the allocator, then the context.
  pub calls-shutdown_chrome :
      (s : Session) → (shutdown_chrome chrome s).calls ≡ s.calls ++ shutdown_calls s
  unfolding shutdown_chrome
  calls-shutdown_chrome s =
      let s1 = close_ctx chrome s in
      let s2 = close_allocator chrome s1 in
      rw
        (
          calls-close_cancel s2,
          calls-close_allocator s1,
          kept-close_allocator s1,
          (kept-close_ctx s).0,
          (kept-close_ctx s).1,
          calls-close_ctx s,
        )
        (simp append_assoc)

  -- What `CloseBrowser` leaves: a state in which nothing is open, ready, pending or installed, and
  -- the calls of one shutdown.
  pub record IsClosed (before s : Session) : Type 0 where
    pub down : IsDown s
    pub is_open : s.browser.is_open_flag ≡ false
    pub ready : s.browser.ready ≡ false
    pub pending : s.browser.pending_reload ≡ false
    pub installed : s.browser.selection_capture_installed ≡ false
    pub calls : s.calls ≡ before.calls ++ shutdown_calls before
    pub next_ctx : s.next_ctx ≡ before.next_ctx
    pub url : s.browser.last_url ≡ before.browser.last_url
    pub port : s.browser.last_port ≡ before.browser.last_port
    pub https : s.browser.last_https ≡ before.browser.last_https
    pub first_call : s.browser.first_call ≡ before.browser.first_call
    pub test_mode : s.browser.test_mode ≡ before.browser.test_mode

  shutdown_chrome-IsClosed :
      (s : Session) → IsClosed s (shutdown_chrome chrome (update flags_reset s))
  shutdown_chrome-IsClosed s = record {
    down = shutdown_chrome-IsDown (update flags_reset s);
    is_open = unfold shutdown_chrome in ground arith;
    ready = unfold shutdown_chrome in ground arith;
    pending = unfold shutdown_chrome in ground arith;
    installed = unfold shutdown_chrome in ground arith;
    calls = calls-shutdown_chrome (update flags_reset s);
    next_ctx = unfold shutdown_chrome in ground arith;
    url = unfold shutdown_chrome in ground arith;
    port = unfold shutdown_chrome in ground arith;
    https = unfold shutdown_chrome in ground arith;
    first_call = unfold shutdown_chrome in ground arith;
    test_mode = unfold shutdown_chrome in ground arith;
  }

  abbrev pub closed : Session → Session
  closed s = shutdown_chrome chrome (update flags_reset s)

  ui-closed : (s : Session) → (closed s).browser.ui ≡ s.browser.ui
  unfolding shutdown_chrome
  ui-closed s = ground arith

  logged-IsClosed :
      (m : List Text) (before s : Session) → IsClosed before s → IsClosed before (logged m s)
  unfolding logged
  logged-IsClosed m before s h = ground arith

  ui-logged : (m : List Text) (s : Session) → (logged m s).browser.ui ≡ s.browser.ui
  unfolding logged
  ui-logged m s = ground arith

  refresh_ui-IsClosed :
      (before s : Session) (n : ℕ)
      → s.browser.ui ≡ some n
      → IsClosed before s
      → Returns (refresh_ui s) (IsClosed before)
  unfolding refresh_ui
  refresh_ui-IsClosed before s n e h = ground arith

  pub was_open_lem :
      (s : Session)
      → s.browser.is_open_flag ≡ true
      → close_browser chrome s
        ≡ refresh_ui (logged (status_message (closed s).browser ∷ []) (closed s))
  was_open_lem s e = unfold close_browser in ground arith

  pub was_closed_lem :
      (s : Session) → s.browser.is_open_flag ≡ false → close_browser chrome s ≡ done (closed s)
  was_closed_lem s e = unfold close_browser in ground arith

  -- With a user interface, `CloseBrowser` ends, whatever state the session was in, and leaves
  -- nothing open, ready, pending, installed or to be cancelled; its calls are those of one shutdown.
  pub close_browser-IsClosed :
      (s : Session) (n : ℕ) → s.browser.ui ≡ some n → Returns (close_browser chrome s) (IsClosed s)
  close_browser-IsClosed s n e = elim (Bool-cases s.browser.is_open_flag) [
    | inl was_open ↦ ground (
      arith,
      was_open_lem s was_open,
      refresh_ui-IsClosed s (logged (status_message (closed s).browser ∷ []) (closed s)) n
          (ui-logged (status_message (closed s).browser ∷ []) (closed s) ∙ ui-closed s ∙ e)
          (logged-IsClosed (status_message (closed s).browser ∷ []) s (closed s)
            (shutdown_chrome-IsClosed s)),
    )
    | inr was_closed ↦ ground (arith, was_closed_lem s was_closed, shutdown_chrome-IsClosed s)
  ]
