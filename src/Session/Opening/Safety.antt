-- ===== src/Session/Opening/Safety.antt =====
-- Reloads between the steps of an opening.
use devbrowser.Prelude.{
  ℕ, ◌≡◌, ◌∙◌, true, false, Option, none, some, Returns, Returns-bind, returned_value,
}
use devbrowser.Text.{Text}
use devbrowser.Session.{Chrome, Session, start, navigate_ready, ask}
use devbrowser.Session.Trace.{IsAttended, Quiet, ask-Quiet, safe, is_started, is_started-start}
use devbrowser.Session.Context.Kept.{create_browser_context-IsNewContext}
use devbrowser.Session.Context.Laws.{create_browser_context-IsAttended}
use devbrowser.Session.Reload.{reload_page}
use devbrowser.Session.Reload.Laws.{
  IsSafe, reload_page-IsSafe, process_pending_reload-IsSafe, reload_unready-Quiet,
}
use devbrowser.Session.Open.{capture, restore_emulation, concluded, detected}
use devbrowser.Session.Open.Laws.{capture-Quiet, restore_emulation-Quiet, become_ready-IsSafe}
use devbrowser.Session.Open.Safety.{Detected, detected-Detected, concluded-IsSafe}
use devbrowser.Session.Opening.{
  Phase, detecting, creating, starting, capturing, navigating, restoring, readying, applying,
  reporting, returned, on_ctx, after_start, after_navigation, returning, advance, Turn, advancing,
  reloading, Turns, at_first, then_turn,
}
use devbrowser.Session.Opening.Whole.{advance_restoring}

-- Nothing is ready yet.
pub record IsWaiting (s : Session) : Type 0 where
  pub attended : IsAttended s
  pub ready : s.browser.ready ≡ false

-- The same, with a context.
pub record HasContext (s : Session) : Type 0 where
  pub waiting : IsWaiting s
  pub c : ℕ
  pub ctx : s.browser.ctx ≡ some c

-- The same, with a context on which Chrome was started.
pub record HasChrome (s : Session) : Type 0 where
  pub waiting : IsWaiting s
  pub c : ℕ
  pub ctx : s.browser.ctx ≡ some c
  pub started : is_started c s.calls ≡ true

-- What holds in a phase.
abbrev pub InOrder : Phase → Session → Type 0
InOrder (detecting url) s = IsWaiting s
InOrder (creating url) s = IsWaiting s
InOrder (starting url) s = HasContext s
InOrder (capturing url) s = HasChrome s
InOrder (navigating url) s = HasChrome s
InOrder restoring s = HasChrome s
InOrder readying s = HasChrome s
InOrder applying s = IsSafe s
InOrder (reporting none) s = IsSafe s
InOrder (reporting (some e)) s = IsWaiting s
InOrder (returned e) s = IsSafe s

Quiet-IsWaiting : (s t : Session) → Quiet s t → IsWaiting s → IsWaiting t
Quiet-IsWaiting s t q h = record { attended = q.attended h.attended; ready = q.ready ∙ h.ready }

Quiet-HasContext : (s t : Session) → Quiet s t → HasContext s → HasContext t
Quiet-HasContext s t q h = record {
  waiting = Quiet-IsWaiting s t q h.waiting;
  c = h.c;
  ctx = q.ctx ∙ h.ctx;
}

Quiet-HasChrome : (s t : Session) → Quiet s t → HasChrome s → HasChrome t
Quiet-HasChrome s t q h = record {
  waiting = Quiet-IsWaiting s t q h.waiting;
  c = h.c;
  ctx = q.ctx ∙ h.ctx;
  started = q.started h.c h.started;
}

module _ (chrome : Chrome) where
  abbrev InOrderPair : Phase × Session → Type 0
  InOrderPair (p, s) = InOrder p s

  on_ctx-InOrder :
      (o : Option ℕ) (c : ℕ) (f : ℕ → Phase × Session)
      → o ≡ some c
      → InOrderPair (f c)
      → Returns (on_ctx chrome o f) InOrderPair
  on_ctx-InOrder none c f e h = cc
  on_ctx-InOrder (some d) c f e h = let e' : d ≡ c = cc in rw e' h

  after_start-InOrder :
      (url : Text) (c : ℕ) (r : Option Text × Session)
      → IsWaiting r.1
      → r.1.browser.ctx ≡ some c
      → is_started c r.1.calls ≡ true
      → InOrderPair (after_start chrome url r)
  after_start-InOrder url c (some e, s) h ctx st = h
  after_start-InOrder url c (none, s) h ctx st = record {
    waiting = h;
    c = c;
    ctx = ctx;
    started = st;
  }

  after_navigation-InOrder :
      (url : Text) (r : Option Text × Session)
      → HasChrome r.1
      → InOrderPair (after_navigation chrome url r)
  after_navigation-InOrder url (some e, s) h = h.waiting
  after_navigation-InOrder url (none, s) h = h

  concluded-InOrder :
      (e : Option Text) (s : Session)
      → InOrder (reporting e) s
      → Returns (returning chrome (concluded chrome (e, s))) InOrderPair
  concluded-InOrder none s h =
      Returns-bind (concluded chrome (none, s)) _ (λ r. IsSafe r.1) InOrderPair
        (concluded-IsSafe chrome (none, s) h) λ r safe_r. safe_r
  concluded-InOrder (some e) s h =
      Returns-bind (concluded chrome (some e, s)) _ (λ r. IsSafe r.1) InOrderPair
        (concluded-IsSafe chrome (some e, s) h.attended) λ r safe_r. safe_r

  -- Each step of the goroutine ends, and leads into the next phase in order.
  advance-InOrder :
      (p : Phase) (s : Session) → InOrder p s → Returns (advance chrome p s) InOrderPair
  unfolding advance
  advance-InOrder (detecting url) s h =
      Returns-bind (detected chrome s) _ (Detected chrome s.browser.ready) InOrderPair
        (detected-Detected chrome s h.attended)
        λ t d. record { attended = d.0; ready = d.1 ∙ h.ready }
  advance-InOrder (creating url) s h =
      let new = create_browser_context-IsNewContext chrome s in
      record {
        waiting = record {
          attended = create_browser_context-IsAttended chrome s h.attended;
          ready = new.same.ready ∙ h.ready;
        };
        c = s.next_ctx;
        ctx = new.ctx;
      }
  advance-InOrder (starting url) s h =
      let q = ask-Quiet chrome (start h.c) s tt in
      on_ctx-InOrder s.browser.ctx h.c (λ c. after_start chrome url (ask chrome (start c) s)) h.ctx
        (after_start-InOrder url h.c (ask chrome (start h.c) s)
          (Quiet-IsWaiting s (ask chrome (start h.c) s).1 q h.waiting) (q.ctx ∙ h.ctx)
          (unfold ask in is_started-start h.c s.calls))
  advance-InOrder (capturing url) s h =
      on_ctx-InOrder s.browser.ctx h.c (λ c. (navigating url, capture chrome c s)) h.ctx
        (Quiet-HasChrome s (capture chrome h.c s) (capture-Quiet chrome h.c s) h)
  advance-InOrder (navigating url) s h =
      on_ctx-InOrder s.browser.ctx h.c
        (λ c. after_navigation chrome url (ask chrome (navigate_ready c url) s)) h.ctx
        (after_navigation-InOrder url (ask chrome (navigate_ready h.c url) s) (
          Quiet-HasChrome s (ask chrome (navigate_ready h.c url) s).1
            (ask-Quiet chrome (navigate_ready h.c url) s tt) h))
  advance-InOrder restoring s h =
      rw (advance_restoring chrome h.c s h.ctx) (
        Quiet-HasChrome s (restore_emulation chrome h.c s) (restore_emulation-Quiet chrome h.c s) h)
  advance-InOrder readying s h = become_ready-IsSafe chrome h.c s h.waiting.attended h.ctx h.started
  advance-InOrder applying s h = process_pending_reload-IsSafe chrome s h
  advance-InOrder (reporting e) s h = concluded-InOrder e s h
  advance-InOrder (returned e) s h = h

  -- What holds in a phase survives a reload that another thread asks for.
  reload_page-InOrder : (p : Phase) (s : Session) → InOrder p s → InOrder p (reload_page chrome s).1
  reload_page-InOrder (detecting url) s h =
      Quiet-IsWaiting s _ (reload_unready-Quiet chrome s h.ready) h
  reload_page-InOrder (creating url) s h =
      Quiet-IsWaiting s _ (reload_unready-Quiet chrome s h.ready) h
  reload_page-InOrder (starting url) s h =
      Quiet-HasContext s _ (reload_unready-Quiet chrome s h.waiting.ready) h
  reload_page-InOrder (capturing url) s h =
      Quiet-HasChrome s _ (reload_unready-Quiet chrome s h.waiting.ready) h
  reload_page-InOrder (navigating url) s h =
      Quiet-HasChrome s _ (reload_unready-Quiet chrome s h.waiting.ready) h
  reload_page-InOrder restoring s h =
      Quiet-HasChrome s _ (reload_unready-Quiet chrome s h.waiting.ready) h
  reload_page-InOrder readying s h =
      Quiet-HasChrome s _ (reload_unready-Quiet chrome s h.waiting.ready) h
  reload_page-InOrder applying s h = reload_page-IsSafe chrome s h
  reload_page-InOrder (reporting none) s h = reload_page-IsSafe chrome s h
  reload_page-InOrder (reporting (some e)) s h =
      Quiet-IsWaiting s _ (reload_unready-Quiet chrome s h.ready) h
  reload_page-InOrder (returned e) s h = reload_page-IsSafe chrome s h

  Turn-InOrder :
      (p : Phase) (s : Session) (p' : Phase) (s' : Session)
      → Turn chrome p s p' s'
      → InOrder p s
      → InOrder p' s'
  Turn-InOrder _ _ _ _ (advancing p s p' s' e) h =
      returned_value InOrderPair (advance chrome p s) (p', s') e (advance-InOrder p s h)
  Turn-InOrder _ _ _ _ (reloading p s) h = reload_page-InOrder p s h

  Turns-InOrder :
      (p : Phase) (s : Session) (p' : Phase) (s' : Session)
      → Turns chrome p s p' s'
      → InOrder p s
      → InOrder p' s'
  Turns-InOrder p s _ _ at_first h = h
  Turns-InOrder p s _ _ (then_turn p1 s1 p2 s2 r t) h =
      Turn-InOrder p1 s1 p2 s2 t (Turns-InOrder p s p1 s1 r h)

  InOrder-IsAttended : (p : Phase) (s : Session) → InOrder p s → IsAttended s
  InOrder-IsAttended (detecting url) s h = h.attended
  InOrder-IsAttended (creating url) s h = h.attended
  InOrder-IsAttended (starting url) s h = h.waiting.attended
  InOrder-IsAttended (capturing url) s h = h.waiting.attended
  InOrder-IsAttended (navigating url) s h = h.waiting.attended
  InOrder-IsAttended restoring s h = h.waiting.attended
  InOrder-IsAttended readying s h = h.waiting.attended
  InOrder-IsAttended applying s h = h.attended
  InOrder-IsAttended (reporting none) s h = h.attended
  InOrder-IsAttended (reporting (some e)) s h = h.attended
  InOrder-IsAttended (returned e) s h = h.attended

  -- A state of an interleaved opening: no reload so far stood before the start of its context, and
  -- the next step of the goroutine ends without a panic.
  pub record GoesOn (p : Phase) (s : Session) : Type 0 where
    pub trace : safe s.calls ≡ true
    pub goes_on : Returns (advance chrome p s) InOrderPair

  -- If an opening begins with a user interface, a logger, calls in a safe order and a browser that is
  -- not ready, then reloads may come from other threads between any two of its steps, and as often
  -- as they like: no reload is passed to a context before the call that starts Chrome on it, and the
  -- goroutine never panics.
  pub Turns-GoesOn :
      (url : Text) (s : Session) (p' : Phase) (s' : Session)
      → IsWaiting s
      → Turns chrome (detecting url) s p' s'
      → GoesOn p' s'
  Turns-GoesOn url s p' s' h r =
      let o = Turns-InOrder (detecting url) s p' s' r h in
      record { trace = (InOrder-IsAttended p' s' o).trace; goes_on = advance-InOrder p' s' o }
