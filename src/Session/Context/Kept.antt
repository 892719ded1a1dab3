-- ===== src/Session/Context/Kept.antt =====
-- What the creation of a browser context keeps, and what it calls.
use devbrowser.Prelude.{
  ℕ, ◌≡◌, refl, Bool, true, false, Option, none, some, List, [], ◌∷◌, ◌++◌, if◌then◌else◌, arith,
  ◌∙◌, ap, ◌+◌,
}
use devbrowser.Text.{Text, codes, is_empty}
use devbrowser.Browser.{DevBrowser}
use devbrowser.Browser
use devbrowser.Session.{Chrome, Session, Switch, new_context, user_data_dir, tell, logged}
use devbrowser.Session.Close.{shutdown_chrome}
use devbrowser.Session.Close.Laws.{shutdown_calls, calls-shutdown_chrome}
use devbrowser.Session.Context.{
  marked, build_allocator_options, report_fallback, configured, allocate, create_browser_context,
}

-- The flags that a new context does not touch.
pub record SameFlags (b b' : DevBrowser) : Type 0 where
  pub ready : b'.ready ≡ b.ready
  pub is_open : b'.is_open_flag ≡ b.is_open_flag
  pub installed : b'.selection_capture_installed ≡ b.selection_capture_installed
  pub pending : b'.pending_reload ≡ b.pending_reload

logger-SameFlags : (m : List Text) (b : DevBrowser) → SameFlags b (Browser.logger m b)
unfolding Browser.logger
logger-SameFlags m b = record {
  ready = ground arith;
  is_open = ground arith;
  installed = ground arith;
  pending = ground arith;
}

SameFlags-refl : (b : DevBrowser) → SameFlags b b
SameFlags-refl b = record { ready = refl; is_open = refl; installed = refl; pending = refl }

if-SameFlags :
    (b : DevBrowser) (c : Bool) (t u : List Switch × DevBrowser)
    → SameFlags b t.1
    → SameFlags b u.1
    → SameFlags b (if c then t else u).1
if-SameFlags b true t u p q = p
if-SameFlags b false t u p q = q

if_same :
    (b : DevBrowser) (c : Bool) (s t : Session)
    → SameFlags b s.browser
    → SameFlags b t.browser
    → SameFlags b (if c then s else t).browser
if_same b true s t p q = p
if_same b false s t p q = q

if-calls : (c : Bool) (s t : Session) → t.calls ≡ s.calls → (if c then s else t).calls ≡ s.calls
if-calls true s t e = refl
if-calls false s t e = e

if-next :
    (c : Bool) (s t : Session)
    → t.next_ctx ≡ s.next_ctx
    → (if c then s else t).next_ctx ≡ s.next_ctx
if-next true s t e = refl
if-next false s t e = e

module _ (chrome : Chrome) where
  marked-SameFlags : (o : Option Text) (b : DevBrowser) → SameFlags b (marked chrome o b)
  marked-SameFlags none b = SameFlags-refl b
  marked-SameFlags (some e) b = logger-SameFlags _ b

  build_allocator_options-SameFlags :
      (b : DevBrowser) → SameFlags b (build_allocator_options chrome b).1
  unfolding build_allocator_options
  build_allocator_options-SameFlags b =
      let b1 : DevBrowser = record b { dev_tools_reserved = true } in
      let locked : DevBrowser = record b1 {
        profile_fallback_reason = codes "locked by another process";
      } in
      let kept : List Switch × DevBrowser =
        (user_data_dir b.profile_dir ∷ [], marked chrome (chrome.mark_error b.profile_dir) b1) in
      let h =
        if-SameFlags b1 (is_empty b.profile_dir) ([], b1)
          (if chrome.profile_locked b.profile_dir then ([], locked) else kept) (SameFlags-refl b1)
          (if-SameFlags b1 (chrome.profile_locked b.profile_dir) ([], locked) kept
            (record { ready = refl; is_open = refl; installed = refl; pending = refl })
            (marked-SameFlags (chrome.mark_error b.profile_dir) b1)) in
      record { ready = h.ready; is_open = h.is_open; installed = h.installed; pending = h.pending }

  report_fallback-SameFlags : (s : Session) → SameFlags s.browser (report_fallback chrome s).browser
  unfolding report_fallback logged
  report_fallback-SameFlags s =
      let h = logger-SameFlags _ s.browser in
      if_same s.browser (is_empty s.browser.profile_fallback_reason) s _ (SameFlags-refl s.browser)
        (record {
          ready = h.ready;
          is_open = h.is_open;
          installed = h.installed;
          pending = h.pending;
        })

  calls-report_fallback : (s : Session) → (report_fallback chrome s).calls ≡ s.calls
  unfolding report_fallback logged
  calls-report_fallback s = if-calls (is_empty s.browser.profile_fallback_reason) s _ refl

  next-report_fallback : (s : Session) → (report_fallback chrome s).next_ctx ≡ s.next_ctx
  unfolding report_fallback logged
  next-report_fallback s = if-next (is_empty s.browser.profile_fallback_reason) s _ refl

  next-shutdown_chrome : (s : Session) → (shutdown_chrome chrome s).next_ctx ≡ s.next_ctx
  unfolding shutdown_chrome
  next-shutdown_chrome s = ground arith

  shutdown_chrome-SameFlags : (s : Session) → SameFlags s.browser (shutdown_chrome chrome s).browser
  unfolding shutdown_chrome
  shutdown_chrome-SameFlags s = record {
    ready = ground arith;
    is_open = ground arith;
    installed = ground arith;
    pending = ground arith;
  }

  -- The options of the next context.
  pub options : Session → List Switch
  options s = (configured chrome (shutdown_chrome chrome s)).0

  -- How a new context leaves the session.
  pub record IsNewContext (before after : Session) : Type 0 where
    pub calls :
        after.calls
        ≡ (before.calls ++ shutdown_calls chrome before)
          ++ new_context before.next_ctx (options before) ∷ []
    pub ctx : after.browser.ctx ≡ some before.next_ctx
    pub cancel : after.browser.cancel ≡ some before.next_ctx
    pub alloc_cancel : after.browser.alloc_cancel ≡ some before.next_ctx
    pub next_ctx : after.next_ctx ≡ before.next_ctx + 1
    pub same : SameFlags before.browser after.browser

  -- Creating a context shuts the one before down, in that order, takes a new context and its two
  -- cancel functions over, and keeps the flags of the session.
  pub create_browser_context-IsNewContext :
      (s : Session) → IsNewContext s (create_browser_context chrome s)
  unfolding create_browser_context configured allocate tell options
  create_browser_context-IsNewContext s =
      let s1 = shutdown_chrome chrome s in
      let b2 = (build_allocator_options chrome s1.browser).1 in
      let s2 : Session = record s1 { browser = b2 } in
      let f1 = shutdown_chrome-SameFlags s in
      let f2 = build_allocator_options-SameFlags s1.browser in
      let f3 = report_fallback-SameFlags s2 in
      let n = next-report_fallback s2 ∙ next-shutdown_chrome s in
      record {
        calls = rw (calls-report_fallback s2, n, calls-shutdown_chrome chrome s);
        ctx = ap (λ (c : ℕ). some c) n;
        cancel = ap (λ (c : ℕ). some c) n;
        alloc_cancel = ap (λ (c : ℕ). some c) n;
        next_ctx = ap (λ c. c + 1) n;
        same = record {
          ready = f3.ready ∙ f2.ready ∙ f1.ready;
          is_open = f3.is_open ∙ f2.is_open ∙ f1.is_open;
          installed = f3.installed ∙ f2.installed ∙ f1.installed;
          pending = f3.pending ∙ f2.pending ∙ f1.pending;
        };
      }
