-- ===== src/Session/Opening/Races.antt =====
-- What a close or a second `Open` does to an opening that is under way.
use devbrowser.Prelude.{
  ◌∙◌, ℕ, ◌≡◌, refl, Bool, true, false, Option, none, some, if◌then◌else◌, Outcome, done, panic,
  Returns, Returns-map, arith, ap,
}
use devbrowser.Text.{Text, codes}
use devbrowser.Session.{Chrome, Session, start, navigate, navigate_ready, ask, update}
use devbrowser.Session.Close.{close_browser}
use devbrowser.Session.Close.Laws.{IsClosed, close_browser-IsClosed}
use devbrowser.Session.Context.{create_browser_context}
use devbrowser.Session.Context.Kept.{create_browser_context-IsNewContext}
use devbrowser.Session.Open.{capture, is_alive, navigate_to_url, open_url}
use devbrowser.Session.Opening.{
  starting, capturing, navigating, on_ctx, after_start, after_navigation, advance,
}

module _ (chrome : Chrome) where
  -- The steps that need a context panic.
  pub record IsStranded (url : Text) (s : Session) : Type 0 where
    pub at_start : advance chrome (starting url) s ≡ panic
    pub at_capture : advance chrome (capturing url) s ≡ panic
    pub at_navigation : advance chrome (navigating url) s ≡ panic

  stranded : (url : Text) (s : Session) → s.browser.ctx ≡ none → IsStranded url s
  unfolding advance
  stranded url s e = record {
    at_start =
        ap
          (λ (o : Option ℕ). on_ctx chrome o (λ c. after_start chrome url (ask chrome (start c) s)))
          e;
    at_capture =
        ap (λ (o : Option ℕ). on_ctx chrome o (λ c. (navigating url, capture chrome c s))) e;
    at_navigation =
        ap
          (λ (o : Option ℕ).
            on_ctx chrome o
              (λ c. after_navigation chrome url (ask chrome (navigate_ready c url) s)))
          e;
  }

  -- If `CloseBrowser` runs on another thread (with a user interface), then the goroutine of an opening
  -- that is about to start Chrome, to capture or to navigate panics at that step.
  pub close_browser-IsStranded :
      (url : Text) (s : Session) (n : ℕ)
      → s.browser.ui ≡ some n
      → Returns (close_browser chrome s) (IsStranded url)
  close_browser-IsStranded url s n ui =
      Returns-map (close_browser chrome s) (IsClosed chrome s) (IsStranded url)
        (close_browser-IsClosed chrome s n ui) λ t closed. stranded url t closed.down.ctx

  choice :
      (b : Bool) (r : Option Text × Session) (rest : Outcome (Option Text × Session))
      → b ≡ true
      → (if b then done r else rest) ≡ done r
  choice true r rest e = refl
  choice false r rest e = cc

  abbrev pub asked : Text → Session → Session
  asked url s = update (λ b. record b { first_call = false; last_url = url }) s

  alive :
      (c : ℕ) (s : Session)
      → s.browser.ctx ≡ some c
      → s.browser.is_open_flag ≡ true
      → chrome.is_done s.calls c ≡ false
      → is_alive chrome s ≡ true
  unfolding is_alive
  alive c s e open_ live = ground (arith, e, open_, live)

  navigation :
      (url : Text) (c : ℕ) (s : Session)
      → s.browser.ctx ≡ some c
      → navigate_to_url chrome url s ≡ ask chrome (navigate c url) s
  unfolding navigate_to_url
  navigation url c s e = go s.browser.ctx e
    where
      go :
          (o : Option ℕ)
          → o ≡ some c
          → (elim o as (λ _. Option Text × Session) [
            | none ↦ (some (codes "context not initialized"), s)
            | some d ↦ ask chrome (navigate d url) s
          ])
            ≡ ask chrome (navigate c url) s
      go none p = cc
      go (some d) p = let q : d ≡ c = cc in rw q

  open_url_again :
      (url : Text) (c : ℕ) (s : Session)
      → s.browser.ctx ≡ some c
      → s.browser.is_open_flag ≡ true
      → chrome.is_done s.calls c ≡ false
      → open_url chrome url s
        ≡ done (
            ask chrome
              (navigate c url)
              (update (λ b. record b { first_call = false; last_url = url }) s))
  unfolding open_url
  open_url_again url c s e open_ live =
      choice (is_alive chrome s) (navigate_to_url chrome url (asked url s)) _
        (alive c s e open_ live)
      ∙ ap (λ r. done r) (navigation url c (asked url s) e)

  -- A second `Open` between the step that creates the context and the one that starts Chrome on it
  -- does not wait: while the browser counts as open and the context is not done, it navigates on
  -- that context at once, and remembers its URL.
  pub open_url-create_browser_context :
      (url : Text) (s : Session)
      → s.browser.is_open_flag ≡ true
      → chrome.is_done (create_browser_context chrome s).calls s.next_ctx ≡ false
      → open_url chrome url (create_browser_context chrome s)
        ≡ done (ask chrome (navigate s.next_ctx url) (asked url (create_browser_context chrome s)))
  open_url-create_browser_context url s open_ live =
      let new = create_browser_context-IsNewContext chrome s in
      open_url_again url s.next_ctx (create_browser_context chrome s) new.ctx
        (new.same.is_open ∙ open_) live
