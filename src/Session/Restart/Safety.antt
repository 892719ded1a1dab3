-- ===== src/Session/Restart/Safety.antt =====
-- The order of the calls, whatever the program does with a session.
use devbrowser.Prelude.{
  returned_value, ℕ, ◌≡◌, Bool, true, false, not, Option, none, some, List, [], ◌∷◌, if◌then◌else◌,
  ◌&&◌, ◌==◌, Outcome, done, Returns, Returns-bind, refl, arith, ap, ◌∙◌, ◌+◌,
}
use devbrowser.Text.{Text, codes, is_empty}
use devbrowser.Browser.{DevBrowser}
use devbrowser.Session.{Chrome, Session, Call, update, logged}
use devbrowser.Session.Trace.{safe, is_set, logged-Quiet}
use devbrowser.Session.Close.{close_browser, browser_closed_by_user}
use devbrowser.Session.Close.Safety.{close_browser-IsSafe}
use devbrowser.Session.Reload.Laws.{IsSafe, Covered, update-IsSafe, reload_page-IsSafe}
use devbrowser.Session.Open.{open_url, open_browser, url_of}
use devbrowser.Session.Open.Safety.{IsSafeEnd, open_url-IsSafe}
use devbrowser.Session.Restart.{
  reopen, restart_browser, browser_start_url_changed, Step, opening, opening_port, closing,
  reloading, restarting, start_url_changing, toggling, toggled, execute, closing_by_user, Reach,
  at_first, then_step,
}

if-Returns {ℓ} :
    {A : Type ℓ} (P : A → Type 0) (c : Bool) (t u : Outcome A)
    → Returns t P
    → Returns u P
    → Returns (if c then t else u) P
if-Returns P true t u p q = p
if-Returns P false t u p q = q

Covered-none : (r : Bool) (calls : List Call) → Covered r none calls
Covered-none true calls = tt
Covered-none false calls = tt

counted : Option ℕ → Option ℕ
counted o = elim o [ none ↦ none | some n ↦ some (n + 1) ]

is_set-counted : (o : Option ℕ) → is_set o ≡ true → is_set (counted o) ≡ true
unfolding counted
is_set-counted none h = h
is_set-counted (some n) h = refl

if-IsSafe : (c : Bool) (s t : Session) → IsSafe s → IsSafe t → IsSafe (if c then s else t)
if-IsSafe true s t p q = p
if-IsSafe false s t p q = q

browser_closed_by_user-IsSafe : (s : Session) → IsSafe s → IsSafe (browser_closed_by_user s)
unfolding browser_closed_by_user
browser_closed_by_user-IsSafe s h =
    let s' = logged (codes "Browser closed by user" ∷ []) s in
    let h' = (logged-Quiet (codes "Browser closed by user" ∷ []) s).attended h.attended in
    if-IsSafe s.browser.is_open_flag _ s
      (record {
        attended = record {
          trace = h'.trace;
          ui = unfold counted in is_set-counted s'.browser.ui h'.ui;
          log = h'.log;
        };
        covered = Covered-none s'.browser.ready s'.calls;
      })
      h

module _ (chrome : Chrome) where
  pub open_browser-IsSafe :
      (port : Text) (https : Bool) (s : Session)
      → IsSafe s
      → Returns (open_browser chrome port https s) IsSafe
  unfolding open_browser
  open_browser-IsSafe port https s h =
      let f : DevBrowser → DevBrowser = λ b. record b { last_port = port; last_https = https } in
      if-Returns IsSafe (is_empty port) (done s) _ h (
        Returns-bind (open_url chrome (url_of chrome port https) (update f s)) _ (IsSafeEnd chrome)
          IsSafe
          (open_url-IsSafe chrome (url_of chrome port https) (update f s)
            (update-IsSafe f s refl refl refl refl h))
          λ r e. e)

  reopen-IsSafe :
      (url port : Text) (https : Bool) (s : Session)
      → IsSafe s
      → Returns (reopen chrome url port https s) (IsSafeEnd chrome)
  unfolding reopen
  reopen-IsSafe url port https s h =
      if-Returns (IsSafeEnd chrome) (not (is_empty url)) (open_url chrome url s) _
        (open_url-IsSafe chrome url s h)
        (Returns-bind (open_browser chrome port https s) _ IsSafe (IsSafeEnd chrome)
          (open_browser-IsSafe port https s h) λ t safe. safe)

  pub restart_browser-IsSafe :
      (s : Session) → IsSafe s → Returns (restart_browser chrome s) (IsSafeEnd chrome)
  unfolding restart_browser
  restart_browser-IsSafe s h =
      let url = s.browser.last_url in
      let port = s.browser.last_port in
      if-Returns (IsSafeEnd chrome) (is_empty url && is_empty port) (done (none, s)) _ h (
        Returns-bind (close_browser chrome s) _ IsSafe (IsSafeEnd chrome)
          (close_browser-IsSafe chrome s h.attended)
          λ t safe_t. reopen-IsSafe url port s.browser.last_https t safe_t)

  pub browser_start_url_changed-IsSafe :
      (s : Session) → IsSafe s → Returns (browser_start_url_changed chrome s) (IsSafeEnd chrome)
  unfolding browser_start_url_changed
  browser_start_url_changed-IsSafe s h =
      if-Returns (IsSafeEnd chrome) (not s.browser.is_open_flag) (done (none, s)) _ h
        (restart_browser-IsSafe s h)

  toggled-IsSafe : (s : Session) → IsSafe s → Returns (toggled chrome s) IsSafe
  unfolding toggled
  toggled-IsSafe s h =
      if-Returns IsSafe s.browser.is_open_flag (close_browser chrome s) _
        (close_browser-IsSafe chrome s h.attended)
        (open_browser-IsSafe s.browser.last_port s.browser.last_https s h)

  execute-IsSafe : (s : Session) → IsSafe s → Returns (execute chrome s) IsSafe
  unfolding execute
  execute-IsSafe s h =
      let f : DevBrowser → DevBrowser = λ b. record b { busy = 1 } in
      let g : DevBrowser → DevBrowser = λ b. record b { busy = 0 } in
      if-Returns IsSafe (s.browser.busy == 0) _ (done s)
        (Returns-bind (toggled chrome (update f s)) _ IsSafe IsSafe
          (toggled-IsSafe (update f s) (update-IsSafe f s refl refl refl refl h))
          λ t safe_t. update-IsSafe g t refl refl refl refl safe_t)
        h

  Step-IsSafe : (s t : Session) → Step chrome s t → IsSafe s → IsSafe t
  Step-IsSafe _ _ (opening url s t e r) h =
      returned_value (IsSafeEnd chrome) (open_url chrome url s) (e, t) r
        (open_url-IsSafe chrome url s h)
  Step-IsSafe _ _ (opening_port port https s t r) h =
      returned_value IsSafe (open_browser chrome port https s) t r
        (open_browser-IsSafe port https s h)
  Step-IsSafe _ _ (closing s t r) h =
      returned_value IsSafe (close_browser chrome s) t r (close_browser-IsSafe chrome s h.attended)
  Step-IsSafe _ _ (reloading s) h = reload_page-IsSafe chrome s h
  Step-IsSafe _ _ (restarting s t e r) h =
      returned_value (IsSafeEnd chrome) (restart_browser chrome s) (e, t) r
        (restart_browser-IsSafe s h)
  Step-IsSafe _ _ (start_url_changing s t e r) h =
      returned_value (IsSafeEnd chrome) (browser_start_url_changed chrome s) (e, t) r
        (browser_start_url_changed-IsSafe s h)
  Step-IsSafe _ _ (toggling s t r) h =
      returned_value IsSafe (execute chrome s) t r (execute-IsSafe s h)
  Step-IsSafe _ _ (closing_by_user s) h = browser_closed_by_user-IsSafe s h

  pub Reach-IsSafe : (first s : Session) → Reach chrome first s → IsSafe first → IsSafe s
  Reach-IsSafe first _ at_first h = h
  Reach-IsSafe first _ (then_step s t r step) h = Step-IsSafe s t step (Reach-IsSafe first s r h)

  -- A session of a new `DevBrowser` with a logger and a user interface.
  pub record IsFresh (s : Session) : Type 0 where
    pub calls : s.calls ≡ []
    pub ready : s.browser.ready ≡ false
    pub ui : is_set s.browser.ui ≡ true
    pub log : is_set s.browser.log ≡ true

  fresh-IsSafe : (s : Session) → IsFresh s → IsSafe s
  fresh-IsSafe s h = record {
    attended = record { trace = ap safe h.calls ∙ (unfold safe in refl); ui = h.ui; log = h.log };
    covered = ground (arith, h.ready);
  }

  -- Starting from a new browser with a logger and a user interface, whatever is opened, closed,
  -- reloaded, restarted, toggled or closed by the user, one after the other, and whatever Chrome answers:
  -- no reload is passed to a browser context before the call that starts Chrome on it.
  pub Reach-safe : (first s : Session) → IsFresh first → Reach chrome first s → safe s.calls ≡ true
  Reach-safe first s fresh r = (Reach-IsSafe first s r (fresh-IsSafe first fresh)).attended.trace

  -- Each operation ends without a panic.
  pub record IsTotal (s : Session) : Type 0 where
    pub opens : (url : Text) → Returns (open_url chrome url s) (IsSafeEnd chrome)
    pub opens_port :
        (port : Text) (https : Bool) → Returns (open_browser chrome port https s) IsSafe
    pub closes : Returns (close_browser chrome s) IsSafe
    pub restarts : Returns (restart_browser chrome s) (IsSafeEnd chrome)
    pub follows_url : Returns (browser_start_url_changed chrome s) (IsSafeEnd chrome)
    pub toggles : Returns (execute chrome s) IsSafe

  -- In every state that a new browser with a logger and a user interface can reach, opening,
  -- closing, restarting, the toggle and a change of the start URL end without a panic, and in a state from which
  -- no reload can come before the start of its context.
  pub Reach-IsTotal : (first s : Session) → IsFresh first → Reach chrome first s → IsTotal s
  Reach-IsTotal first s fresh r =
      let h = Reach-IsSafe first s r (fresh-IsSafe first fresh) in
      record {
        opens = λ url. open_url-IsSafe chrome url s h;
        opens_port = λ port https. open_browser-IsSafe port https s h;
        closes = close_browser-IsSafe chrome s h.attended;
        restarts = restart_browser-IsSafe s h;
        follows_url = browser_start_url_changed-IsSafe s h;
        toggles = execute-IsSafe s h;
      }
