-- ===== src/Page/Safety.antt =====
-- The tools of the page only act on the context of the browser, and only log in the session.
use devbrowser.Prelude.{
  ◌∙◌, ◌⊎◌, Returns, append-nil, ℕ, ◌≡◌, refl, sym, ap, Bool, true, false, Option, none, some, List,
  ◌++◌, [], ltb_ℤ, pos, ℤ, Result, ok, err, Outcome, done, panic, if◌then◌else◌, Bool-cases, inl,
  inr,
}
use devbrowser.Text.{Text, codes}
use devbrowser.Capture.{browser_not_open}
use devbrowser.Session.{logged}
use devbrowser.Page.{
  Tab, Visit, click as click_on, Scope, sleep, evaluate, source, Json, null, string, float, boolean,
  compound, on_bound, on_page, act, returned, ◌>>=◌, on_error,
}
use devbrowser.Page.Tools.{
  PageTool, PageArgs, body, execute_tool, content, styles, html, storage, asset, inspection,
  evaluation, click, fill, swipe, performance, audit,
}
use devbrowser.Page.Reading.{content_read, printed, asset_text, serialized}
use devbrowser.Page.Interaction.{
  clicked, click_or_script, paused, dragged, click_script, nanoseconds,
}
use devbrowser.Page.Kept.{
  context_of, same, more, GoesOn, GoesOn-same, GoesOn-then, Keeps, Keeps-returned, Keeps-bind,
  Keeps-on_error, Keeps-perform,
}

ruleset keeps_rules = (Keeps-returned, Keeps-bind, Keeps-on_error, Keeps-perform, refl)

module _ (F : Type 0) (c : ℕ) where
  serialized-Keeps : (s : Result Text) → Keeps F c Text (serialized s)
  serialized-Keeps (ok s) = record { keeps = GoesOn-same F c }
  serialized-Keeps (err e) = record { keeps = GoesOn-same F c }

  printed-Keeps : (j : Json) → Keeps F c Text (printed j)
  printed-Keeps null = Keeps-returned F c _
  printed-Keeps (string s) = Keeps-returned F c _
  printed-Keeps (float s) = Keeps-returned F c _
  printed-Keeps (boolean b) = Keeps-returned F c _
  printed-Keeps (compound t s) = serialized-Keeps s

  asset_text-Keeps : (j : Json) → Keeps F c Text (asset_text j)
  asset_text-Keeps null = record { keeps = GoesOn-same F c }
  asset_text-Keeps _ = record { keeps = GoesOn-same F c }

module _ (tab : Tab) (c : ℕ) where
  open tab use {Float}

  content_read-Keeps : Keeps Float c _ (content_read tab c)
  unfolding content_read
  content_read-Keeps = search keeps_rules depth 12

  -- The visit after a line of the log.
  logged-GoesOn :
      (args : List Text) (v : Visit Float)
      → GoesOn Float c v (record v { session = logged args v.session })
  logged-GoesOn args v = record {
    added = [];
    appended = sym (append-nil v.actions);
    on_context = tt;
    is_logged = more args _ same;
  }

  script_click-Keeps :
      (scope : Scope) (selector : Text)
      → context_of scope ≡ c
      → Keeps Float c Text (
          on_error
            (codes "JS click fallback failed for " ++ (selector ++ codes ": "))
            (act tab scope (evaluate (source (click_script tab selector)) false false))
          >>= λ _. returned (codes "Clicked element (JS fallback): " ++ selector))
  script_click-Keeps scope selector h = search keeps_rules depth 12

  clicked-GoesOn :
      (scope : Scope) (selector : Text) (v : Visit Float) (p : Result (Unit {0}) × Visit Float)
      → context_of scope ≡ c
      → GoesOn Float c v p.1
      → GoesOn Float c v (clicked tab scope selector p).1
  unfolding clicked
  clicked-GoesOn scope selector v (ok _, w) h g = g
  clicked-GoesOn scope selector v (err e, w) h g = GoesOn-then Float c v w _ g (
      GoesOn-then Float c w _ _ (logged-GoesOn _ w) ((script_click-Keeps scope selector h).keeps _))

  click_or_script-Keeps :
      (scope : Scope) (selector : Text)
      → context_of scope ≡ c
      → Keeps Float c Text (click_or_script tab scope selector)
  unfolding click_or_script
  click_or_script-Keeps scope selector h = record {
    keeps = λ v.
        clicked-GoesOn scope selector v _ h
          ((Keeps-perform tab c _ scope (click_on selector) h).keeps v);
  }

  paused-GoesOn :
      (b : Bool) (scope : Scope) (ns : ℤ) (text : Text) (v : Visit Float)
      → context_of scope ≡ c
      → let p : Result Text × Visit Float =
          if b then (ok text, (act tab scope (sleep ns) v).1) else (ok text, v) in
        GoesOn Float c v p.1
  paused-GoesOn true scope ns text v h = (Keeps-perform tab c _ scope (sleep ns) h).keeps v
  paused-GoesOn false scope ns text v h = GoesOn-same Float c v

  paused-Keeps :
      (scope : Scope) (wait : ℤ) (text : Text)
      → context_of scope ≡ c
      → Keeps Float c Text (paused tab scope wait text)
  unfolding paused
  paused-Keeps scope wait text h = record {
    keeps = λ v. paused-GoesOn (ltb_ℤ (pos 0) wait) scope (nanoseconds wait) text v h;
  }

  dragged-Keeps :
      (scope : Scope) (s t : Float × Float)
      → context_of scope ≡ c
      → Keeps Float c _ (dragged tab scope s t)
  unfolding dragged
  dragged-Keeps scope (x, y) (x', y') h = search keeps_rules depth 12

  body-Keeps : (t : PageTool) (args : PageArgs t) → Keeps Float c Text (body tab t c args)
  unfolding body
  body-Keeps content args = search (keeps_rules, content_read-Keeps) depth 12
  body-Keeps styles args = search keeps_rules depth 12
  body-Keeps html args = search keeps_rules depth 12
  body-Keeps storage args = search keeps_rules depth 12
  body-Keeps asset args = search (keeps_rules, asset_text-Keeps) depth 12
  body-Keeps inspection args = search keeps_rules depth 12
  body-Keeps evaluation args = search (keeps_rules, printed-Keeps) depth 12
  body-Keeps click args = search (keeps_rules, click_or_script-Keeps, paused-Keeps) depth 12
  body-Keeps fill args = search keeps_rules depth 12
  body-Keeps swipe args = search (keeps_rules, dragged-Keeps) depth 12
  body-Keeps performance args = search keeps_rules depth 12
  body-Keeps audit args = search keeps_rules depth 12

on_bound-GoesOn :
    (tab : Tab) (t : PageTool) (bound : Result (PageArgs t)) (v : Visit tab.Float) (c : ℕ)
    → Returns (on_bound tab (body tab t) (some c) bound v) (λ p. GoesOn tab.Float c v p.1)
on_bound-GoesOn tab t (err e) v c = GoesOn-same tab.Float c v
on_bound-GoesOn tab t (ok args) v c = (body-Keeps tab c t args).keeps v

module _ (tab : Tab) (t : PageTool) (bound : Result (PageArgs t)) (v : Visit tab.Float) where
  on_flag : Bool → Outcome (Result Text × Visit tab.Float)
  on_flag b =
      if b
      then on_bound tab (body tab t) v.session.browser.ctx bound v
      else done (err browser_not_open, v)

  execute_tool-open :
      (o : Option ℕ)
      → v.session.browser.is_open_flag ≡ true
      → v.session.browser.ctx ≡ o
      → execute_tool tab t bound v ≡ on_bound tab (body tab t) o bound v
  unfolding execute_tool on_page on_flag
  execute_tool-open o e h = ap on_flag e ∙ ap (λ o'. on_bound tab (body tab t) o' bound v) h

  execute_tool-closed :
      v.session.browser.is_open_flag ≡ false
      → execute_tool tab t bound v ≡ done (err browser_not_open, v)
  unfolding execute_tool on_page on_flag
  execute_tool-closed e = ap on_flag e

  execute_tool-Returns :
      (c : ℕ)
      → execute_tool tab t bound v ≡ on_bound tab (body tab t) (some c) bound v
      → Returns (execute_tool tab t bound v) (λ p. GoesOn tab.Float c v p.1)
  execute_tool-Returns c e = rw e (on_bound-GoesOn tab t bound v c)

-- With a browser context, no tool of the page panics: a browser that is not open is refused and
-- left alone; else the tool only adds actions on that context behind those of before, and leaves
-- the session as it was but for lines of the log.
pub execute_tool-GoesOn :
    (tab : Tab) (t : PageTool) (bound : Result (PageArgs t)) (v : Visit tab.Float) (c : ℕ)
    → v.session.browser.ctx ≡ some c
    → ((v.session.browser.is_open_flag ≡ false)
        × (execute_tool tab t bound v ≡ done (err browser_not_open, v)))
      ⊎ ((v.session.browser.is_open_flag ≡ true)
          × Returns (execute_tool tab t bound v) (λ p. GoesOn tab.Float c v p.1))
execute_tool-GoesOn tab t bound v c h = elim (Bool-cases v.session.browser.is_open_flag) [
  | inl e ↦
      inr (e, execute_tool-Returns tab t bound v c (execute_tool-open tab t bound v (some c) e h))
  | inr e ↦ inl (e, execute_tool-closed tab t bound v e)
]

-- While the flag of an open browser is set and there is no context, as it is when `Open` has begun,
-- every tool of the page panics, whatever its arguments.
pub execute_tool-without_context :
    (tab : Tab) (t : PageTool) (args : PageArgs t) (v : Visit tab.Float)
    → v.session.browser.is_open_flag ≡ true
    → v.session.browser.ctx ≡ none
    → execute_tool tab t (ok args) v ≡ panic
execute_tool-without_context tab t args v e h = execute_tool-open tab t (ok args) v none e h
