-- ===== src/Page/Clicks.antt =====
-- How often `browser_click_element` clicks (mcp-interaction.go).
use devbrowser.Prelude.{
  if◌then◌else◌, pos, ltb_ℤ, append-nil, append_assoc, ℕ, ◌+◌, ◌≡◌, refl, sym, ap, ◌∙◌, Bool, true,
  false, ◌&&◌, Option, none, some, List, [], ◌∷◌, ◌++◌, ℤ, Result, ok, err, arith,
}
use devbrowser.Text.{Text, codes}
use devbrowser.Models.Actions.{ClickElementArgs}
use devbrowser.Capture.{or_default}
use devbrowser.Page.{
  title, location, evaluate, wait_ready, wait_visible, click, send_keys, sleep, mouse, Command,
  Scope, Action, Tab, Visit, perform, act, source, answer, after, with_prefix, returned, ◌>>=◌,
}
use devbrowser.Page.Interaction.{click_element, clicked, click_or_script, paused, deadline}

-- Whether an action is made to click: `chromedp.Click`, or a script.
abbrev pub is_click : {F : Type 0} → Command F → Bool
is_click (click s) = true
is_click (evaluate s a b) = true
is_click title = false
is_click location = false
is_click (wait_ready s) = false
is_click (wait_visible s) = false
is_click (send_keys s k) = false
is_click (sleep d) = false
is_click (mouse e x y b n) = false

abbrev pub is_none : {A : Type 0} → Option A → Bool
is_none none = true
is_none (some a) = false

abbrev pub one_if : Bool → ℕ
one_if true = 1
one_if false = 0

abbrev pub is_ok : {A : Type 0} → Result A → Bool
is_ok (ok a) = true
is_ok (err e) = false

module _ (tab : Tab) where
  open tab use {Float}

  -- How many of the actions that were made behind those others clicked without an error.
  pub clicks_after : List (Action Float) → List (Action Float) → ℕ
  clicks_after before [] = 0
  clicks_after before (a ∷ later) =
      one_if (is_click a.command && is_none (tab.error before a))
      + clicks_after (before ++ a ∷ []) later

  clicks_after-append :
      (before xs ys : List (Action Float))
      → clicks_after before (xs ++ ys) ≡ clicks_after before xs + clicks_after (before ++ xs) ys
  unfolding clicks_after
  clicks_after-append before [] ys = rw (append-nil before) (omega arith)
  clicks_after-append before (x ∷ xs) ys = omega (
    arith,
    clicks_after-append (before ++ x ∷ []) xs ys,
    ap (λ l. clicks_after l ys) (append_assoc before (x ∷ []) xs),
  )

  -- The visit went on by actions of which so many clicked.
  pub record Clicks (v w : Visit Float) (n : ℕ) : Type 0 where
    pub added : List (Action Float)
    pub appended : w.actions ≡ v.actions ++ added
    pub counted : clicks_after v.actions added ≡ n

  Clicks-then : (u v w : Visit Float) (m n : ℕ) → Clicks u v m → Clicks v w n → Clicks u w (m + n)
  unfolding clicks_after
  Clicks-then u v w m n g h = record {
    added = g.added ++ h.added;
    appended =
        h.appended ∙ (ap (λ l. l ++ h.added) g.appended ∙ append_assoc u.actions g.added h.added);
    counted =
        clicks_after-append u.actions g.added h.added
        ∙ (ap (λ l. clicks_after u.actions g.added + clicks_after l h.added) (sym g.appended)
            ∙ omega (arith, g.counted, h.counted));
  }

  answer-Clicks :
      {A : Type 0} (e : Option Text) (a : A) (action : Action Float) (v : Visit Float)
      → tab.error v.actions action ≡ e
      → Clicks v (answer tab e a action v).1 (one_if (is_click action.command && is_none e))
  unfolding clicks_after
  answer-Clicks (some e) a action v h = record {
    added = action ∷ [];
    appended = refl;
    counted = rw h (omega arith);
  }
  answer-Clicks none a action v h = record {
    added = action ∷ [];
    appended = refl;
    counted = rw h (omega arith);
  }

  -- What a call added to the actions clicked exactly once if the call succeeded, and else never.
  abbrev pub ClicksOnce : {A : Type 0} → Visit Float → Result A × Visit Float → Type 0
  ClicksOnce v p = Clicks v p.1 (one_if (is_ok p.0))

  module _ (scope : Scope) (selector : Text) (u : Visit Float) where
    scripted-ClicksOnce :
        (e : Option Text) (pre text s : Text) (w : Visit Float)
        → let action : Action Float = record {
          scope = scope;
          command = evaluate (source s) false false;
        } in
          tab.error w.actions action ≡ e
          → Clicks u w 0
          → ClicksOnce u (after (with_prefix pre (answer tab e tt action w)) (λ _. returned text))
    scripted-ClicksOnce (some e) pre text s w h g =
        Clicks-then u w _ 0 0 g (answer-Clicks (some e) tt _ w h)
    scripted-ClicksOnce none pre text s w h g =
        Clicks-then u w _ 0 1 g (answer-Clicks none tt _ w h)

    clicked-ClicksOnce :
        (p : Result (Unit {0}) × Visit Float)
        → ClicksOnce u p
        → ClicksOnce u (clicked tab scope selector p)
    unfolding clicked perform
    clicked-ClicksOnce (ok _, w) g = g
    clicked-ClicksOnce (err e, w) g =
        scripted-ClicksOnce _ (codes "JS click fallback failed for " ++ (selector ++ codes ": "))
          (codes "Clicked element (JS fallback): " ++ selector) _ _ refl
          (record { added = g.added; appended = g.appended; counted = g.counted })

    pause-ClicksOnce :
        (b : Bool) (ns : ℤ) (text : Text) (w : Visit Float)
        → Clicks u w 1
        → let p : Result Text × Visit Float =
            if b then (ok text, (act tab scope (sleep ns) w).1) else (ok text, w) in
          ClicksOnce u p
    unfolding perform
    pause-ClicksOnce true ns text w g = Clicks-then u w _ 1 0 g (answer-Clicks _ tt _ w refl)
    pause-ClicksOnce false ns text w g = g

    paused-ClicksOnce :
        (wait : ℤ) (p : Result Text × Visit Float)
        → ClicksOnce u p
        → ClicksOnce u (after p (λ text. paused tab scope wait text))
    unfolding paused
    paused-ClicksOnce wait (ok text, w) g = pause-ClicksOnce (ltb_ℤ (pos 0) wait) _ text w g
    paused-ClicksOnce wait (err e, w) g = g

    click-ClicksOnce :
        (e : Option Text) (v : Visit Float)
        → let action : Action Float = record { scope = scope; command = click selector } in
          tab.error v.actions action ≡ e → Clicks u v 0 → ClicksOnce u (answer tab e tt action v)
    click-ClicksOnce (some e) v h g = Clicks-then u v _ 0 0 g (answer-Clicks (some e) tt _ v h)
    click-ClicksOnce none v h g = Clicks-then u v _ 0 1 g (answer-Clicks none tt _ v h)

    waited-ClicksOnce :
        (e : Option Text) (pre : Text) (wait : ℤ)
        → let action : Action Float = record { scope = scope; command = wait_ready selector } in
          tab.error u.actions action ≡ e
          → ClicksOnce u (
              after
                (with_prefix pre (answer tab e tt action u))
                (λ _. click_or_script tab scope selector >>= λ text. paused tab scope wait text))
    unfolding click_or_script perform
    waited-ClicksOnce (some e) pre wait h = answer-Clicks (some e) tt _ u h
    waited-ClicksOnce none pre wait h =
        paused-ClicksOnce wait _
          (clicked-ClicksOnce _ (click-ClicksOnce _ _ refl (answer-Clicks none tt _ u h)))

  -- The tool answers that the element was clicked exactly if one click, by `chromedp` or by the
  -- script that replaces it, had no error, and it never makes a second one: a call that succeeds
  -- clicked once, and a call that fails did not click, whatever the page answers.
  pub click_element-ClicksOnce :
      (c : ℕ) (args : ClickElementArgs) (v : Visit Float)
      → ClicksOnce v (click_element tab c args v)
  unfolding click_element perform
  click_element-ClicksOnce c args v =
      waited-ClicksOnce (deadline c args.timeout) args.selector v _
        (codes "Error waiting for element " ++ (args.selector ++ codes ": "))
        (or_default (pos 100) args.wait_after) refl
