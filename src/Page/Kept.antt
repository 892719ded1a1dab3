-- ===== src/Page/Kept.antt =====
-- What a tool of the page does to the session and to the page.
use devbrowser.Prelude.{
  ℕ, ◌≡◌, refl, sym, ap, ◌∙◌, Option, none, some, List, [], ◌∷◌, ◌++◌, append_assoc, append-nil,
  Result, ok, err, All, All-append,
}
use devbrowser.Text.{Text}
use devbrowser.Session.{Session, logged}
use devbrowser.Page.{
  Command, Scope, browser_ctx, timeout_ctx, Action, Tab, Visit, Step, returned, ◌>>=◌, on_error,
  perform, after, with_prefix, answer,
}

-- The browser context of an action.
abbrev pub context_of : Scope → ℕ
context_of (browser_ctx c) = c
context_of (timeout_ctx c d) = c

-- A session that was only written to the log.
pub data IsLogged (s : Session) : Session → Type 0 where
  same : IsLogged s s
  more : (args : List Text) (s' : Session) → IsLogged s s' → IsLogged s (logged args s')

IsLogged-trans : (s s' s'' : Session) → IsLogged s s' → IsLogged s' s'' → IsLogged s s''
IsLogged-trans s s' _ l same = l
IsLogged-trans s s' _ l (more args t k) = more args t (IsLogged-trans s s' t l k)

abbrev pub IsOn : {F : Type 0} → ℕ → Action F → Type 0
IsOn c a = context_of a.scope ≡ c

-- The visit went on by actions on that context, and the session was only written to the log.
pub record GoesOn (F : Type 0) (c : ℕ) (v w : Visit F) : Type 0 where
  pub added : List (Action F)
  pub appended : w.actions ≡ v.actions ++ added
  pub on_context : All (IsOn c) added
  pub is_logged : IsLogged v.session w.session

module _ (F : Type 0) (c : ℕ) where
  pub GoesOn-same : (v : Visit F) → GoesOn F c v v
  GoesOn-same v = record {
    added = [];
    appended = sym (append-nil v.actions);
    on_context = tt;
    is_logged = same;
  }

  pub GoesOn-then : (u v w : Visit F) → GoesOn F c u v → GoesOn F c v w → GoesOn F c u w
  GoesOn-then u v w g h = record {
    added = g.added ++ h.added;
    appended =
        h.appended ∙ (ap (λ l. l ++ h.added) g.appended ∙ append_assoc u.actions g.added h.added);
    on_context = All-append (IsOn c) g.added h.added g.on_context h.on_context;
    is_logged = IsLogged-trans u.session v.session w.session g.is_logged h.is_logged;
  }

  -- A step of which every run goes on.
  pub record Keeps (A : Type 0) (m : Step F A) : Type 0 where
    pub keeps : (v : Visit F) → GoesOn F c v (m v).1

  module _ {A : Type 0} where
    pub Keeps-returned : (a : A) → Keeps A (returned a)
    Keeps-returned a = record { keeps = GoesOn-same }

    after-GoesOn :
        {B : Type 0} (v : Visit F) (p : Result A × Visit F) (k : A → Step F B)
        → GoesOn F c v p.1
        → ((a : A) → Keeps B (k a))
        → GoesOn F c v (after p k).1
    after-GoesOn v (ok a, w) k g h = GoesOn-then v w (k a w).1 g ((h a).keeps w)
    after-GoesOn v (err e, w) k g h = g

    pub Keeps-bind :
        {B : Type 0} (m : Step F A) (k : A → Step F B)
        → Keeps A m
        → ((a : A) → Keeps B (k a))
        → Keeps B (m >>= k)
    Keeps-bind m k g h = record { keeps = λ v. after-GoesOn v (m v) k (g.keeps v) h }

    with_prefix-GoesOn :
        (v : Visit F) (text : Text) (p : Result A × Visit F)
        → GoesOn F c v p.1
        → GoesOn F c v (with_prefix text p).1
    with_prefix-GoesOn v text (ok a, w) g = g
    with_prefix-GoesOn v text (err e, w) g = g

    pub Keeps-on_error : (text : Text) (m : Step F A) → Keeps A m → Keeps A (on_error text m)
    Keeps-on_error text m g = record { keeps = λ v. with_prefix-GoesOn v text (m v) (g.keeps v) }

module _ (tab : Tab) (c : ℕ) where
  open tab use {Float}

  answer-GoesOn :
      {A : Type 0} (e : Option Text) (a : A) (action : Action Float) (v : Visit Float)
      → IsOn c action
      → GoesOn Float c v (answer tab e a action v).1
  answer-GoesOn (some e) a action v h = record {
    added = action ∷ [];
    appended = refl;
    on_context = (h, tt);
    is_logged = same;
  }
  answer-GoesOn none a action v h = record {
    added = action ∷ [];
    appended = refl;
    on_context = (h, tt);
    is_logged = same;
  }

  pub Keeps-perform :
      {A : Type 0} (read : List (Action Float) → Action Float → A) (scope : Scope)
      (command : Command Float)
      → context_of scope ≡ c
      → Keeps Float c A (perform tab read scope command)
  unfolding perform
  Keeps-perform read scope command h = record {
    keeps = λ v.
        let action : Action Float = record { scope = scope; command = command } in
        answer-GoesOn (tab.error v.actions action) (read v.actions action) action v h;
  }
