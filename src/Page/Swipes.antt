-- ===== src/Page/Swipes.antt =====
-- The mouse events of a drag, as the swipe makes them (mcp-interaction.go).
pub mod Whole
use devbrowser.Prelude.{
  ℕ, suc, ◌+◌, ◌≡◌, refl, sym, ap, ◌∙◌, Bool, true, false, ◌⊎◌, inl, inr, Option, none, some, List,
  [], ◌∷◌, ◌++◌, append_assoc, append-nil, ℤ, Result, ok, err, length, take, arith,
}
use devbrowser.Text.{Text, codes}
use devbrowser.Text.Decimal.{itoa}
use devbrowser.Models.Actions.{SwipeElementArgs}
use devbrowser.Page.{
  title, location, evaluate, wait_ready, wait_visible, click, send_keys, sleep, mouse, moved,
  pressed, released, MouseEvent, center, Command, Scope, browser_ctx, Action, Tab, Visit, Step,
  ◌>>=◌, ◌>>◌, after, with_prefix, returned, answer, perform, act,
}
use devbrowser.Page.Interaction.{swipe_element, swiped, dragged, start_of, end_of, single_quoted}
use devbrowser.Page.Clicks.{is_ok}

-- The events of the mouse among the actions, in their order.
abbrev pub mouse_command : {F : Type 0} → Command F → List (Command F)
mouse_command (mouse e x y b n) = mouse e x y b n ∷ []
mouse_command title = []
mouse_command location = []
mouse_command (evaluate s a b) = []
mouse_command (wait_ready s) = []
mouse_command (wait_visible s) = []
mouse_command (click s) = []
mouse_command (send_keys s k) = []
mouse_command (sleep d) = []

pub mouse_commands : {F : Type 0} → List (Action F) → List (Command F)
mouse_commands [] = []
mouse_commands (a ∷ later) = mouse_command a.command ++ mouse_commands later

mouse_commands-append :
    {F : Type 0} (xs ys : List (Action F))
    → mouse_commands (xs ++ ys) ≡ mouse_commands xs ++ mouse_commands ys
unfolding mouse_commands
mouse_commands-append [] ys = refl
mouse_commands-append (x ∷ xs) ys =
    ap (λ l. mouse_command x.command ++ l) (mouse_commands-append xs ys)
    ∙ sym (append_assoc (mouse_command x.command) (mouse_commands xs) (mouse_commands ys))

-- Whether the button is held after those events.
abbrev pub held_after : {F : Type 0} → Bool → List (Command F) → Bool
held_after b [] = b
held_after b (mouse moved x y l n ∷ cs) = held_after b cs
held_after b (mouse pressed x y l n ∷ cs) = held_after true cs
held_after b (mouse released x y l n ∷ cs) = held_after false cs
held_after b (_ ∷ cs) = held_after b cs

-- Moved to the start, pressed there, moved to the end and released there.
abbrev pub gesture : {F : Type 0} → F × F → F × F → List (Command F)
gesture (x, y) (x', y') =
    mouse moved x y false 0
    ∷ mouse pressed x y true 1
    ∷ mouse moved x' y' true 0
    ∷ mouse released x' y' true 1
    ∷ []

-- The visit went on with those events of the mouse.
pub record Moves (F : Type 0) (v w : Visit F) (cs : List (Command F)) : Type 0 where
  pub added : List (Action F)
  pub appended : w.actions ≡ v.actions ++ added
  pub events : mouse_commands added ≡ cs

-- A run made the events up to some number of them, and all of them if it succeeded.
pub record IsPrefix (F A : Type 0) (v : Visit F) (cs : List (Command F)) (p : Result A × Visit F)
    : Type 0 where
  pub made : ℕ
  pub moves : Moves F v p.1 (take made cs)
  pub whole : (is_ok p.0 ≡ false) ⊎ (made ≡ length cs)

Moves-then :
    {F : Type 0} (u v w : Visit F) (cs ds : List (Command F))
    → Moves F u v cs
    → Moves F v w ds
    → Moves F u w (cs ++ ds)
Moves-then u v w cs ds g h = record {
  added = g.added ++ h.added;
  appended =
      h.appended ∙ (ap (λ l. l ++ h.added) g.appended ∙ append_assoc u.actions g.added h.added);
  events =
      mouse_commands-append g.added h.added
      ∙ (ap (λ l. l ++ mouse_commands h.added) g.events ∙ ap (λ l. cs ++ l) h.events);
}

one_more :
    {F : Type 0} {b : Bool} (n : ℕ) (cs : List F)
    → (b ≡ false) ⊎ (n ≡ length cs)
    → (b ≡ false) ⊎ (suc n ≡ suc (length cs))
one_more n cs (inl e) = inl e
one_more n cs (inr e) = inr (ap suc e)

module _ (tab : Tab) where
  open tab use {Float}

  answer-Moves :
      {A : Type 0} (e : Option Text) (a : A) (action : Action Float) (v : Visit Float)
      → Moves Float v (answer tab e a action v).1 (mouse_command action.command)
  unfolding mouse_commands
  answer-Moves (some e) a action v = record {
    added = action ∷ [];
    appended = refl;
    events = append-nil _;
  }
  answer-Moves none a action v = record {
    added = action ∷ [];
    appended = refl;
    events = append-nil _;
  }

  module _ (scope : Scope) where
    abbrev on_scope : Command Float → Action Float
    on_scope command = record { scope = scope; command = command }

    -- A last event.
    last-IsPrefix :
        (e : Option Text) (m : MouseEvent) (x y : Float) (b : Bool) (n : ℕ) (v : Visit Float)
        → IsPrefix Float
            (Unit {0})
            v
            (mouse m x y b n ∷ [])
            (answer tab e tt (on_scope (mouse m x y b n)) v)
    last-IsPrefix (some e) m x y b n v = record {
      made = 1;
      moves = answer-Moves (some e) tt _ v;
      whole = inl refl;
    }
    last-IsPrefix none m x y b n v = record {
      made = 1;
      moves = answer-Moves none tt _ v;
      whole = inr refl;
    }

    -- An event before others.
    next-IsPrefix :
        {A : Type 0} (e : Option Text) (m : MouseEvent) (x y : Float) (b : Bool) (n : ℕ)
        (cs : List (Command Float)) (rest : Step Float A) (v : Visit Float)
        → ((w : Visit Float) → IsPrefix Float A w cs (rest w))
        → IsPrefix Float A v
            (mouse m x y b n ∷ cs)
            (after (answer tab e tt (on_scope (mouse m x y b n)) v) (λ _. rest))
    next-IsPrefix (some e) m x y b n cs rest v h = record {
      made = 1;
      moves = answer-Moves (some e) tt _ v;
      whole = inl refl;
    }
    next-IsPrefix none m x y b n cs rest v h =
        let w : Visit Float = record v { actions = v.actions ++ on_scope (mouse m x y b n) ∷ [] } in
        record {
          made = suc (h w).made;
          moves =
              Moves-then v w _ (mouse m x y b n ∷ []) (take (h w).made cs)
                (answer-Moves none tt (on_scope (mouse m x y b n)) v) (h w).moves;
          whole = one_more (h w).made cs (h w).whole;
        }

    act-IsPrefix :
        {A : Type 0} (m : MouseEvent) (x y : Float) (b : Bool) (n : ℕ) (cs : List (Command Float))
        (rest : Step Float A)
        → ((w : Visit Float) → IsPrefix Float A w cs (rest w))
        → (v : Visit Float)
        → IsPrefix Float A v (mouse m x y b n ∷ cs) ((act tab scope (mouse m x y b n) >> rest) v)
    unfolding perform
    act-IsPrefix m x y b n cs rest h v =
        next-IsPrefix (tab.error v.actions (on_scope (mouse m x y b n))) m x y b n cs rest v h

    act_last-IsPrefix :
        (m : MouseEvent) (x y : Float) (b : Bool) (n : ℕ) (v : Visit Float)
        → IsPrefix Float (Unit {0}) v (mouse m x y b n ∷ []) (act tab scope (mouse m x y b n) v)
    unfolding perform
    act_last-IsPrefix m x y b n v =
        last-IsPrefix (tab.error v.actions (on_scope (mouse m x y b n))) m x y b n v

    pub dragged-IsPrefix :
        (s t : Float × Float) (v : Visit Float)
        → IsPrefix Float (Unit {0}) v (gesture s t) (dragged tab scope s t v)
    unfolding dragged
    dragged-IsPrefix (x, y) (x', y') = act-IsPrefix moved x y false 0 _ _ (
        act-IsPrefix pressed x y true 1 _ _
          (act-IsPrefix moved x' y' true 0 _ _ (act_last-IsPrefix released x' y' true 1)))

    -- An action without the mouse before the events.
    pub behind-IsPrefix :
        {A B : Type 0} (e : Option Text) (a : A) (command : Command Float)
        (cs : List (Command Float)) (k : A → Step Float B) (v : Visit Float)
        → mouse_command command ≡ []
        → IsPrefix Float B
            (record v { actions = v.actions ++ on_scope command ∷ [] })
            cs
            (k a (record v { actions = v.actions ++ on_scope command ∷ [] }))
        → IsPrefix Float B v cs (after (answer tab e a (on_scope command) v) k)
    behind-IsPrefix (some e) a command cs k v h g = record {
      made = 0;
      moves = rw (← h) (answer-Moves (some e) a (on_scope command) v);
      whole = inl refl;
    }
    behind-IsPrefix none a command cs k v h g = record {
      made = g.made;
      moves =
          Moves-then v _ _ [] (take g.made cs) (rw (← h) (answer-Moves none a (on_scope command) v))
            g.moves;
      whole = g.whole;
    }
