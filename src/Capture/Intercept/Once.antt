-- ===== src/Capture/Intercept/Once.antt =====
-- That no request of the listener is lost or handled twice, whatever order the goroutines get their
-- turns in.
use mathlib.Core.List.{Perm}
use mathlib.Core.List.Perm
use devbrowser.Prelude.{
  ◌≡◌, Bool, Option, none, some, List, [], ◌∷◌, ◌++◌, ap, append-nil, append_assoc,
}
use devbrowser.Text.{Text}
use devbrowser.Capture.Intercept.{stop_interception}
use devbrowser.Capture.Intercept.Listener.{
  PausedRequest, Goroutine, Listener, turn_at, after_turn, on_paused, Event, arrives, turns, stops,
  on_event, on_events,
}
use devbrowser.Capture.Intercept.Turns.{
  accepted, requests, waiting, captured_of, let_go_of, first_turns, turn_at-waiting,
  turn_at-requests, on_paused-waiting, on_paused-requests, on_paused-continued, after_turn-Turned,
}

Perm-cast :
    (x a a' b b' : List PausedRequest) → a ≡ a' → b ≡ b' → Perm x (a ++ b) → Perm x (a' ++ b')
Perm-cast x a a' b b' e f h = rw (← e, ← f) h

-- What a step captures moves from the waiting ones to the captured ones.
moved-Perm :
    (first later rest now before more : List PausedRequest)
    → Perm (later ++ rest) (now ++ more)
    → Perm (first ++ now) before
    → Perm ((first ++ later) ++ rest) (before ++ more)
moved-Perm first later rest now before more h k = rw (append_assoc first later rest) (
    Perm.trans (Perm.append_left first h)
      (rw (← append_assoc first now more) (Perm.append_right more k)))

released-Perm :
    (all done first now before more : List PausedRequest)
    → Perm all ((done ++ first) ++ (now ++ more))
    → Perm (first ++ now) before
    → Perm all (done ++ (before ++ more))
released-Perm all done first now before more h k = Perm.trans h (
    rw (append_assoc done first (now ++ more), ← append_assoc first now more)
      (Perm.append_left done (Perm.append_right more k)))

module _ (base64 : Text → Option Text) where
  -- Each accepted request is captured by one first turn, or waits for it still.
  pub on_events-waiting :
      (es : List Event) (l : Listener)
      → Perm
          (first_turns base64 es l ++ waiting (on_events base64 es l).running)
          (waiting l.running ++ accepted l.browser.intercept_active es)
  unfolding on_events on_event stop_interception
  on_events-waiting [] l = rw append-nil Perm.rfl
  on_events-waiting (arrives e ∷ es) l =
      rw (← on_paused-waiting base64 e es l) (on_events-waiting es (on_paused base64 e l))
  on_events-waiting (turns n ∷ es) l =
      let m = after_turn base64 (turn_at n l.running) l in
      let turned = after_turn-Turned base64 (turn_at n l.running) l in
      moved-Perm (captured_of (turn_at n l.running).0) (first_turns base64 es m)
        (waiting (on_events base64 es m).running) (waiting (turn_at n l.running).1)
        (waiting l.running) (accepted l.browser.intercept_active es)
        (Perm-cast _ _ _ _ _ (ap waiting turned.0) (ap (λ a. accepted a es) turned.1)
          (on_events-waiting es m))
        (turn_at-waiting n l.running)
  on_events-waiting (stops none ∷ es) l = on_events-waiting es (on_event base64 (stops none) l)
  on_events-waiting (stops (some e) ∷ es) l =
      on_events-waiting es (on_event base64 (stops (some e)) l)

  -- Each accepted request is continued once, or its goroutine is still under way.
  pub on_events-requests :
      (es : List Event) (l : Listener)
      → Perm
          ((on_events base64 es l).continued ++ requests (on_events base64 es l).running)
          (l.continued ++ (requests l.running ++ accepted l.browser.intercept_active es))
  unfolding on_events on_event stop_interception
  on_events-requests [] l = rw append-nil Perm.rfl
  on_events-requests (arrives e ∷ es) l =
      Perm-cast _ _ _ _ _ (on_paused-continued base64 e l) (on_paused-requests base64 e es l)
        (on_events-requests es (on_paused base64 e l))
  on_events-requests (turns n ∷ es) l =
      let m = after_turn base64 (turn_at n l.running) l in
      let turned = after_turn-Turned base64 (turn_at n l.running) l in
      released-Perm ((on_events base64 es m).continued ++ requests (on_events base64 es m).running)
        l.continued (let_go_of (turn_at n l.running).0) (requests (turn_at n l.running).1)
        (requests l.running) (accepted l.browser.intercept_active es)
        (Perm-cast _ _ _ _ _ turned.2
          (ap (λ (x : List Goroutine × Bool). requests x.0 ++ accepted x.1 es)
            (λ i. (turned.0 i, turned.1 i)))
          (on_events-requests es m))
        (turn_at-requests n l.running)
  on_events-requests (stops none ∷ es) l = on_events-requests es (on_event base64 (stops none) l)
  on_events-requests (stops (some e) ∷ es) l =
      on_events-requests es (on_event base64 (stops (some e)) l)
