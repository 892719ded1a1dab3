-- ===== src/Capture/Intercept/Turns.antt =====
-- What becomes of the requests of the listener, whatever order the goroutines get their turns in.
use mathlib.Core.List.{Perm, perm_middle}
use mathlib.Core.List.Perm
use devbrowser.Prelude.{
  ℕ, zero, suc, ◌≡◌, refl, Bool, false, Option, List, [], ◌∷◌, ◌++◌, if◌then◌else◌, arith,
  Bool-cases, ap, inl, inr, append-nil, append_assoc,
}
use devbrowser.Text.{Text}
use devbrowser.Browser.{DevBrowser}
use devbrowser.Capture.Intercept.Listener.{
  PausedRequest, Goroutine, started, continuing, Listener, Deed, nothing, captured, let_go, turn_at,
  append_request, after_turn, on_paused, Event, arrives, turns, stops, on_event,
}

-- The requests that arrive while interception is active: it is, until it is stopped.
abbrev pub accepted : Bool → List Event → List PausedRequest
accepted active [] = []
accepted active (arrives e ∷ es) =
    let rest = accepted active es in if active then e ∷ rest else rest
accepted active (turns n ∷ es) = accepted active es
accepted active (stops failure ∷ es) = accepted false es

-- The requests of goroutines.
abbrev pub requests : List Goroutine → List PausedRequest
requests [] = []
requests (started e ∷ gs) = e ∷ requests gs
requests (continuing e ∷ gs) = e ∷ requests gs

-- The requests of the goroutines that have not had their first turn.
abbrev pub waiting : List Goroutine → List PausedRequest
waiting [] = []
waiting (started e ∷ gs) = e ∷ waiting gs
waiting (continuing e ∷ gs) = waiting gs

abbrev pub captured_of : Deed → List PausedRequest
captured_of nothing = []
captured_of (captured e) = e ∷ []
captured_of (let_go e) = []

abbrev pub let_go_of : Deed → List PausedRequest
let_go_of nothing = []
let_go_of (captured e) = []
let_go_of (let_go e) = e ∷ []

-- The goroutine's requests are moved, none is lost or doubled.
pub turn_at-waiting :
    (n : ℕ) (gs : List Goroutine)
    → Perm (captured_of (turn_at n gs).0 ++ waiting (turn_at n gs).1) (waiting gs)
unfolding turn_at
turn_at-waiting n [] = Perm.rfl
turn_at-waiting zero (started e ∷ gs) = Perm.rfl
turn_at-waiting zero (continuing e ∷ gs) = Perm.rfl
turn_at-waiting (suc n) (started e ∷ gs) =
    Perm.trans (perm_middle (captured_of (turn_at n gs).0) (waiting (turn_at n gs).1))
      (Perm.cons e (turn_at-waiting n gs))
turn_at-waiting (suc n) (continuing e ∷ gs) = turn_at-waiting n gs

pub turn_at-requests :
    (n : ℕ) (gs : List Goroutine)
    → Perm (let_go_of (turn_at n gs).0 ++ requests (turn_at n gs).1) (requests gs)
unfolding turn_at
turn_at-requests n [] = Perm.rfl
turn_at-requests zero (started e ∷ gs) = Perm.rfl
turn_at-requests zero (continuing e ∷ gs) = Perm.rfl
turn_at-requests (suc n) (started e ∷ gs) =
    Perm.trans (perm_middle (let_go_of (turn_at n gs).0) (requests (turn_at n gs).1))
      (Perm.cons e (turn_at-requests n gs))
turn_at-requests (suc n) (continuing e ∷ gs) =
    Perm.trans (perm_middle (let_go_of (turn_at n gs).0) (requests (turn_at n gs).1))
      (Perm.cons e (turn_at-requests n gs))

module _ (base64 : Text → Option Text) where
  -- The requests whose goroutine has its first turn, in the order of those turns.
  abbrev pub first_turns : List Event → Listener → List PausedRequest
  first_turns [] l = []
  first_turns (arrives e ∷ es) l = first_turns es (on_event base64 (arrives e) l)
  first_turns (turns n ∷ es) l =
      captured_of (turn_at n l.running).0 ++ first_turns es (on_event base64 (turns n) l)
  first_turns (stops failure ∷ es) l = first_turns es (on_event base64 (stops failure) l)

  waiting-append :
      (gs : List Goroutine) (e : PausedRequest)
      → waiting (gs ++ started e ∷ []) ≡ waiting gs ++ e ∷ []
  waiting-append [] e = refl
  waiting-append (started d ∷ gs) e = ap (◌∷◌ d) (waiting-append gs e)
  waiting-append (continuing d ∷ gs) e = waiting-append gs e

  requests-append :
      (gs : List Goroutine) (e : PausedRequest)
      → requests (gs ++ started e ∷ []) ≡ requests gs ++ e ∷ []
  requests-append [] e = refl
  requests-append (started d ∷ gs) e = ap (◌∷◌ d) (requests-append gs e)
  requests-append (continuing d ∷ gs) e = ap (◌∷◌ d) (requests-append gs e)

  -- An arriving request is counted as accepted before, and as the goroutine's behind.
  pub on_paused-waiting :
      (e : PausedRequest) (es : List Event) (l : Listener)
      → waiting (on_paused base64 e l).running
          ++ accepted (on_paused base64 e l).browser.intercept_active es
        ≡ waiting l.running ++ accepted l.browser.intercept_active (arrives e ∷ es)
  unfolding on_paused
  on_paused-waiting e es l = elim (Bool-cases l.browser.intercept_active) [
    | inl on ↦ rw (on, waiting-append, append_assoc)
    | inr off ↦ rw off
  ]

  pub on_paused-requests :
      (e : PausedRequest) (es : List Event) (l : Listener)
      → requests (on_paused base64 e l).running
          ++ accepted (on_paused base64 e l).browser.intercept_active es
        ≡ requests l.running ++ accepted l.browser.intercept_active (arrives e ∷ es)
  unfolding on_paused
  on_paused-requests e es l = elim (Bool-cases l.browser.intercept_active) [
    | inl on ↦ rw (on, requests-append, append_assoc)
    | inr off ↦ rw off
  ]

  pub on_paused-continued :
      (e : PausedRequest) (l : Listener) → (on_paused base64 e l).continued ≡ l.continued
  unfolding on_paused
  on_paused-continued e l = ground arith

  active-append_request :
      (e : PausedRequest) (b : DevBrowser)
      → (append_request base64 e b).intercept_active ≡ b.intercept_active
  unfolding append_request
  active-append_request e b = ground arith

  -- What a turn leaves of the goroutines, of the activity and of the continued requests.
  abbrev pub Turned : Deed × List Goroutine → Listener → Listener → Type 0
  Turned (deed, gs) l m =
      (m.running ≡ gs)
      × (m.browser.intercept_active ≡ l.browser.intercept_active)
      × (m.continued ≡ l.continued ++ let_go_of deed)

  pub after_turn-Turned :
      (r : Deed × List Goroutine) (l : Listener) → Turned r l (after_turn base64 r l)
  unfolding after_turn
  after_turn-Turned (nothing, gs) l = (refl, refl, rw append-nil refl)
  after_turn-Turned (captured e, gs) l =
      (refl, active-append_request e l.browser, rw append-nil refl)
  after_turn-Turned (let_go e, gs) l = (refl, refl, refl)
