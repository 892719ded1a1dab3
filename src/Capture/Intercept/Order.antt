-- ===== src/Capture/Intercept/Order.antt =====
-- What the list of the listener holds, whatever order the goroutines get their turns in.
use mathlib.Core.List.{Perm}
use devbrowser.Prelude.{
  suc, ◌+◌, ◌-◌, ◌≤◌, ◌≡◌, refl, true, false, Option, none, some, List, [], ◌∷◌, ◌++◌, leb,
  if◌then◌else◌, pos, eq_ℤ, arith, length, length-append, length-drop, drop, take_last, drop-append,
  drop-drop, Bool-cases, if_either, inl, inr, append-nil, append_assoc,
}
use devbrowser.Text.{Text}
use devbrowser.Logs.{InterceptedRequest}
use devbrowser.Browser.{DevBrowser}
use devbrowser.Capture.Intercept.{start_interception, stop_interception}
use devbrowser.Capture.Intercept.Listener.{
  PausedRequest, Goroutine, Listener, Deed, nothing, captured, let_go, turn_at, intercepted,
  append_capped, append_request, after_turn, on_paused, Event, arrives, turns, stops, on_event,
  on_events,
}
use devbrowser.Capture.Intercept.Turns.{accepted, requests, waiting, captured_of, first_turns}
use devbrowser.Capture.Intercept.Once.{on_events-waiting, on_events-requests}

-- The listener right after a start, with the goroutines that an earlier session left behind.
abbrev pub just_started : Option Text → List Goroutine → DevBrowser → Listener
just_started failure before b = record {
  browser = (start_interception failure b).1;
  running = before;
  continued = [];
}

module _ (base64 : Text → Option Text) where
  -- Those that have a response, as they are listed.
  abbrev pub listed_of : List PausedRequest → List InterceptedRequest
  listed_of [] = []
  listed_of (e ∷ es) =
      let rest = listed_of es in if eq_ℤ e.status (pos 0) then rest else intercepted base64 e ∷ rest

  listed_of-append :
      (xs ys : List PausedRequest) → listed_of (xs ++ ys) ≡ listed_of xs ++ listed_of ys
  listed_of-append [] ys = refl
  listed_of-append (x ∷ xs) ys = elim (Bool-cases (eq_ℤ x.status (pos 0))) [
    | inl e ↦ rw e (listed_of-append xs ys)
    | inr e ↦ rw (e, listed_of-append xs ys)
  ]

  -- What the captured list is of all requests that were captured: the last hundred.
  append_capped-take_last :
      (past : List InterceptedRequest) (r : InterceptedRequest)
      → append_capped base64 (take_last 100 past) r ≡ take_last 100 (past ++ r ∷ [])
  unfolding append_capped
  append_capped-take_last past r =
      let n = length past - 100 in
      let held = length-drop n past in
      elim (Bool-cases (leb 100 (length (drop n past)))) [
        | inl full ↦
            let at_least : 100 ≤ length past = ground (arith, held) in
            let k : length (past ++ r ∷ []) - 100 ≡ n + 1 =
              omega (arith, length-append past (r ∷ [])) in
            rw (full, k, drop-append (n + 1) past (r ∷ []) (omega arith), drop-drop 1 n past)
        | inr room ↦
            let fewer : suc (length past) ≤ 100 = ground (arith, held) in
            let e : n ≡ 0 = omega arith in
            let k : length (past ++ r ∷ []) - 100 ≡ 0 =
              omega (arith, length-append past (r ∷ [])) in
            rw (room, k, e)
      ]

  -- The list shows the last hundred of `past`.
  Shows : List InterceptedRequest → DevBrowser → Type 0
  Shows past b = b.intercepted_reqs ≡ take_last 100 past

  append_request-Shows :
      (e : PausedRequest) (past : List InterceptedRequest) (b : DevBrowser)
      → Shows past b
      → Shows (past ++ listed_of (e ∷ [])) (append_request base64 e b)
  unfolding Shows append_request
  append_request-Shows e past b h = elim (Bool-cases (eq_ℤ e.status (pos 0))) [
    | inl none_yet ↦ rw (none_yet, append-nil) h
    | inr answered ↦ rw (answered, h) (append_capped-take_last past (intercepted base64 e))
  ]

  after_turn-Shows :
      (r : Deed × List Goroutine) (past : List InterceptedRequest) (l : Listener)
      → Shows past l.browser
      → Shows (past ++ listed_of (captured_of r.0)) (after_turn base64 r l).browser
  unfolding after_turn
  after_turn-Shows (nothing, gs) past l h = rw append-nil h
  after_turn-Shows (captured e, gs) past l h = append_request-Shows e past l.browser h
  after_turn-Shows (let_go e, gs) past l h = rw append-nil h

  on_paused-Shows :
      (e : PausedRequest) (past : List InterceptedRequest) (l : Listener)
      → Shows past l.browser
      → Shows past (on_paused base64 e l).browser
  unfolding on_paused
  on_paused-Shows e past l h =
      if_either (λ (m : Listener). Shows past m.browser) l.browser.intercept_active _ _ h h

  stop-Shows :
      (failure : Option Text) (past : List InterceptedRequest) (b : DevBrowser)
      → Shows past b
      → Shows past (stop_interception failure b).1
  unfolding stop_interception Shows
  stop-Shows none past b h = h
  stop-Shows (some e) past b h = h

  on_events-Shows :
      (es : List Event) (past : List InterceptedRequest) (l : Listener)
      → Shows past l.browser
      → Shows (past ++ listed_of (first_turns base64 es l)) (on_events base64 es l).browser
  unfolding on_events on_event stop_interception
  on_events-Shows [] past l h = rw append-nil h
  on_events-Shows (arrives e ∷ es) past l h =
      on_events-Shows es past (on_event base64 (arrives e) l) (on_paused-Shows e past l h)
  on_events-Shows (turns n ∷ es) past l h =
      let first = captured_of (turn_at n l.running).0 in
      let later = first_turns base64 es (on_event base64 (turns n) l) in
      rw (listed_of-append first later, ← append_assoc)
        (on_events-Shows es (past ++ listed_of first) (on_event base64 (turns n) l)
          (after_turn-Shows (turn_at n l.running) past l h))
  on_events-Shows (stops failure ∷ es) past l h =
      on_events-Shows es past (on_event base64 (stops failure) l)
        (stop-Shows failure past l.browser h)

  -- What the events made of a listener: the list against the order of the first turns, and that
  -- each request is captured and continued once.
  pub record IsRecorded (before : List Goroutine) (es : List Event) (l l' : Listener) : Type 0 where
    pub shown : l'.browser.intercepted_reqs ≡ take_last 100 (listed_of (first_turns base64 es l))
    pub captured_once :
        Perm (first_turns base64 es l ++ waiting l'.running) (waiting before ++ accepted true es)
    pub continued_once :
        Perm (l'.continued ++ requests l'.running) (requests before ++ accepted true es)

  fresh-Shows :
      (failure : Option Text) (b : DevBrowser)
      → b.intercept_active ≡ false
      → Shows [] (start_interception failure b).1
  unfolding start_interception Shows
  fresh-Shows none b idle = ground arith
  fresh-Shows (some e) b idle = ground arith

  active-start_interception :
      (failure : Option Text) (b : DevBrowser)
      → (start_interception failure b).1.intercept_active ≡ true
  unfolding start_interception
  active-start_interception none b = ground arith
  active-start_interception (some e) b = ground arith

  -- After a start on a browser that did not intercept, whether Chrome refuses it or not, with any
  -- goroutines left over from before, and then any arrivals of requests, turns of goroutines in any
  -- order and stops, as long as no new start comes: the list holds the last hundred of the requests
  -- that had a response, in the order in which their goroutines append them. Each request that was
  -- left over with its append still to come, or that arrived before the first stop, is appended (or
  -- skipped if it has no response) exactly once, or its goroutine waits for that still. And each one
  -- that was left over or arrived before the first stop is let go exactly once, or its goroutine is
  -- still under way.
  pub on_events-start_interception :
      (failure : Option Text) (es : List Event) (before : List Goroutine) (b : DevBrowser)
      → b.intercept_active ≡ false
      → IsRecorded before es
          (just_started failure before b)
          (on_events base64 es (just_started failure before b))
  unfolding Shows
  on_events-start_interception failure es before b idle =
      let l = just_started failure before b in
      record {
        shown = on_events-Shows es [] l (fresh-Shows failure b idle);
        captured_once = rw (active-start_interception failure b) at (on_events-waiting base64 es l);
        continued_once =
            rw (active-start_interception failure b) at (on_events-requests base64 es l);
      }
