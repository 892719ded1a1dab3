-- ===== src/Capture/Intercept/Listener.antt =====
-- The listener of interception (`initializeInterceptCapture` of mcp-intercept.go). Chrome reports a
-- paused request to the listener, which starts a goroutine for it while interception is active. The
-- goroutine asks Chrome for the body of the response, appends under the lock, and then lets the
-- request continue. So a goroutine has two turns, and any number of them may be under way: their
-- turns come in any order, and a stop may come in between. The decoder `base64` is an argument, and
-- a paused request carries what `fetch.GetResponseBody` will answer for it. The browser context
-- stays the same one, since no close is among the events.
use devbrowser.Prelude.{
  ℕ, zero, suc, Bool, Option, none, some, List, [], ◌∷◌, ◌++◌, leb, if◌then◌else◌, ℤ, pos, eq_ℤ,
  length, drop,
}
use devbrowser.Text.{Text}
use devbrowser.Logs.{InterceptedRequest}
use devbrowser.Browser.{DevBrowser}
use devbrowser.Capture.Intercept.{stop_interception}

-- `EventRequestPaused`, as far as it is read, with the answer of `fetch.GetResponseBody`.
pub record PausedRequest : Type 0 where
  pub url : Text
  pub method : Text
  pub status : ℤ
  pub has_post_data : Bool
  pub post_data : List Text
  pub response_body : Option Text

-- A goroutine, by what it still has to do.
pub data Goroutine : Type 0 where
  started : PausedRequest → Goroutine
  continuing : PausedRequest → Goroutine

-- The browser, the goroutines that are under way, and the requests that were continued.
pub record Listener : Type 0 where
  pub browser : DevBrowser
  pub running : List Goroutine
  pub continued : List PausedRequest

-- What a turn of a goroutine did.
pub data Deed : Type 0 where
  nothing : Deed
  captured : PausedRequest → Deed
  let_go : PausedRequest → Deed

-- The goroutine at an index has its turn.
unfoldable pub turn_at : ℕ → List Goroutine → Deed × List Goroutine
turn_at n [] = (nothing, [])
turn_at zero (started e ∷ gs) = (captured e, continuing e ∷ gs)
turn_at zero (continuing e ∷ gs) = (let_go e, gs)
turn_at (suc n) (g ∷ gs) = let (deed, rest) = turn_at n gs in (deed, g ∷ rest)

-- What may come between a start of interception and the next one.
pub data Event : Type 0 where
  arrives : PausedRequest → Event
  turns : ℕ → Event
  stops : Option Text → Event

module _ (base64 : Text → Option Text) where
  abbrev decoded : Text → Option Text → Text
  decoded entry none = entry
  decoded entry (some s) = s

  post_text : List Text → Text
  post_text [] = []
  post_text (entry ∷ entries) = decoded entry (base64 entry) ++ post_text entries

  pub intercepted : PausedRequest → InterceptedRequest
  unfolding post_text
  intercepted e = record {
    url = e.url;
    method = e.method;
    request_body = if e.has_post_data then post_text e.post_data else [];
    response_body = elim e.response_body [ none ↦ [] | some body ↦ body ];
    status = e.status;
  }

  -- The oldest one makes room when there are a hundred.
  unfoldable pub append_capped :
      List InterceptedRequest → InterceptedRequest → List InterceptedRequest
  append_capped rs r = (if leb 100 (length rs) then drop 1 rs else rs) ++ r ∷ []

  -- The append under the lock. A request that has no response yet is not listed.
  unfoldable pub append_request : PausedRequest → DevBrowser → DevBrowser
  unfolding intercepted append_capped
  append_request e b =
      if eq_ℤ e.status (pos 0)
      then b
      else record b { intercepted_reqs = append_capped b.intercepted_reqs (intercepted e) }

  unfoldable pub after_turn : Deed × List Goroutine → Listener → Listener
  unfolding append_request
  after_turn (nothing, gs) l = record l { running = gs }
  after_turn (captured e, gs) l = record l { browser = append_request e l.browser; running = gs }
  after_turn (let_go e, gs) l = record l { running = gs; continued = l.continued ++ e ∷ [] }

  -- The listener itself, which reads nothing but whether interception is active.
  unfoldable pub on_paused : PausedRequest → Listener → Listener
  on_paused e l =
      if l.browser.intercept_active then record l { running = l.running ++ started e ∷ [] } else l

  unfoldable pub on_event : Event → Listener → Listener
  unfolding on_paused turn_at after_turn stop_interception
  on_event (arrives e) l = on_paused e l
  on_event (turns n) l = after_turn (turn_at n l.running) l
  on_event (stops failure) l = record l { browser = (stop_interception failure l.browser).1 }

  unfoldable pub on_events : List Event → Listener → Listener
  unfolding on_event
  on_events [] l = l
  on_events (e ∷ es) l = on_events es (on_event e l)
