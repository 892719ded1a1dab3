-- ===== src/Tests/Captures.antt =====
-- The theorems on the captures at concrete inputs.
use devbrowser.Prelude.{◌≡◌, refl, true, Option, none, some, List, [], ◌∷◌, pos, arith, ok, done}
use devbrowser.Text.{Text, codes, join}
use devbrowser.Logs.{JsError}
use devbrowser.Browser.{DevBrowser, initial}
use devbrowser.Capture.Console.{get_console, get_console_newest}
use devbrowser.Capture.Network.{Requests}
use devbrowser.Capture.Intercept.{start_interception}
use devbrowser.Capture.Intercept.Listener.{
  PausedRequest, Event, arrives, turns, stops, started, on_events, intercepted,
}
use devbrowser.Capture.Intercept.Order.{just_started, IsRecorded, on_events-start_interception}

abbrev js_error : JsError
js_error = record {
  message = codes "Uncaught";
  source = codes "http://localhost/main.js";
  line_number = pos 3;
  column_number = pos 14;
  stack_trace = [];
  timestamp = pos 0;
}

abbrev reporting : DevBrowser
reporting = record (initial none) {
  is_open_flag = true;
  ctx = some 0;
  console_logs = codes "one" ∷ codes "two" ∷ codes "three" ∷ [];
  js_errors = js_error ∷ js_error ∷ [];
}

get_console_newest_example : get_console (ok (pos 2)) reporting ≡ done (ok (codes "two\nthree"))
unfolding join
get_console_newest_example = get_console_newest 1 0 reporting refl refl (cc) (omega arith)

abbrev no_requests : Requests
no_requests id = none

abbrev undecoded : Text → Option Text
undecoded entry = none

abbrev paused : PausedRequest
paused = record {
  url = codes "http://localhost/api";
  method = codes "POST";
  status = pos 201;
  has_post_data = true;
  post_data = codes "a=1" ∷ [];
  response_body = some (codes "ok");
}

abbrev paused_later : PausedRequest
paused_later = record paused { url = codes "http://localhost/late"; post_data = [] }

-- Two requests arrive, the second one is captured first, and a stop comes before the other one is.
abbrev crossing : List Event
crossing =
    arrives paused ∷ arrives paused_later ∷ turns 1 ∷ turns 1 ∷ stops none ∷ turns 0 ∷ turns 0 ∷ []

crossing_order :
    (on_events undecoded crossing (just_started none [] reporting)).browser.intercepted_reqs
    ≡ intercepted undecoded paused_later ∷ intercepted undecoded paused ∷ []
unfolding on_events start_interception
crossing_order = refl

on_events-start_interception_example :
    IsRecorded undecoded
      (started paused_later ∷ [])
      crossing
      (just_started none (started paused_later ∷ []) reporting)
      (on_events undecoded crossing (just_started none (started paused_later ∷ []) reporting))
on_events-start_interception_example =
    on_events-start_interception undecoded none crossing (started paused_later ∷ []) reporting refl
