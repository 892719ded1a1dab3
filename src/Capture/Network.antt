-- ===== src/Capture/Network.antt =====
-- The network log and its tool (mcp-network.go). A time is a number of nanoseconds of the clock
-- that `time.Since` reads.
use devbrowser.Prelude.{
  ℕ, ◌-◌, ◌/◌, ◌≡◌, true, false, ◌||◌, Option, none, some, List, [], ◌∷◌, ◌++◌, map, if◌then◌else◌,
  ℤ, pos, leb, ◌&&◌, ◌+◌, Result, ok, err, Outcome, done, ◌>>=◌, arith,
}
use devbrowser.Text.{Text, codes, join, text_eq, text_eq_refl}
use devbrowser.Text.Decimal.{itoa}
use devbrowser.Logs.{NetworkLogEntry}
use devbrowser.Browser.{DevBrowser}
use devbrowser.Capture.{browser_not_open, or_default, newest}

-- `strings.ToLower` on the letters of ASCII.
unfoldable pub lower : Text → Text
lower [] = []
lower (c ∷ s) = (if leb b'A' c && leb c b'Z' then c + 32 else c) ∷ lower s

pub record RequestInfo : Type 0 where
  pub method : Text
  pub url : Text
  pub time : ℕ

-- The listener's own map, from the id of a request.
abbrev pub Requests : Type 0
Requests = Text → Option RequestInfo

-- The events that the listener takes, each with the id of its request.
pub data NetworkEvent : Type 0 where
  -- method, URL and type
  request_will_be_sent : Text → Text → Text → Text → NetworkEvent
  -- URL, status and type
  response_received : Text → Text → ℤ → Text → NetworkEvent
  -- type and error text
  loading_failed : Text → Text → Text → NetworkEvent

abbrev put : Text → RequestInfo → Requests → Requests
put id info requests = λ j. if text_eq id j then some info else requests j

-- `time.Since(t).Milliseconds()`
abbrev pub milliseconds : ℕ → ℕ → ℤ
milliseconds now then_ = pos ((now - then_) / 1000000)

abbrev append_entry : Option NetworkLogEntry → DevBrowser → DevBrowser
append_entry none b = b
append_entry (some entry) b = record b { network_logs = b.network_logs ++ entry ∷ [] }

abbrev response_entry : ℕ → Text → ℤ → Text → Option RequestInfo → Option NetworkLogEntry
response_entry now url status type none = none
response_entry now url status type (some info) = some (record {
  url = url;
  method = info.method;
  status = status;
  type = type;
  duration = milliseconds now info.time;
  failed = false;
  error_text = [];
})

abbrev failure_entry : ℕ → Text → Text → Option RequestInfo → Option NetworkLogEntry
failure_entry now type message none = none
failure_entry now type message (some info) = some (record {
  url = info.url;
  method = info.method;
  status = pos 0;
  type = type;
  duration = milliseconds now info.time;
  failed = true;
  error_text = message;
})

unfoldable pub on_network_event : ℕ → NetworkEvent → Requests × DevBrowser → Requests × DevBrowser
unfolding text_eq
on_network_event now (request_will_be_sent id method url type) (requests, b) = (
  put id (record { method = method; url = url; time = now }) requests,
  if text_eq type (codes "Document") then record b { network_logs = [] } else b,
)
on_network_event now (response_received id url status type) (requests, b) =
    (requests, append_entry (response_entry now url status type (requests id)) b)
on_network_event now (loading_failed id type message) (requests, b) =
    (requests, append_entry (failure_entry now type message (requests id)) b)

-- A request that is not of a document, and then its response, add one entry at the end: with
-- the method of the request, the URL, the status and the type of the response, and the time between.
pub response_after_request :
    (start now : ℕ) (id method url request_type final_url type : Text) (status : ℤ)
    (requests : Requests) (b : DevBrowser)
    → text_eq request_type (codes "Document") ≡ false
    → (on_network_event now (response_received id final_url status type) (
        on_network_event start
          (request_will_be_sent id method url request_type)
          (requests, b))).1.network_logs
      ≡ b.network_logs
        ++ record {
          url = final_url;
          method = method;
          status = status;
          type = type;
          duration = milliseconds now start;
          failed = false;
          error_text = [];
        }
          ∷ []
unfolding on_network_event
response_after_request start now id method url request_type final_url type status requests b
      no_document =
    ground (arith, text_eq_refl id)

selected : Text → List NetworkLogEntry → List NetworkLogEntry
unfolding lower text_eq
selected filter [] = []
selected filter (entry ∷ logs) =
    let rest = selected filter logs in
    if text_eq filter (codes "all") || text_eq (lower entry.type) filter then entry ∷ rest else rest

unfoldable pub entry_text : NetworkLogEntry → Text
unfolding itoa
entry_text e =
    (if e.failed then codes "Failed" else itoa e.status)
    ++ (codes " "
        ++ (e.method
            ++ (codes " "
                ++ (e.url
                    ++ (codes " ("
                        ++ (itoa e.duration
                            ++ (codes "ms) [" ++ (e.type ++ (codes "] " ++ e.error_text)))))))))

nothing_found : Text → Text
unfolding text_eq
nothing_found filter =
    if text_eq filter (codes "all")
    then codes "No network requests captured"
    else codes "No " ++ (filter ++ codes " requests found")

listed : Text → List NetworkLogEntry → Text
unfolding nothing_found entry_text join
listed filter [] = nothing_found filter
listed filter (e ∷ logs) = join (map entry_text (e ∷ logs)) (codes "\n")

abbrev filter_or_all : Text → Text
filter_or_all [] = codes "all"
filter_or_all (c ∷ s) = c ∷ s

abbrev printed : Text → Outcome (List NetworkLogEntry) → Outcome (Result Text)
printed filter logs = do kept ← logs; done (ok (listed filter kept))

-- The filter and the limit.
network_bound : Result (Text × ℤ) → DevBrowser → Outcome (Result Text)
unfolding selected newest listed
network_bound (err e) b = done (err e)
network_bound (ok (filter, limit)) b =
    printed (filter_or_all filter)
      (newest (or_default (pos 50) limit) (selected (filter_or_all filter) b.network_logs))

-- The tool `browser_get_network_logs`.
unfoldable pub get_network_logs : Result (Text × ℤ) → DevBrowser → Outcome (Result Text)
unfolding network_bound
get_network_logs args b =
    if b.is_open_flag then network_bound args b else done (err browser_not_open)
