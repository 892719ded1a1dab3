-- ===== src/Capture/Intercept.antt =====
-- The tool that intercepts requests (mcp-intercept.go). The error of the call of Chrome is an
-- argument of the operation that makes the call.
pub mod Listener
pub mod Turns
pub mod Once
pub mod Order
use devbrowser.Prelude.{
  suc, ◌+◌, ◌-◌, ◌≤◌, ◌≡◌, Bool, true, false, ◌&&◌, ◌||◌, Option, none, some, List, [], ◌∷◌, ◌++◌,
  leb, ltb, if◌then◌else◌, ℤ, pos, negsuc, eq_ℤ, Result, ok, err, arith, length, length-append,
  drop,
}
use devbrowser.Text.{Text, codes, is_empty, contains, join, text_eq}
use devbrowser.Text.Decimal.{itoa}
use devbrowser.Logs.{InterceptedRequest}
use devbrowser.Browser.{DevBrowser}
use devbrowser.Capture.{browser_not_open}

-- What a tool answers, and the browser after it.
abbrev Answer : Type 0
Answer = Result Text × DevBrowser

abbrev pub after_call : Option Text → Text → DevBrowser → Answer
after_call none message b = (ok message, b)
after_call (some e) message b = (err e, b)

-- `failure` is the error of `fetch.Enable`.
unfoldable pub start_interception : Option Text → DevBrowser → Answer
start_interception failure b =
    if b.intercept_active
    then (ok (codes "Interception is already active"), b)
    else after_call failure (codes "Request interception started")
        (record b { intercept_active = true; intercepted_reqs = [] })

-- `failure` is the error of `fetch.Disable`.
unfoldable pub stop_interception : Option Text → DevBrowser → Answer
stop_interception failure b =
    after_call failure (codes "Request interception stopped")
      (record b { intercept_active = false })

matching : Text → List InterceptedRequest → List InterceptedRequest
unfolding contains
matching filter [] = []
matching filter (r ∷ rs) =
    let rest = matching filter rs in
    if is_empty filter || contains r.url filter then r ∷ rest else rest

-- The newest ones, if the limit is positive.
limited : ℤ → List InterceptedRequest → List InterceptedRequest
limited (pos n) rs = if ltb 0 n && ltb n (length rs) then drop (length rs - n) rs else rs
limited (negsuc n) rs = rs

abbrev body_line : Text → Text → Text
body_line label [] = []
body_line label (c ∷ s) = label ++ ((c ∷ s) ++ codes "\n")

request_text : InterceptedRequest → Text
unfolding itoa
request_text r =
    itoa r.status
    ++ (codes " "
        ++ (r.method
            ++ (codes " "
                ++ (r.url
                    ++ (codes "\n"
                        ++ (body_line (codes "Request Body: ") r.request_body
                            ++ body_line (codes "Response Body: ") r.response_body))))))

request_texts : List InterceptedRequest → List Text
unfolding request_text
request_texts [] = []
request_texts (r ∷ rs) = request_text r ∷ request_texts rs

listed : List InterceptedRequest → Text
unfolding request_texts join
listed [] = codes "No requests intercepted"
listed (r ∷ rs) = join (request_texts (r ∷ rs)) (codes "\n---\n")

unfoldable pub get_intercepted_requests : Text → ℤ → DevBrowser → Result Text
unfolding matching limited listed
get_intercepted_requests filter limit b =
    ok (listed (limited limit (matching filter b.intercepted_reqs)))

-- The bound arguments of the tool.
pub record InterceptArgs : Type 0 where
  pub action : Text
  pub filter : Text
  pub limit : ℤ

intercept_bound : Option Text → Result InterceptArgs → DevBrowser → Answer
unfolding text_eq start_interception stop_interception get_intercepted_requests
intercept_bound failure (err e) b = (err e, b)
intercept_bound failure (ok args) b =
    if text_eq args.action (codes "start")
    then start_interception failure b
    else if text_eq args.action (codes "stop")
    then stop_interception failure b
    else if text_eq args.action (codes "get")
    then (get_intercepted_requests args.filter args.limit b, b)
    else (
      err (codes "Unknown action: " ++ (args.action ++ codes ". Use 'start', 'stop', or 'get'")),
      b,
    )

-- The tool `browser_intercept_request`.
unfoldable pub intercept_request : Option Text → Result InterceptArgs → DevBrowser → Answer
unfolding intercept_bound
intercept_request failure args b =
    if b.is_open_flag then intercept_bound failure args b else (err browser_not_open, b)
