-- ===== src/Capture/Errors.antt =====
-- The JavaScript errors and their tool (mcp-errors.go).
use devbrowser.Prelude.{
  ℕ, suc, ◌^◌, ◌≤◌, ◌≡◌, ◌≢◌, refl, true, Option, none, some, List, [], ◌∷◌, ◌++◌, map,
  if◌then◌else◌, ℤ, pos, Result, ok, err, Outcome, done, ◌>>=◌, arith, length, take_last, ap, ◌∙◌,
}
use devbrowser.Text.{Text, codes, join}
use devbrowser.Text.Decimal.{itoa}
use devbrowser.Logs.{JsError}
use devbrowser.Browser.{DevBrowser}
use devbrowser.Capture.{browser_not_open, or_default, newest, newest-take_last}

-- The events that the listener takes; the time of an exception is when the listener ran.
pub data ErrorEvent : Type 0 where
  -- text, URL, line, column, and the description of the exception object if there is one
  exception_thrown : Text → Text → ℤ → ℤ → Option Text → ErrorEvent
  execution_contexts_cleared : ErrorEvent

unfoldable pub on_error_event : ℤ → ErrorEvent → DevBrowser → DevBrowser
on_error_event now (exception_thrown text url line column description) b = record b {
  js_errors =
      b.js_errors
      ++ record {
        message = text;
        source = url;
        line_number = line;
        column_number = column;
        stack_trace = elim description [ none ↦ [] | some d ↦ d ];
        timestamp = now;
      }
        ∷ [];
}
on_error_event now execution_contexts_cleared b = record b { js_errors = [] }

unfoldable pub error_text : JsError → Text
unfolding itoa
error_text e =
    codes "Error: "
    ++ (e.message
        ++ (codes "\n  at "
            ++ (e.source
                ++ (codes ":"
                    ++ (itoa e.line_number
                        ++ (codes ":"
                            ++ (itoa e.column_number ++ (codes "\n" ++ e.stack_trace))))))))

abbrev printed : Outcome (List JsError) → Outcome (Result Text)
printed errors = do kept ← errors; done (ok (join (map error_text kept) (codes "\n---\n")))

errors_result : ℤ → List JsError → Outcome (Result Text)
unfolding newest
errors_result limit [] = done (ok (codes "No JavaScript errors captured"))
errors_result limit (e ∷ errors) = printed (newest (or_default (pos 20) limit) (e ∷ errors))

errors_bound : Result ℤ → DevBrowser → Outcome (Result Text)
unfolding errors_result
errors_bound (err e) b = done (err e)
errors_bound (ok limit) b = errors_result limit b.js_errors

-- The tool `browser_get_errors`.
unfoldable pub get_errors : Result ℤ → DevBrowser → Outcome (Result Text)
unfolding errors_bound
get_errors args b = if b.is_open_flag then errors_bound args b else done (err browser_not_open)

errors_result_newest :
    (n : ℕ) (errors : List JsError)
    → errors ≢ []
    → suc (length errors) ≤ 2 ^ 63
    → errors_result (pos (suc n)) errors
      ≡ done (ok (join (map error_text (take_last (suc n) errors)) (codes "\n---\n")))
unfolding errors_result
errors_result_newest n [] ne h = absurd (ne refl)
errors_result_newest n (e ∷ errors) ne h =
    let given : or_default (pos 20) (pos (suc n)) ≡ pos (suc n) = ground arith in
    ap (λ m. printed (newest m (e ∷ errors))) given
    ∙ ap (λ m. printed m) (newest-take_last (suc n) (e ∷ errors) h)

-- On an open browser with errors (fewer than 2^63) the tool returns for a positive limit the
-- newest ones, as many as asked for if there are so many, in their order.
pub get_errors_newest :
    (n : ℕ) (b : DevBrowser)
    → b.is_open_flag ≡ true
    → b.js_errors ≢ []
    → suc (length b.js_errors) ≤ 2 ^ 63
    → get_errors (ok (pos (suc n))) b
      ≡ done (ok (join (map error_text (take_last (suc n) b.js_errors)) (codes "\n---\n")))
unfolding get_errors
get_errors_newest n b open_ ne h = ground (arith, errors_result_newest n b.js_errors ne h)
