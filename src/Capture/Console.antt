-- ===== src/Capture/Console.antt =====
-- The console log and its tool (console_logs.go, mcp-console.go). The bound arguments of the tool,
-- or the error of binding them, are an argument.
use devbrowser.Prelude.{
  ℕ, suc, ◌^◌, ◌≤◌, ◌≡◌, ◌≢◌, refl, Bool, true, false, ◌&&◌, Option, none, some, List, [], ◌∷◌,
  ◌++◌, map, ltb, ◌==◌, if◌then◌else◌, ℤ, pos, negsuc, Result, ok, err, Outcome, done, panic, ◌>>=◌,
  arith, length, drop, get_last?, take_last, ap, ◌∙◌,
}
use devbrowser.Text.{Text, codes, is_empty, join}
use devbrowser.Browser.{DevBrowser}
use devbrowser.Capture.{browser_not_open, or_default, newest, newest-take_last, newest_negative}

-- An argument of a console call: its raw value, or nil, and its description.
pub record RemoteObject : Type 0 where
  pub value : Option Text
  pub description : Text

-- The events that the listener takes, less the fields that it does not read.
pub data ConsoleEvent : Type 0 where
  console_api_called : List RemoteObject → ConsoleEvent
  -- the text, and the description of the exception object if there is one
  exception_thrown : Text → Option Text → ConsoleEvent
  -- level, source, text and URL
  entry_added : Text → Text → Text → Text → ConsoleEvent
  -- the code, and the error type and the attribute of a generic issue
  issue_added : Text → Option (Text × Text) → ConsoleEvent
  execution_contexts_cleared : ConsoleEvent

is_quote : Option ℕ → Bool
is_quote none = false
is_quote (some c) = c == b'"'

abbrev head? : Text → Option ℕ
head? [] = none
head? (c ∷ s) = some c

abbrev but_last : Text → Text
but_last [] = []
but_last (c ∷ []) = []
but_last (c ∷ d ∷ s) = c ∷ but_last (d ∷ s)

-- `val[1 : len(val)-1]` of a quoted value
unquoted : Text → Text
unfolding is_quote
unquoted v =
    if ltb 2 (length v) && (is_quote (head? v) && is_quote (get_last? v))
    then but_last (drop 1 v)
    else v

argument_text : RemoteObject → Text
unfolding unquoted
argument_text arg = elim arg.value [ none ↦ arg.description | some v ↦ unquoted v ]

unfoldable pub issue_message : Text → Option (Text × Text) → Text
issue_message code none = codes "[Issue] " ++ code
issue_message code (some (type, attribute)) =
    codes "[Issue] "
    ++ (code
        ++ (codes " "
            ++ (type
                ++ (if is_empty attribute then [] else codes " (" ++ (attribute ++ codes ")")))))

described : Option Text → Text
described none = []
described (some []) = []
described (some (c ∷ s)) = codes ": " ++ c ∷ s

abbrev append_log : Text → DevBrowser → DevBrowser
append_log message b = record b { console_logs = b.console_logs ++ message ∷ [] }

unfoldable pub on_console_event : ConsoleEvent → DevBrowser → DevBrowser
unfolding argument_text issue_message described join
on_console_event (console_api_called args) b =
    append_log (join (map argument_text args) (codes " ")) b
on_console_event (exception_thrown text description) b =
    append_log (codes "[Exception] " ++ (text ++ described description)) b
on_console_event (entry_added level source text url) b =
    append_log
      (codes "["
        ++ (level
            ++ (codes "] "
                ++ (source
                    ++ (codes ": "
                        ++ (text
                            ++ (if is_empty url then [] else codes " (" ++ (url ++ codes ")"))))))))
      b
on_console_event (issue_added code generic) b = append_log (issue_message code generic) b
on_console_event execution_contexts_cleared b = record b { console_logs = [] }

unfoldable pub get_console_logs : DevBrowser → Result (List Text)
get_console_logs b = elim b.ctx [
  | none ↦ err (codes "browser context not initialized")
  | some c ↦ ok b.console_logs
]

unfoldable pub clear_console_logs : DevBrowser → Option Text × DevBrowser
clear_console_logs b = elim b.ctx [
  | none ↦ (some (codes "browser context not initialized"), b)
  | some c ↦ (none, record b { console_logs = [] })
]

abbrev printed : Outcome (List Text) → Outcome (Result Text)
printed lines = do kept ← lines; done (ok (join kept (codes "\n")))

console_result : ℤ → Result (List Text) → Outcome (Result Text)
unfolding newest join
console_result lines (err e) = done (err (codes "Failed to get console logs: " ++ e))
console_result lines (ok []) = done (ok (codes "No console logs available"))
console_result lines (ok (l ∷ logs)) = printed (newest (or_default (pos 50) lines) (l ∷ logs))

console_bound : Result ℤ → DevBrowser → Outcome (Result Text)
unfolding console_result get_console_logs
console_bound (err e) b = done (err e)
console_bound (ok lines) b = console_result lines (get_console_logs b)

-- The tool `browser_get_console`.
unfoldable pub get_console : Result ℤ → DevBrowser → Outcome (Result Text)
unfolding console_bound
get_console args b = if b.is_open_flag then console_bound args b else done (err browser_not_open)

console_result_negative :
    (n : ℕ) (logs : List Text)
    → logs ≢ []
    → suc (length logs) ≤ 2 ^ 63
    → suc n ≤ 2 ^ 63
    → console_result (negsuc n) (ok logs) ≡ panic
unfolding console_result
console_result_negative n [] ne h g = absurd (ne refl)
console_result_negative n (l ∷ logs) ne h g =
    let given : or_default (pos 50) (negsuc n) ≡ negsuc n = ground arith in
    ap (λ m. printed (newest m (l ∷ logs))) given
    ∙ ap (λ m. printed m) (newest_negative n (l ∷ logs) h g)

-- On an open browser with a context and a console log that is not empty (and shorter than 2^63), a
-- negative number of lines makes the tool panic.
pub get_console_negative :
    (n c : ℕ) (b : DevBrowser)
    → b.is_open_flag ≡ true
    → b.ctx ≡ some c
    → b.console_logs ≢ []
    → suc (length b.console_logs) ≤ 2 ^ 63
    → suc n ≤ 2 ^ 63
    → get_console (ok (negsuc n)) b ≡ panic
unfolding get_console
get_console_negative n c b open_ ctx ne h g =
    ground (arith, console_result_negative n b.console_logs ne h g)

console_result_newest :
    (n : ℕ) (logs : List Text)
    → logs ≢ []
    → suc (length logs) ≤ 2 ^ 63
    → console_result (pos (suc n)) (ok logs)
      ≡ done (ok (join (take_last (suc n) logs) (codes "\n")))
unfolding console_result
console_result_newest n [] ne h = absurd (ne refl)
console_result_newest n (l ∷ logs) ne h =
    let given : or_default (pos 50) (pos (suc n)) ≡ pos (suc n) = ground arith in
    ap (λ m. printed (newest m (l ∷ logs))) given
    ∙ ap (λ m. printed m) (newest-take_last (suc n) (l ∷ logs) h)

-- On an open browser with a context and a console log that is not empty (and shorter than 2^63),
-- the tool returns for a positive number of lines the newest ones, as many as asked for if there
-- are so many, in their order.
pub get_console_newest :
    (n c : ℕ) (b : DevBrowser)
    → b.is_open_flag ≡ true
    → b.ctx ≡ some c
    → b.console_logs ≢ []
    → suc (length b.console_logs) ≤ 2 ^ 63
    → get_console (ok (pos (suc n))) b
      ≡ done (ok (join (take_last (suc n) b.console_logs) (codes "\n")))
unfolding get_console
get_console_newest n c b open_ ctx ne h =
    ground (arith, console_result_newest n b.console_logs ne h)
