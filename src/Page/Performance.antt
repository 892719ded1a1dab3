-- ===== src/Page/Performance.antt =====
-- The report about the performance of the page and its tool (mcp-performance.go).
pub mod Lines
use devbrowser.Prelude.{
  Bool, true, ◌||◌, if◌then◌else◌, ℕ, ◌≡◌, false, Option, none, some, List, [], ◌∷◌, ◌++◌, ℤ,
}
use devbrowser.Text.{Text, codes}
use devbrowser.Text.Decimal.{itoa}
use devbrowser.Models.Reads.{GetPerformanceArgs}
use devbrowser.Page.{
  performance, title, location, evaluate, browser_ctx, WasmFile, Metrics, Tab, Step, returned,
  ◌>>=◌, on_error, perform,
}

-- What was written so far, and the separator that the next part is written behind.
abbrev pub with_part : Option Text → Text × Text → Text × Text
with_part none (line, sep) = (line, sep)
with_part (some part) (line, sep) = (line ++ (sep ++ part), codes " | ")

abbrev is_there : {A : Type 0} → Option A → Bool
is_there none = false
is_there (some a) = true

module _ (tab : Tab) where
  open tab use {Float, zero_float, truncated, mebibytes, one_decimal}

  -- The value of a type assertion that may fail.
  abbrev float_or_zero : Option Float → Float
  float_or_zero none = zero_float
  float_or_zero (some x) = x

  abbrev text_or_empty : Option Text → Text
  text_or_empty none = []
  text_or_empty (some s) = s

  -- A name with a number of milliseconds, if it was measured.
  pub measured : Text → Option Float → Option Text
  unfolding itoa
  measured name none = none
  measured name (some x) = some (name ++ (codes " " ++ (itoa (truncated x) ++ codes "ms")))

  pub memory_line : Option Float → Option Float → Option Float → Text
  unfolding itoa
  memory_line none total limit = []
  memory_line (some used) total limit =
      codes "Memory:    JS Heap "
      ++ (one_decimal (mebibytes used)
          ++ (codes "/"
              ++ (one_decimal (mebibytes (float_or_zero total))
                  ++ (codes " MB (limit "
                      ++ (itoa (truncated (mebibytes (float_or_zero limit))) ++ codes " MB)\n")))))

  pub timing_line : Option Float → Option Float → Option Float → Text
  unfolding measured
  timing_line interactive loaded full =
      if is_there interactive || (is_there loaded || is_there full)
      then codes "Timing:    "
        ++ ((with_part (measured (codes "Full Load") full) (
              with_part (measured (codes "DOM Loaded") loaded)
                (with_part (measured (codes "Interactive") interactive) ([], [])))).0
            ++ codes "\n")
      else []

  pub paint_line : Option Float → Option Float → Text
  unfolding measured
  paint_line first contentful =
      if is_there first || is_there contentful
      then codes "Paint:     "
        ++ ((with_part (measured (codes "FCP") contentful)
              (with_part (measured (codes "FP") first) ([], []))).0
            ++ codes "\n")
      else []

  pub dom_line : Option Float → Option Float → Text
  unfolding itoa
  dom_line none depth = []
  dom_line (some nodes) depth =
      codes "DOM:       "
      ++ (itoa (truncated nodes)
          ++ (codes " nodes | max depth "
              ++ (itoa (truncated (float_or_zero depth)) ++ codes "\n")))

  pub wasm_line : WasmFile Float → Text
  unfolding itoa
  wasm_line file =
      codes "WASM:      "
      ++ (text_or_empty file.name
          ++ (codes " "
              ++ (itoa (truncated (float_or_zero file.size))
                  ++ (codes " KB (loaded in "
                      ++ (itoa (truncated (float_or_zero file.duration)) ++ codes "ms)\n")))))

  -- An entry that is no object has no line.
  pub wasm_lines : List (Option (WasmFile Float)) → Text
  unfolding wasm_line
  wasm_lines [] = []
  wasm_lines (none ∷ files) = wasm_lines files
  wasm_lines (some file ∷ files) = wasm_line file ++ wasm_lines files

  abbrev pub all_wasm_lines : Option (List (Option (WasmFile Float))) → Text
  unfolding wasm_lines
  all_wasm_lines none = []
  all_wasm_lines (some files) = wasm_lines files

  pub resources_line : Option Float → Option Float → Text
  unfolding itoa
  resources_line none total = []
  resources_line (some count) total =
      codes "Resources: "
      ++ (itoa (truncated count)
          ++ (codes " total | "
              ++ (itoa (truncated (float_or_zero total)) ++ codes " KB transferred\n")))

  unfoldable pub format_performance_report : Text → Metrics Float → Text
  unfolding memory_line timing_line paint_line dom_line wasm_lines resources_line
  format_performance_report url m =
      codes "Performance: "
      ++ (url
          ++ (codes "\n"
              ++ (memory_line (m.number (codes "heapUsed")) (m.number (codes "heapTotal"))
                    (m.number (codes "heapLimit"))
                  ++ (timing_line (m.number (codes "domInteractive")) (m.number (codes "domLoaded"))
                        (m.number (codes "fullLoad"))
                      ++ (paint_line (m.number (codes "fp")) (m.number (codes "fcp"))
                          ++ (dom_line (m.number (codes "domNodes")) (m.number (codes "domDepth"))
                              ++ (all_wasm_lines m.wasm_files
                                  ++ resources_line (m.number (codes "resourceCount"))
                                      (m.number (codes "totalTransferKB")))))))))

  unfoldable pub get_performance : ℕ → GetPerformanceArgs → Step Float Text
  unfolding perform format_performance_report
  get_performance c args = on_error (codes "Failed to get performance metrics: ") (do
    url ← perform tab tab.text_of (browser_ctx c) location
    metrics ← perform tab tab.metrics_of (browser_ctx c) (evaluate performance false false)
    returned (format_performance_report url metrics))
