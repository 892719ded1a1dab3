-- ===== src/Page/Reading.antt =====
-- The tools that read the page and print what it answers (mcp-structure.go, mcp-styles.go,
-- mcp-source.go, mcp-asset.go, mcp-inspect.go, mcp-storage.go, mcp-evaluate-js.go).
use devbrowser.Prelude.{ℕ, Bool, true, false, ◌++◌, if◌then◌else◌, Result, ok, err}
use devbrowser.Text.{Text, codes, is_empty, text_eq}
use devbrowser.Text.Decimal.{itoa}
use devbrowser.Models.Actions.{EvaluateJsArgs}
use devbrowser.Models.Reads.{
  GetContentArgs, GetSourceArgs, InspectElementArgs, GetStylesArgs, GetStorageArgs, GetAssetArgs,
}
use devbrowser.Page.{
  Script, source, structure, sheet_rules, selector_rules, inspection, fetched, Command, title,
  location, evaluate, browser_ctx, Json, null, string, float, boolean, compound, Tab, Step,
  returned, ◌>>=◌, on_error, perform,
}
use devbrowser.Page.Quote.{quote}

-- A script whose answer is waited for no longer, without the command line API.
abbrev pub plain : {F : Type 0} → Script → Command F
plain script = evaluate script false false

abbrev pub outer_html : Text
outer_html = codes "document.documentElement.outerHTML"

abbrev pub session_storage : Text
session_storage = codes "JSON.stringify(Object.fromEntries(Object.entries(sessionStorage)))"

abbrev pub local_storage : Text
local_storage = codes "JSON.stringify(Object.fromEntries(Object.entries(localStorage)))"

storage_script : Text → Text
unfolding text_eq
storage_script type =
    if text_eq type (codes "session")
    then session_storage
    else if text_eq type (codes "cookies")
    then codes "document.cookie"
    else local_storage

-- The verb `%T`.
abbrev go_type : Json → Text
go_type null = codes "<nil>"
go_type (string s) = codes "string"
go_type (float s) = codes "float64"
go_type (boolean b) = codes "bool"
go_type (compound t s) = t

abbrev pub boolean_text : Bool → Text
boolean_text true = codes "true"
boolean_text false = codes "false"

abbrev pub serialized : {F : Type 0} → Result Text → Step F Text
serialized (ok s) v = (ok s, v)
serialized (err e) v = (err (codes "failed to serialize result: " ++ e), v)

-- The print of the value of a script.
abbrev pub printed : {F : Type 0} → Json → Step F Text
printed null = returned (codes "undefined")
printed (string s) = returned s
printed (float s) = returned s
printed (boolean b) = returned (boolean_text b)
printed (compound t s) = serialized s

abbrev pub asset_text : {F : Type 0} → Json → Step F Text
asset_text null v = (err (codes "Expected string result from asset fetch, got <nil>"), v)
asset_text (string s) v = (ok s, v)
asset_text j v = (err (codes "Expected string result from asset fetch, got " ++ go_type j), v)

module _ (tab : Tab) where
  open tab use {Float, text_of, int_of, json_of}

  -- A text between double quotes.
  abbrev pub quoted : Text → Text
  quoted s = quote tab.is_print s

  unfoldable pub content_read : ℕ → Step Float Text
  unfolding perform itoa
  content_read c = do
    page_title ← perform tab text_of (browser_ctx c) title
    page_url ← perform tab text_of (browser_ctx c) location
    width ← perform tab int_of (browser_ctx c) (plain (source (codes "window.innerWidth")))
    height ← perform tab int_of (browser_ctx c) (plain (source (codes "window.innerHeight")))
    body ← perform tab text_of (browser_ctx c) (plain structure)
    returned (
        codes "Url: "
        ++ (page_url
            ++ (codes "\nTitle: "
                ++ (page_title
                    ++ (codes "\nViewport: "
                        ++ (itoa width
                            ++ (codes "x" ++ (itoa height ++ (codes "\n\n" ++ body)))))))))

  unfoldable pub get_content : ℕ → GetContentArgs → Step Float Text
  unfolding content_read
  get_content c args = on_error (codes "Failed to get page structure: ") (content_read c)

  abbrev pub styles_script : GetStylesArgs → Script
  unfolding quote
  styles_script args =
      if is_empty args.selector
      then sheet_rules args.sheet
      else selector_rules (quoted args.selector) args.sheet

  unfoldable pub get_styles : ℕ → GetStylesArgs → Step Float Text
  unfolding perform quote
  get_styles c args = perform tab text_of (browser_ctx c) (plain (styles_script args))

  abbrev pub source_script : GetSourceArgs → Text
  unfolding quote
  source_script args =
      if is_empty args.selector
      then outer_html
      else codes "document.querySelector("
        ++ (quoted args.selector ++ codes ")?.outerHTML ?? \"Element not found\"")

  unfoldable pub get_source : ℕ → GetSourceArgs → Step Float Text
  unfolding perform quote
  get_source c args = perform tab text_of (browser_ctx c) (plain (source (source_script args)))

  unfoldable pub get_storage : ℕ → GetStorageArgs → Step Float Text
  unfolding perform storage_script
  get_storage c args =
      perform tab text_of (browser_ctx c) (plain (source (storage_script args.type)))

  unfoldable pub get_asset : ℕ → GetAssetArgs → Step Float Text
  unfolding perform quote
  get_asset c args = do
    result ← perform tab json_of (browser_ctx c) (evaluate (fetched (quoted args.url)) true false)
    asset_text result

  unfoldable pub inspect_element : ℕ → InspectElementArgs → Step Float Text
  unfolding perform quote
  inspect_element c args = do
    result ←
        on_error (codes "Failed to inspect element: ")
          (perform tab text_of (browser_ctx c) (plain (inspection (quoted args.selector))))
    returned (codes "Inspect Element: " ++ (args.selector ++ (codes "\n" ++ result)))

  unfoldable pub evaluate_js : ℕ → EvaluateJsArgs → Step Float Text
  unfolding perform
  evaluate_js c args = do
    result ←
        perform tab json_of (browser_ctx c) (evaluate (source args.script) args.await_promise true)
    printed result
