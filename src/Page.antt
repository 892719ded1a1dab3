-- ===== src/Page.antt =====
-- The tools that act on the page and print its answer. What the code asks of the page through
-- `chromedp`, with the arguments that it formats in, is a value, and what the page answers is the
-- record `Tab`, which may look at all actions before.
pub mod Quote
pub mod Reading
pub mod Performance
pub mod Audit
pub mod Tools
pub mod Navigation
pub mod Scripts
pub mod Kept
pub mod Safety
pub mod Opening
pub mod Clicks
pub mod Swipes
pub mod Interaction
use devbrowser.Prelude.{
  ℕ, Bool, true, false, Option, none, some, List, [], ◌∷◌, ◌++◌, if◌then◌else◌, ℤ, Result, ok, err,
  Outcome, done, panic,
}
use devbrowser.Text.{Text}
use devbrowser.Session.{Session}
use devbrowser.Capture.{browser_not_open}

-- A script, by its source, or by its name and what is formatted into it.
pub data Script : Type 0 where
  source : Text → Script
  -- `GetStructureJS` and `GetPerformanceJS`
  structure performance : Script
  -- the rules of the style sheet of that number
  sheet_rules : ℤ → Script
  -- the same, of the selector in that literal
  selector_rules : Text → ℤ → Script
  -- `InspectElementJS` and `GetAuditMobileJS`, called with that literal
  inspection mobile_audit : Text → Script
  -- the fetch of the URL in that literal
  fetched : Text → Script
  -- the centre of the element whose selector stands in that literal
  center : Text → Script

pub data MouseEvent : Type 0 where
  moved pressed released : MouseEvent

-- An action of `chromedp`. The two tests of a script are whether a promise is awaited and whether
-- the command line API is included, those of the mouse are its coordinates, whether the left button
-- is named, and the count of clicks.
pub data Command (F : Type 0) : Type 0 where
  title location : Command F
  evaluate : Script → Bool → Bool → Command F
  wait_ready wait_visible click : Text → Command F
  send_keys : Text → Text → Command F
  sleep : ℤ → Command F
  mouse : MouseEvent → F → F → Bool → ℕ → Command F

-- The context of an action: that of the browser, or one below it that ends after a duration.
pub data Scope : Type 0 where
  browser_ctx : ℕ → Scope
  timeout_ctx : ℕ → ℤ → Scope

pub record Action (F : Type 0) : Type 0 where
  pub scope : Scope
  pub command : Command F

-- What a script gives to a variable of any type. A number comes with its print, any other value
-- with its type in Go and its JSON.
pub data Json : Type 0 where
  null : Json
  string : Text → Json
  float : Text → Json
  boolean : Bool → Json
  compound : Text → Result Text → Json

-- An entry of the list of WASM files, as far as its values have the type that is expected.
pub record WasmFile (F : Type 0) : Type 0 where
  pub name : Option Text
  pub size : Option F
  pub duration : Option F

-- The metrics, by name, and the WASM files, each unless it is no object.
pub record Metrics (F : Type 0) : Type 0 where
  pub number : Text → Option F
  pub wasm_files : Option (List (Option (WasmFile F)))

pub record AuditViewportMeta : Type 0 where
  pub missing : Bool
  pub missing_fit : Bool

pub record AuditMobileReport : Type 0 where
  pub viewport_meta : AuditViewportMeta
  pub vh_units : List Text
  pub safe_area : List Text
  pub input_zoom : List Text
  pub tap_target : List Text
  pub fixed_vh : List Text

-- The page, and Go's floating-point numbers with the operations that the code uses.
pub record Tab : Type 1 where
  pub Float : Type 0
  pub zero_float : Float
  -- the sum and the difference with an integer
  pub plus : Float → ℤ → Float
  pub minus : Float → ℤ → Float
  -- the number of mebibytes in a number of bytes
  pub mebibytes : Float → Float
  pub truncated : Float → ℤ
  -- the print with one decimal
  pub one_decimal : Float → Text
  -- whether a character outside ASCII is printable
  pub is_print : ℕ → Bool
  pub error : List (Action Float) → Action Float → Option Text
  pub text_of : List (Action Float) → Action Float → Text
  pub int_of : List (Action Float) → Action Float → ℤ
  pub json_of : List (Action Float) → Action Float → Json
  -- the coordinates, unless the script returned none
  pub center_of : List (Action Float) → Action Float → Option Float × Option Float
  pub metrics_of : List (Action Float) → Action Float → Metrics Float
  pub audit_of : List (Action Float) → Action Float → AuditMobileReport

-- The session, and the actions on the page so far.
pub record Visit (F : Type 0) : Type 0 where
  pub session : Session
  pub actions : List (Action F)

-- A run of the code on the page: an error ends it.
abbrev pub Step : Type 0 → Type 0 → Type 0
Step F A = Visit F → Result A × Visit F

abbrev pub returned : {F A : Type 0} → A → Step F A
returned a v = (ok a, v)

abbrev pub after : {F A B : Type 0} → Result A × Visit F → (A → Step F B) → Result B × Visit F
after (ok a, v) k = k a v
after (err e, v) k = (err e, v)

infixl 5 ◌>>=◌ ◌>>◌
abbrev pub ◌>>=◌ : {F A B : Type 0} → Step F A → (A → Step F B) → Step F B
◌>>=◌ m k v = after (m v) k

abbrev pub ◌>>◌ : {F B : Type 0} → Step F (Unit {0}) → Step F B → Step F B
m >> k = m >>= λ _. k

-- `fmt.Errorf` around an error
abbrev pub with_prefix : {F A : Type 0} → Text → Result A × Visit F → Result A × Visit F
with_prefix text (ok a, v) = (ok a, v)
with_prefix text (err e, v) = (err (text ++ e), v)

abbrev pub on_error : {F A : Type 0} → Text → Step F A → Step F A
on_error text m v = with_prefix text (m v)

module _ (tab : Tab) where
  open tab use {Float}

  -- One action: its error, or what it reads.
  abbrev pub answer :
      {A : Type 0} → Option Text → A → Action Float → Visit Float → Result A × Visit Float
  answer (some e) a action v = (err e, record v { actions = v.actions ++ action ∷ [] })
  answer none a action v = (ok a, record v { actions = v.actions ++ action ∷ [] })

  unfoldable pub perform :
      {A : Type 0} → (List (Action Float) → Action Float → A) → Scope → Command Float → Step Float A
  perform read scope command v =
      let action : Action Float = record { scope = scope; command = command } in
      answer (tab.error v.actions action) (read v.actions action) action v

  -- An action whose answer is not looked at.
  abbrev pub act : Scope → Command Float → Step Float (Unit {0})
  act scope command = perform (λ log action. tt) scope command

  abbrev pub on_bound :
      {A : Type 0}
      → (ℕ → A → Step Float Text)
      → Option ℕ
      → Result A
      → Visit Float
      → Outcome (Result Text × Visit Float)
  on_bound body ctx (err e) v = done (err e, v)
  on_bound body none (ok args) v = panic
  on_bound body (some c) (ok args) v = done (body c args v)

  -- A tool: it refuses a browser that is not open, then an error of binding its arguments, and runs
  -- its body on the context, where a nil context panics.
  unfoldable pub on_page :
      {A : Type 0}
      → (ℕ → A → Step Float Text)
      → Result A
      → Visit Float
      → Outcome (Result Text × Visit Float)
  on_page body bound v =
      if v.session.browser.is_open_flag
      then on_bound body v.session.browser.ctx bound v
      else done (err browser_not_open, v)
