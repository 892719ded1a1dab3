-- ===== src/Browser.antt =====
-- The state that the components share (devbrowser.go, the struct `DevBrowser`), its construction
-- and the two ways in which the code logs.
use devbrowser.Prelude.{
  ℕ, Bool, true, false, Option, none, some, List, [], ◌∷◌, ◌++◌, ℤ, pos, Outcome, done, panic,
}
use devbrowser.Text.{Text, codes}
use devbrowser.Selection.{History}
use devbrowser.Selection
use devbrowser.Logs.{NetworkLogEntry, JsError, InterceptedRequest}

-- The fields of the Go struct, less the mutexes and channels. A context and a cancel function
-- are the number of the browser context that they belong to, and `none` is nil.
pub record DevBrowser : Type 0 where
  -- nil, or how often `RefreshUI` was called
  pub ui : Option ℕ
  pub width : ℤ
  pub height : ℤ
  pub position : Text
  pub headless : Bool
  pub auto_start : Bool
  pub monitor_width : ℤ
  pub monitor_height : ℤ
  pub size_configured : Bool
  pub trust_dev_cert_spki : Text
  pub dev_tools_reserved : Bool
  pub viewport_mode : Text
  pub viewport_device : Text
  pub first_call : Bool
  pub opened_once : Bool
  pub last_port : Text
  pub last_https : Bool
  pub last_url : Text
  pub selections : History
  pub last_panel_node_id : ℤ
  pub selection_capture_installed : Bool
  pub is_open_flag : Bool
  pub ready : Bool
  pub pending_reload : Bool
  pub ctx : Option ℕ
  pub cancel : Option ℕ
  pub alloc_cancel : Option ℕ
  -- nil, or the arguments of the calls so far
  pub log : Option (List (List Text))
  pub console_logs : List Text
  pub network_logs : List NetworkLogEntry
  pub js_errors : List JsError
  pub intercept_active : Bool
  pub intercepted_reqs : List InterceptedRequest
  pub busy : ℕ
  pub test_mode : Bool
  pub cache_enabled : Bool
  pub profile_dir : Text
  pub profile_fallback_reason : Text

-- The struct literal of `New`, before the options and `LoadConfig`.
abbrev pub initial : Option ℕ → DevBrowser
initial ui = record {
  ui = ui;
  width = pos 1024;
  height = pos 768;
  position = codes "0,0";
  headless = false;
  auto_start = false;
  monitor_width = pos 0;
  monitor_height = pos 0;
  size_configured = false;
  trust_dev_cert_spki = [];
  dev_tools_reserved = false;
  viewport_mode = [];
  viewport_device = [];
  first_call = true;
  opened_once = false;
  last_port = [];
  last_https = false;
  last_url = [];
  selections = Selection.empty;
  last_panel_node_id = pos 0;
  selection_capture_installed = false;
  is_open_flag = false;
  ready = false;
  pending_reload = false;
  ctx = none;
  cancel = none;
  alloc_cancel = none;
  log = none;
  console_logs = [];
  network_logs = [];
  js_errors = [];
  intercept_active = false;
  intercepted_reqs = [];
  busy = 0;
  test_mode = false;
  cache_enabled = false;
  profile_dir = [];
  profile_fallback_reason = [];
}

-- A call of the field `Log` itself, which panics when no logger was set.
unfoldable pub call_log : List Text → DevBrowser → Outcome DevBrowser
call_log args b = elim b.log [
  | none ↦ panic
  | some calls ↦ done (record b { log = some (calls ++ args ∷ []) })
]

-- The method `Logger`, which guards against that.
unfoldable pub logger : List Text → DevBrowser → DevBrowser
logger args b = elim b.log [ none ↦ b | some calls ↦ record b { log = some (calls ++ args ∷ []) } ]
