-- ===== src/Page/Tools.antt =====
-- The tools of the page by name: for each its `Execute`, which checks that the browser is open,
-- binds the arguments and runs its body on the browser context.
use devbrowser.Prelude.{ℕ, Result, Outcome}
use devbrowser.Text.{Text}
use devbrowser.Models.Actions.{ClickElementArgs, FillElementArgs, SwipeElementArgs, EvaluateJsArgs}
use devbrowser.Models.Reads.{
  GetContentArgs, GetSourceArgs, InspectElementArgs, GetStylesArgs, GetStorageArgs, GetAssetArgs,
  GetPerformanceArgs, AuditMobileArgs,
}
use devbrowser.Page.{Tab, Visit, Step, on_page}
use devbrowser.Page.Reading.{
  get_content, get_styles, get_source, get_storage, get_asset, inspect_element, evaluate_js,
}
use devbrowser.Page.Interaction.{click_element, fill_element, swipe_element}
use devbrowser.Page.Performance.{get_performance}
use devbrowser.Page.Audit.{audit_mobile}

pub data PageTool : Type 0 where
  content styles html storage asset inspection evaluation : PageTool
  click fill swipe performance audit : PageTool

abbrev pub PageArgs : PageTool → Type 0
PageArgs content = GetContentArgs
PageArgs styles = GetStylesArgs
PageArgs html = GetSourceArgs
PageArgs storage = GetStorageArgs
PageArgs asset = GetAssetArgs
PageArgs inspection = InspectElementArgs
PageArgs evaluation = EvaluateJsArgs
PageArgs click = ClickElementArgs
PageArgs fill = FillElementArgs
PageArgs swipe = SwipeElementArgs
PageArgs performance = GetPerformanceArgs
PageArgs audit = AuditMobileArgs

module _ (tab : Tab) where
  open tab use {Float}

  unfoldable pub body : (t : PageTool) → ℕ → PageArgs t → Step Float Text
  unfolding get_content get_styles get_source get_storage get_asset inspect_element evaluate_js
      click_element fill_element swipe_element get_performance audit_mobile
  body content = get_content tab
  body styles = get_styles tab
  body html = get_source tab
  body storage = get_storage tab
  body asset = get_asset tab
  body inspection = inspect_element tab
  body evaluation = evaluate_js tab
  body click = click_element tab
  body fill = fill_element tab
  body swipe = swipe_element tab
  body performance = get_performance tab
  body audit = audit_mobile tab

  unfoldable pub execute_tool :
      (t : PageTool) → Result (PageArgs t) → Visit Float → Outcome (Result Text × Visit Float)
  unfolding body on_page
  execute_tool t bound v = on_page tab (body t) bound v
