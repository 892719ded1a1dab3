-- ===== src/Models/All.antt =====
-- All the arguments of tools, by name: an enumeration, and a family of types over it.
use devbrowser.Models.{Model, Definition}
use devbrowser.Models.Actions.{
  ClickElementArgs, FillElementArgs, SwipeElementArgs, NavigateArgs, EvaluateJsArgs,
  click_element_args, fill_element_args, swipe_element_args, navigate_args, evaluate_js_args,
  click_element_args_model, fill_element_args_model, swipe_element_args_model, navigate_args_model,
  evaluate_js_args_model,
}
use devbrowser.Models.Controls.{
  OpenBrowserArgs, CloseBrowserArgs, open_browser_args, close_browser_args, emulate_device_args,
  intercept_request_args, open_browser_args_model, close_browser_args_model,
  emulate_device_args_model, intercept_request_args_model,
}
use devbrowser.Models.Reads.{
  GetContentArgs, GetSourceArgs, InspectElementArgs, GetStylesArgs, GetStorageArgs, GetAssetArgs,
  GetPerformanceArgs, AuditMobileArgs, get_content_args, get_source_args, inspect_element_args,
  get_styles_args, get_storage_args, get_asset_args, get_performance_args, audit_mobile_args,
  get_content_args_model, get_source_args_model, inspect_element_args_model, get_styles_args_model,
  get_storage_args_model, get_asset_args_model, get_performance_args_model, audit_mobile_args_model,
}
use devbrowser.Models.Records.{
  GetConsoleArgs, GetNetworkLogsArgs, GetErrorsArgs, ScreenshotArgs, get_console_args,
  get_network_logs_args, get_errors_args, screenshot_args, save_screenshot_args,
  get_selected_element_args, get_console_args_model, get_network_logs_args_model,
  get_errors_args_model, screenshot_args_model, save_screenshot_args_model,
  get_selected_element_args_model,
}
use devbrowser.Screenshot.Emulate.{EmulateDeviceArgs}
use devbrowser.Screenshot.Save.{SaveScreenshotArgs}
use devbrowser.Inspect.Tool.{GetSelectedElementArgs}
use devbrowser.Capture.Intercept.{InterceptArgs}

pub data ModelName : Type 0 where
  of_click_element of_fill_element of_swipe_element of_navigate of_evaluate_js of_open_browser
        of_close_browser of_emulate_device of_intercept_request of_get_content of_get_source
        of_inspect_element of_get_styles of_get_storage of_get_asset of_get_performance
        of_audit_mobile of_get_console of_get_network_logs of_get_errors of_screenshot
        of_save_screenshot of_get_selected_element :
      ModelName

abbrev pub Args : ModelName → Type 0
Args of_click_element = ClickElementArgs
Args of_fill_element = FillElementArgs
Args of_swipe_element = SwipeElementArgs
Args of_navigate = NavigateArgs
Args of_evaluate_js = EvaluateJsArgs
Args of_open_browser = OpenBrowserArgs
Args of_close_browser = CloseBrowserArgs
Args of_emulate_device = EmulateDeviceArgs
Args of_intercept_request = InterceptArgs
Args of_get_content = GetContentArgs
Args of_get_source = GetSourceArgs
Args of_inspect_element = InspectElementArgs
Args of_get_styles = GetStylesArgs
Args of_get_storage = GetStorageArgs
Args of_get_asset = GetAssetArgs
Args of_get_performance = GetPerformanceArgs
Args of_audit_mobile = AuditMobileArgs
Args of_get_console = GetConsoleArgs
Args of_get_network_logs = GetNetworkLogsArgs
Args of_get_errors = GetErrorsArgs
Args of_screenshot = ScreenshotArgs
Args of_save_screenshot = SaveScreenshotArgs
Args of_get_selected_element = GetSelectedElementArgs

abbrev pub model : (n : ModelName) → Model (Args n)
model of_click_element = click_element_args
model of_fill_element = fill_element_args
model of_swipe_element = swipe_element_args
model of_navigate = navigate_args
model of_evaluate_js = evaluate_js_args
model of_open_browser = open_browser_args
model of_close_browser = close_browser_args
model of_emulate_device = emulate_device_args
model of_intercept_request = intercept_request_args
model of_get_content = get_content_args
model of_get_source = get_source_args
model of_inspect_element = inspect_element_args
model of_get_styles = get_styles_args
model of_get_storage = get_storage_args
model of_get_asset = get_asset_args
model of_get_performance = get_performance_args
model of_audit_mobile = audit_mobile_args
model of_get_console = get_console_args
model of_get_network_logs = get_network_logs_args
model of_get_errors = get_errors_args
model of_screenshot = screenshot_args
model of_save_screenshot = save_screenshot_args
model of_get_selected_element = get_selected_element_args

abbrev pub definition : ModelName → Definition
definition of_click_element = click_element_args_model
definition of_fill_element = fill_element_args_model
definition of_swipe_element = swipe_element_args_model
definition of_navigate = navigate_args_model
definition of_evaluate_js = evaluate_js_args_model
definition of_open_browser = open_browser_args_model
definition of_close_browser = close_browser_args_model
definition of_emulate_device = emulate_device_args_model
definition of_intercept_request = intercept_request_args_model
definition of_get_content = get_content_args_model
definition of_get_source = get_source_args_model
definition of_inspect_element = inspect_element_args_model
definition of_get_styles = get_styles_args_model
definition of_get_storage = get_storage_args_model
definition of_get_asset = get_asset_args_model
definition of_get_performance = get_performance_args_model
definition of_audit_mobile = audit_mobile_args_model
definition of_get_console = get_console_args_model
definition of_get_network_logs = get_network_logs_args_model
definition of_get_errors = get_errors_args_model
definition of_screenshot = screenshot_args_model
definition of_save_screenshot = save_screenshot_args_model
definition of_get_selected_element = get_selected_element_args_model
