-- ===== src/Registry.antt =====
-- The tools of the browser, as they are registered (mcp-tools.go and the `Tools` functions).
pub mod Names
use devbrowser.Prelude.{
  ℕ, zero, suc, ◌≡◌, refl, Option, some, List, [], ◌∷◌, ◌++◌, All, get_elem?, Bool, true, false,
  not, ◌&&◌, ◌||◌, arith,
}
use devbrowser.Text.{Text, codes, text_eq, text_eq_refl}
use devbrowser.Models.{Model}
use devbrowser.Models.All.{
  ModelName, model, of_emulate_device, of_get_console, of_screenshot, of_save_screenshot,
  of_get_content, of_evaluate_js, of_get_network_logs, of_get_errors, of_click_element,
  of_fill_element, of_swipe_element, of_navigate, of_inspect_element, of_get_selected_element,
  of_get_performance, of_audit_mobile, of_get_source, of_get_styles, of_get_storage, of_get_asset,
  of_intercept_request,
}

-- The metadata of a tool; the arguments are named by their model.
pub record Tool : Type 0 where
  pub name : Text
  pub args : ModelName
  pub resource : Text
  pub action : ℕ

abbrev pub management_tools : List Tool
management_tools =
    record {
      name = codes "browser_emulate_device";
      args = of_emulate_device;
      resource = codes "browser";
      action = b'u';
    }
    ∷ []

abbrev pub console_tools : List Tool
console_tools =
    record {
      name = codes "browser_get_console";
      args = of_get_console;
      resource = codes "browser";
      action = b'r';
    }
    ∷ []

abbrev pub screenshot_tools : List Tool
screenshot_tools =
    record {
      name = codes "browser_screenshot";
      args = of_screenshot;
      resource = codes "browser";
      action = b'r';
    }
    ∷ record {
      name = codes "browser_save_screenshot";
      args = of_save_screenshot;
      resource = codes "browser_file";
      action = b'c';
    }
    ∷ []

abbrev pub structure_tools : List Tool
structure_tools =
    record {
      name = codes "browser_get_content";
      args = of_get_content;
      resource = codes "browser";
      action = b'r';
    }
    ∷ []

abbrev pub evaluate_js_tools : List Tool
evaluate_js_tools =
    record {
      name = codes "browser_evaluate_js";
      args = of_evaluate_js;
      resource = codes "browser";
      action = b'u';
    }
    ∷ []

abbrev pub network_tools : List Tool
network_tools =
    record {
      name = codes "browser_get_network_logs";
      args = of_get_network_logs;
      resource = codes "browser";
      action = b'r';
    }
    ∷ []

abbrev pub error_tools : List Tool
error_tools =
    record {
      name = codes "browser_get_errors";
      args = of_get_errors;
      resource = codes "browser";
      action = b'r';
    }
    ∷ []

abbrev pub interaction_tools : List Tool
interaction_tools =
    record {
      name = codes "browser_click_element";
      args = of_click_element;
      resource = codes "browser";
      action = b'u';
    }
    ∷ record {
      name = codes "browser_fill_element";
      args = of_fill_element;
      resource = codes "browser";
      action = b'u';
    }
    ∷ record {
      name = codes "browser_swipe_element";
      args = of_swipe_element;
      resource = codes "browser";
      action = b'u';
    }
    ∷ []

abbrev pub navigation_tools : List Tool
navigation_tools =
    record {
      name = codes "browser_navigate";
      args = of_navigate;
      resource = codes "browser";
      action = b'u';
    }
    ∷ []

abbrev pub inspect_tools : List Tool
inspect_tools =
    record {
      name = codes "browser_inspect_element";
      args = of_inspect_element;
      resource = codes "browser";
      action = b'r';
    }
    ∷ []

abbrev pub selected_element_tools : List Tool
selected_element_tools =
    record {
      name = codes "browser_get_selected_element";
      args = of_get_selected_element;
      resource = codes "browser";
      action = b'r';
    }
    ∷ []

abbrev pub performance_tools : List Tool
performance_tools =
    record {
      name = codes "browser_get_performance";
      args = of_get_performance;
      resource = codes "browser";
      action = b'r';
    }
    ∷ []

abbrev pub audit_tools : List Tool
audit_tools =
    record {
      name = codes "browser_audit_mobile";
      args = of_audit_mobile;
      resource = codes "browser";
      action = b'r';
    }
    ∷ []

abbrev pub source_tools : List Tool
source_tools =
    record {
      name = codes "browser_get_source";
      args = of_get_source;
      resource = codes "browser";
      action = b'r';
    }
    ∷ []

abbrev pub styles_tools : List Tool
styles_tools =
    record {
      name = codes "browser_get_styles";
      args = of_get_styles;
      resource = codes "browser";
      action = b'r';
    }
    ∷ []

abbrev pub storage_tools : List Tool
storage_tools =
    record {
      name = codes "browser_get_storage";
      args = of_get_storage;
      resource = codes "browser";
      action = b'r';
    }
    ∷ []

abbrev pub asset_tools : List Tool
asset_tools =
    record {
      name = codes "browser_get_asset";
      args = of_get_asset;
      resource = codes "browser";
      action = b'r';
    }
    ∷ []

abbrev pub intercept_tools : List Tool
intercept_tools =
    record {
      name = codes "browser_intercept_request";
      args = of_intercept_request;
      resource = codes "browser";
      action = b'u';
    }
    ∷ []

abbrev pub get_mcp_tools : List Tool
get_mcp_tools =
    (management_tools
      ++ (console_tools
          ++ (screenshot_tools
              ++ (structure_tools
                  ++ (evaluate_js_tools
                      ++ (network_tools
                          ++ (error_tools
                              ++ (interaction_tools
                                  ++ (navigation_tools
                                      ++ (inspect_tools
                                          ++ (selected_element_tools
                                              ++ (performance_tools
                                                  ++ (audit_tools
                                                      ++ (source_tools
                                                          ++ (styles_tools
                                                            ++ (storage_tools
                                                            ++ (asset_tools
                                                            ++ intercept_tools)))))))))))))))))
