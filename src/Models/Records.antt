-- ===== src/Models/Records.antt =====
-- The arguments of the tools that read the logs, the screenshots and the selected elements
-- (models.go, models_orm.go).
use devbrowser.Prelude.{Bool, true, false, none, some, [], ◌∷◌, ℤ}
use devbrowser.Text.{Text, codes}
use devbrowser.Models.{
  text_kind, int_kind, bool_kind, Definition, permitted_selector, permitted_free, permitted_path,
  text_value, int_value, bool_value, or_else, Model,
}
use devbrowser.Screenshot.Save.{SaveScreenshotArgs}
use devbrowser.Inspect.Tool.{GetSelectedElementArgs}

pub record GetConsoleArgs : Type 0 where
  pub lines : ℤ

abbrev pub get_console_args_model : Definition
get_console_args_model = record {
  name = codes "get_console_args";
  fields =
      record { name = codes "lines"; kind = int_kind; not_null = false; permitted = none } ∷ [];
}

abbrev pub get_console_args : Model GetConsoleArgs
get_console_args = record {
  model_name = codes "get_console_args";
  schema = get_console_args_model.fields;
  pointers = λ m. int_value m.lines ∷ [];
  encode_fields = λ m. record { key = codes "lines"; value = int_value m.lines } ∷ [];
  decode_fields = λ r m. record m { lines = or_else (r.int (codes "lines")) m.lines };
}

pub record GetNetworkLogsArgs : Type 0 where
  pub filter : Text
  pub limit : ℤ

abbrev pub get_network_logs_args_model : Definition
get_network_logs_args_model = record {
  name = codes "get_network_logs_args";
  fields =
      record {
        name = codes "filter";
        kind = text_kind;
        not_null = false;
        permitted = some permitted_free;
      }
      ∷ record { name = codes "limit"; kind = int_kind; not_null = false; permitted = none }
      ∷ [];
}

abbrev pub get_network_logs_args : Model GetNetworkLogsArgs
get_network_logs_args = record {
  model_name = codes "get_network_logs_args";
  schema = get_network_logs_args_model.fields;
  pointers = λ m. text_value m.filter ∷ int_value m.limit ∷ [];
  encode_fields = λ m.
      record { key = codes "filter"; value = text_value m.filter }
      ∷ record { key = codes "limit"; value = int_value m.limit }
      ∷ [];
  decode_fields = λ r m. record m {
    filter = or_else (r.string (codes "filter")) m.filter;
    limit = or_else (r.int (codes "limit")) m.limit;
  };
}

pub record GetErrorsArgs : Type 0 where
  pub limit : ℤ

abbrev pub get_errors_args_model : Definition
get_errors_args_model = record {
  name = codes "get_errors_args";
  fields =
      record { name = codes "limit"; kind = int_kind; not_null = false; permitted = none } ∷ [];
}

abbrev pub get_errors_args : Model GetErrorsArgs
get_errors_args = record {
  model_name = codes "get_errors_args";
  schema = get_errors_args_model.fields;
  pointers = λ m. int_value m.limit ∷ [];
  encode_fields = λ m. record { key = codes "limit"; value = int_value m.limit } ∷ [];
  decode_fields = λ r m. record m { limit = or_else (r.int (codes "limit")) m.limit };
}

pub record ScreenshotArgs : Type 0 where
  pub fullpage : Bool

abbrev pub screenshot_args_model : Definition
screenshot_args_model = record {
  name = codes "screenshot_args";
  fields =
      record { name = codes "fullpage"; kind = bool_kind; not_null = false; permitted = none } ∷ [];
}

abbrev pub screenshot_args : Model ScreenshotArgs
screenshot_args = record {
  model_name = codes "screenshot_args";
  schema = screenshot_args_model.fields;
  pointers = λ m. bool_value m.fullpage ∷ [];
  encode_fields = λ m. record { key = codes "fullpage"; value = bool_value m.fullpage } ∷ [];
  decode_fields = λ r m. record m { fullpage = or_else (r.bool (codes "fullpage")) m.fullpage };
}

abbrev pub save_screenshot_args_model : Definition
save_screenshot_args_model = record {
  name = codes "save_screenshot_args";
  fields =
      record {
        name = codes "dir";
        kind = text_kind;
        not_null = true;
        permitted = some permitted_path;
      }
      ∷ record {
        name = codes "name";
        kind = text_kind;
        not_null = true;
        permitted = some permitted_path;
      }
      ∷ record {
        name = codes "selector";
        kind = text_kind;
        not_null = false;
        permitted = some permitted_selector;
      }
      ∷ record { name = codes "fullpage"; kind = bool_kind; not_null = false; permitted = none }
      ∷ record { name = codes "overwrite"; kind = bool_kind; not_null = false; permitted = none }
      ∷ [];
}

abbrev pub save_screenshot_args : Model SaveScreenshotArgs
save_screenshot_args = record {
  model_name = codes "save_screenshot_args";
  schema = save_screenshot_args_model.fields;
  pointers = λ m.
      text_value m.directory
      ∷ text_value m.name
      ∷ text_value m.selector
      ∷ bool_value m.fullpage
      ∷ bool_value m.overwrite
      ∷ [];
  encode_fields = λ m.
      record { key = codes "dir"; value = text_value m.directory }
      ∷ record { key = codes "name"; value = text_value m.name }
      ∷ record { key = codes "selector"; value = text_value m.selector }
      ∷ record { key = codes "fullpage"; value = bool_value m.fullpage }
      ∷ record { key = codes "overwrite"; value = bool_value m.overwrite }
      ∷ [];
  decode_fields = λ r m. record m {
    directory = or_else (r.string (codes "dir")) m.directory;
    name = or_else (r.string (codes "name")) m.name;
    selector = or_else (r.string (codes "selector")) m.selector;
    fullpage = or_else (r.bool (codes "fullpage")) m.fullpage;
    overwrite = or_else (r.bool (codes "overwrite")) m.overwrite;
  };
}

abbrev pub get_selected_element_args_model : Definition
get_selected_element_args_model = record {
  name = codes "get_selected_element_args";
  fields =
      record { name = codes "count"; kind = int_kind; not_null = false; permitted = none }
      ∷ record { name = codes "clear"; kind = bool_kind; not_null = false; permitted = none }
      ∷ [];
}

abbrev pub get_selected_element_args : Model GetSelectedElementArgs
get_selected_element_args = record {
  model_name = codes "get_selected_element_args";
  schema = get_selected_element_args_model.fields;
  pointers = λ m. int_value m.count ∷ bool_value m.clear ∷ [];
  encode_fields = λ m.
      record { key = codes "count"; value = int_value m.count }
      ∷ record { key = codes "clear"; value = bool_value m.clear }
      ∷ [];
  decode_fields = λ r m. record m {
    count = or_else (r.int (codes "count")) m.count;
    clear = or_else (r.bool (codes "clear")) m.clear;
  };
}
