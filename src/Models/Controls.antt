-- ===== src/Models/Controls.antt =====
-- The arguments of the tools that control the browser (models.go, models_orm.go).
use devbrowser.Prelude.{Bool, true, false, none, some, [], ◌∷◌}
use devbrowser.Text.{Text, codes}
use devbrowser.Models.{
  text_kind, int_kind, bool_kind, Definition, permitted_selector, permitted_free, text_value,
  int_value, bool_value, or_else, Model,
}
use devbrowser.Screenshot.Emulate.{EmulateDeviceArgs}
use devbrowser.Capture.Intercept.{InterceptArgs}

pub record OpenBrowserArgs : Type 0 where
  pub port : Text
  pub https : Bool

abbrev pub open_browser_args_model : Definition
open_browser_args_model = record {
  name = codes "open_browser_args";
  fields =
      record { name = codes "port"; kind = text_kind; not_null = false; permitted = none }
      ∷ record { name = codes "https"; kind = bool_kind; not_null = false; permitted = none }
      ∷ [];
}

abbrev pub open_browser_args : Model OpenBrowserArgs
open_browser_args = record {
  model_name = codes "open_browser_args";
  schema = open_browser_args_model.fields;
  pointers = λ m. text_value m.port ∷ bool_value m.https ∷ [];
  encode_fields = λ m.
      record { key = codes "port"; value = text_value m.port }
      ∷ record { key = codes "https"; value = bool_value m.https }
      ∷ [];
  decode_fields = λ r m. record m {
    port = or_else (r.string (codes "port")) m.port;
    https = or_else (r.bool (codes "https")) m.https;
  };
}

pub record CloseBrowserArgs : Type 0 where

abbrev pub close_browser_args_model : Definition
close_browser_args_model = record { name = codes "close_browser_args"; fields = [] }

abbrev pub close_browser_args : Model CloseBrowserArgs
close_browser_args = record {
  model_name = codes "close_browser_args";
  schema = close_browser_args_model.fields;
  pointers = λ m. [];
  encode_fields = λ m. [];
  decode_fields = λ r m. m;
}

abbrev pub emulate_device_args_model : Definition
emulate_device_args_model = record {
  name = codes "emulate_device_args";
  fields =
      record { name = codes "mode"; kind = text_kind; not_null = false; permitted = none }
      ∷ record {
        name = codes "device";
        kind = text_kind;
        not_null = false;
        permitted = some permitted_selector;
      }
      ∷ record { name = codes "capture"; kind = bool_kind; not_null = false; permitted = none }
      ∷ record {
        name = codes "selector";
        kind = text_kind;
        not_null = false;
        permitted = some permitted_selector;
      }
      ∷ [];
}

abbrev pub emulate_device_args : Model EmulateDeviceArgs
emulate_device_args = record {
  model_name = codes "emulate_device_args";
  schema = emulate_device_args_model.fields;
  pointers = λ m.
      text_value m.mode ∷ text_value m.device ∷ bool_value m.capture ∷ text_value m.selector ∷ [];
  encode_fields = λ m.
      record { key = codes "mode"; value = text_value m.mode }
      ∷ record { key = codes "device"; value = text_value m.device }
      ∷ record { key = codes "capture"; value = bool_value m.capture }
      ∷ record { key = codes "selector"; value = text_value m.selector }
      ∷ [];
  decode_fields = λ r m. record m {
    mode = or_else (r.string (codes "mode")) m.mode;
    device = or_else (r.string (codes "device")) m.device;
    capture = or_else (r.bool (codes "capture")) m.capture;
    selector = or_else (r.string (codes "selector")) m.selector;
  };
}

abbrev pub intercept_request_args_model : Definition
intercept_request_args_model = record {
  name = codes "intercept_request_args";
  fields =
      record { name = codes "action"; kind = text_kind; not_null = true; permitted = none }
      ∷ record {
        name = codes "filter";
        kind = text_kind;
        not_null = false;
        permitted = some permitted_free;
      }
      ∷ record { name = codes "limit"; kind = int_kind; not_null = false; permitted = none }
      ∷ [];
}

abbrev pub intercept_request_args : Model InterceptArgs
intercept_request_args = record {
  model_name = codes "intercept_request_args";
  schema = intercept_request_args_model.fields;
  pointers = λ m. text_value m.action ∷ text_value m.filter ∷ int_value m.limit ∷ [];
  encode_fields = λ m.
      record { key = codes "action"; value = text_value m.action }
      ∷ record { key = codes "filter"; value = text_value m.filter }
      ∷ record { key = codes "limit"; value = int_value m.limit }
      ∷ [];
  decode_fields = λ r m. record m {
    action = or_else (r.string (codes "action")) m.action;
    filter = or_else (r.string (codes "filter")) m.filter;
    limit = or_else (r.int (codes "limit")) m.limit;
  };
}
