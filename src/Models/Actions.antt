-- ===== src/Models/Actions.antt =====
-- The arguments of the tools that act on the page (models.go, models_orm.go).
use devbrowser.Prelude.{Bool, true, false, none, some, [], ◌∷◌, ℤ}
use devbrowser.Text.{Text, codes}
use devbrowser.Models.{
  text_kind, int_kind, bool_kind, Definition, permitted_selector, permitted_url, permitted_free,
  text_value, int_value, bool_value, or_else, Model,
}

pub record ClickElementArgs : Type 0 where
  pub selector : Text
  pub wait_after : ℤ
  pub timeout : ℤ

abbrev pub click_element_args_model : Definition
click_element_args_model = record {
  name = codes "click_element_args";
  fields =
      record {
        name = codes "selector";
        kind = text_kind;
        not_null = true;
        permitted = some permitted_selector;
      }
      ∷ record { name = codes "wait_after"; kind = int_kind; not_null = false; permitted = none }
      ∷ record { name = codes "timeout"; kind = int_kind; not_null = false; permitted = none }
      ∷ [];
}

abbrev pub click_element_args : Model ClickElementArgs
click_element_args = record {
  model_name = codes "click_element_args";
  schema = click_element_args_model.fields;
  pointers = λ m. text_value m.selector ∷ int_value m.wait_after ∷ int_value m.timeout ∷ [];
  encode_fields = λ m.
      record { key = codes "selector"; value = text_value m.selector }
      ∷ record { key = codes "wait_after"; value = int_value m.wait_after }
      ∷ record { key = codes "timeout"; value = int_value m.timeout }
      ∷ [];
  decode_fields = λ r m. record m {
    selector = or_else (r.string (codes "selector")) m.selector;
    wait_after = or_else (r.int (codes "wait_after")) m.wait_after;
    timeout = or_else (r.int (codes "timeout")) m.timeout;
  };
}

pub record FillElementArgs : Type 0 where
  pub selector : Text
  pub value : Text
  pub wait_after : ℤ
  pub timeout : ℤ

abbrev pub fill_element_args_model : Definition
fill_element_args_model = record {
  name = codes "fill_element_args";
  fields =
      record {
        name = codes "selector";
        kind = text_kind;
        not_null = true;
        permitted = some permitted_selector;
      }
      ∷ record {
        name = codes "value";
        kind = text_kind;
        not_null = true;
        permitted = some permitted_free;
      }
      ∷ record { name = codes "wait_after"; kind = int_kind; not_null = false; permitted = none }
      ∷ record { name = codes "timeout"; kind = int_kind; not_null = false; permitted = none }
      ∷ [];
}

abbrev pub fill_element_args : Model FillElementArgs
fill_element_args = record {
  model_name = codes "fill_element_args";
  schema = fill_element_args_model.fields;
  pointers = λ m.
      text_value m.selector
      ∷ text_value m.value
      ∷ int_value m.wait_after
      ∷ int_value m.timeout
      ∷ [];
  encode_fields = λ m.
      record { key = codes "selector"; value = text_value m.selector }
      ∷ record { key = codes "value"; value = text_value m.value }
      ∷ record { key = codes "wait_after"; value = int_value m.wait_after }
      ∷ record { key = codes "timeout"; value = int_value m.timeout }
      ∷ [];
  decode_fields = λ r m. record m {
    selector = or_else (r.string (codes "selector")) m.selector;
    value = or_else (r.string (codes "value")) m.value;
    wait_after = or_else (r.int (codes "wait_after")) m.wait_after;
    timeout = or_else (r.int (codes "timeout")) m.timeout;
  };
}

pub record SwipeElementArgs : Type 0 where
  pub selector : Text
  pub direction : Text
  pub distance : ℤ

abbrev pub swipe_element_args_model : Definition
swipe_element_args_model = record {
  name = codes "swipe_element_args";
  fields =
      record {
        name = codes "selector";
        kind = text_kind;
        not_null = true;
        permitted = some permitted_selector;
      }
      ∷ record { name = codes "direction"; kind = text_kind; not_null = true; permitted = none }
      ∷ record { name = codes "distance"; kind = int_kind; not_null = false; permitted = none }
      ∷ [];
}

abbrev pub swipe_element_args : Model SwipeElementArgs
swipe_element_args = record {
  model_name = codes "swipe_element_args";
  schema = swipe_element_args_model.fields;
  pointers = λ m. text_value m.selector ∷ text_value m.direction ∷ int_value m.distance ∷ [];
  encode_fields = λ m.
      record { key = codes "selector"; value = text_value m.selector }
      ∷ record { key = codes "direction"; value = text_value m.direction }
      ∷ record { key = codes "distance"; value = int_value m.distance }
      ∷ [];
  decode_fields = λ r m. record m {
    selector = or_else (r.string (codes "selector")) m.selector;
    direction = or_else (r.string (codes "direction")) m.direction;
    distance = or_else (r.int (codes "distance")) m.distance;
  };
}

pub record NavigateArgs : Type 0 where
  pub url : Text

abbrev pub navigate_args_model : Definition
navigate_args_model = record {
  name = codes "navigate_args";
  fields =
      record {
        name = codes "url";
        kind = text_kind;
        not_null = true;
        permitted = some permitted_url;
      }
      ∷ [];
}

abbrev pub navigate_args : Model NavigateArgs
navigate_args = record {
  model_name = codes "navigate_args";
  schema = navigate_args_model.fields;
  pointers = λ m. text_value m.url ∷ [];
  encode_fields = λ m. record { key = codes "url"; value = text_value m.url } ∷ [];
  decode_fields = λ r m. record m { url = or_else (r.string (codes "url")) m.url };
}

pub record EvaluateJsArgs : Type 0 where
  pub script : Text
  pub await_promise : Bool

abbrev pub evaluate_js_args_model : Definition
evaluate_js_args_model = record {
  name = codes "evaluate_js_args";
  fields =
      record {
        name = codes "script";
        kind = text_kind;
        not_null = true;
        permitted = some permitted_free;
      }
      ∷ record {
        name = codes "await_promise";
        kind = bool_kind;
        not_null = false;
        permitted = none;
      }
      ∷ [];
}

abbrev pub evaluate_js_args : Model EvaluateJsArgs
evaluate_js_args = record {
  model_name = codes "evaluate_js_args";
  schema = evaluate_js_args_model.fields;
  pointers = λ m. text_value m.script ∷ bool_value m.await_promise ∷ [];
  encode_fields = λ m.
      record { key = codes "script"; value = text_value m.script }
      ∷ record { key = codes "await_promise"; value = bool_value m.await_promise }
      ∷ [];
  decode_fields = λ r m. record m {
    script = or_else (r.string (codes "script")) m.script;
    await_promise = or_else (r.bool (codes "await_promise")) m.await_promise;
  };
}
