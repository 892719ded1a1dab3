-- ===== src/Models/Reads.antt =====
-- The arguments of the tools that read the page (models.go, models_orm.go).
use devbrowser.Prelude.{true, false, none, some, [], ◌∷◌, ℤ}
use devbrowser.Text.{Text, codes}
use devbrowser.Models.{
  text_kind, int_kind, Definition, permitted_selector, permitted_url, text_value, int_value,
  or_else, Model,
}

pub record GetContentArgs : Type 0 where

abbrev pub get_content_args_model : Definition
get_content_args_model = record { name = codes "get_content_args"; fields = [] }

abbrev pub get_content_args : Model GetContentArgs
get_content_args = record {
  model_name = codes "get_content_args";
  schema = get_content_args_model.fields;
  pointers = λ m. [];
  encode_fields = λ m. [];
  decode_fields = λ r m. m;
}

pub record GetSourceArgs : Type 0 where
  pub selector : Text

abbrev pub get_source_args_model : Definition
get_source_args_model = record {
  name = codes "get_source_args";
  fields =
      record {
        name = codes "selector";
        kind = text_kind;
        not_null = false;
        permitted = some permitted_selector;
      }
      ∷ [];
}

abbrev pub get_source_args : Model GetSourceArgs
get_source_args = record {
  model_name = codes "get_source_args";
  schema = get_source_args_model.fields;
  pointers = λ m. text_value m.selector ∷ [];
  encode_fields = λ m. record { key = codes "selector"; value = text_value m.selector } ∷ [];
  decode_fields = λ r m. record m { selector = or_else (r.string (codes "selector")) m.selector };
}

pub record InspectElementArgs : Type 0 where
  pub selector : Text

abbrev pub inspect_element_args_model : Definition
inspect_element_args_model = record {
  name = codes "inspect_element_args";
  fields =
      record {
        name = codes "selector";
        kind = text_kind;
        not_null = true;
        permitted = some permitted_selector;
      }
      ∷ [];
}

abbrev pub inspect_element_args : Model InspectElementArgs
inspect_element_args = record {
  model_name = codes "inspect_element_args";
  schema = inspect_element_args_model.fields;
  pointers = λ m. text_value m.selector ∷ [];
  encode_fields = λ m. record { key = codes "selector"; value = text_value m.selector } ∷ [];
  decode_fields = λ r m. record m { selector = or_else (r.string (codes "selector")) m.selector };
}

pub record GetStylesArgs : Type 0 where
  pub selector : Text
  pub sheet : ℤ

abbrev pub get_styles_args_model : Definition
get_styles_args_model = record {
  name = codes "get_styles_args";
  fields =
      record {
        name = codes "selector";
        kind = text_kind;
        not_null = false;
        permitted = some permitted_selector;
      }
      ∷ record { name = codes "sheet"; kind = int_kind; not_null = false; permitted = none }
      ∷ [];
}

abbrev pub get_styles_args : Model GetStylesArgs
get_styles_args = record {
  model_name = codes "get_styles_args";
  schema = get_styles_args_model.fields;
  pointers = λ m. text_value m.selector ∷ int_value m.sheet ∷ [];
  encode_fields = λ m.
      record { key = codes "selector"; value = text_value m.selector }
      ∷ record { key = codes "sheet"; value = int_value m.sheet }
      ∷ [];
  decode_fields = λ r m. record m {
    selector = or_else (r.string (codes "selector")) m.selector;
    sheet = or_else (r.int (codes "sheet")) m.sheet;
  };
}

pub record GetStorageArgs : Type 0 where
  pub type : Text

abbrev pub get_storage_args_model : Definition
get_storage_args_model = record {
  name = codes "get_storage_args";
  fields =
      record { name = codes "type"; kind = text_kind; not_null = false; permitted = none } ∷ [];
}

abbrev pub get_storage_args : Model GetStorageArgs
get_storage_args = record {
  model_name = codes "get_storage_args";
  schema = get_storage_args_model.fields;
  pointers = λ m. text_value m.type ∷ [];
  encode_fields = λ m. record { key = codes "type"; value = text_value m.type } ∷ [];
  decode_fields = λ r m. record m { type = or_else (r.string (codes "type")) m.type };
}

pub record GetAssetArgs : Type 0 where
  pub url : Text

abbrev pub get_asset_args_model : Definition
get_asset_args_model = record {
  name = codes "get_asset_args";
  fields =
      record {
        name = codes "url";
        kind = text_kind;
        not_null = true;
        permitted = some permitted_url;
      }
      ∷ [];
}

abbrev pub get_asset_args : Model GetAssetArgs
get_asset_args = record {
  model_name = codes "get_asset_args";
  schema = get_asset_args_model.fields;
  pointers = λ m. text_value m.url ∷ [];
  encode_fields = λ m. record { key = codes "url"; value = text_value m.url } ∷ [];
  decode_fields = λ r m. record m { url = or_else (r.string (codes "url")) m.url };
}

pub record GetPerformanceArgs : Type 0 where

abbrev pub get_performance_args_model : Definition
get_performance_args_model = record { name = codes "get_performance_args"; fields = [] }

abbrev pub get_performance_args : Model GetPerformanceArgs
get_performance_args = record {
  model_name = codes "get_performance_args";
  schema = get_performance_args_model.fields;
  pointers = λ m. [];
  encode_fields = λ m. [];
  decode_fields = λ r m. m;
}

pub record AuditMobileArgs : Type 0 where
  pub selector : Text

abbrev pub audit_mobile_args_model : Definition
audit_mobile_args_model = record {
  name = codes "audit_mobile_args";
  fields =
      record {
        name = codes "selector";
        kind = text_kind;
        not_null = false;
        permitted = some permitted_selector;
      }
      ∷ [];
}

abbrev pub audit_mobile_args : Model AuditMobileArgs
audit_mobile_args = record {
  model_name = codes "audit_mobile_args";
  schema = audit_mobile_args_model.fields;
  pointers = λ m. text_value m.selector ∷ [];
  encode_fields = λ m. record { key = codes "selector"; value = text_value m.selector } ∷ [];
  decode_fields = λ r m. record m { selector = or_else (r.string (codes "selector")) m.selector };
}
