-- ===== src/Models.antt =====
-- The arguments of the tools: their definitions (models.go) and what is generated for them
-- (models_orm.go). The package `model` writes and reads the values; a field writer is the list of
-- what was written, a field reader is an argument.
pub mod Actions
pub mod Controls
pub mod Reads
pub mod Records
pub mod All
pub mod Laws
use devbrowser.Prelude.{ℕ, ◌≡◌, Bool, true, false, Option, none, some, List, [], ◌∷◌, ℤ}
use devbrowser.Text.{Text, codes}

-- `model.Text()`, `model.Int()` and `model.Bool()`
pub data Kind : Type 0 where
  text_kind int_kind bool_kind : Kind

-- The characters that a text may hold.
pub record Permitted : Type 0 where
  pub letters : Bool
  pub numbers : Bool
  pub spaces : Bool
  pub tilde : Bool
  pub break_line : Bool
  pub tab : Bool
  pub extra : Text

pub record Field : Type 0 where
  pub name : Text
  pub kind : Kind
  pub not_null : Bool
  pub permitted : Option Permitted

pub record Definition : Type 0 where
  pub name : Text
  pub fields : List Field

abbrev pub permitted_selector : Permitted
permitted_selector = record {
  letters = true;
  numbers = true;
  spaces = true;
  tilde = false;
  break_line = false;
  tab = false;
  extra = codes "#.-_[]()>~+*:,='\"^$|";
}

abbrev pub permitted_url : Permitted
permitted_url = record {
  letters = true;
  numbers = true;
  spaces = false;
  tilde = false;
  break_line = false;
  tab = false;
  extra = codes ":/?#[]@!$&'()*+,;=-._~%";
}

abbrev pub permitted_free : Permitted
permitted_free = record {
  letters = true;
  numbers = true;
  spaces = true;
  tilde = true;
  break_line = true;
  tab = true;
  extra = codes "!\"#$%&'()*+,-./:;<=>?@[\\]^_`{|}~";
}

abbrev pub permitted_path : Permitted
permitted_path = record {
  letters = true;
  numbers = true;
  spaces = true;
  tilde = false;
  break_line = false;
  tab = false;
  extra = codes "/._-\\";
}

-- A value that a pointer of a model leads to.
pub data Value : Type 0 where
  text_value : Text → Value
  int_value : ℤ → Value
  bool_value : Bool → Value

-- What `w.String`, `w.Int` and `w.Bool` wrote under a name.
pub record Written : Type 0 where
  pub key : Text
  pub value : Value

-- What `r.String`, `r.Int` and `r.Bool` find under a name.
pub record FieldReader : Type 0 where
  pub string : Text → Option Text
  pub int : Text → Option ℤ
  pub bool : Text → Option Bool

-- A value that is not found leaves the field as it was.
abbrev pub or_else {ℓ} : {A : Type ℓ} → Option A → A → A
or_else none old = old
or_else (some v) old = v

-- The methods that are generated for a type of arguments: `ModelName`, `Schema`, `Pointers`,
-- `EncodeFields` and `DecodeFields`.
pub record Model (A : Type 0) : Type 0 where
  pub model_name : Text
  pub schema : List Field
  pub pointers : A → List Value
  pub encode_fields : A → List Written
  pub decode_fields : FieldReader → A → A
