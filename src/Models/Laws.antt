-- ===== src/Models/Laws.antt =====
-- The generated methods (models_orm.go) against the definitions (models.go).
use devbrowser.Prelude.{◌≡◌, refl, some, map, arith, All}
use devbrowser.Text.{Text}
use devbrowser.Models.{
  Kind, text_kind, int_kind, bool_kind, Field, Value, text_value, int_value, bool_value, Written,
  FieldReader,
}
use devbrowser.Models.All.{ModelName, Args, model, definition, of_click_element}

-- The reader finds that value under the name, when it is asked for a value of that kind.
abbrev pub Finds : FieldReader → Text → Value → Type 0
Finds r key (text_value v) = r.string key ≡ some v
Finds r key (int_value v) = r.int key ≡ some v
Finds r key (bool_value v) = r.bool key ≡ some v

abbrev pub Reads : FieldReader → Written → Type 0
Reads r e = Finds r e.key e.value

-- Two readers that answer alike when they are asked for a value of that kind.
abbrev pub AgreesAt : FieldReader → FieldReader → Text → Kind → Type 0
AgreesAt r r' key text_kind = r.string key ≡ r'.string key
AgreesAt r r' key int_kind = r.int key ≡ r'.int key
AgreesAt r r' key bool_kind = r.bool key ≡ r'.bool key

abbrev pub AgreesOn : FieldReader → FieldReader → Field → Type 0
AgreesOn r r' f = AgreesAt r r' f.name f.kind

abbrev pub kind_of : Value → Kind
kind_of (text_value v) = text_kind
kind_of (int_value v) = int_kind
kind_of (bool_value v) = bool_kind

abbrev pub written_as : Written → Text × Kind
written_as e = (e.key, kind_of e.value)

abbrev pub declared_as : Field → Text × Kind
declared_as f = (f.name, f.kind)

-- Decoding, into arguments of any value, what a reader finds as encoding wrote it gives the
-- arguments that were encoded.
pub decode_fields-encode_fields :
    (n : ModelName) (m old : Args n) (r : FieldReader)
    → All (Reads r) ((model n).encode_fields m)
    → (model n).decode_fields r old ≡ m
decode_fields-encode_fields of_click_element m old r h = ground arith
decode_fields-encode_fields _ m old r h = ground arith

-- The generated name is that of the definition, encoding writes the fields of the definition in
-- their order, each under its name and as a value of its kind, and the pointers lead in the same
-- order to the values that are written.
pub encode_fields-declared :
    (n : ModelName) (m : Args n)
    → ((model n).model_name ≡ (definition n).name)
      × (map written_as ((model n).encode_fields m) ≡ map declared_as (definition n).fields)
      × (map (λ e. e.value) ((model n).encode_fields m) ≡ (model n).pointers m)
encode_fields-declared of_click_element m = (refl, refl, refl)
encode_fields-declared _ m = (refl, refl, refl)

-- Decoding depends on nothing but the fields of the definition: two readers that answer alike for
-- them, each asked for its kind, give the same arguments.
pub decode_fields_agree :
    (n : ModelName) (m : Args n) (r r' : FieldReader)
    → All (AgreesOn r r') (definition n).fields
    → (model n).decode_fields r m ≡ (model n).decode_fields r' m
decode_fields_agree of_click_element m r r' h = ground arith
decode_fields_agree _ m r r' h = ground arith
