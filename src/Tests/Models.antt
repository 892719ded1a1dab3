-- ===== src/Tests/Models.antt =====
-- The laws of the arguments of tools at the arguments of a click.
use devbrowser.Prelude.{◌≡◌, refl, none, some, [], map, pos, if◌then◌else◌}
use devbrowser.Text.{codes, text_eq}
use devbrowser.Models.{FieldReader}
use devbrowser.Models.Actions.{ClickElementArgs}
use devbrowser.Models.All.{model, definition, of_click_element}
use devbrowser.Models.Laws.{
  written_as, declared_as, decode_fields-encode_fields, encode_fields-declared,
}

abbrev pub submit : ClickElementArgs
submit = record { selector = codes "#submit"; wait_after = pos 0; timeout = pos 250 }

abbrev blank : ClickElementArgs
blank = record { selector = []; wait_after = pos 7; timeout = pos 0 }

-- A reader of the fields that were written for that click.
abbrev reader : FieldReader
unfolding text_eq
reader = record {
  string = λ key. if text_eq key (codes "selector") then some (codes "#submit") else none;
  int = λ key.
      if text_eq key (codes "wait_after")
      then some (pos 0)
      else if text_eq key (codes "timeout")
      then some (pos 250)
      else none;
  bool = λ key. none;
}

decode_fields-encode_fields_example : (model of_click_element).decode_fields reader blank ≡ submit
unfolding text_eq
decode_fields-encode_fields_example =
    decode_fields-encode_fields of_click_element submit blank reader (refl, (refl, (refl, tt)))

encode_fields-declared_example :
    ((model of_click_element).model_name ≡ (definition of_click_element).name)
    × (map written_as ((model of_click_element).encode_fields submit)
        ≡ map declared_as (definition of_click_element).fields)
    × (map (λ e. e.value) ((model of_click_element).encode_fields submit)
        ≡ (model of_click_element).pointers submit)
encode_fields-declared_example = encode_fields-declared of_click_element submit
