-- ===== src/Inspect/Report.antt =====
-- `formatSelectedElementReport` (mcp-selected.go).
use devbrowser.Prelude.{Option, none, some, List, [], ◌∷◌, ◌++◌, if◌then◌else◌}
use devbrowser.Text.{Text, codes, is_empty, join}
use devbrowser.Text.Decimal.{itoa}
use devbrowser.Text.Sequences.{split_text, fields}
use devbrowser.Inspect.{PageApi, SelectedElementData, SourceLocation}

-- A nil pointer counts as the empty text.
abbrev pub or_empty : Option Text → Text
or_empty none = []
or_empty (some s) = s

-- A part that is left out if its text is empty.
abbrev unless_empty : Text → List Text → List Text
unless_empty [] parts = []
unless_empty (c ∷ s) parts = parts

location_text : SourceLocation → List Text
unfolding itoa
location_text l =
    (codes "- [" ∷ l.kind ∷ codes "] " ∷ l.file ∷ codes ":" ∷ itoa l.line ∷ [])
    ++ (unless_empty l.token (codes " (" ∷ l.token ∷ codes ")" ∷ [])
        ++ (codes "\n"
            ∷ (unless_empty l.match_text (codes "  `" ∷ l.match_text ∷ codes "`\n" ∷ [])
                ++ unless_empty l.origin (codes "  origin: " ∷ l.origin ∷ codes "\n" ∷ []))))

locations_text : List SourceLocation → List Text
unfolding location_text
locations_text [] = []
locations_text (l ∷ ls) = location_text l ++ locations_text ls

source_text : List SourceLocation → List Text
unfolding locations_text
source_text [] = []
source_text (l ∷ ls) = codes "\nSource Code Location:\n" ∷ locations_text (l ∷ ls)

module _ (api : PageApi) where
  open api use {Float, print_1f, quote, locator}

  -- The first line, with what identifies the element.
  tag_text : SelectedElementData Float → List Text
  tag_text d =
      (codes "Selected Element: <" ∷ d.tag_name ∷ [])
      ++ (unless_empty (or_empty d.id) (codes " id=" ∷ quote (or_empty d.id) ∷ [])
          ++ (unless_empty (or_empty d.class_name)
                (codes " class=" ∷ quote (or_empty d.class_name) ∷ [])
              ++ (unless_empty (or_empty d.data_key)
                    (codes " data-key=" ∷ quote (or_empty d.data_key) ∷ [])
                  ++ codes ">\n" ∷ [])))

  context_text : SelectedElementData Float → List Text
  context_text d =
      unless_empty d.breadcrumbs
        (codes "Hierarchy (Breadcrumbs): " ∷ d.breadcrumbs ∷ codes "\n" ∷ [])
      ++ unless_empty d.text (codes "Visible Text: " ∷ quote d.text ∷ codes "\n" ∷ [])

  identifiers_text : SelectedElementData Float → List Text
  identifiers_text d =
      (codes "\nWebTyp Identifiers:\n" ∷ codes "- Tag: " ∷ d.tag_name ∷ codes "\n" ∷ [])
      ++ (unless_empty (or_empty d.id) (codes "- ID: " ∷ or_empty d.id ∷ codes "\n" ∷ [])
          ++ (unless_empty (or_empty d.data_key)
                (codes "- Data-Key: " ∷ or_empty d.data_key ∷ codes "\n" ∷ [])
              ++ (unless_empty (or_empty d.class_name)
                    (codes "- Classes: " ∷ or_empty d.class_name ∷ codes "\n" ∷ [])
                  ++ unless_empty (or_empty d.data_component)
                      (codes "- Component: " ∷ or_empty d.data_component ∷ codes "\n" ∷ []))))

  geometry_text : SelectedElementData Float → List Text
  geometry_text d =
      (codes "\nGeometry & Layout:\n"
        ∷ codes "- Size: "
        ∷ print_1f d.width
        ∷ codes " x "
        ∷ print_1f d.height
        ∷ codes " px\n"
        ∷ [])
      ++ (unless_empty (or_empty d.display)
            (codes "- Display: " ∷ or_empty d.display ∷ codes "\n" ∷ [])
          ++ (codes "- Viewport Position: (x: "
              ∷ print_1f d.left
              ∷ codes ", y: "
              ∷ print_1f d.top
              ∷ codes ")\n"
              ∷ []))

  -- What the locator finds, if there is one.
  located : SelectedElementData Float → List SourceLocation
  unfolding split_text fields
  located d = elim locator [
    | none ↦ []
    | some locate ↦ locate (record {
      tag = d.tag_name;
      id = or_empty d.id;
      classes = if is_empty (or_empty d.class_name) then [] else fields (or_empty d.class_name);
      data_key = or_empty d.data_key;
      attributes = d.attributes;
      breadcrumbs = if is_empty d.breadcrumbs then [] else split_text d.breadcrumbs (codes " > ");
    })
  ]

  unfoldable pub format_selected_element_report : SelectedElementData Float → Text
  unfolding tag_text context_text identifiers_text geometry_text located source_text join
  format_selected_element_report d =
      join
        (tag_text d
          ++ (context_text d
              ++ (identifiers_text d
                  ++ (geometry_text d
                      ++ (unless_empty d.outer_html
                            (codes "\nOuter HTML:\n" ∷ d.outer_html ∷ codes "\n" ∷ [])
                          ++ source_text (located d))))))
        []
