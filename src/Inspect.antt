-- ===== src/Inspect.antt =====
-- The selected elements of the page: their capture, their report and the tool that returns them
-- (selection_capture.go, mcp-selected.go, source_locator.go). What the page and other packages
-- answer is the record `PageApi`.
pub mod Report
pub mod Capture
pub mod Tool
pub mod Events
pub mod Kept
pub mod Steps
pub mod Numbers
pub mod Panel
pub mod Errors
use devbrowser.Prelude.{ℕ, Bool, Option, List, ℤ, Result}
use devbrowser.Text.{Text}
use devbrowser.Session.{Session}

-- The fields of `ElementSourceQuery`.
pub record ElementSourceQuery : Type 0 where
  pub tag : Text
  pub id : Text
  pub classes : List Text
  pub data_key : Text
  pub attributes : List (Text × Text)
  pub breadcrumbs : List Text

pub record SourceLocation : Type 0 where
  pub file : Text
  pub line : ℤ
  pub kind : Text
  pub token : Text
  pub match_text : Text
  pub origin : Text

-- The fields of `selectedElementData` that the program reads, with `none` for a null. A number of
-- type `float64` is of the type `Float`. `display` is the text under that key of the layout.
pub record SelectedElementData (Float : Type 0) : Type 0 where
  pub has_selection : Bool
  pub tag_name : Text
  pub id : Option Text
  pub class_name : Option Text
  pub data_key : Option Text
  pub data_component : Option Text
  pub text : Text
  pub attributes : List (Text × Text)
  pub breadcrumbs : Text
  pub outer_html : Text
  pub width : Float
  pub height : Float
  pub left : Float
  pub top : Float
  pub display : Option Text
  pub clip_width : Float
  pub clip_height : Float

-- A target of the browser, such as a page or a DevTools window.
pub record Target : Type 0 where
  pub url : Text
  pub id : Text

-- The calls of `chromedp` on a browser context, each of which acts on the world, and what else other
-- packages do: the decoders of JSON, the locator of source code, translation, and the formats
-- `%q`, `%.1f` and `15:04:05`.
pub record PageApi : Type 1 where
  pub World : Type 0
  pub Float : Type 0
  pub is_positive : Float → Bool
  pub print_1f : Float → Text
  pub quote : Text → Text
  pub clock : ℤ → Text
  pub translate : List Text → Text
  pub decode_data : Text → Option (SelectedElementData Float)
  pub decode_panel : Text → Option ℤ
  pub locator : Option (ElementSourceQuery → List SourceLocation)
  pub now : World → ℤ
  -- `captureSelectionJS`, which takes the next queued element
  pub next_selected : ℕ → World → Result Text × World
  -- the backend id of the element that was taken, or 0
  pub target_node : ℕ → World → ℤ × World
  pub location : ℕ → World → Text × World
  -- the object of a backend node, its id empty if there is none
  pub resolve_node : ℕ → ℤ → World → Result Text × World
  -- `enqueueSelectionJS` on that object
  pub enqueue_object : ℕ → Text → World → Option Text × World
  pub apply_highlight : ℕ → World → World
  pub remove_highlight : ℕ → World → World
  -- the picture of the clip of that element
  pub clip_screenshot : ℕ → SelectedElementData Float → World → Result (List ℕ) × World
  pub show_badge : ℕ → ℕ → World → World
  pub clear_badges : ℕ → World → World
  pub targets : ℕ → World → List Target × World
  -- `devToolsPanelNodeJS` in that target, empty on an error
  pub panel_node : ℕ → Text → World → Text × World

-- The session, and the world around it.
abbrev pub Site : PageApi → Type 0
Site api = Session × api.World
