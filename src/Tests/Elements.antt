-- ===== src/Tests/Elements.antt =====
-- The theorems on the selected elements at concrete inputs.
use devbrowser.Prelude.{
  ℕ, ◌≡◌, refl, suc, ltb, true, false, none, some, List, [], ◌∷◌, pos, Result, ok,
}
use devbrowser.Text.{codes, text_eq}
use devbrowser.Selection.Numbers.{IsNumbered, empty-IsNumbered}
use devbrowser.Inspect.{PageApi, Site, SelectedElementData}
use devbrowser.Inspect.Capture.{dev_tools_panel_node_id}
use devbrowser.Inspect.Tool.{GetSelectedElementArgs, poll_panel}
use devbrowser.Inspect.Events.{
  SelectionEvent, inspect_node_requested, binding_called, on_selection_event,
}
use devbrowser.Inspect.Steps.{Step, gesture, called, run_steps}
use devbrowser.Inspect.Numbers.{run_steps-IsNumbered}
use devbrowser.Inspect.Panel.{run_gestures, poll_panel-again}
use devbrowser.Tests.Sessions.{calm, running}

abbrev button : SelectedElementData ℕ
button = record {
  has_selection = true;
  tag_name = codes "button";
  id = some (codes "save");
  class_name = none;
  data_key = none;
  data_component = none;
  text = codes "Save";
  attributes = [];
  breadcrumbs = codes "body > button";
  outer_html = codes "<button>";
  width = 80;
  height = 20;
  left = 0;
  top = 0;
  display = none;
  clip_width = 80;
  clip_height = 20;
}

-- A page whose every element is that button, and whose panel shows the node 5. The world counts the
-- elements that were taken.
abbrev page : PageApi
page = record {
  World = ℕ;
  Float = ℕ;
  is_positive = λ f. ltb 0 f;
  print_1f = λ f. codes "80.0";
  quote = λ s. s;
  clock = λ t. codes "12:00:00";
  translate = λ words. codes "message";
  decode_data = λ raw. some button;
  decode_panel = λ raw. some (pos 5);
  locator = none;
  now = λ w. pos w;
  next_selected = λ c w. (ok (codes "{}"), suc w);
  target_node = λ c w. (pos w, w);
  location = λ c w. (codes "http://localhost/", w);
  resolve_node = λ c id w. (ok (codes "object"), w);
  enqueue_object = λ c object w. (none, w);
  apply_highlight = λ c w. w;
  remove_highlight = λ c w. w;
  clip_screenshot = λ c d w. (ok (137 ∷ []), w);
  show_badge = λ c n w. w;
  clear_badges = λ c w. w;
  targets = λ c w. (record { url = codes "devtools://devtools"; id = codes "1" } ∷ [], w);
  panel_node = λ c id w. (codes "{}", w);
}

abbrev one : Result GetSelectedElementArgs
one = ok (record { count = pos 1; clear = false })

abbrev too_many : Result GetSelectedElementArgs
too_many = ok (record { count = pos 11; clear = false })

abbrev visit : List Step
visit =
    gesture 0 (binding_called (codes "__webtyp_mark"))
    ∷ called one
    ∷ gesture 0 (inspect_node_requested (pos 3))
    ∷ []

run_steps-IsNumbered_example :
    IsNumbered (run_steps page calm visit (running, 0)).0.browser.selections
run_steps-IsNumbered_example = run_steps-IsNumbered page calm visit (running, 0) empty-IsNumbered

abbrev between : List (ℕ × SelectionEvent)
between = (0, binding_called (codes "__webtyp_mark")) ∷ []

abbrev later : Site page
later = run_gestures page between (poll_panel page calm 0 (running, 0))

poll_panel-again_example :
    (poll_panel page calm 0 (later.0, later.1)).0.browser.selections ≡ later.0.browser.selections
unfolding dev_tools_panel_node_id poll_panel on_selection_event text_eq
poll_panel-again_example =
    poll_panel-again page calm 0 0 running 0 between later.0 later.1 refl refl
