-- ===== src/Inspect/Steps.antt =====
-- The sequences of events of the page and calls of the tool.
use devbrowser.Prelude.{ℕ, List, [], ◌∷◌, Result}
use devbrowser.Session.{Chrome}
use devbrowser.Inspect.{PageApi, Site}
use devbrowser.Inspect.Tool.{GetSelectedElementArgs, get_selected_element}
use devbrowser.Inspect.Events.{SelectionEvent, on_selection_event}

-- An event of the listener on a context, or a call of the tool.
pub data Step : Type 0 where
  gesture : ℕ → SelectionEvent → Step
  called : Result GetSelectedElementArgs → Step

module _ (api : PageApi) (chrome : Chrome) where
  unfoldable pub step : Step → Site api → Site api
  unfolding on_selection_event get_selected_element
  step (gesture c e) site = on_selection_event api c e site
  step (called args) site = (get_selected_element api chrome args site).1

  unfoldable pub run_steps : List Step → Site api → Site api
  unfolding step
  run_steps [] site = site
  run_steps (x ∷ xs) site = run_steps xs (step x site)
