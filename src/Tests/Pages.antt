-- ===== src/Tests/Pages.antt =====
-- The laws of the tools of the page at a page that answers everything.
use devbrowser.Prelude.{
  ◌≡◌, refl, true, false, ◌⊎◌, inl, arith, Option, none, some, List, [], ◌∷◌, ◌++◌, ℤ, pos, ◌+ℤ◌,
  ok, err, done, panic, Returns,
}
use devbrowser.Text.{Text, codes, contains}
use devbrowser.Capture.{browser_not_open}
use devbrowser.Session.{Session, navigate}
use devbrowser.Session.Open.{detected}
use devbrowser.Session.Opening.{detecting, creating, advance}
use devbrowser.Page.Opening.{execute_tool-opening}
use devbrowser.Models.Actions.{SwipeElementArgs, NavigateArgs}
use devbrowser.Page.{Action, Command, Tab, Visit, null}
use devbrowser.Page.Quote.Literal.{text_literal}
use devbrowser.Page.Tools.{execute_tool, click}
use devbrowser.Page.Kept.{GoesOn}
use devbrowser.Page.Safety.{execute_tool-GoesOn}
use devbrowser.Page.Scripts.{text_literal-script, text_literal-single_quoted}
use devbrowser.Page.Reading.{source_script}
use devbrowser.Page.Interaction.{click_element, click_script, single_quoted, swipe_element}
use devbrowser.Page.Clicks.{ClicksOnce, click_element-ClicksOnce}
use devbrowser.Page.Swipes.{IsPrefix, gesture, mouse_commands, held_after}
use devbrowser.Page.Swipes.Whole.{
  swipe_start, swipe_end, held_move_error, swipe_element-IsPrefix, swipe_element-held,
}
use devbrowser.Page.Navigation.{Urls, target_url, browser_navigate}
use devbrowser.Page.Navigation.Laws.{IsNavigation, browser_navigate-IsNavigation}
use devbrowser.Tests.Sessions.{calm, running, url}
use devbrowser.Tests.Models.{submit}

-- A page that answers with those errors, with an element at (3, 4) and with empty texts.
abbrev page_with : (Command ℤ → Option Text) → Tab
page_with errors = record {
  Float = ℤ;
  zero_float = pos 0;
  plus = λ x n. x +ℤ n;
  minus = λ x n. x;
  mebibytes = λ x. x;
  truncated = λ x. x;
  one_decimal = λ x. [];
  is_print = λ c. false;
  error = λ log a. errors a.command;
  text_of = λ log a. [];
  int_of = λ log a. pos 0;
  json_of = λ log a. null;
  center_of = λ log a. (some (pos 3), some (pos 4));
  metrics_of = λ log a. record { number = λ name. none; wasm_files = none };
  audit_of = λ log a. record {
    viewport_meta = record { missing = false; missing_fit = false };
    vh_units = [];
    safe_area = [];
    input_zoom = [];
    tap_target = [];
    fixed_vh = [];
  };
}

abbrev quiet : Tab
quiet = page_with (λ c. none)

abbrev stuck : Tab
stuck = page_with (held_move_error (codes "gone"))

abbrev first_visit : Visit ℤ
first_visit = record { session = running; actions = [] }

abbrev swipe_down : SwipeElementArgs
swipe_down = record { selector = codes "#list"; direction = codes "down"; distance = pos 9 }

execute_tool-GoesOn_example :
    ((true ≡ false)
      × (execute_tool quiet click (ok submit) first_visit
          ≡ done (err browser_not_open, first_visit)))
    ⊎ ((true ≡ true)
        × Returns
            (execute_tool quiet click (ok submit) first_visit)
            (λ p. GoesOn ℤ 0 first_visit p.1))
execute_tool-GoesOn_example = execute_tool-GoesOn quiet click (ok submit) first_visit 0 refl

text_literal-script_example :
    ((rest : Text) × (click_script quiet (codes "a[x=\"1\"]")
        ≡ codes "document.querySelector(" ++ rest)
      × (text_literal rest ≡ some (codes "a[x=\"1\"]", codes ").click()")))
    × ((rest : Text) × (source_script quiet (record { selector = codes "a[x=\"1\"]" })
          ≡ codes "document.querySelector(" ++ rest)
        × (text_literal rest
            ≡ some (codes "a[x=\"1\"]", codes ")?.outerHTML ?? \"Element not found\"")))
text_literal-script_example = text_literal-script quiet (codes "a[x=\"1\"]") refl (
  inl refl,
  (inl refl, (inl refl, (inl refl, (inl refl, (inl refl, (inl refl, (inl refl, tt))))))),
)

text_literal-single_quoted_example :
    (text_literal (single_quoted (codes "#a") ++ codes ")") ≡ some (codes "#a", codes ")"))
    × (text_literal (single_quoted (codes "#a" ++ b'\'' ∷ codes "+f()+") ++ codes ")")
        ≡ some (codes "#a", codes "+f()+" ++ b'\'' ∷ codes ")"))
text_literal-single_quoted_example =
    text_literal-single_quoted (codes "#a") (codes "+f()+") (codes ")") (omega arith)

click_element-ClicksOnce_example :
    ClicksOnce quiet first_visit (click_element quiet 0 submit first_visit)
click_element-ClicksOnce_example = click_element-ClicksOnce quiet 0 submit first_visit

swipe_element-IsPrefix_example :
    IsPrefix ℤ Text first_visit
      (gesture
        (swipe_start quiet 0 swipe_down first_visit)
        (swipe_end quiet 0 swipe_down first_visit))
      (swipe_element quiet 0 swipe_down first_visit)
swipe_element-IsPrefix_example = swipe_element-IsPrefix quiet 0 swipe_down first_visit

swipe_element-held_example :
    ((swipe_element stuck 0 swipe_down first_visit).0
      ≡ err (codes "Error swiping element " ++ (codes "#list" ++ (codes ": " ++ codes "gone"))))
    × (added : List (Action ℤ)) × ((swipe_element stuck 0 swipe_down first_visit).1.actions
        ≡ [] ++ added)
    × (held_after false (mouse_commands added) ≡ true)
swipe_element-held_example =
    swipe_element-held stuck 0 swipe_down first_visit (codes "gone") (λ log a. refl)

-- Addresses as texts, of which the second replaces the first.
abbrev plain_urls : Urls
plain_urls = record {
  Url = Text;
  parse = λ s. ok s;
  resolve_reference = λ base rel. base ++ rel;
  text = λ u. u;
}

abbrev absolute : NavigateArgs
absolute = record { url = codes "https://a.b" }

browser_navigate-IsNavigation_example :
    ((e : Text) × (browser_navigate plain_urls calm (ok absolute) running ≡ (err e, running)))
    ⊎ ((target : Text) × (target_url plain_urls absolute.url running.browser ≡ ok target)
        × ((contains absolute.url (codes "://") ≡ false) ⊎ (target ≡ absolute.url))
        × IsNavigation 0 target
            (calm.error running.calls (navigate 0 target))
            running
            (browser_navigate plain_urls calm (ok absolute) running))
browser_navigate-IsNavigation_example =
    browser_navigate-IsNavigation plain_urls calm 0 absolute running refl refl

-- An opening that has set the flag, of a browser with a size of its own.
abbrev awaited : Session
awaited = record running { browser = record running.browser { ctx = none; size_configured = true } }

detects : advance calm (detecting url) awaited ≡ done (creating url, awaited)
unfolding advance detected
detects = refl

execute_tool-opening_example :
    (execute_tool quiet click (ok submit) (record { session = awaited; actions = [] }) ≡ panic)
    × (execute_tool quiet click (ok submit) (record { session = awaited; actions = [] }) ≡ panic)
execute_tool-opening_example =
    execute_tool-opening calm url awaited awaited (creating url) quiet click submit [] refl refl
      detects
