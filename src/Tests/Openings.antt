-- ===== src/Tests/Openings.antt =====
-- The theorems on an opening that is under way at concrete inputs.
use devbrowser.Prelude.{◌≡◌, refl, true, Returns, done}
use devbrowser.Session.{Session, navigate, ask, update}
use devbrowser.Session.Trace.{safe}
use devbrowser.Session.Close.{close_browser}
use devbrowser.Session.Context.{create_browser_context}
use devbrowser.Session.Reload.{reload_page}
use devbrowser.Session.Open.{open_url}
use devbrowser.Session.Opening.{detecting, at_first, then_turn, reloading}
use devbrowser.Session.Opening.Safety.{IsWaiting, GoesOn, Turns-GoesOn}
use devbrowser.Session.Opening.Races.{
  IsStranded, close_browser-IsStranded, asked, open_url-create_browser_context,
}
use devbrowser.Tests.Sessions.{calm, fresh, running, url}

-- A session whose monitor is known.
abbrev sized : Session
sized = update (λ b. record b { size_configured = true; is_open_flag = true }) fresh

sized-IsWaiting : IsWaiting sized
unfolding safe
sized-IsWaiting = record { attended = record { trace = refl; ui = refl; log = refl }; ready = refl }

-- A reload that is asked for before the context is created.
abbrev reloaded : Session
reloaded = (reload_page calm sized).1

Turns-GoesOn_example : GoesOn calm (detecting url) reloaded
Turns-GoesOn_example = Turns-GoesOn calm url sized (detecting url) reloaded sized-IsWaiting (
    then_turn (detecting url) sized (detecting url) reloaded at_first
      (reloading (detecting url) sized))

close_browser-IsStranded_example : Returns (close_browser calm running) (IsStranded calm url)
close_browser-IsStranded_example = close_browser-IsStranded calm url running 0 refl

abbrev created : Session
created = create_browser_context calm sized

open_url-create_browser_context_example :
    open_url calm url created ≡ done (ask calm (navigate 0 url) (asked calm url created))
open_url-create_browser_context_example = open_url-create_browser_context calm url sized refl refl
