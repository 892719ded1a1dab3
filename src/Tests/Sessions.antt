-- ===== src/Tests/Sessions.antt =====
-- The theorems on the session at concrete inputs.
use devbrowser.Prelude.{
  ◌≡◌, refl, true, false, Option, none, some, [], ◌∷◌, ◌++◌, pos, Returns, Outcome, done, panic,
}
use devbrowser.Text.{Text, codes}
use devbrowser.Browser.{initial}
use devbrowser.Session.{Chrome, Session, reload, update}
use devbrowser.Session.Trace.{safe}
use devbrowser.Session.Close.{close_browser, browser_closed_by_user}
use devbrowser.Session.Close.Laws.{IsClosed, close_browser-IsClosed}
use devbrowser.Session.Context.{create_browser_context}
use devbrowser.Session.Context.Kept.{IsNewContext, create_browser_context-IsNewContext}
use devbrowser.Session.Reload.{reload_page, process_pending_reload}
use devbrowser.Session.Reload.Gate.{
  IsGated, become_ready, reload_page-IsGated, pending_reload_applied,
}
use devbrowser.Session.Open.{install_selection_capture, open_url}
use devbrowser.Session.Restart.{Reach, at_first, then_step, opening, reloading, closing_by_user}
use devbrowser.Session.Restart.Safety.{IsFresh, IsTotal, Reach-safe, Reach-IsTotal}
use devbrowser.Session.Stale.{
  created, reload_created-browser_closed_by_user, install_created-browser_closed_by_user,
}

-- A Chrome in which every call succeeds.
abbrev pub calm : Chrome
calm = record {
  error = λ calls call. none;
  has_browser = λ calls c. true;
  is_done = λ calls c. false;
  location = λ calls c. codes "about:blank";
  inner_size = λ calls c. (pos 800, pos 600);
  translate = λ words. codes "message";
  default_switches = [];
  device_names = [];
  monitor = (pos 1920, pos 1080);
  chrome_path = codes "chrome";
  profile_locked = λ dir. false;
  mark_error = λ dir. none;
}

abbrev pub fresh : Session
fresh = record {
  browser = record (initial (some 0)) { log = some []; auto_start = true };
  calls = [];
  next_ctx = 0;
}

fresh-IsFresh : IsFresh calm fresh
fresh-IsFresh = record { calls = refl; ready = refl; ui = refl; log = refl }

abbrev ended : Outcome (Option Text × Session) → Session
ended (done (e, s)) = s
ended panic = fresh

abbrev pub url : Text
url = codes "http://localhost/"

abbrev opened : Session
opened = ended (open_url calm url fresh)

opens : open_url calm url fresh ≡ done (none, opened)
unfolding open_url
opens = refl

opened_reloaded_closed : Reach calm fresh (browser_closed_by_user (reload_page calm opened).1)
opened_reloaded_closed =
    then_step (reload_page calm opened).1 (browser_closed_by_user (reload_page calm opened).1)
      (then_step opened (reload_page calm opened).1
        (then_step fresh opened at_first (opening url fresh opened none opens)) (reloading opened))
      (closing_by_user (reload_page calm opened).1)

Reach-safe_example : safe (browser_closed_by_user (reload_page calm opened).1).calls ≡ true
Reach-safe_example =
    Reach-safe calm fresh (browser_closed_by_user (reload_page calm opened).1) fresh-IsFresh
      opened_reloaded_closed

Reach-IsTotal_example : IsTotal calm (browser_closed_by_user (reload_page calm opened).1)
Reach-IsTotal_example =
    Reach-IsTotal calm fresh (browser_closed_by_user (reload_page calm opened).1) fresh-IsFresh
      opened_reloaded_closed

-- An open browser on context 0.
abbrev pub running : Session
running = record fresh {
  browser = record fresh.browser {
    ctx = some 0;
    cancel = some 0;
    alloc_cancel = some 0;
    is_open_flag = true;
    ready = true;
    selection_capture_installed = true;
  };
  next_ctx = 1;
}

close_browser-IsClosed_example : Returns (close_browser calm running) (IsClosed calm running)
close_browser-IsClosed_example = close_browser-IsClosed calm running 0 refl

create_browser_context-IsNewContext_example :
    IsNewContext calm running (create_browser_context calm running)
create_browser_context-IsNewContext_example = create_browser_context-IsNewContext calm running

reload_page-IsGated_example : IsGated running (reload_page calm running).1
reload_page-IsGated_example = reload_page-IsGated calm running

abbrev pub still_opening : Session
still_opening = update (λ b. record b { ready = false }) running

pending_reload_applied_example :
    ((reload_page calm still_opening).1.calls ≡ [])
    × ((process_pending_reload calm (become_ready calm (reload_page calm still_opening).1)).calls
        ≡ reload 0 ∷ [])
    × ((process_pending_reload calm
          (become_ready calm (reload_page calm still_opening).1)).browser.pending_reload
        ≡ false)
pending_reload_applied_example = pending_reload_applied calm still_opening 0 refl refl refl

reload_created-browser_closed_by_user_example :
    (reload_page calm (created calm (browser_closed_by_user running))).1.calls
    ≡ (created calm (browser_closed_by_user running)).calls
      ++ reload (browser_closed_by_user running).next_ctx ∷ []
reload_created-browser_closed_by_user_example =
    reload_created-browser_closed_by_user calm running refl

install_created-browser_closed_by_user_example :
    (install_selection_capture calm (created calm (browser_closed_by_user running))).calls
    ≡ (created calm (browser_closed_by_user running)).calls
install_created-browser_closed_by_user_example =
    install_created-browser_closed_by_user calm running refl
