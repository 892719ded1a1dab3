-- ===== src/Session/Reload/Gate.antt =====
-- When a reload is passed to Chrome, and when it waits.
use devbrowser.Prelude.{
  ℕ, ◌≡◌, Bool, true, false, ◌&&◌, ◌||◌, none, some, List, [], ◌∷◌, ◌++◌, if◌then◌else◌, arith,
  append-nil,
}
use devbrowser.Browser.{DevBrowser}
use devbrowser.Session.{Chrome, Session, Call, reload, update}
use devbrowser.Session.Reload.{reload_page, process_pending_reload}

-- The calls that a reload may make: the one reload, of a browser that is open and ready.
abbrev pub reload_calls : DevBrowser → List Call
reload_calls b = elim b.ctx [
  | none ↦ []
  | some c ↦ if b.ready && b.is_open_flag then reload c ∷ [] else []
]

abbrev pub can_reload : DevBrowser → Bool
can_reload b = elim b.ctx [ none ↦ false | some c ↦ b.ready && b.is_open_flag ]

-- How a reload leaves the session.
pub record IsGated (before after : Session) : Type 0 where
  pub calls : after.calls ≡ before.calls ++ reload_calls before.browser
  pub pending : after.browser.pending_reload ≡ (
      if can_reload before.browser
      then before.browser.pending_reload
      else before.browser.is_open_flag || before.browser.pending_reload)
  pub ready : after.browser.ready ≡ before.browser.ready
  pub is_open : after.browser.is_open_flag ≡ before.browser.is_open_flag
  pub ctx : after.browser.ctx ≡ before.browser.ctx

module _ (chrome : Chrome) where
  -- A reload reaches Chrome exactly if the browser is open and ready and has a context. Else
  -- nothing is called, and an open browser remembers the request. Readiness, the open flag and the
  -- context stay as they are.
  pub reload_page-IsGated : (s : Session) → IsGated s (reload_page chrome s).1
  unfolding reload_page
  reload_page-IsGated s = record {
    calls = ground (arith, append-nil s.calls);
    pending = ground arith;
    ready = ground arith;
    is_open = ground arith;
    ctx = ground arith;
  }

  abbrev pub become_ready : Session → Session
  become_ready s = update (λ b. record b { ready = true }) s

  -- A reload that is asked for while an open browser has its context and is not ready makes no
  -- call then. Once the browser is ready it is made, once, and no request stays behind.
  pub pending_reload_applied :
      (s : Session) (c : ℕ)
      → s.browser.ctx ≡ some c
      → s.browser.is_open_flag ≡ true
      → s.browser.ready ≡ false
      → ((reload_page chrome s).1.calls ≡ s.calls)
        × ((process_pending_reload chrome (become_ready (reload_page chrome s).1)).calls
            ≡ s.calls ++ reload c ∷ [])
        × ((process_pending_reload chrome
              (become_ready (reload_page chrome s).1)).browser.pending_reload
            ≡ false)
  unfolding process_pending_reload
  pending_reload_applied s c e open_ unready = (ground (arith), ground arith, ground arith)
