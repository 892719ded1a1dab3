-- ===== src/Session/Reload.antt =====
-- Reloading, and the reload that waits for the browser to be open (devbrowser.go).
pub mod Laws
pub mod Gate
use devbrowser.Prelude.{
  ℕ, Bool, true, false, ◌&&◌, Option, none, some, List, [], ◌∷◌, ◌++◌, if◌then◌else◌,
}
use devbrowser.Text.{Text, codes}
use devbrowser.Browser.{DevBrowser}
use devbrowser.Session.{Chrome, Session, reload, ask, update, logged}

module _ (chrome : Chrome) where
  pub postpone : Session → Session
  unfolding logged
  postpone s =
      logged
        (chrome.translate (
            codes "Reload"
            ∷ codes "pending:"
            ∷ codes "the"
            ∷ codes "browser"
            ∷ codes "is"
            ∷ codes "still"
            ∷ codes "opening"
            ∷ [])
          ∷ [])
        (update (λ b. if b.is_open_flag then record b { pending_reload = true } else b) s)

  abbrev reload_error : Option Text × Session → Option Text × Session
  reload_error (none, s) = (none, s)
  reload_error (some e, s) = (some (codes "Reload " ++ e), s)

  pub reload_now : ℕ → Session → Option Text × Session
  unfolding ask logged
  reload_now c s = reload_error (ask chrome (reload c) (logged (codes "Reload" ∷ []) s))

  unfoldable pub reload_page : Session → Option Text × Session
  unfolding postpone reload_now
  reload_page s = elim s.browser.ctx [
    | none ↦ (none, postpone s)
    | some c ↦
        if s.browser.ready && s.browser.is_open_flag then reload_now c s else (none, postpone s)
  ]

  abbrev reported : Option Text × Session → Session
  reported (none, s) = s
  reported (some e, s) =
      logged (chrome.translate (codes "Pending" ∷ codes "reload" ∷ codes "failed:" ∷ e ∷ []) ∷ []) s

  unfoldable pub process_pending_reload : Session → Session
  unfolding reload_page logged
  process_pending_reload s =
      let s' = update (λ b. record b { pending_reload = false }) s in
      if s.browser.pending_reload
      then reported (
          reload_page (
            logged
              (chrome.translate
                  (codes "Applying" ∷ codes "the" ∷ codes "pending" ∷ codes "reload" ∷ [])
                ∷ [])
              s'))
      else s'
