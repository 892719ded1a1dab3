-- ===== src/Session/Resize.antt =====
-- The handler of a changed position and size (`BrowserPositionAndSizeChanged` of position.go).
use devbrowser.Prelude.{
  ap, ◌⊎◌, inl, inr, Option, none, some, if◌then◌else◌, if_either, ℤ, Outcome, done, ◌>>=◌, Returns,
  Returns-bind,
}
use devbrowser.Text.{Text}
use devbrowser.Browser.{DevBrowser}
use devbrowser.Config.{Store}
use devbrowser.Position.{set_browser_position_and_size}
use devbrowser.Position.Apply.{IsRefused, IsApplied, set_browser_position_and_size_atomic}
use devbrowser.Session.{Chrome, Session, update}
use devbrowser.Session.Reload.Laws.{IsSafe, update-IsSafe}
use devbrowser.Session.Open.Safety.{IsSafeEnd}
use devbrowser.Session.Restart.{restart_browser}
use devbrowser.Session.Restart.Safety.{restart_browser-IsSafe}

module _ (chrome : Chrome) (store : Store) (atoi_failure : Text → ℤ × Text) where
  open store use {State}

  with_store : State → Outcome (Option Text × Session) → Outcome (Option Text × Session × State)
  with_store kv r = do (e, s) ← r; done (e, s, kv)

  -- A text that was refused, or could not be saved, restarts nothing.
  changed : Session → Option Text × DevBrowser × State → Outcome (Option Text × Session × State)
  unfolding with_store restart_browser
  changed s (some e, b, kv) = done (some e, update (λ old. b) s, kv)
  changed s (none, b, kv) = with_store kv (restart_browser chrome (update (λ old. b) s))

  unfoldable pub browser_position_and_size_changed :
      Text → Session → State → Outcome (Option Text × Session × State)
  unfolding changed set_browser_position_and_size
  browser_position_and_size_changed new_value s kv =
      let after =
        changed s (set_browser_position_and_size store atoi_failure new_value s.browser kv) in
      if s.browser.is_open_flag then after else done (none, s, kv)

  SafeAfter : Option Text × Session × State → Type 0
  SafeAfter (e, s, kv) = IsSafe s

  assigned-IsSafe :
      (s : Session) (kv : State) (r : Option Text × DevBrowser × State)
      → IsRefused store atoi_failure s.browser kv r ⊎ IsApplied store atoi_failure s.browser kv r
      → IsSafe s
      → IsSafe (update (λ old. r.1) s)
  assigned-IsSafe s kv r (inl refused) h =
      update-IsSafe (λ old. r.1) s (ap (λ b. b.ctx) refused.browser)
        (ap (λ b. b.ready) refused.browser) (ap (λ b. b.ui) refused.browser)
        (ap (λ b. b.log) refused.browser) h
  assigned-IsSafe s kv r (inr applied) h =
      update-IsSafe (λ old. r.1) s (ap (λ b. b.ctx) applied.browser)
        (ap (λ b. b.ready) applied.browser) (ap (λ b. b.ui) applied.browser)
        (ap (λ b. b.log) applied.browser) h

  changed-IsSafe :
      (s : Session) (r : Option Text × DevBrowser × State)
      → IsSafe (update (λ old. r.1) s)
      → Returns (changed s r) SafeAfter
  unfolding changed with_store SafeAfter
  changed-IsSafe s (some e, b, kv) h = h
  changed-IsSafe s (none, b, kv) h =
      Returns-bind (restart_browser chrome (update (λ old. b) s)) _ (IsSafeEnd chrome) SafeAfter
        (restart_browser-IsSafe chrome (update (λ old. b) s) h) (λ r safe. safe)

  -- In a state from which no reload can come before the start of its context, the handler ends
  -- without a panic in such a state again, whatever the text is and whatever the store and Chrome
  -- answer.
  pub browser_position_and_size_changed-IsSafe :
      (new_value : Text) (s : Session) (kv : State)
      → IsSafe s
      → Returns (browser_position_and_size_changed new_value s kv) (λ r. IsSafe r.1)
  unfolding browser_position_and_size_changed SafeAfter
  browser_position_and_size_changed-IsSafe new_value s kv h =
      if_either (λ m. Returns m SafeAfter) s.browser.is_open_flag _ _
        (changed-IsSafe s (set_browser_position_and_size store atoi_failure new_value s.browser kv)
          (assigned-IsSafe s kv _
            (set_browser_position_and_size_atomic store atoi_failure s.browser kv new_value) h))
        h
