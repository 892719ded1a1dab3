-- ===== src/Session/Emulation/Laws.antt =====
-- Emulation reloads nothing, and keeps the context.
use devbrowser.Prelude.{
  ℕ, ◌≡◌, refl, if_either, ◌||◌, Option, none, some, List, ◌⊎◌, inl, inr, ℤ, pos, leb_ℤ,
  if◌then◌else◌,
}
use devbrowser.Text.{Text, is_empty, text_eq, codes}
use devbrowser.Browser.{DevBrowser}
use devbrowser.Session.{
  Chrome, Session, Call, tell, override_metrics, clear_overrides, read_inner_size, emulate_device,
  ask,
}
use devbrowser.Session.Trace.{Quiet, Quiet-refl, Quiet-trans, ask-Quiet, if-Quiet}
use devbrowser.Session.Emulation.{
  then_call, apply_size, apply_mode, apply_device, apply_device_emulation, is_plain, resolve_device,
  target_width, user_agent, unsupported_mode,
}

module _ (chrome : Chrome) where
  then_call-Quiet :
      (s : Session) (r : Option Text × Session) (rest : Session → Option Text × Session)
      → Quiet s r.1
      → ((s' : Session) → Quiet s' (rest s').1)
      → Quiet s (then_call chrome r rest).1
  then_call-Quiet s (none, t) rest p q = Quiet-trans s t (rest t).1 p (q t)
  then_call-Quiet s (some e, t) rest p q = p

  apply_size-Quiet :
      (c : ℕ) (mode : Text) (size : ℤ × ℤ) (s : Session)
      → Quiet s (apply_size chrome c mode size s).1
  unfolding apply_size
  apply_size-Quiet c mode (w, h) s =
      if-Quiet (leb_ℤ w (pos 0) || leb_ℤ h (pos 0)) s (none, s)
        (ask chrome (override_metrics c (target_width mode w) (user_agent mode)) s) (Quiet-refl s)
        (ask-Quiet chrome (override_metrics c (target_width mode w) (user_agent mode)) s tt)

  apply_mode-Quiet : (c : ℕ) (mode : Text) (s : Session) → Quiet s (apply_mode chrome c mode s).1
  unfolding apply_mode
  apply_mode-Quiet c mode s =
      if-Quiet (is_plain mode) s (none, s)
        (if text_eq mode (codes "mobile") || text_eq mode (codes "tablet")
          then then_call chrome (ask chrome (read_inner_size c) s)
              (λ s'. apply_size chrome c mode (chrome.inner_size s.calls c) s')
          else (some (unsupported_mode mode), s))
        (Quiet-refl s)
        (if-Quiet (text_eq mode (codes "mobile") || text_eq mode (codes "tablet")) s
          (then_call chrome (ask chrome (read_inner_size c) s)
            (λ s'. apply_size chrome c mode (chrome.inner_size s.calls c) s'))
          (some (unsupported_mode mode), s)
          (then_call-Quiet s (ask chrome (read_inner_size c) s)
            (λ s'. apply_size chrome c mode (chrome.inner_size s.calls c) s')
            (ask-Quiet chrome (read_inner_size c) s tt)
            (λ s'. apply_size-Quiet c mode (chrome.inner_size s.calls c) s'))
          (Quiet-refl s))

  apply_device-Quiet :
      (c : ℕ) (name : Text) (found : Text ⊎ List Text) (s : Session)
      → Quiet s (apply_device chrome c name found s).1
  unfolding apply_device
  apply_device-Quiet c name (inl device) s = ask-Quiet chrome (emulate_device c device) s tt
  apply_device-Quiet c name (inr available) s = Quiet-refl s

  pub apply_device_emulation-Quiet :
      (c : ℕ) (s : Session) → Quiet s (apply_device_emulation chrome c s).1
  unfolding apply_device_emulation
  apply_device_emulation-Quiet c s =
      then_call-Quiet s (ask chrome (clear_overrides c) s)
        (λ s'.
          if is_empty s.browser.viewport_device
          then apply_mode chrome c s.browser.viewport_mode s'
          else apply_device chrome c s.browser.viewport_device
              (resolve_device chrome.device_names s.browser.viewport_device) s')
        (ask-Quiet chrome (clear_overrides c) s tt)
        λ s'.
          if-Quiet (is_empty s.browser.viewport_device) s'
            (apply_mode chrome c s.browser.viewport_mode s')
            (apply_device chrome c s.browser.viewport_device
              (resolve_device chrome.device_names s.browser.viewport_device) s')
            (apply_mode-Quiet c s.browser.viewport_mode s')
            (apply_device-Quiet c s.browser.viewport_device
              (resolve_device chrome.device_names s.browser.viewport_device) s')

  -- Emulation changes Chrome alone.
  Unchanged : DevBrowser → Option Text × Session → Type 0
  Unchanged b (e, s) = s.browser ≡ b

  ask-Unchanged :
      (b : DevBrowser) (call : Call) (s : Session) → s.browser ≡ b → Unchanged b (ask chrome call s)
  unfolding ask tell Unchanged
  ask-Unchanged b call s e = e

  then_call-Unchanged :
      (b : DevBrowser) (r : Option Text × Session) (rest : Session → Option Text × Session)
      → Unchanged b r
      → ((s : Session) → s.browser ≡ b → Unchanged b (rest s))
      → Unchanged b (then_call chrome r rest)
  unfolding Unchanged
  then_call-Unchanged b (none, t) rest p q = q t p
  then_call-Unchanged b (some e, t) rest p q = p

  apply_mode-Unchanged :
      (b : DevBrowser) (c : ℕ) (mode : Text) (s : Session)
      → s.browser ≡ b
      → Unchanged b (apply_mode chrome c mode s)
  unfolding apply_mode apply_size Unchanged
  apply_mode-Unchanged b c mode s e = if_either (Unchanged b) (is_plain mode) _ _ e (
      if_either (Unchanged b) (text_eq mode (codes "mobile") || text_eq mode (codes "tablet")) _ _
        (then_call-Unchanged b (ask chrome (read_inner_size c) s) _
          (ask-Unchanged b (read_inner_size c) s e)
          (λ t f.
            if_either (Unchanged b)
              (leb_ℤ (chrome.inner_size s.calls c).0 (pos 0)
                || leb_ℤ (chrome.inner_size s.calls c).1 (pos 0))
              _ _ f
              (ask-Unchanged b
                (override_metrics c (target_width mode (chrome.inner_size s.calls c).0)
                  (user_agent mode))
                t f)))
        e)

  apply_device-Unchanged :
      (b : DevBrowser) (c : ℕ) (name : Text) (found : Text ⊎ List Text) (s : Session)
      → s.browser ≡ b
      → Unchanged b (apply_device chrome c name found s)
  unfolding apply_device Unchanged
  apply_device-Unchanged b c name (inl device) s e = ask-Unchanged b (emulate_device c device) s e
  apply_device-Unchanged b c name (inr available) s e = e

  pub browser-apply_device_emulation :
      (c : ℕ) (s : Session) → (apply_device_emulation chrome c s).1.browser ≡ s.browser
  unfolding apply_device_emulation Unchanged
  browser-apply_device_emulation c s =
      then_call-Unchanged s.browser (ask chrome (clear_overrides c) s) _
        (ask-Unchanged s.browser (clear_overrides c) s refl)
        (λ t f.
          if_either (Unchanged s.browser) (is_empty s.browser.viewport_device) _ _
            (apply_mode-Unchanged s.browser c s.browser.viewport_mode t f)
            (apply_device-Unchanged s.browser c s.browser.viewport_device
              (resolve_device chrome.device_names s.browser.viewport_device) t f))
