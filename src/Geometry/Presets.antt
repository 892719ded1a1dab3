-- ===== src/Geometry/Presets.antt =====
-- The sizes of the emulation presets (`GetPresetSize`).
use devbrowser.Prelude.{
  ◌≡◌, ◌⊎◌, some, none, List, arith, ℤ, pos, ◌≤ℤ◌, ◌<ℤ◌, done, panic, inl, inr, Returns,
  Returns-bind, Succeeds,
}
use devbrowser.Text.{Text, codes}
use devbrowser.Browser.{DevBrowser}
use devbrowser.Geometry.{detect_if_unknown, get_preset_size, preset_of}
use devbrowser.Geometry.Bounds.{known_monitor, IsDetected, detect_if_unknown-IsDetected}

-- The modes that have a preset.
abbrev pub IsMode : Text → Type 0
IsMode mode = (mode ≡ codes "desktop") ⊎ (mode ≡ codes "mobile") ⊎ (mode ≡ codes "tablet")

-- A size that a window on the monitor can have.
pub record IsFitting (monitor size : ℤ × ℤ) : Type 0 where
  pub wide : pos 0 <ℤ size.0
  pub high : pos 0 <ℤ size.1
  pub le_width : size.0 ≤ℤ monitor.0
  pub le_height : size.1 ≤ℤ monitor.1

preset_of-IsFitting :
    (mode : Text) (mon_w mon_h : ℤ)
    → IsMode mode
    → pos 0 <ℤ mon_w
    → pos 0 <ℤ mon_h
    → Succeeds (preset_of mode mon_w mon_h) (IsFitting (mon_w, mon_h))
unfolding preset_of
preset_of-IsFitting mode mon_w mon_h (inl m) hw hh = ground arith
preset_of-IsFitting mode mon_w mon_h (inr m) hw hh = ground arith

preset_of-cast :
    (mode : Text) (w w' h h' : ℤ) (m : ℤ × ℤ)
    → w ≡ w'
    → h ≡ h'
    → Succeeds (preset_of mode w' h') (IsFitting m)
    → Succeeds (preset_of mode w h) (IsFitting m)
preset_of-cast mode w w' h h' m ew eh s = rw (ew, eh) s

-- On a monitor that is known or can be detected, with a logger set, every mode that has a preset
-- gives a positive size that fits the monitor.
pub get_preset_size-IsFitting :
    (query : ℤ × ℤ) (mode : Text) (b : DevBrowser) (calls : List (List Text))
    → b.log ≡ some calls
    → IsMode mode
    → pos 0 <ℤ (known_monitor query b).0
    → pos 0 <ℤ (known_monitor query b).1
    → Returns (get_preset_size query mode b) (λ r. Succeeds r.0 (IsFitting (known_monitor query b)))
unfolding get_preset_size
get_preset_size-IsFitting query mode b calls e m hw hh =
    Returns-bind (detect_if_unknown query b)
      (λ b'. done (preset_of mode b'.monitor_width b'.monitor_height, b')) (IsDetected query b)
      (λ r. Succeeds r.0 (IsFitting (known_monitor query b)))
      (detect_if_unknown-IsDetected query b calls e)
      λ b' d.
        preset_of-cast mode b'.monitor_width (known_monitor query b).0 b'.monitor_height
          (known_monitor query b).1 (known_monitor query b) d.monitor_width d.monitor_height
          (preset_of-IsFitting mode (known_monitor query b).0 (known_monitor query b).1 m hw hh)

-- Without a logger, and with no width of the monitor known, `GetPresetSize` panics, whatever the
-- detection finds.
pub get_preset_size_no_logger :
    (query : ℤ × ℤ) (mode : Text) (b : DevBrowser)
    → b.log ≡ none
    → b.monitor_width ≡ pos 0
    → get_preset_size query mode b ≡ panic
unfolding get_preset_size
get_preset_size_no_logger (w, h) mode b e z = ground arith
