-- ===== src/Geometry.antt =====
-- The size of the window against the monitor and DevTools (geometry_utils.go,
-- monitor_detection.go, window_autofit.go). What `QueryMonitorSize` returns is an argument.
pub mod Bounds
pub mod Presets
pub mod Autofit
use devbrowser.Prelude.{
  ℕ, Bool, true, false, ◌&&◌, ◌||◌, Option, none, some, List, [], ◌∷◌, ◌++◌, if◌then◌else◌, ℤ, pos,
  ltb_ℤ, leb_ℤ, eq_ℤ, add64, Result, ok, err, Outcome, done, ◌>>=◌,
}
use devbrowser.Text.{Text, codes, text_eq}
use devbrowser.Text.Decimal.{itoa}
use devbrowser.Browser.{DevBrowser, call_log}

unfoldable pub calculate_constrained_size : ℤ → ℤ → ℤ → ℤ → ℤ × ℤ
calculate_constrained_size req_w req_h mon_w mon_h =
    if leb_ℤ mon_w (pos 0) || leb_ℤ mon_h (pos 0)
    then (req_w, req_h)
    else (if ltb_ℤ mon_w req_w then mon_w else req_w, if ltb_ℤ mon_h req_h then mon_h else req_h)

-- `%dx%d`
pub dimensions : ℤ → ℤ → Text
dimensions w h = itoa w ++ (codes "x" ++ itoa h)

unfoldable pub detect_monitor_size : ℤ × ℤ → DevBrowser → Outcome DevBrowser
unfolding call_log
detect_monitor_size (w, h) b =
    if eq_ℤ w (pos 0) || eq_ℤ h (pos 0)
    then call_log (codes "No active displays found or extraction failed" ∷ []) b
    else call_log ((codes "Detected monitor size: " ++ dimensions w h) ∷ [])
        (record b { monitor_width = w; monitor_height = h })

unfoldable pub start_with_detected_size : DevBrowser → Outcome DevBrowser
unfolding call_log
start_with_detected_size b =
    if b.size_configured
    then done b
    else if eq_ℤ b.monitor_width (pos 0) || eq_ℤ b.monitor_height (pos 0)
    then done b
    else call_log
        ((codes "Browser size auto-adjusted to monitor: "
            ++ dimensions b.monitor_width b.monitor_height)
          ∷ [])
        (record b { width = b.monitor_width; height = b.monitor_height })

-- The monitor is looked for now, if it was not found before.
pub detect_if_unknown : ℤ × ℤ → DevBrowser → Outcome DevBrowser
unfolding detect_monitor_size
detect_if_unknown query b =
    if eq_ℤ b.monitor_width (pos 0) || eq_ℤ b.monitor_height (pos 0)
    then detect_monitor_size query b
    else done b

abbrev pub dev_tools_reserved_width : ℤ
dev_tools_reserved_width = pos 420

-- What the window has to hold, the current size being a floor.
pub needed_size : ℤ → ℤ → DevBrowser → ℤ × ℤ
needed_size req_w req_h b =
    let needed_w = (if b.dev_tools_reserved then add64 req_w dev_tools_reserved_width else req_w) in
    (
      if ltb_ℤ needed_w b.width then b.width else needed_w,
      if ltb_ℤ req_h b.height then b.height else req_h,
    )

-- The rest of `RequiredWindowSize`, with the monitor in the state.
pub clamped_size : ℤ → ℤ → DevBrowser → ℤ × ℤ
unfolding needed_size calculate_constrained_size
clamped_size req_w req_h b =
    let (needed_w, needed_h) = needed_size req_w req_h b in
    calculate_constrained_size needed_w needed_h b.monitor_width b.monitor_height

unfoldable pub required_window_size : ℤ × ℤ → ℤ → ℤ → DevBrowser → Outcome ((ℤ × ℤ) × DevBrowser)
unfolding detect_if_unknown clamped_size
required_window_size query req_w req_h b = do
  b' ← detect_if_unknown query b
  done (clamped_size req_w req_h b', b')

-- The base size of a mode; `none` is an unknown mode.
pub base_size : Text → Option (ℤ × ℤ)
unfolding text_eq
base_size mode =
    if text_eq mode (codes "desktop")
    then some (pos 1024, pos 768)
    else if text_eq mode (codes "mobile")
    then some (pos 375, pos 812)
    else if text_eq mode (codes "tablet")
    then some (pos 768, pos 1024)
    else none

pub preset_of : Text → ℤ → ℤ → Result (ℤ × ℤ)
unfolding base_size calculate_constrained_size
preset_of mode mon_w mon_h =
    if text_eq mode (codes "desktop") && (ltb_ℤ (pos 0) mon_w && ltb_ℤ (pos 0) mon_h)
    then ok (mon_w, mon_h)
    else elim (base_size mode) [
      | none ↦ err (codes "unknown mode: " ++ mode)
      | some (w, h) ↦
          if eq_ℤ mon_w (pos 0) || eq_ℤ mon_h (pos 0)
          then ok (w, h)
          else ok (calculate_constrained_size w h mon_w mon_h)
    ]

unfoldable pub get_preset_size : ℤ × ℤ → Text → DevBrowser → Outcome (Result (ℤ × ℤ) × DevBrowser)
unfolding detect_if_unknown preset_of
get_preset_size query mode b = do
  b' ← detect_if_unknown query b
  done (preset_of mode b'.monitor_width b'.monitor_height, b')

-- The DevTools protocol of the window, as far as the program uses it: both calls run on a browser
-- context, can fail, and act on the world.
pub record WindowApi : Type 1 where
  pub World : Type 0
  -- `browser.GetWindowForTarget` in `chromedp.Run`: the window's id, or the error
  pub get_window : ℕ → World → Result ℤ × World
  -- `browser.SetWindowBounds` of the id, the width and the height
  pub set_bounds : ℕ → ℤ → ℤ → ℤ → World → Option Text × World

module _ (api : WindowApi) where
  open api use {World, get_window, set_bounds}

  -- The action of `GrowWindowToFit`: the first error ends it.
  resize_with : ℕ → ℤ → ℤ → Result ℤ × World → Option Text × World
  resize_with ctx w h (ok window_id, world) = set_bounds ctx window_id w h world
  resize_with ctx w h (err e, world) = (some e, world)

  unfoldable pub resize : ℕ → ℤ → ℤ → World → Option Text × World
  unfolding resize_with
  resize ctx w h world = resize_with ctx w h (get_window ctx world)

  pub after_resize : ℤ → ℤ → DevBrowser → Option Text × World → Result Bool × DevBrowser × World
  after_resize w h b (none, world) = (ok true, record b { width = w; height = h }, world)
  after_resize w h b (some e, world) = (err (codes "GrowWindowToFit: " ++ e), b, world)

  pub grow_from : ℕ → ℤ → ℤ → (ℤ × ℤ) × DevBrowser → World → Result Bool × DevBrowser × World
  unfolding resize after_resize
  grow_from ctx cur_w cur_h ((w, h), b) world =
      if leb_ℤ w cur_w && leb_ℤ h cur_h
      then (ok false, b, world)
      else after_resize w h b (resize ctx w h world)

  -- The call on the context, if there is one.
  pub grow_on :
      Option ℕ → ℤ × ℤ → ℤ → ℤ → DevBrowser → World → Outcome (Result Bool × DevBrowser × World)
  unfolding grow_from
  grow_on none query req_w req_h b world = done (ok false, b, world)
  grow_on (some ctx) query req_w req_h b world = do
    sized ← required_window_size query req_w req_h b
    done (grow_from ctx b.width b.height sized world)

  unfoldable pub grow_window_to_fit :
      ℤ × ℤ → ℤ → ℤ → DevBrowser → World → Outcome (Result Bool × DevBrowser × World)
  unfolding grow_on
  grow_window_to_fit query req_w req_h b world = grow_on b.ctx query req_w req_h b world
