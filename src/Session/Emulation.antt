-- ===== src/Session/Emulation.antt =====
-- Device emulation (mcp-management.go): the modes, the devices and the calls that apply them.
pub mod Laws
use devbrowser.Prelude.{
  ℕ, ◌+◌, Bool, true, false, not, ◌&&◌, ◌||◌, Option, none, some, List, [], ◌∷◌, ◌++◌, ℤ, pos,
  ltb_ℤ, leb_ℤ, if◌then◌else◌, leb, ◌==◌, ◌⊎◌, inl, inr, Result, ok, err,
}
use devbrowser.Text.{Text, codes, text_eq, is_empty}
use devbrowser.Session.{
  Chrome, Session, clear_overrides, emulate_device, read_inner_size, override_metrics, tell, ask,
}

-- `strings.ToLower` on the letters of ASCII.
to_lower : ℕ → ℕ
to_lower c = if leb b'A' c && leb c b'Z' then c + 32 else c

dropped : ℕ → Bool
dropped c = c == b' ' || c == b'-' || c == b'(' || c == b')' || c == b'_' || c == b'+'

-- The letters are lowered first, and then the marks are taken out.
unfoldable pub normalize_name : Text → Text
unfolding to_lower dropped
normalize_name [] = []
normalize_name (c ∷ s) =
    let rest = normalize_name s in if dropped (to_lower c) then rest else to_lower c ∷ rest

-- The first device whose name has the normal form, or else all names that there are.
pub find_device : Text → List Text → List Text → Text ⊎ List Text
unfolding normalize_name text_eq
find_device target [] available = inr available
find_device target (name ∷ names) available =
    let skip = find_device target names available in
    let next = find_device target names (available ++ name ∷ []) in
    if is_empty name then skip else if text_eq (normalize_name name) target then inl name else next

unfoldable pub resolve_device : List Text → Text → Text ⊎ List Text
unfolding find_device
resolve_device names target = find_device (normalize_name target) names []

abbrev unsupported_mode : Text → Text
unsupported_mode mode = codes "unsupported mode: " ++ mode

abbrev pub is_plain : Text → Bool
is_plain mode = text_eq mode (codes "desktop") || text_eq mode (codes "off") || is_empty mode

-- The width of a mode's viewport: at most the window's inner width.
unfoldable pub target_width : Text → ℤ → ℤ
unfolding text_eq
target_width mode avail_w =
    let w = (if text_eq mode (codes "mobile") then pos 375 else pos 768) in
    if ltb_ℤ avail_w w then avail_w else w

abbrev user_agent : Text → Text
unfolding text_eq
user_agent mode =
    if text_eq mode (codes "mobile")
    then codes
        "Mozilla/5.0 (iPhone; CPU iPhone OS 17_0 like Mac OS X) AppleWebKit/605.1.15 (KHTML, like Gecko) Version/17.0 Mobile/15E148 Safari/604.1"
    else codes
        "Mozilla/5.0 (iPad; CPU OS 17_0 like Mac OS X) AppleWebKit/605.1.15 (KHTML, like Gecko) Version/17.0 Mobile/15E148 Safari/604.1"

module _ (chrome : Chrome) where
  -- `applyDeviceEmulation` ends with the first error.
  abbrev then_call :
      Option Text × Session → (Session → Option Text × Session) → Option Text × Session
  then_call (none, s) rest = rest s
  then_call (some e, s) rest = (some e, s)

  apply_size : ℕ → Text → ℤ × ℤ → Session → Option Text × Session
  unfolding ask target_width
  apply_size c mode (avail_w, avail_h) s =
      if leb_ℤ avail_w (pos 0) || leb_ℤ avail_h (pos 0)
      then (none, s)
      else ask chrome (override_metrics c (target_width mode avail_w) (user_agent mode)) s

  apply_mode : ℕ → Text → Session → Option Text × Session
  unfolding ask apply_size
  apply_mode c mode s =
      if is_plain mode
      then (none, s)
      else if text_eq mode (codes "mobile") || text_eq mode (codes "tablet")
      then then_call (ask chrome (read_inner_size c) s)
          (λ s'. apply_size c mode (chrome.inner_size s.calls c) s')
      else (some (unsupported_mode mode), s)

  apply_device : ℕ → Text → Text ⊎ List Text → Session → Option Text × Session
  unfolding ask
  apply_device c name (inl device) s = ask chrome (emulate_device c device) s
  apply_device c name (inr available) s = (some (codes "unsupported device: " ++ name), s)

  unfoldable pub apply_device_emulation : ℕ → Session → Option Text × Session
  unfolding ask apply_mode apply_device resolve_device
  apply_device_emulation c s = then_call (ask chrome (clear_overrides c) s) (λ s'.
      if is_empty s.browser.viewport_device
      then apply_mode c s.browser.viewport_mode s'
      else apply_device c s.browser.viewport_device
          (resolve_device chrome.device_names s.browser.viewport_device) s')
