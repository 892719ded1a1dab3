-- ===== src/Screenshot/Viewport.antt =====
-- The size of an emulated viewport (`EmulationViewportSize` of mcp-management.go).
use devbrowser.Prelude.{
  ◌≡◌, refl, Bool, true, false, none, List, ◌++◌, if◌then◌else◌, ◌⊎◌, inl, inr, ℤ, pos, ltb_ℤ,
  Result, ok, err, arith, Bool-cases,
}
use devbrowser.Text.{Text, codes, text_eq, is_empty}
use devbrowser.Session.Emulation.{is_plain, resolve_device, target_width}
use devbrowser.Screenshot.Emulate.{EmulateDeviceArgs, mode_error, device_error, args_error}
use devbrowser.Screenshot.Modes.{args_error-none}

mode_size : Text → Result (ℤ × ℤ)
unfolding text_eq
mode_size mode =
    if text_eq mode (codes "mobile")
    then ok (pos 375, pos 0)
    else if text_eq mode (codes "tablet")
    then ok (pos 768, pos 0)
    else if is_plain mode
    then ok (pos 0, pos 0)
    else err (codes "unsupported mode: " ++ mode)

-- The size of a mode, and what its emulation makes of the width.
record IsSized (mode : Text) (size : Result (ℤ × ℤ)) : Type 0 where
  w : ℤ
  h : ℤ
  size_ok : size ≡ ok (w, h)
  narrow :
      is_plain mode ≡ false
      → (avail : ℤ) → target_width mode avail ≡ (if ltb_ℤ avail w then avail else w)

mode_size-IsSized : (mode : Text) → mode_error mode ≡ none → IsSized mode (mode_size mode)
unfolding mode_size mode_error target_width
mode_size-IsSized mode e = elim (Bool-cases (text_eq mode (codes "mobile"))) [
  | inl m ↦ record { w = pos 375; h = pos 0; size_ok = rw m refl; narrow = λ p avail. rw m refl }
  | inr nm ↦ elim (Bool-cases (text_eq mode (codes "tablet"))) [
    | inl t ↦ record {
      w = pos 768;
      h = pos 0;
      size_ok = rw (nm, t) refl;
      narrow = λ p avail. rw nm refl;
    }
    | inr nt ↦ elim (Bool-cases (is_plain mode)) [
      | inl p ↦ record {
        w = pos 0;
        h = pos 0;
        size_ok = rw (nm, nt, p) refl;
        narrow = λ q avail. absurd (cc);
      }
      | inr np ↦ absurd (ground (arith))
    ]
  ]
]

-- The sizes of the devices are the table of `chromedp`.
module _ (names : List Text) (device_size : Text → ℤ × ℤ) where
  found_size : Text → Text ⊎ List Text → Result (ℤ × ℤ)
  found_size name (inl device) = ok (device_size device)
  found_size name (inr available) = err (codes "unsupported device: " ++ name)

  unfoldable pub emulation_viewport_size : Text → Text → Result (ℤ × ℤ)
  unfolding mode_size found_size resolve_device
  emulation_viewport_size mode name =
      if is_empty name then mode_size mode else found_size name (resolve_device names name)

  -- The size, and what the emulation of a mode makes of its width.
  pub record HasViewport (args : EmulateDeviceArgs) : Type 0 where
    pub w : ℤ
    pub h : ℤ
    pub size : emulation_viewport_size args.mode args.device ≡ ok (w, h)
    pub width :
        is_empty args.device ≡ true
        → is_plain args.mode ≡ false
        → (avail : ℤ) → target_width args.mode avail ≡ (if ltb_ℤ avail w then avail else w)

  -- Whatever device and mode the tool `browser_emulate_device` accepts, `EmulationViewportSize` has a
  -- size for it; without a device, the width that an emulated mode gets is that size, cut down to the
  -- width of the window.
  pub args_error-HasViewport :
      (args : EmulateDeviceArgs) → args_error names args ≡ none → HasViewport args
  unfolding emulation_viewport_size found_size device_error
  args_error-HasViewport args e =
      let (mode, device) = args_error-none names args e in
      go (is_empty args.device) refl (resolve_device names args.device) refl mode device
    where
      go :
          (b : Bool)
          → is_empty args.device ≡ b
          → (found : Text ⊎ List Text) → resolve_device names args.device ≡ found
          → mode_error args.mode ≡ none
          → device_error names args.device ≡ none
          → HasViewport args
      go true e found f mode device =
          let sized = mode_size-IsSized args.mode mode in
          record { w = sized.w; h = sized.h; size = rw e sized.size_ok; width = λ q. sized.narrow }
      go false e (inl d) f mode device = record {
        w = (device_size d).0;
        h = (device_size d).1;
        size = rw (e, f) refl;
        width = λ q. absurd (cc);
      }
      go false e (inr available) f mode device = absurd (ground (arith, e, f))
