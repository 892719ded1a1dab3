-- ===== src/Tests/Sizes.antt =====
-- The theorems on the geometry at concrete inputs.
use devbrowser.Prelude.{ℕ, refl, true, none, some, [], ◌+◌, ℤ, pos, arith, Returns, ok}
use devbrowser.Browser.{DevBrowser, initial}
use devbrowser.Geometry.{WindowApi, required_window_size, grow_window_to_fit}
use devbrowser.Geometry.Bounds.{IsRequired, IsDetected, required_window_size-IsRequired}
use devbrowser.Geometry.Autofit.{IsGrowth, grow_window_to_fit-IsGrowth}

abbrev full_hd : ℤ × ℤ
full_hd = (pos 1920, pos 1080)

abbrev logging : DevBrowser
logging = record (initial none) { log = some []; ctx = some 0; dev_tools_reserved = true }

required_window_size-IsRequired_example :
    Returns (required_window_size full_hd (pos 768) (pos 900) logging) (λ r.
      IsRequired (pos 1188) (pos 1024) (pos 1920) r.0.0
      × IsRequired (pos 900) (pos 768) (pos 1080) r.0.1
      × IsDetected full_hd logging r.1)
required_window_size-IsRequired_example =
    required_window_size-IsRequired full_hd (pos 768) (pos 900) logging [] refl (omega arith)
      (omega arith) (omega arith)

-- A browser that takes every size. The world counts the calls.
abbrev obedient : WindowApi
obedient = record {
  World = ℕ;
  get_window = λ ctx world. (ok (pos 1), world + 1);
  set_bounds = λ ctx window_id w h world. (none, world + 1);
}

grow_window_to_fit-IsGrowth_example :
    Returns
      (grow_window_to_fit obedient full_hd (pos 768) (pos 900) logging 0)
      (IsGrowth obedient (pos 1188, pos 900) full_hd logging)
grow_window_to_fit-IsGrowth_example =
    grow_window_to_fit-IsGrowth obedient full_hd (pos 768) (pos 900) logging 0 [] refl (omega arith)
      (omega arith) (omega arith) (omega arith) (omega arith)

abbrev too_high : DevBrowser
too_high = record logging { height = pos 1200 }
