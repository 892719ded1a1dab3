-- ===== src/Geometry/Bounds.antt =====
-- The sizes that the geometry functions return.
use devbrowser.Prelude.{
  ◌≡◌, ◌⊎◌, some, List, Bool, ◌||◌, refl, ap, arith, ℤ, pos, ◌≤ℤ◌, ◌<ℤ◌, eq_ℤ, ltb_ℤ, InRange, ◌+ℤ◌,
  if◌then◌else◌, done, Returns, Returns-bind,
}
use devbrowser.Text.{Text}
use devbrowser.Browser.{DevBrowser}
use devbrowser.Geometry.{
  calculate_constrained_size, dev_tools_reserved_width, needed_size, clamped_size,
  detect_if_unknown, required_window_size,
}

-- `got` is the smaller one of the two.
pub record IsClamped (req mon got : ℤ) : Type 0 where
  pub le_mon : got ≤ℤ mon
  pub le_req : got ≤ℤ req
  pub one_of : (got ≡ req) ⊎ (got ≡ mon)

-- In a known monitor each side becomes the smaller one of what was asked for and the monitor's.
pub calculate_constrained_size-IsClamped :
    (req_w req_h mon_w mon_h : ℤ)
    → pos 0 <ℤ mon_w
    → pos 0 <ℤ mon_h
    → IsClamped req_w mon_w (calculate_constrained_size req_w req_h mon_w mon_h).0
      × IsClamped req_h mon_h (calculate_constrained_size req_w req_h mon_w mon_h).1
unfolding calculate_constrained_size
calculate_constrained_size-IsClamped req_w req_h mon_w mon_h hw hh = ground arith

abbrev pub larger : ℤ → ℤ → ℤ
larger x y = if ltb_ℤ x y then y else x

abbrev pub smaller : ℤ → ℤ → ℤ
smaller x y = if ltb_ℤ x y then x else y

-- `exact` determines the size: the larger one of what is needed and the current size, cut down to
-- the monitor. The other fields are what clients read off it.
pub record IsRequired (needed cur mon got : ℤ) : Type 0 where
  pub exact : got ≡ smaller mon (larger needed cur)
  pub le_mon : got ≤ℤ mon
  pub floor : (cur ≤ℤ got) ⊎ (got ≡ mon)
  pub enough : (needed ≤ℤ got) ⊎ (got ≡ mon)
  pub one_of : (got ≡ needed) ⊎ (got ≡ cur) ⊎ (got ≡ mon)

-- The monitor that a call sees: the stored one, or what is detected now in its place.
abbrev pub known_monitor : ℤ × ℤ → DevBrowser → ℤ × ℤ
known_monitor (w, h) b =
    if eq_ℤ b.monitor_width (pos 0) || eq_ℤ b.monitor_height (pos 0)
    then (if eq_ℤ w (pos 0) || eq_ℤ h (pos 0) then (b.monitor_width, b.monitor_height) else (w, h))
    else (b.monitor_width, b.monitor_height)

-- What the viewport needs across, DevTools included.
abbrev pub viewport_width : ℤ → DevBrowser → ℤ
viewport_width req_w b = if b.dev_tools_reserved then req_w +ℤ dev_tools_reserved_width else req_w

-- Detection changes nothing but the monitor and the log.
pub record IsDetected (query : ℤ × ℤ) (b b' : DevBrowser) : Type 0 where
  pub monitor_width : b'.monitor_width ≡ (known_monitor query b).0
  pub monitor_height : b'.monitor_height ≡ (known_monitor query b).1
  pub width : b'.width ≡ b.width
  pub height : b'.height ≡ b.height
  pub reserved : b'.dev_tools_reserved ≡ b.dev_tools_reserved
  pub position : b'.position ≡ b.position
  pub ctx : b'.ctx ≡ b.ctx

pub detect_if_unknown-IsDetected :
    (query : ℤ × ℤ) (b : DevBrowser) (calls : List (List Text))
    → b.log ≡ some calls
    → Returns (detect_if_unknown query b) (IsDetected query b)
unfolding detect_if_unknown
detect_if_unknown-IsDetected (w, h) b calls e = ground arith

needed_width :
    (req_w req_h : ℤ) (b : DevBrowser)
    → InRange (req_w +ℤ dev_tools_reserved_width)
    → (needed_size req_w req_h b).0
      ≡ (if ltb_ℤ (viewport_width req_w b) b.width then b.width else viewport_width req_w b)
unfolding needed_size
needed_width req_w req_h b h = ground arith

needed_height :
    (req_w req_h : ℤ) (b : DevBrowser)
    → (needed_size req_w req_h b).1 ≡ (if ltb_ℤ req_h b.height then b.height else req_h)
unfolding needed_size
needed_height req_w req_h b = refl

clamp-IsRequired :
    (needed cur mon got : ℤ)
    → IsClamped (if ltb_ℤ needed cur then cur else needed) mon got
    → IsRequired needed cur mon got
clamp-IsRequired needed cur mon got c = ground arith

IsRequired-cast :
    (n n' c c' m m' got : ℤ)
    → n ≡ n'
    → c ≡ c'
    → m ≡ m'
    → IsRequired n c m got
    → IsRequired n' c' m' got
IsRequired-cast n n' c c' m m' got en ec em h = rw (← en, ← ec, ← em) h

clamped_size-IsRequired :
    (req_w req_h : ℤ) (b : DevBrowser)
    → pos 0 <ℤ b.monitor_width
    → pos 0 <ℤ b.monitor_height
    → InRange (req_w +ℤ dev_tools_reserved_width)
    → IsRequired (viewport_width req_w b) b.width b.monitor_width (clamped_size req_w req_h b).0
      × IsRequired req_h b.height b.monitor_height (clamped_size req_w req_h b).1
clamped_size-IsRequired req_w req_h b hw hh range =
    let (w, h) =
      calculate_constrained_size-IsClamped (needed_size req_w req_h b).0
        (needed_size req_w req_h b).1 b.monitor_width b.monitor_height hw hh in
    (
      clamp-IsRequired (viewport_width req_w b) b.width b.monitor_width
          (clamped_size req_w req_h b).0
          (rw (← needed_width req_w req_h b range) (unfold clamped_size in w)),
      clamp-IsRequired req_h b.height b.monitor_height (clamped_size req_w req_h b).1
          (rw (← needed_height req_w req_h b) (unfold clamped_size in h)),
    )

-- With a monitor that is known or can be detected, a logger set and no overflow, each side of the
-- required size is exactly the larger one of the current size and what the viewport needs or, where
-- that is more than the monitor has, the monitor's side, so that a window above the monitor is cut
-- down. The state changes in the monitor and the log alone, as far as size, position,
-- context and DevTools go.
pub required_window_size-IsRequired :
    (query : ℤ × ℤ) (req_w req_h : ℤ) (b : DevBrowser) (calls : List (List Text))
    → b.log ≡ some calls
    → pos 0 <ℤ (known_monitor query b).0
    → pos 0 <ℤ (known_monitor query b).1
    → InRange (req_w +ℤ dev_tools_reserved_width)
    → Returns (required_window_size query req_w req_h b) (λ r.
      IsRequired (viewport_width req_w b) b.width (known_monitor query b).0 r.0.0
      × IsRequired req_h b.height (known_monitor query b).1 r.0.1
      × IsDetected query b r.1)
unfolding required_window_size
required_window_size-IsRequired query req_w req_h b calls e hw hh range =
    Returns-bind (detect_if_unknown query b) (λ b'. done (clamped_size req_w req_h b', b'))
      (IsDetected query b)
      (λ r.
        IsRequired (viewport_width req_w b) b.width (known_monitor query b).0 r.0.0
        × IsRequired req_h b.height (known_monitor query b).1 r.0.1
        × IsDetected query b r.1)
      (detect_if_unknown-IsDetected query b calls e)
      λ b' d.
        let (w, h) =
          clamped_size-IsRequired req_w req_h b' (rw d.monitor_width hw) (rw d.monitor_height hh)
            range in
        (
          IsRequired-cast (viewport_width req_w b') (viewport_width req_w b) b'.width b.width
              b'.monitor_width (known_monitor query b).0 (clamped_size req_w req_h b').0
              (ap (λ (r : Bool). if r then req_w +ℤ dev_tools_reserved_width else req_w) d.reserved)
              d.width d.monitor_width w,
          IsRequired-cast req_h req_h b'.height b.height b'.monitor_height (known_monitor query b).1
              (clamped_size req_w req_h b').1 refl d.height d.monitor_height h,
          d,
        )
