-- ===== src/Geometry/Autofit.antt =====
-- What `GrowWindowToFit` does to the window.
use devbrowser.Prelude.{
  ℕ, ◌≡◌, ◌⊎◌, Option, some, none, List, Bool, true, false, ◌&&◌, refl, arith, ℤ, pos, ◌≤ℤ◌, ◌<ℤ◌,
  leb_ℤ, InRange, ◌+ℤ◌, done, Returns, Returns-bind, ok, err, ◌++◌, Result, inl, inr, Bool-cases,
}
use devbrowser.Text.{Text, codes}
use devbrowser.Browser.{DevBrowser}
use devbrowser.Geometry.{
  WindowApi, resize, after_resize, grow_from, grow_on, grow_window_to_fit, required_window_size,
  dev_tools_reserved_width,
}
use devbrowser.Geometry.Bounds.{
  known_monitor, IsDetected, IsRequired, viewport_width, required_window_size-IsRequired,
}

-- There is nothing to do: no context, or the current size is the required one.
abbrev pub IsIdle : ℤ × ℤ → ℤ × ℤ → DevBrowser → Type 0
IsIdle needed monitor b =
    (b.ctx ≡ none)
    ⊎ (IsRequired needed.0 b.width monitor.0 b.width
        × IsRequired needed.1 b.height monitor.1 b.height)

-- A required size that is no larger than the current one, which fits, is the current one.
unchanged-IsRequired :
    (needed cur mon got : ℤ)
    → IsRequired needed cur mon got
    → cur ≤ℤ mon
    → got ≤ℤ cur
    → IsRequired needed cur mon cur
unchanged-IsRequired needed cur mon got r fits le =
    let e : got ≡ cur = ground (arith, r.floor) in rw e at r

module _ (api : WindowApi) where
  open api use {World}

  -- Neither side of the window got smaller, and the answer says what became of it.
  pub record IsGrowth (needed : ℤ × ℤ) (monitor : ℤ × ℤ) (b : DevBrowser)
      (r : Result Bool × DevBrowser × World) : Type 0 where
    pub width : b.width ≤ℤ r.1.width
    pub height : b.height ≤ℤ r.1.height
    pub answer :
        ((r.0 ≡ ok true)
          × IsRequired needed.0 b.width monitor.0 r.1.width
          × IsRequired needed.1 b.height monitor.1 r.1.height)
        ⊎ ((r.0 ≡ ok false)
            × IsIdle needed monitor b
            × (r.1.width ≡ b.width)
            × (r.1.height ≡ b.height))
        ⊎ (((message : Text) × (r.0 ≡ err (codes "GrowWindowToFit: " ++ message)))
            × (r.1.width ≡ b.width)
            × (r.1.height ≡ b.height))

  module _ (needed monitor : ℤ × ℤ) (b b' : DevBrowser) (w h : ℤ) (width : b'.width ≡ b.width)
      (height : b'.height ≡ b.height) (w_required : IsRequired needed.0 b.width monitor.0 w)
      (h_required : IsRequired needed.1 b.height monitor.1 h) (w_fits : b.width ≤ℤ monitor.0)
      (h_fits : b.height ≤ℤ monitor.1) where
    after_resize-IsGrowth :
        (r : Option Text × World) → IsGrowth needed monitor b (after_resize api w h b' r)
    unfolding after_resize
    after_resize-IsGrowth (none, world) = record {
      width = ground (arith, w_required.floor);
      height = ground (arith, h_required.floor);
      answer = inl (refl, w_required, h_required);
    }
    after_resize-IsGrowth (some e, world) = record {
      width = ground arith;
      height = ground arith;
      answer = inr (inr ((e, refl), width, height));
    }

    grow_from-IsGrowth :
        (ctx : ℕ) (world : World)
        → IsGrowth needed monitor b (grow_from api ctx b.width b.height ((w, h), b') world)
    unfolding grow_from
    grow_from-IsGrowth ctx world = elim (Bool-cases (leb_ℤ w b.width && leb_ℤ h b.height)) [
      | inl small ↦ rw small (record {
        width = ground arith;
        height = ground arith;
        answer = inr (
            inl (
              refl,
              inr (
                unchanged-IsRequired needed.0 b.width monitor.0 w w_required w_fits (ground arith),
                unchanged-IsRequired needed.1 b.height monitor.1 h h_required h_fits (ground arith),
              ),
              width,
              height,
            ));
      })
      | inr grows ↦ rw grows (after_resize-IsGrowth (resize api ctx w h world))
    ]

  module _ (query : ℤ × ℤ) (req_w req_h : ℤ) (b : DevBrowser) (world : World)
      (calls : List (List Text)) (logs : b.log ≡ some calls)
      (mon_w : pos 0 <ℤ (known_monitor query b).0) (mon_h : pos 0 <ℤ (known_monitor query b).1)
      (range : InRange (req_w +ℤ dev_tools_reserved_width)) where
    abbrev needed : ℤ × ℤ
    needed = (viewport_width req_w b, req_h)

    -- What `RequiredWindowSize` hands over.
    abbrev IsSized : (ℤ × ℤ) × DevBrowser → Type 0
    IsSized r =
        IsRequired (viewport_width req_w b) b.width (known_monitor query b).0 r.0.0
        × IsRequired req_h b.height (known_monitor query b).1 r.0.1
        × IsDetected query b r.1

    sized : Returns (required_window_size query req_w req_h b) IsSized
    sized = required_window_size-IsRequired query req_w req_h b calls logs mon_w mon_h range

    module _ (fits_w : b.width ≤ℤ (known_monitor query b).0)
        (fits_h : b.height ≤ℤ (known_monitor query b).1) where
      grow_on-IsGrowth :
          (ctx : Option ℕ)
          → b.ctx ≡ ctx
          → Returns
              (grow_on api ctx query req_w req_h b world)
              (IsGrowth needed (known_monitor query b) b)
      unfolding grow_on
      grow_on-IsGrowth none e = record {
        width = omega arith;
        height = omega arith;
        answer = inr (inl (refl, inl e, refl, refl));
      }
      grow_on-IsGrowth (some ctx) e =
          Returns-bind (required_window_size query req_w req_h b)
            (λ r. done (grow_from api ctx b.width b.height r world)) IsSized
            (IsGrowth needed (known_monitor query b) b) sized
            λ r s.
              grow_from-IsGrowth needed (known_monitor query b) b r.1 r.0.0 r.0.1 s.2.width
                s.2.height s.0 s.1 fits_w fits_h ctx world

      -- For a window that lies within the monitor, which is known or can be detected, with a
      -- logger set and no overflow: the call ends and never makes the window smaller. Where it
      -- answers `true`, each side is the larger one of the current and the needed one, cut down to
      -- the monitor. Where it answers `false`, the size stays, and there is no context or the size
      -- is that one already. Otherwise it returns an error, and the size stays.
      pub grow_window_to_fit-IsGrowth :
          Returns
            (grow_window_to_fit api query req_w req_h b world)
            (IsGrowth needed (known_monitor query b) b)
      unfolding grow_window_to_fit
      grow_window_to_fit-IsGrowth = grow_on-IsGrowth b.ctx refl

    -- The window was made smaller, and the call said that it grew.
    pub record IsShrunk (r : Result Bool × DevBrowser × World) : Type 0 where
      pub answer : r.0 ≡ ok true
      pub shorter : r.1.height <ℤ b.height

    module _ (accepts : (ctx : ℕ) (w h : ℤ) (v : World) → (resize api ctx w h v).0 ≡ none)
        (too_high : (known_monitor query b).1 <ℤ b.height)
        (room : b.width <ℤ (known_monitor query b).0)
        (wider : b.width <ℤ viewport_width req_w b) where
      after_resize-IsShrunk :
          (b' : DevBrowser) (w h : ℤ) (r : Option Text × World)
          → r.0 ≡ none
          → h <ℤ b.height
          → IsShrunk (after_resize api w h b' r)
      unfolding after_resize
      after_resize-IsShrunk b' w h (none, v) e lt = record { answer = refl; shorter = lt }
      after_resize-IsShrunk b' w h (some m, v) e lt = cc

      grow_from-IsShrunk :
          (ctx : ℕ) (r : (ℤ × ℤ) × DevBrowser)
          → IsSized r
          → IsShrunk (grow_from api ctx b.width b.height r world)
      unfolding grow_from
      grow_from-IsShrunk ctx ((w, h), b') (w_required, h_required, d) =
          let grows : (leb_ℤ w b.width && leb_ℤ h b.height) ≡ false =
            ground (arith, w_required.enough) in
          rw grows (
            after_resize-IsShrunk b' w h (resize api ctx w h world) (accepts ctx w h world)
              (ground (arith, h_required.le_mon)))

      -- A window that is higher than the monitor and narrower than both the monitor and what the
      -- viewport needs gets less high, although the call answers that it grew: for every such
      -- window of an open browser, if the browser takes the new bounds, with a logger set, a
      -- monitor that is known or can be detected and no overflow.
      pub grow_window_to_fit-IsShrunk :
          (ctx : ℕ)
          → b.ctx ≡ some ctx
          → Returns (grow_window_to_fit api query req_w req_h b world) IsShrunk
      unfolding grow_window_to_fit
      grow_window_to_fit-IsShrunk ctx e = go b.ctx e
        where
          go :
              (o : Option ℕ)
              → o ≡ some ctx
              → Returns (grow_on api o query req_w req_h b world) IsShrunk
          go none p = cc
          go (some c) p =
              unfold grow_on in
              Returns-bind (required_window_size query req_w req_h b)
                (λ r. done (grow_from api c b.width b.height r world)) IsSized IsShrunk sized
                λ r s. grow_from-IsShrunk c r s
