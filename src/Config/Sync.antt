-- ===== src/Config/Sync.antt =====
-- The store holds the geometry of the window.
use devbrowser.Prelude.{◌≡◌, ◌≢◌, true, none, some, ℤ, arith, pos, ltb_ℤ, eq_ℤ_iff, refl}
use devbrowser.Text.{Text, text_eq, text_eq_iff, text_eq-false}
use devbrowser.Text.Scan.{sprintf_pair}
use devbrowser.Browser.{DevBrowser}
use devbrowser.Config.{
  Store, IsStore, key_autostart, key_position, key_size, key_viewport, save_config, saved_mode,
  save_position, save_size, save_geometry, position_text,
}

pub position_ne_size : key_position ≢ key_size
unfolding text_eq
position_ne_size = text_eq-false key_position key_size refl

pub size_ne_position : key_size ≢ key_position
unfolding text_eq
size_ne_position = text_eq-false key_size key_position refl

pub viewport_ne_position : key_viewport ≢ key_position
unfolding text_eq
viewport_ne_position = text_eq-false key_viewport key_position refl

pub viewport_ne_size : key_viewport ≢ key_size
unfolding text_eq
viewport_ne_size = text_eq-false key_viewport key_size refl

pub autostart_ne_position : key_autostart ≢ key_position
unfolding text_eq
autostart_ne_position = text_eq-false key_autostart key_position refl

pub autostart_ne_size : key_autostart ≢ key_size
unfolding text_eq
autostart_ne_size = text_eq-false key_autostart key_size refl

pub autostart_ne_viewport : key_autostart ≢ key_viewport
unfolding text_eq
autostart_ne_viewport = text_eq-false key_autostart key_viewport refl

module _ (store : Store) where
  open store use {State, get, set}

  pub record IsSynced (b : DevBrowser) (s : State) : Type 0 where
    pub position : get key_position s ≡ some b.position
    pub size : get key_size s ≡ some (sprintf_pair b.width b.height)

  -- What a successful `SaveConfig` leaves in the store.
  pub record IsSaved (b : DevBrowser) (s : State) : Type 0 where
    pub synced : IsSynced b s
    pub viewport : get key_viewport s ≡ some (saved_mode store b.viewport_mode)

module _ (store : Store) (laws : IsStore store) where
  open store use {State, get, set}
  open laws use {get-set_self, get-set_ne}

  -- If `SaveConfig` reports no error, the position, the size and the mode are in the store,
  -- `desktop` standing for no emulation.
  pub save_config-IsSaved :
      (b : DevBrowser) (s : State)
      → (save_config store b s).0 ≡ none
      → IsSaved store b (save_config store b s).1
  unfolding save_config
  save_config-IsSaved b s e =
      let r1 = set key_position b.position s in
      let r2 = set key_size (sprintf_pair b.width b.height) r1.1 in
      let mode = saved_mode store b.viewport_mode in
      ground (
        arith,
        get-set_self key_position b.position s,
        get-set_self key_size (sprintf_pair b.width b.height) r1.1,
        get-set_self key_viewport mode r2.1,
        get-set_ne key_size key_position (sprintf_pair b.width b.height) r1.1 size_ne_position,
        get-set_ne key_viewport key_position mode r2.1 viewport_ne_position,
        get-set_ne key_viewport key_size mode r2.1 viewport_ne_size,
      )

  module _ (sets : (k v : Text) (s : State) → (set k v s).0 ≡ none) where
    save_position-IsSynced :
        (x y : ℤ) (b : DevBrowser) (s : State)
        → IsSynced store b s
        → IsSynced store (save_position store x y b s).0 (save_position store x y b s).1
    unfolding save_position
    save_position-IsSynced x y b s h =
        let p = position_text store x y in
        ground (
          arith,
          get-set_self key_position p s (sets key_position p s),
          get-set_ne key_position key_size p s position_ne_size,
        )

    save_size-IsSynced :
        (w h : ℤ) (b : DevBrowser) (s : State)
        → IsSynced store b s
        → IsSynced store (save_size store w h b s).0 (save_size store w h b s).1
    unfolding save_size
    save_size-IsSynced w h b s synced =
        let t = sprintf_pair w h in
        let s1 = (set key_size t s).1 in
        ground (
          arith,
          get-set_self key_size t s (sets key_size t s),
          get-set_self key_position b.position s1 (sets key_position b.position s1),
          get-set_ne key_position key_size b.position s1 position_ne_size,
        )

    -- With a store whose writes succeed, every report of the bounds of the window, whatever its
    -- values, keeps the stored position and size in step with the state.
    pub save_geometry-IsSynced :
        (x y w h : ℤ) (b : DevBrowser) (s : State)
        → IsSynced store b s
        → IsSynced store (save_geometry store x y w h b s).0 (save_geometry store x y w h b s).1
    unfolding save_geometry
    save_geometry-IsSynced x y w h b s synced =
        save_size-IsSynced w h (save_position store x y b s).0 (save_position store x y b s).1
          (save_position-IsSynced x y b s synced)

    -- With a store whose writes succeed, a report with positive sides is taken over whole.
    pub save_geometry_follows :
        (x y w h : ℤ) (b : DevBrowser) (s : State)
        → ltb_ℤ (pos 0) w ≡ true
        → ltb_ℤ (pos 0) h ≡ true
        → ((save_geometry store x y w h b s).0.width ≡ w)
          × ((save_geometry store x y w h b s).0.height ≡ h)
          × ((save_geometry store x y w h b s).0.position ≡ position_text store x y)
    unfolding save_geometry
    save_geometry_follows x y w h b s pw ph = ground (
      arith,
      text_eq_iff (position_text store x y) b.position,
      eq_ℤ_iff w b.width,
      eq_ℤ_iff h b.height,
    )
