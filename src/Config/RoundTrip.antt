-- ===== src/Config/RoundTrip.antt =====
-- What `LoadConfig` restores after the configuration was saved.
use devbrowser.Prelude.{
  List, Option, ℕ, ◌≡◌, ◌≢◌, true, none, some, [], ◌∷◌, ◌++◌, ℤ, arith, refl, InRange, ◌∙◌,
}
use devbrowser.Text.{Text, codes}
use devbrowser.Text.Decimal.{itoa}
use devbrowser.Text.Scan.{sprintf_pair}
use devbrowser.Text.Scan.RoundTrip.{sscanf_pair-sprintf_pair}
use devbrowser.Browser.{DevBrowser, initial}
use devbrowser.Config.{
  Store, IsStore, key_autostart, key_position, key_size, key_viewport, present, load_autostart,
  load_position, load_size, load_viewport, load_config, new_browser, with_options, save_config,
  saved_mode,
}
use devbrowser.Config.Sync.{
  IsSaved, save_config-IsSaved, autostart_ne_position, autostart_ne_size, autostart_ne_viewport,
}

append_cons_ne : (s : Text) (c : ℕ) (t : Text) → s ++ c ∷ t ≢ []
append_cons_ne [] c t = cc
append_cons_ne (d ∷ s) c t = cc

module _ (store : Store) (laws : IsStore store) where
  open store use {State, get, set}
  open laws use {get-set_self, get-set_ne}

  -- Loading the auto-start setting may rewrite that one key.
  pub record KeepsOthers (s s' : State) : Type 0 where
    pub position : get key_position s' ≡ get key_position s
    pub size : get key_size s' ≡ get key_size s
    pub viewport : get key_viewport s' ≡ get key_viewport s

  set-KeepsOthers : (v : Text) (s : State) → KeepsOthers s (set key_autostart v s).1
  set-KeepsOthers v s = record {
    position = get-set_ne key_autostart key_position v s autostart_ne_position;
    size = get-set_ne key_autostart key_size v s autostart_ne_size;
    viewport = get-set_ne key_autostart key_viewport v s autostart_ne_viewport;
  }

  load_autostart-KeepsOthers :
      (b : DevBrowser) (s : State) → KeepsOthers s (load_autostart store b s).1
  unfolding load_autostart
  load_autostart-KeepsOthers b s =
      ground (arith, set-KeepsOthers (codes "t") s, set-KeepsOthers (codes "f") s)

  -- The restored part of the configuration.
  pub record IsRestored (saved b : DevBrowser) : Type 0 where
    pub position : b.position ≡ saved.position
    pub width : b.width ≡ saved.width
    pub height : b.height ≡ saved.height
    pub configured : b.size_configured ≡ true
    pub mode : b.viewport_mode ≡ saved_mode store saved.viewport_mode

  present-some : (v : Text) → v ≢ [] → present (some v) ≡ some v
  present-some [] h = absurd (h refl)
  present-some (c ∷ v) h = refl

  sprintf_pair-ne-nil : (w h : ℤ) → sprintf_pair w h ≢ []
  unfolding sprintf_pair
  sprintf_pair-ne-nil w h = append_cons_ne (itoa w) b',' (itoa h)

  saved_mode-ne-nil : (mode : Text) → saved_mode store mode ≢ []
  unfolding saved_mode
  saved_mode-ne-nil [] = cc
  saved_mode-ne-nil (c ∷ mode) = ground arith

  loaded :
      (saved b : DevBrowser) (s : State)
      → IsSaved store saved s
      → saved.position ≢ []
      → InRange saved.width
      → InRange saved.height
      → IsRestored saved (load_viewport store (load_size store (load_position store b s) s) s).0
  unfolding load_position load_size load_viewport
  loaded saved b s h p rw_ rh = ground (
    arith,
    h.synced.position,
    h.synced.size,
    h.viewport,
    present-some saved.position p,
    present-some (sprintf_pair saved.width saved.height)
        (sprintf_pair-ne-nil saved.width saved.height),
    present-some (saved_mode store saved.viewport_mode) (saved_mode-ne-nil saved.viewport_mode),
    sscanf_pair-sprintf_pair saved.width saved.height rw_ rh,
  )

  kept-IsSaved :
      (b : DevBrowser) (s s' : State) → KeepsOthers s s' → IsSaved store b s → IsSaved store b s'
  kept-IsSaved b s s' k h = record {
    synced = record { position = k.position ∙ h.synced.position; size = k.size ∙ h.synced.size };
    viewport = k.viewport ∙ h.viewport;
  }

  -- After a `SaveConfig` with no error, `LoadConfig` into any browser restores the position, the
  -- size and the mode (`desktop` for no emulation), and marks the size as configured. The
  -- position must not be empty, and the sides must be values of `int`.
  pub load_config-save_config :
      (saved b : DevBrowser) (s : State)
      → (save_config store saved s).0 ≡ none
      → saved.position ≢ []
      → InRange saved.width
      → InRange saved.height
      → IsRestored saved (load_config store b (save_config store saved s).1).0
  unfolding load_config
  load_config-save_config saved b s e p rw_ rh =
      let s0 = (save_config store saved s).1 in
      let r = load_autostart store b s0 in
      loaded saved r.0 r.1
        (kept-IsSaved saved s0 r.1 (load_autostart-KeepsOthers b s0)
          (save_config-IsSaved store laws saved s e))
        p rw_ rh

  -- A browser that is made over the store of a `SaveConfig` with no error, with any options, has
  -- the saved position, size and mode (`desktop` for no emulation). The position must not be empty,
  -- and the sides must be values of `int`.
  pub new_browser-save_config :
      (saved : DevBrowser) (ui : Option ℕ) (opts : List (DevBrowser → DevBrowser)) (s : State)
      → (save_config store saved s).0 ≡ none
      → saved.position ≢ []
      → InRange saved.width
      → InRange saved.height
      → IsRestored saved (new_browser store ui opts (save_config store saved s).1).0
  unfolding new_browser
  new_browser-save_config saved ui opts s e p rw_ rh =
      load_config-save_config saved (with_options store opts (initial ui)) s e p rw_ rh
