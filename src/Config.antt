-- ===== src/Config.antt =====
-- The configuration in the key-value store (config.go, monitor_geometry.go).
pub mod RoundTrip
pub mod Sync
pub mod Monitor
use devbrowser.Prelude.{
  ℕ, ◌≡◌, ◌≢◌, Bool, true, false, not, ◌&&◌, ◌||◌, Option, none, some, List, [], ◌∷◌, ◌++◌,
  if◌then◌else◌, ℤ, pos, ltb_ℤ, eq_ℤ,
}
use devbrowser.Text.{Text, codes, text_eq, is_empty}
use devbrowser.Text.Decimal.{itoa}
use devbrowser.Text.Scan.{sscanf_pair, sprintf_pair}
use devbrowser.Browser.{DevBrowser, initial}

abbrev pub key_autostart : Text
key_autostart = codes "browser_autostart"

abbrev pub key_position : Text
key_position = codes "browser_position"

abbrev pub key_size : Text
key_size = codes "browser_size"

abbrev pub key_viewport : Text
key_viewport = codes "browser_viewport"

abbrev pub key_legacy_viewport : Text
key_legacy_viewport = codes "viewport_mode"

-- The interface `Store`: the host application implements it. `get` is `none` on an error, and
-- `set` returns its error, if there is one.
pub record Store : Type 1 where
  pub State : Type 0
  pub get : Text → State → Option Text
  pub set : Text → Text → State → Option Text × State

-- What is documented of a key-value store: a value that was set is got, under its key alone.
pub record IsStore (store : Store) : Type 0 where
  pub get-set_self :
      (k v : Text) (s : store.State)
      → (store.set k v s).0 ≡ none
      → store.get k (store.set k v s).1 ≡ some v
  pub get-set_ne :
      (k j v : Text) (s : store.State) → k ≢ j → store.get j (store.set k v s).1 ≡ store.get j s

-- `err == nil && val != ""`
abbrev pub present : Option Text → Option Text
present none = none
present (some []) = none
present (some (c ∷ v)) = some (c ∷ v)

-- The option `WithCache`
unfoldable pub with_cache : Bool → DevBrowser → DevBrowser
with_cache enabled b = record b { cache_enabled = enabled }

module _ (store : Store) where
  open store use {State, get, set}

  abbrev put : Text → Text → State → State
  put k v s = (set k v s).1

  pub load_autostart : DevBrowser → State → DevBrowser × State
  unfolding text_eq
  load_autostart b s = elim (present (get key_autostart s)) [
    | none ↦ (record b { auto_start = true }, s)
    | some v ↦
        if text_eq v (codes "true") || text_eq v (codes "t")
        then (
          record b { auto_start = true },
          if text_eq v (codes "true") then put key_autostart (codes "t") s else s,
        )
        else if text_eq v (codes "false") || text_eq v (codes "f")
        then (
          record b { auto_start = false },
          if text_eq v (codes "false") then put key_autostart (codes "f") s else s,
        )
        else (record b { auto_start = true }, s)
  ]

  pub load_position : DevBrowser → State → DevBrowser
  load_position b s = elim (present (get key_position s)) [
    | none ↦ b
    | some v ↦ record b { position = v }
  ]

  abbrev size_read : DevBrowser → Option (ℤ × ℤ) → DevBrowser
  size_read b none = b
  size_read b (some (w, h)) = record b { width = w; height = h; size_configured = true }

  pub load_size : DevBrowser → State → DevBrowser
  unfolding sscanf_pair
  load_size b s = elim (present (get key_size s)) [
    | none ↦ b
    | some v ↦ size_read b (sscanf_pair v)
  ]

  pub load_viewport : DevBrowser → State → DevBrowser × State
  load_viewport b s = elim (present (get key_viewport s)) [
    | some v ↦ (record b { viewport_mode = v }, s)
    | none ↦ elim (present (get key_legacy_viewport s)) [
      | some v ↦ (record b { viewport_mode = v }, put key_viewport v s)
      | none ↦ (b, s)
    ]
  ]

  unfoldable pub load_config : DevBrowser → State → DevBrowser × State
  unfolding load_autostart load_position load_size load_viewport
  load_config b s =
      let (b1, s1) = load_autostart b s in load_viewport (load_size (load_position b1 s1) s1) s1

  abbrev pub with_options : List (DevBrowser → DevBrowser) → DevBrowser → DevBrowser
  with_options [] b = b
  with_options (opt ∷ opts) b = with_options opts (opt b)

  -- `New`: the options, and then the configuration.
  unfoldable pub new_browser :
      Option ℕ → List (DevBrowser → DevBrowser) → State → DevBrowser × State
  unfolding load_config
  new_browser ui opts s = load_config (with_options opts (initial ui)) s

  -- The mode that is written for `desktop` and for no emulation.
  pub saved_mode : Text → Text
  unfolding text_eq
  saved_mode mode = if is_empty mode || text_eq mode (codes "off") then codes "desktop" else mode

  -- `Set` and then the rest, unless it fails.
  abbrev then_set : Option Text × State → (State → Option Text × State) → Option Text × State
  then_set (none, s) rest = rest s
  then_set (some e, s) rest = (some e, s)

  unfoldable pub save_config : DevBrowser → State → Option Text × State
  unfolding saved_mode sprintf_pair
  save_config b s = then_set (set key_position b.position s) λ s1.
      then_set (set key_size (sprintf_pair b.width b.height) s1)
        λ s2. set key_viewport (saved_mode b.viewport_mode) s2

  abbrev pub position_text : ℤ → ℤ → Text
  position_text x y = itoa x ++ (codes "," ++ itoa y)

  pub save_position : ℤ → ℤ → DevBrowser → State → DevBrowser × State
  save_position x y b s =
      if text_eq (position_text x y) b.position
      then (b, s)
      else (record b { position = position_text x y }, put key_position (position_text x y) s)

  pub save_size : ℤ → ℤ → DevBrowser → State → DevBrowser × State
  unfolding sprintf_pair
  save_size w h b s =
      if (not (eq_ℤ w b.width) && ltb_ℤ (pos 0) w) || (not (eq_ℤ h b.height) && ltb_ℤ (pos 0) h)
      then (
        record b { width = w; height = h; size_configured = true },
        put key_position b.position (put key_size (sprintf_pair w h) s),
      )
      else (b, s)

  unfoldable pub save_geometry : ℤ → ℤ → ℤ → ℤ → DevBrowser → State → DevBrowser × State
  unfolding save_position save_size
  save_geometry x y w h b s = let (b1, s1) = save_position x y b s in save_size w h b1 s1
