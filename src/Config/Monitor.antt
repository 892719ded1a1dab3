-- ===== src/Config/Monitor.antt =====
-- The goroutine that saves the bounds of the window (`monitorBrowserGeometry` of
-- monitor_geometry.go).
use devbrowser.Prelude.{
  ◌≡◌, Option, none, some, List, [], ◌∷◌, if◌then◌else◌, if_either, Option_either, ℤ,
}
use devbrowser.Text.{Text}
use devbrowser.Browser.{DevBrowser}
use devbrowser.Config.{Store, IsStore, save_geometry}
use devbrowser.Config.Sync.{IsSynced, save_geometry-IsSynced}

-- The position and the size that Chrome reports.
pub record Bounds : Type 0 where
  pub x : ℤ
  pub y : ℤ
  pub width : ℤ
  pub height : ℤ

-- What the loop selects: the context is done, or a tick, with the bounds unless their query fails.
pub data Tick : Type 0 where
  context_done : Tick
  ticked : Option Bounds → Tick

module _ (store : Store) where
  open store use {State}

  unfoldable pub check_and_save_geometry : Option Bounds → DevBrowser × State → DevBrowser × State
  unfolding save_geometry
  check_and_save_geometry none (b, s) = (b, s)
  check_and_save_geometry (some r) (b, s) = elim b.ctx [
    | none ↦ (b, s)
    | some c ↦ save_geometry store r.x r.y r.width r.height b s
  ]

  unfoldable pub watch : List Tick → DevBrowser × State → DevBrowser × State
  unfolding check_and_save_geometry
  watch [] state = state
  watch (context_done ∷ ticks) state = state
  watch (ticked report ∷ ticks) state = watch ticks (check_and_save_geometry report state)

  -- Over the ticks that come.
  unfoldable pub monitor_browser_geometry : List Tick → DevBrowser × State → DevBrowser × State
  unfolding watch
  monitor_browser_geometry ticks (b, s) = elim b.ctx [
    | none ↦ (b, s)
    | some c ↦ if b.is_open_flag then watch ticks (b, s) else (b, s)
  ]

module _ (store : Store) (laws : IsStore store)
    (sets : (k v : Text) (s : store.State) → (store.set k v s).0 ≡ none) where
  open store use {State}

  abbrev Synced : DevBrowser × State → Type 0
  Synced state = IsSynced store state.0 state.1

  check-Synced :
      (report : Option Bounds) (state : DevBrowser × State)
      → Synced state
      → Synced (check_and_save_geometry store report state)
  unfolding check_and_save_geometry
  check-Synced none (b, s) h = h
  check-Synced (some r) (b, s) h =
      Option_either Synced b.ctx _ _ h
        (λ c. save_geometry-IsSynced store laws sets r.x r.y r.width r.height b s h)

  watch-Synced :
      (ticks : List Tick) (state : DevBrowser × State)
      → Synced state
      → Synced (watch store ticks state)
  unfolding watch
  watch-Synced [] state h = h
  watch-Synced (context_done ∷ ticks) state h = h
  watch-Synced (ticked report ∷ ticks) state h =
      watch-Synced ticks (check_and_save_geometry store report state) (check-Synced report state h)

  -- Over a store whose writes succeed, the goroutine keeps the stored position and size in step with
  -- the state, whatever bounds Chrome reports, and however often, until its context is done.
  pub monitor_browser_geometry-IsSynced :
      (ticks : List Tick) (b : DevBrowser) (s : State)
      → IsSynced store b s
      → IsSynced store
          (monitor_browser_geometry store ticks (b, s)).0
          (monitor_browser_geometry store ticks (b, s)).1
  unfolding monitor_browser_geometry
  monitor_browser_geometry-IsSynced ticks b s h =
      Option_either Synced b.ctx _ _ h
        (λ c. if_either Synced b.is_open_flag _ _ (watch-Synced ticks (b, s) h) h)
