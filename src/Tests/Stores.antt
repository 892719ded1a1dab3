-- ===== src/Tests/Stores.antt =====
-- The theorems on the store, the position text and the selections at concrete inputs.
use devbrowser.Prelude.{
  true, List, ◌≡◌, ◌⊎◌, refl, Option, none, some, [], ◌∷◌, if◌then◌else◌, ℤ, pos, negsuc, arith, ok,
}
use devbrowser.Text.{Text, codes, text_eq, text_eq_refl, text_eq_iff}
use devbrowser.Text.Decimal.{itoa}
use devbrowser.Text.Scan.{sprintf_pair}
use devbrowser.Text.Decimal.{itoa}
use devbrowser.Browser.{DevBrowser, initial}
use devbrowser.Config.{Store, IsStore, load_config, save_config}
use devbrowser.Config.Monitor.{
  Tick, ticked, context_done, monitor_browser_geometry, monitor_browser_geometry-IsSynced,
}
use devbrowser.Config.Sync.{IsSynced}
use devbrowser.Config.RoundTrip.{IsRestored, load_config-save_config}
use devbrowser.Position.{set_browser_position_and_size, get_browser_position_and_size}
use devbrowser.Position.Apply.{IsRefused, IsApplied, set_browser_position_and_size_atomic}
use devbrowser.Position.Parse.{get_browser_position_and_size_print}
use devbrowser.Selection.{Selection, History, alt_click, push}
use devbrowser.Selection.Refine.{accept, shown, push-shown}

-- A map from keys to values, in which every write succeeds.
abbrev pub map_store : Store
map_store = record {
  State = Text → Option Text;
  get = λ k s. s k;
  set = λ k v s. (none, λ j. if text_eq k j then some v else s j);
}

pub map_store-IsStore : IsStore map_store
map_store-IsStore = record {
  get-set_self = λ k v s e. ground (arith, text_eq_refl k);
  get-set_ne = λ k j v s ne. ground (arith, text_eq_iff k j);
}

abbrev pub nothing_stored : Text → Option Text
nothing_stored k = none

abbrev in_tablet_mode : DevBrowser
in_tablet_mode = record (initial none) { viewport_mode = codes "tablet"; width = pos 800 }

load_config-save_config_example :
    IsRestored map_store map_store-IsStore in_tablet_mode
      (load_config map_store
        (initial none)
        (save_config map_store in_tablet_mode nothing_stored).1).0
unfolding save_config
load_config-save_config_example =
    load_config-save_config map_store map_store-IsStore in_tablet_mode (initial none) nothing_stored
      refl (cc) (omega arith) (omega arith)

abbrev stored : Text → Option Text
stored = (save_config map_store in_tablet_mode nothing_stored).1

abbrev two_ticks : List Tick
two_ticks =
    ticked (some (record { x = pos 10; y = negsuc 4; width = pos 900; height = pos 700 }))
    ∷ ticked none
    ∷ context_done
    ∷ []

abbrev shown_tablet : DevBrowser
shown_tablet = record in_tablet_mode { ctx = some 0; is_open_flag = true }

monitor_browser_geometry-IsSynced_example :
    IsSynced map_store
      (monitor_browser_geometry map_store two_ticks (shown_tablet, stored)).0
      (monitor_browser_geometry map_store two_ticks (shown_tablet, stored)).1
unfolding save_config
monitor_browser_geometry-IsSynced_example =
    monitor_browser_geometry-IsSynced map_store map_store-IsStore (λ k v s. refl) two_ticks
      shown_tablet stored (record { position = refl; size = refl })

abbrev pub atoi_failure : Text → ℤ × Text
atoi_failure text = (pos 0, codes "invalid syntax")

set_browser_position_and_size_atomic_example :
    IsRefused map_store atoi_failure in_tablet_mode nothing_stored (
      set_browser_position_and_size map_store atoi_failure
        (codes "1930,0:800,600")
        in_tablet_mode
        nothing_stored)
    ⊎ IsApplied map_store atoi_failure in_tablet_mode nothing_stored (
        set_browser_position_and_size map_store atoi_failure
          (codes "1930,0:800,600")
          in_tablet_mode
          nothing_stored)
set_browser_position_and_size_atomic_example =
    set_browser_position_and_size_atomic map_store atoi_failure in_tablet_mode nothing_stored
      (codes "1930,0:800,600")

abbrev pub clicked : Selection
clicked = record {
  seq = 0;
  source = alt_click;
  at = pos 0;
  page_url = codes "http://localhost/";
  node_id = pos 7;
  report = codes "button";
  screenshot = none;
}

push-shown_example :
    push (shown (clicked ∷ [])) clicked
    ≡ (shown (accept (clicked ∷ []) clicked).0, (accept (clicked ∷ []) clicked).1)
push-shown_example = push-shown (clicked ∷ []) clicked

abbrev two_clicks : History
two_clicks = record {
  items = record clicked { seq = 1 } ∷ record clicked { seq = 2; node_id = pos 8 } ∷ [];
  next_seq = 2;
}

get_browser_position_and_size_print_example :
    get_browser_position_and_size (codes "1930,0:800,-600")
    ≡ ok (codes "1930,0", codes "800", codes "-600")
unfolding sprintf_pair itoa
get_browser_position_and_size_print_example =
    get_browser_position_and_size_print (codes "1930") (codes "0") (pos 800) (negsuc 599)
      (omega arith, (omega arith, (omega arith, (omega arith, tt)))) (omega arith, tt)
      (omega arith, (omega arith, (omega arith, (omega arith, tt)))) (omega arith, tt) (omega arith)
      (omega arith)
