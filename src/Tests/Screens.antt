-- ===== src/Tests/Screens.antt =====
-- The theorems on screenshots and on emulation at concrete inputs.
use devbrowser.Prelude.{ℤ, ◌≡◌, refl, true, false, none, List, [], ◌∷◌, pos, arith, Returns, ok}
use devbrowser.Text.{Text, codes}
use devbrowser.Browser.{DevBrowser}
use devbrowser.Config.{load_config, save_config, saved_mode}
use devbrowser.Screenshot.{ScreenApi, PageContext}
use devbrowser.Screenshot.Emulate.{
  EmulateDeviceArgs, mode_error, device_error, args_error, emulate_device,
}
use devbrowser.Screenshot.Modes.{
  IsSupported, emulate_device-IsSupported, load_config-emulate_device,
}
use devbrowser.Screenshot.Paths.{clean_and_validate_path}
use devbrowser.Screenshot.Inside.{
  unchecked_path, InDir, clean_and_validate_path-unchecked_path, clean_and_validate_path-InDir,
}
use devbrowser.Screenshot.Save.{
  SaveScreenshotArgs, save_screenshot, IsAllowed, save_screenshot-IsAllowed,
}
use devbrowser.Tests.Sessions.{calm, running}
use devbrowser.Tests.Stores.{map_store, map_store-IsStore, nothing_stored}

abbrev start_page : PageContext
start_page = record {
  title = codes "Start";
  url = codes "http://localhost/";
  width = pos 800;
  height = pos 600;
  html_structure = codes "body";
}

-- A page that is always there, over a disk without the file. The world is the list of the files
-- that were written.
abbrev screen : ScreenApi
screen = record {
  World = List Text;
  full_screenshot = λ c w. (ok (137 ∷ []), w);
  viewport_screenshot = λ c w. (ok (137 ∷ []), w);
  element_screenshot = λ c selector w. (ok (137 ∷ []), w);
  page_context = λ c w. ((start_page, none), w);
  element_context = λ c w. ((start_page, none), w);
  getwd = λ w. ok (codes "/home");
  exists = λ path w. false;
  mkdir_all = λ path w. (none, w);
  write_file = λ path bytes w. (none, path ∷ w);
  tilde = λ path. path;
}

abbrev to_tablet : EmulateDeviceArgs
to_tablet = record { mode = codes "tablet"; device = []; capture = true; selector = [] }

emulate_device-IsSupported_example :
    Returns
      (emulate_device calm map_store screen (ok to_tablet) (running, nothing_stored, []))
      (λ r. IsSupported [] r.1.0.browser)
unfolding mode_error device_error
emulate_device-IsSupported_example =
    emulate_device-IsSupported calm map_store screen (ok to_tablet) running nothing_stored []
      (record { n = 0; ui = refl; mode = refl; device = refl })

load_config-emulate_device_example :
    Returns
      (emulate_device calm map_store screen (ok to_tablet) (running, nothing_stored, []))
      (λ r.
        (b : DevBrowser)
        → (load_config map_store b r.1.1).0.viewport_mode ≡ saved_mode map_store (codes "tablet"))
unfolding args_error save_config
load_config-emulate_device_example =
    load_config-emulate_device calm map_store screen map_store-IsStore to_tablet running
      nothing_stored [] 0 refl refl refl (cc) (omega arith) (omega arith)

clean_and_validate_path-unchecked_path_example :
    clean_and_validate_path (ok (codes "/home")) (codes "docs/./img") (codes "button")
    ≡ unchecked_path (ok (codes "/home")) (codes "docs/./img") (codes "button")
clean_and_validate_path-unchecked_path_example =
    clean_and_validate_path-unchecked_path (ok (codes "/home")) (codes "docs/./img")
      (codes "button") refl

clean_and_validate_path-InDir_example :
    InDir
      (codes "button")
      (clean_and_validate_path (ok (codes "/home")) (codes "docs/./img") (codes "button"))
clean_and_validate_path-InDir_example =
    clean_and_validate_path-InDir (ok (codes "/home")) (codes "docs/./img") (codes "button") refl

accepts :
    clean_and_validate_path (ok (codes "/home")) (codes "docs/./img") (codes "button")
    ≡ ok (codes "/home/docs/img/button.png")
unfolding clean_and_validate_path
accepts = refl

abbrev to_docs : SaveScreenshotArgs
to_docs = record {
  directory = codes "docs";
  name = codes "button";
  selector = [];
  fullpage = true;
  overwrite = false;
}

save_screenshot-IsAllowed_example : IsAllowed screen to_docs running []
unfolding save_screenshot
save_screenshot-IsAllowed_example =
    save_screenshot-IsAllowed screen to_docs running []
      (codes
        "Screenshot saved to: /home/docs/button.png\nDimensions: 800x600\nEmulation Mode: off\n")
      refl

abbrev to_phone : EmulateDeviceArgs
to_phone = record { mode = codes "mobile"; device = []; capture = false; selector = [] }

abbrev phone_size : Text → ℤ × ℤ
phone_size name = (pos 375, pos 812)
