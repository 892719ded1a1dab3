-- ===== src/Session/Context.antt =====
-- The launch options and the browser context (context.go).
pub mod Laws
pub mod Kept
use devbrowser.Prelude.{
  ℕ, ◌+◌, Bool, true, false, Option, none, some, List, [], ◌∷◌, ◌++◌, ℤ, if◌then◌else◌,
}
use devbrowser.Text.{Text, codes, is_empty}
use devbrowser.Browser.{DevBrowser}
use devbrowser.Browser
use devbrowser.Session.{
  Chrome, Session, Switch, flag, flag_text, window_size, user_data_dir, exec_path, new_context,
  tell, update, logged,
}
use devbrowser.Session.Close.{shutdown_chrome}

abbrev pub flag_spki_list : Text
flag_spki_list = codes "ignore-certificate-errors-spki-list"

abbrev flag_test_type : Text
flag_test_type = codes "test-type"

abbrev pub flag_auto_open : Text
flag_auto_open = codes "auto-open-devtools-for-tabs"

module _ (chrome : Chrome) where
  fixed_switches : DevBrowser → List Switch
  fixed_switches b =
      flag (codes "headless") b.headless
      ∷ flag (codes "enable-automation") false
      ∷ flag (codes "use-fake-ui-for-media-stream") true
      ∷ flag_text (codes "ozone-platform") (codes "x11")
      ∷ flag_text (codes "window-position") b.position
      ∷ window_size b.width b.height
      ∷ flag (codes "hide-crash-restore-bubble") true
      ∷ []

  dev_tools_switches : DevBrowser → List Switch
  dev_tools_switches b = if b.headless then [] else flag flag_auto_open true ∷ []

  cache_switches : DevBrowser → List Switch
  cache_switches b =
      if b.cache_enabled
      then []
      else flag (codes "disable-cache") true
        ∷ flag (codes "disable-gpu-shader-disk-cache") true
        ∷ []

  certificate_switches : DevBrowser → List Switch
  certificate_switches b =
      if is_empty b.trust_dev_cert_spki
      then []
      else flag_text flag_spki_list b.trust_dev_cert_spki ∷ flag flag_test_type true ∷ []

  abbrev marked : Option Text → DevBrowser → DevBrowser
  marked none b = b
  marked (some e) b =
      Browser.logger ((codes "browser profile: could not mark clean exit: " ++ e) ∷ []) b

  -- The profile's switch, and the browser, which notes why there is none or logs.
  profile_switches : DevBrowser → List Switch × DevBrowser
  unfolding Browser.logger
  profile_switches b =
      if is_empty b.profile_dir
      then ([], b)
      else if chrome.profile_locked b.profile_dir
      then ([], record b { profile_fallback_reason = codes "locked by another process" })
      else (user_data_dir b.profile_dir ∷ [], marked (chrome.mark_error b.profile_dir) b)

  unfoldable pub build_allocator_options : DevBrowser → List Switch × DevBrowser
  unfolding fixed_switches dev_tools_switches cache_switches certificate_switches profile_switches
  build_allocator_options b =
      let b1 = record b { dev_tools_reserved = true } in
      let (profile, b2) = profile_switches b1 in
      (
        chrome.default_switches
            ++ (fixed_switches b
                ++ (dev_tools_switches b
                    ++ (cache_switches b
                        ++ (certificate_switches b
                            ++ (profile ++ exec_path chrome.chrome_path ∷ []))))),
        b2,
      )

  -- The reason for a throwaway profile is logged once.
  report_fallback : Session → Session
  unfolding logged
  report_fallback s =
      if is_empty s.browser.profile_fallback_reason
      then s
      else update (λ b. record b { profile_fallback_reason = [] })
          (logged
            (chrome.translate (
                codes "browser"
                ∷ codes "profile"
                ∷ codes "unavailable,"
                ∷ codes "using"
                ∷ codes "a"
                ∷ codes "temporary"
                ∷ codes "one:"
                ∷ s.browser.profile_fallback_reason
                ∷ [])
              ∷ [])
            s)

  pub allocate : List Switch → Session → Session
  unfolding tell
  allocate opts s =
      let c = s.next_ctx in
      let s' = tell (new_context c opts) s in
      record s' {
        browser = record s.browser { ctx = some c; cancel = some c; alloc_cancel = some c };
        next_ctx = c + 1;
      }

  pub configured : Session → List Switch × Session
  unfolding build_allocator_options report_fallback
  configured s =
      let (opts, b) = build_allocator_options s.browser in
      (opts, report_fallback (record s { browser = b }))

  unfoldable pub create_browser_context : Session → Session
  unfolding shutdown_chrome configured allocate
  create_browser_context s =
      let (opts, s') = configured (shutdown_chrome chrome s) in allocate opts s'
