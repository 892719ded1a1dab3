-- ===== src/Session/Context/Laws.antt =====
-- A new browser context keeps the order of the calls safe.
use devbrowser.Prelude.{
  ◌≡◌, Bool, true, false, Option, none, some, List, [], ◌∷◌, if◌then◌else◌, arith,
}
use devbrowser.Text.{Text, codes, is_empty}
use devbrowser.Browser.{DevBrowser}
use devbrowser.Browser
use devbrowser.Session.{Chrome, Session, Switch, new_context, user_data_dir}
use devbrowser.Session.Trace.{IsAttended, tell-Quiet, logged-Quiet, is_set}
use devbrowser.Session.Close.{shutdown_chrome}
use devbrowser.Session.Close.Safety.{shutdown_chrome-IsAttended}
use devbrowser.Session.Context.{
  marked, profile_switches, build_allocator_options, report_fallback, configured, allocate,
  create_browser_context,
}

module _ (chrome : Chrome) where
  -- There are a user interface and a logger.
  abbrev IsEquipped : DevBrowser → Type 0
  IsEquipped b = (is_set b.ui ≡ true) × (is_set b.log ≡ true)

  logger-IsEquipped :
      (m : List Text) (b : DevBrowser) → IsEquipped b → IsEquipped (Browser.logger m b)
  unfolding Browser.logger
  logger-IsEquipped m b h = (ground (arith, h.0), ground (arith, h.1))

  if-IsEquipped :
      (c : Bool) (t u : List Switch × DevBrowser)
      → IsEquipped t.1
      → IsEquipped u.1
      → IsEquipped (if c then t else u).1
  if-IsEquipped true t u p q = p
  if-IsEquipped false t u p q = q

  marked-IsEquipped :
      (o : Option Text) (b : DevBrowser) → IsEquipped b → IsEquipped (marked chrome o b)
  marked-IsEquipped none b h = h
  marked-IsEquipped (some e) b h = logger-IsEquipped _ b h

  profile_switches-IsEquipped :
      (b : DevBrowser) → IsEquipped b → IsEquipped (profile_switches chrome b).1
  unfolding profile_switches
  profile_switches-IsEquipped b h =
      let locked : DevBrowser = record b {
        profile_fallback_reason = codes "locked by another process";
      } in
      let kept : List Switch × DevBrowser =
        (user_data_dir b.profile_dir ∷ [], marked chrome (chrome.mark_error b.profile_dir) b) in
      if-IsEquipped (is_empty b.profile_dir) ([], b)
        (if chrome.profile_locked b.profile_dir then ([], locked) else kept) h
        (if-IsEquipped (chrome.profile_locked b.profile_dir) ([], locked) kept h
          (marked-IsEquipped (chrome.mark_error b.profile_dir) b h))

  build_allocator_options-IsEquipped :
      (b : DevBrowser) → IsEquipped b → IsEquipped (build_allocator_options chrome b).1
  unfolding build_allocator_options
  build_allocator_options-IsEquipped b h =
      profile_switches-IsEquipped (record b { dev_tools_reserved = true }) h

  if-IsAttended :
      (c : Bool) (s t : Session) → IsAttended s → IsAttended t → IsAttended (if c then s else t)
  if-IsAttended true s t p q = p
  if-IsAttended false s t p q = q

  report_fallback-IsAttended : (s : Session) → IsAttended s → IsAttended (report_fallback chrome s)
  unfolding report_fallback
  report_fallback-IsAttended s h =
      let h' = (logged-Quiet _ s).attended h in
      if-IsAttended (is_empty s.browser.profile_fallback_reason) s _ h
        (record { trace = h'.trace; ui = h'.ui; log = h'.log })

  configured-IsAttended : (s : Session) → IsAttended s → IsAttended (configured chrome s).1
  unfolding configured
  configured-IsAttended s h =
      let (hu, hl) = build_allocator_options-IsEquipped s.browser (h.ui, h.log) in
      report_fallback-IsAttended
        (record s { browser = (build_allocator_options chrome s.browser).1 })
        (record { trace = h.trace; ui = hu; log = hl })

  allocate-IsAttended :
      (opts : List Switch) (s : Session) → IsAttended s → IsAttended (allocate chrome opts s)
  unfolding allocate
  allocate-IsAttended opts s h =
      let h' = (tell-Quiet (new_context s.next_ctx opts) s tt).attended h in
      record { trace = h'.trace; ui = h'.ui; log = h'.log }

  pub create_browser_context-IsAttended :
      (s : Session) → IsAttended s → IsAttended (create_browser_context chrome s)
  unfolding create_browser_context
  create_browser_context-IsAttended s h =
      allocate-IsAttended (configured chrome (shutdown_chrome chrome s)).0
        (configured chrome (shutdown_chrome chrome s)).1
        (configured-IsAttended (shutdown_chrome chrome s) (shutdown_chrome-IsAttended chrome s h))
