-- ===== src/Page/Navigation/Laws.antt =====
-- What `browser_navigate` asks of Chrome, and when it succeeds (mcp-navigation.go).
use devbrowser.Prelude.{
  ◌⊎◌, inl, inr, Bool-cases, ℕ, ◌≡◌, refl, ap, Bool, true, false, Option, none, some, [], ◌∷◌, ◌++◌,
  append_assoc, if◌then◌else◌, Result, ok, err,
}
use devbrowser.Text.{Text, codes, contains}
use devbrowser.Capture.{browser_not_open}
use devbrowser.Session.{Chrome, Session, navigate, locate, ask, tell}
use devbrowser.Session.Open.{navigate_to_url}
use devbrowser.Models.Actions.{NavigateArgs}
use devbrowser.Page.Clicks.{is_none, is_ok}
use devbrowser.Page.Navigation.{
  Urls, target_url, located_url, current_url, told, arrived, go_to, on_args, browser_navigate,
}

-- What a navigation does on that context, if Chrome answers it with that error.
pub record IsNavigation (c : ℕ) (target : Text) (e : Option Text) (s : Session)
    (p : Result Text × Session) : Type 0 where
  -- the browser stays as it was
  pub browser : p.1.browser ≡ s.browser
  -- Chrome is sent there, and then asked for its address unless that failed
  pub calls : p.1.calls ≡ s.calls ++ navigate c target ∷ (if is_none e then locate c ∷ [] else [])
  -- the tool succeeds exactly if the navigation did, whatever the address reads back to
  pub result : is_ok p.0 ≡ is_none e

module _ (chrome : Chrome) (c : ℕ) where
  current_url-on :
      (s : Session)
      → s.browser.ctx ≡ some c
      → current_url chrome s ≡ located_url (chrome.location s.calls c) (ask chrome (locate c) s)
  unfolding current_url
  current_url-on s h =
      ap
        (λ (o : Option ℕ). elim o [
          | none ↦ (err (codes "context not initialized"), s)
          | some c' ↦ located_url (chrome.location s.calls c') (ask chrome (locate c') s)
        ])
        h

  navigate_to_url-on :
      (target : Text) (s : Session)
      → s.browser.ctx ≡ some c
      → navigate_to_url chrome target s ≡ ask chrome (navigate c target) s
  unfolding navigate_to_url
  navigate_to_url-on target s h =
      ap
        (λ (o : Option ℕ). elim o [
          | none ↦ (some (codes "context not initialized"), s)
          | some c' ↦ ask chrome (navigate c' target) s
        ])
        h

  located_url-IsNavigation :
      (e : Option Text) (target url : Text) (s : Session)
      → IsNavigation c target none s
          (told target (located_url url (e, tell (locate c) (tell (navigate c target) s))))
  unfolding tell
  located_url-IsNavigation none target url s = record {
    browser = refl;
    calls = append_assoc s.calls _ _;
    result = refl;
  }
  located_url-IsNavigation (some e) target url s = record {
    browser = refl;
    calls = append_assoc s.calls _ _;
    result = refl;
  }

  arrived-IsNavigation :
      (e : Option Text) (target : Text) (s : Session)
      → s.browser.ctx ≡ some c
      → IsNavigation c target e s (arrived chrome target (e, tell (navigate c target) s))
  unfolding arrived tell ask
  arrived-IsNavigation (some e) target s h = record { browser = refl; calls = refl; result = refl }
  arrived-IsNavigation none target s h = rw (current_url-on (tell (navigate c target) s) h) (
      located_url-IsNavigation (chrome.error (tell (navigate c target) s).calls (locate c)) target _
        s)

  pub go_to-IsNavigation :
      (target : Text) (s : Session)
      → s.browser.ctx ≡ some c
      → IsNavigation c target
          (chrome.error s.calls (navigate c target))
          s
          (go_to chrome (ok target) s)
  unfolding go_to ask
  go_to-IsNavigation target s h =
      rw (navigate_to_url-on target s h)
        (arrived-IsNavigation (chrome.error s.calls (navigate c target)) target s h)

first_branch :
    (b : Bool) (r : Result Text) (url target : Text)
    → b ≡ true
    → (if b then ok url else r) ≡ ok target
    → target ≡ url
first_branch true r url target h e = cc
first_branch false r url target h e = cc

module _ (urls : Urls) (chrome : Chrome) (c : ℕ) (args : NavigateArgs) (s : Session) where
  browser_navigate-go_to :
      s.browser.is_open_flag ≡ true
      → browser_navigate urls chrome (ok args) s
        ≡ go_to chrome (target_url urls args.url s.browser) s
  unfolding browser_navigate
  browser_navigate-go_to o =
      ap (λ b. if b then on_args urls chrome (ok args) s else (err browser_not_open, s)) o

  -- An address with a scheme is its own target.
  target_url_self :
      (target : Text)
      → target_url urls args.url s.browser ≡ ok target
      → (contains args.url (codes "://") ≡ false) ⊎ (target ≡ args.url)
  unfolding target_url
  target_url_self target e = elim (Bool-cases (contains args.url (codes "://"))) [
    | inl absolute ↦
        inr (first_branch (contains args.url (codes "://")) _ args.url target absolute e)
    | inr relative ↦ inl relative
  ]

  decided_by_target :
      (r : Result Text)
      → target_url urls args.url s.browser ≡ r
      → browser_navigate urls chrome (ok args) s ≡ go_to chrome r s
      → s.browser.ctx ≡ some c
      → ((e : Text) × (browser_navigate urls chrome (ok args) s ≡ (err e, s)))
        ⊎ ((target : Text) × (target_url urls args.url s.browser ≡ ok target)
            × ((contains args.url (codes "://") ≡ false) ⊎ (target ≡ args.url))
            × IsNavigation c target
                (chrome.error s.calls (navigate c target))
                s
                (browser_navigate urls chrome (ok args) s))
  unfolding go_to
  decided_by_target (err e) f g h = inl (e, g)
  decided_by_target (ok target) f g h =
      inr (target, f, target_url_self target f, rw g (go_to-IsNavigation chrome c target s h))

-- On an open browser with a context and with arguments that bind, `browser_navigate` asks Chrome for
-- nothing if it refuses the address, and else sends it to the target: the address itself if that
-- has a scheme. It changes nothing of the browser, asks for the address that was reached only after
-- a navigation without an error, and succeeds exactly then.
pub browser_navigate-IsNavigation :
    (urls : Urls) (chrome : Chrome) (c : ℕ) (args : NavigateArgs) (s : Session)
    → s.browser.is_open_flag ≡ true
    → s.browser.ctx ≡ some c
    → ((e : Text) × (browser_navigate urls chrome (ok args) s ≡ (err e, s)))
      ⊎ ((target : Text) × (target_url urls args.url s.browser ≡ ok target)
          × ((contains args.url (codes "://") ≡ false) ⊎ (target ≡ args.url))
          × IsNavigation c target
              (chrome.error s.calls (navigate c target))
              s
              (browser_navigate urls chrome (ok args) s))
browser_navigate-IsNavigation urls chrome c args s o h =
    decided_by_target urls chrome c args s _ refl (browser_navigate-go_to urls chrome c args s o) h
