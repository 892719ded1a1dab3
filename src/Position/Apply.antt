-- ===== src/Position/Apply.antt =====
-- What `SetBrowserPositionAndSize` does to the browser and the store.
use devbrowser.Prelude.{
  ◌≡◌, ◌≢◌, ◌⊎◌, inl, inr, refl, Option, none, some, ℤ, Result, ok, err, InRange, arith,
}
use devbrowser.Text.{Text}
use devbrowser.Text.Decimal.{itoa, atoi-itoa}
use devbrowser.Browser.{DevBrowser}
use devbrowser.Config.{Store, save_config}
use devbrowser.Position.{
  Parts, get_browser_position_and_size, saved, set_parts, set_browser_position_and_size,
}
use devbrowser.Position.Parse.{IsParsed, get_browser_position_and_size-IsParsed}

module _ (store : Store) (atoi_failure : Text → ℤ × Text) (b : DevBrowser) (s : store.State) where
  -- The text was refused, and nothing was changed.
  pub record IsRefused (r : Option Text × DevBrowser × store.State) : Type 0 where
    pub error : r.0 ≢ none
    pub browser : r.1 ≡ b
    pub stored : r.2 ≡ s

  -- Position, width and height were all assigned, nothing else was, and `SaveConfig` ran on that.
  pub record IsApplied (r : Option Text × DevBrowser × store.State) : Type 0 where
    pub p : Text
    pub w : ℤ
    pub h : ℤ
    pub browser : r.1 ≡ record b { position = p; width = w; height = h }
    pub stored : r.2 ≡ (save_config store (record b { position = p; width = w; height = h }) s).1
    pub error :
        ((r.0 ≡ none)
          × ((save_config store (record b { position = p; width = w; height = h }) s).0 ≡ none))
        ⊎ ((r.0 ≢ none)
            × ((save_config store (record b { position = p; width = w; height = h }) s).0 ≢ none))

  applied :
      (p : Text) (w h : ℤ)
      → InRange w
      → InRange h
      → IsApplied (set_parts store atoi_failure b (ok (p, itoa w, itoa h)) s)
  unfolding set_parts
  applied p w h w_range h_range =
      let e : set_parts store atoi_failure b (ok (p, itoa w, itoa h)) s
          ≡ saved store atoi_failure (record b { position = p; width = w; height = h })
              (save_config store (record b { position = p; width = w; height = h }) s) =
        ground (arith, atoi-itoa w w_range, atoi-itoa h h_range) in
      rw e (go (save_config store (record b { position = p; width = w; height = h }) s) refl)
    where
      go :
          (r : Option Text × store.State)
          → save_config store (record b { position = p; width = w; height = h }) s ≡ r
          → IsApplied
              (saved store atoi_failure (record b { position = p; width = w; height = h }) r)
      go (none, s') e = record {
        p = p;
        w = w;
        h = h;
        browser = refl;
        stored = cc;
        error = inl (refl, ground arith);
      }
      go (some m, s') e = record {
        p = p;
        w = w;
        h = h;
        browser = refl;
        stored = cc;
        error = inr (cc, ground arith);
      }

  outcome :
      (parsed : Result Parts)
      → ((parts : Parts) → parsed ≡ ok parts → IsParsed parts)
      → IsRefused (set_parts store atoi_failure b parsed s)
        ⊎ IsApplied (set_parts store atoi_failure b parsed s)
  outcome (err e) sound =
      inl (unfold set_parts in record { error = cc; browser = refl; stored = refl })
  outcome (ok (p, width, height)) sound =
      let parsed = sound (p, width, height) refl in
      inr (
        rw (parsed.width, parsed.height)
          (applied p parsed.w parsed.h parsed.w_range parsed.h_range))

  -- Whatever the text: it is refused, and nothing is changed, or position, width and height are
  -- all assigned together and saved, an error being reported exactly when saving failed.
  pub set_browser_position_and_size_atomic :
      (config : Text)
      → IsRefused (set_browser_position_and_size store atoi_failure config b s)
        ⊎ IsApplied (set_browser_position_and_size store atoi_failure config b s)
  unfolding set_browser_position_and_size
  set_browser_position_and_size_atomic config =
      outcome (get_browser_position_and_size config) (get_browser_position_and_size-IsParsed config)
