-- ===== src/Session/Reload/Laws.antt =====
-- What a reload does, in every state of the session.
use devbrowser.Prelude.{
  ℕ, ◌≡◌, refl, Bool, true, false, ◌&&◌, Option, none, some, List, [], ◌∷◌, ◌++◌, if◌then◌else◌,
  arith, inl, inr, Bool-cases,
}
use devbrowser.Text.{Text, codes}
use devbrowser.Browser.{DevBrowser}
use devbrowser.Session.{Chrome, Session, Call, reload, ask, tell, update, logged}
use devbrowser.Session.Trace.{
  Quiet-trans, IsAttended, update-Quiet, is_started, safe-reload, started-tell, Quiet, logged-Quiet,
}
use devbrowser.Session.Reload.{
  postpone, reload_now, reload_page, reload_error, reported, process_pending_reload,
}

-- A ready context was started.
abbrev pub Covered : Bool → Option ℕ → List Call → Type 0
Covered false ctx calls = Unit
Covered true none calls = Unit
Covered true (some c) calls = is_started c calls ≡ true

-- No reload so far could start a second browser, and none can that the session allows now.
pub record IsSafe (s : Session) : Type 0 where
  pub attended : IsAttended s
  pub covered : Covered s.browser.ready s.browser.ctx s.calls

Covered-Quiet :
    (r : Bool) (o : Option ℕ) (xs ys : List Call)
    → ((c : ℕ) → is_started c xs ≡ true → is_started c ys ≡ true)
    → Covered r o xs
    → Covered r o ys
Covered-Quiet false o xs ys f h = tt
Covered-Quiet true none xs ys f h = tt
Covered-Quiet true (some c) xs ys f h = f c h

Covered-cast :
    (r r' : Bool) (o o' : Option ℕ) (xs : List Call)
    → r' ≡ r
    → o' ≡ o
    → Covered r o xs
    → Covered r' o' xs
Covered-cast r r' o o' xs er eo h = rw (er, eo) h

pub Quiet-IsSafe : (s s' : Session) → Quiet s s' → IsSafe s → IsSafe s'
Quiet-IsSafe s s' q h = record {
  attended = q.attended h.attended;
  covered =
      Covered-cast s.browser.ready s'.browser.ready s.browser.ctx s'.browser.ctx s'.calls q.ready
        q.ctx (Covered-Quiet s.browser.ready s.browser.ctx s.calls s'.calls q.started h.covered);
}

pub update-IsSafe :
    (f : DevBrowser → DevBrowser) (s : Session)
    → (f s.browser).ctx ≡ s.browser.ctx
    → (f s.browser).ready ≡ s.browser.ready
    → (f s.browser).ui ≡ s.browser.ui
    → (f s.browser).log ≡ s.browser.log
    → IsSafe s
    → IsSafe (update f s)
update-IsSafe f s ec er eu el h = Quiet-IsSafe s (update f s) (update-Quiet f s ec er eu el) h

module _ (chrome : Chrome) where
  logged-IsSafe : (m : List Text) (s : Session) → IsSafe s → IsSafe (logged m s)
  logged-IsSafe m s h = Quiet-IsSafe s (logged m s) (logged-Quiet m s) h

  postpone-IsSafe : (s : Session) → IsSafe s → IsSafe (postpone chrome s)
  unfolding postpone
  postpone-IsSafe s h =
      logged-IsSafe _
        (update (λ b. if b.is_open_flag then record b { pending_reload = true } else b) s)
        (update-IsSafe (λ b. if b.is_open_flag then record b { pending_reload = true } else b) s
          (ground arith) (ground arith) (ground arith) (ground arith) h)

  reload_error-IsSafe : (r : Option Text × Session) → IsSafe r.1 → IsSafe (reload_error chrome r).1
  reload_error-IsSafe (none, s) h = h
  reload_error-IsSafe (some e, s) h = h

  tell_reload-IsSafe :
      (c : ℕ) (s : Session) → is_started c s.calls ≡ true → IsSafe s → IsSafe (tell (reload c) s)
  tell_reload-IsSafe c s e h = record {
    attended = record {
      trace = unfold tell in ground (arith, safe-reload s.calls c, h.attended.trace);
      ui = unfold tell in h.attended.ui;
      log = unfold tell in h.attended.log;
    };
    covered =
        unfold tell in
        Covered-Quiet s.browser.ready s.browser.ctx s.calls (s.calls ++ reload c ∷ [])
          (λ d started. unfold tell in started-tell (reload c) d s started) h.covered;
  }

  started-logged :
      (m : List Text) (c : ℕ) (s : Session)
      → is_started c s.calls ≡ true
      → is_started c (logged m s).calls ≡ true
  started-logged m c s h = (logged-Quiet m s).started c h

  reload_now-IsSafe :
      (c : ℕ) (s : Session)
      → is_started c s.calls ≡ true
      → IsSafe s
      → IsSafe (reload_now chrome c s).1
  unfolding reload_now
  reload_now-IsSafe c s e h =
      let s' = logged (codes "Reload" ∷ []) s in
      reload_error-IsSafe (ask chrome (reload c) s') (
        unfold ask in
        tell_reload-IsSafe c s' (started-logged (codes "Reload" ∷ []) c s e)
          (logged-IsSafe (codes "Reload" ∷ []) s h))

  reload_on : Option ℕ → Session → Option Text × Session
  reload_on none s = (none, postpone chrome s)
  reload_on (some c) s =
      if s.browser.ready && s.browser.is_open_flag
      then reload_now chrome c s
      else (none, postpone chrome s)

  reload_page_lem : (s : Session) → reload_page chrome s ≡ reload_on s.browser.ctx s
  unfolding reload_page reload_on
  reload_page_lem s = ground arith

  reload_on-IsSafe :
      (o : Option ℕ) (s : Session) → s.browser.ctx ≡ o → IsSafe s → IsSafe (reload_on o s).1
  unfolding reload_on
  reload_on-IsSafe none s e h = postpone-IsSafe s h
  reload_on-IsSafe (some c) s e h = elim (Bool-cases (s.browser.ready && s.browser.is_open_flag)) [
    | inl go ↦ rw go (reload_now-IsSafe c s (ground (arith, h.covered)) h)
    | inr wait ↦ rw wait (postpone-IsSafe s h)
  ]

  pub reload_page-IsSafe : (s : Session) → IsSafe s → IsSafe (reload_page chrome s).1
  reload_page-IsSafe s h = rw reload_page_lem (reload_on-IsSafe s.browser.ctx s refl h)

  reported-IsSafe : (r : Option Text × Session) → IsSafe r.1 → IsSafe (reported chrome r)
  reported-IsSafe (none, s) h = h
  reported-IsSafe (some e, s) h = logged-IsSafe _ s h

  pub process_pending_reload-IsSafe :
      (s : Session) → IsSafe s → IsSafe (process_pending_reload chrome s)
  unfolding process_pending_reload
  process_pending_reload-IsSafe s h =
      let f : DevBrowser → DevBrowser = λ b. record b { pending_reload = false } in
      let s' = update f s in
      let h' = update-IsSafe f s refl refl refl refl h in
      elim (Bool-cases s.browser.pending_reload) [
        | inl pending ↦ rw pending (
            reported-IsSafe (reload_page chrome (logged (applying ∷ []) s')) (
              reload_page-IsSafe (logged (applying ∷ []) s') (logged-IsSafe (applying ∷ []) s' h')))
        | inr idle ↦ rw idle h'
      ]
    where
      applying : Text
      applying =
          chrome.translate (codes "Applying" ∷ codes "the" ∷ codes "pending" ∷ codes "reload" ∷ [])

  postpone-Quiet : (s : Session) → Quiet s (postpone chrome s)
  unfolding postpone
  postpone-Quiet s =
      let f : DevBrowser → DevBrowser =
        λ b. if b.is_open_flag then record b { pending_reload = true } else b in
      Quiet-trans s (update f s) _
        (update-Quiet f s (ground arith) (ground arith) (ground arith) (ground arith))
        (logged-Quiet _ (update f s))

  reload_on-Quiet :
      (o : Option ℕ) (s : Session) → s.browser.ready ≡ false → Quiet s (reload_on o s).1
  unfolding reload_on
  reload_on-Quiet none s e = postpone-Quiet s
  reload_on-Quiet (some c) s e =
      let stop : (s.browser.ready && s.browser.is_open_flag) ≡ false = ground (arith, e) in
      rw stop (postpone-Quiet s)

  -- Before the browser is ready a reload is put off.
  pub reload_unready-Quiet :
      (s : Session) → s.browser.ready ≡ false → Quiet s (reload_page chrome s).1
  reload_unready-Quiet s e = rw reload_page_lem (reload_on-Quiet s.browser.ctx s e)
