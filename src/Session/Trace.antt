-- ===== src/Session/Trace.antt =====
-- The order of the calls: no reload of a browser context before its browser was started. A reload
-- on a context whose browser was not started makes `chromedp` start a second browser.
use devbrowser.Prelude.{
  ℕ, ◌≡◌, refl, ◌∙◌, ap, Bool, true, false, ◌&&◌, ◌||◌, Option, none, some, List, [], ◌∷◌, ◌++◌,
  ◌==◌, ==_iff, if◌then◌else◌, arith, append_assoc, append-nil,
}
use devbrowser.Text.{Text}
use devbrowser.Browser.{DevBrowser}
use devbrowser.Session.{Chrome, Session, Call, start, reload, tell, ask, update, logged}

starts : ℕ → Call → Bool
starts c (start d) = c == d
starts c _ = false

pub is_started : ℕ → List Call → Bool
unfolding starts
is_started c [] = false
is_started c (x ∷ xs) = starts c x || is_started c xs

allowed : List Call → Call → Bool
unfolding is_started
allowed past (reload c) = is_started c past
allowed past _ = true

safe_after : List Call → List Call → Bool
unfolding allowed
safe_after past [] = true
safe_after past (x ∷ xs) = allowed past x && safe_after (past ++ x ∷ []) xs

-- Each reload stands behind the start of its context.
unfoldable pub safe : List Call → Bool
unfolding safe_after
safe = safe_after []

abbrev pub IsQuiet : Call → Type 0
IsQuiet (reload c) = ⊥
IsQuiet _ = Unit

safe_after-append :
    (past xs ys : List Call)
    → safe_after past (xs ++ ys) ≡ (safe_after past xs && safe_after (past ++ xs) ys)
unfolding safe_after
safe_after-append past [] ys = rw append-nil
safe_after-append past (x ∷ xs) ys =
    ground (arith, safe_after-append (past ++ x ∷ []) xs ys, append_assoc past (x ∷ []) xs)

allowed-IsQuiet : (past : List Call) (x : Call) → IsQuiet x → allowed past x ≡ true
unfolding allowed
allowed-IsQuiet past (reload c) h = absurd h
allowed-IsQuiet past _ h = refl

is_started-append :
    (c : ℕ) (xs ys : List Call) → is_started c (xs ++ ys) ≡ (is_started c xs || is_started c ys)
unfolding is_started
is_started-append c [] ys = refl
is_started-append c (x ∷ xs) ys = ground (arith, is_started-append c xs ys)

pub is_started-start : (c : ℕ) (xs : List Call) → is_started c (xs ++ start c ∷ []) ≡ true
unfolding is_started
is_started-start c xs = ground (arith, is_started-append c xs (start c ∷ []), (==_iff c c).1 refl)

pub safe-quiet :
    (xs : List Call) (x : Call) → IsQuiet x → safe xs ≡ true → safe (xs ++ x ∷ []) ≡ true
unfolding safe
safe-quiet xs x q h = ground (arith, safe_after-append [] xs (x ∷ []), allowed-IsQuiet xs x q)

pub safe-reload :
    (xs : List Call) (c : ℕ) → safe (xs ++ reload c ∷ []) ≡ (safe xs && is_started c xs)
unfolding safe
safe-reload xs c = ground (arith, safe_after-append [] xs (reload c ∷ []))

abbrev pub is_set {ℓ} : {A : Type ℓ} → Option A → Bool
is_set none = false
is_set (some a) = true

-- The calls are in a safe order, and there are a user interface and a logger.
pub record IsAttended (s : Session) : Type 0 where
  pub trace : safe s.calls ≡ true
  pub ui : is_set s.browser.ui ≡ true
  pub log : is_set s.browser.log ≡ true

-- `s'` comes from `s` by steps that reload nothing and keep the context and the readiness.
pub record Quiet (s s' : Session) : Type 0 where
  pub attended : IsAttended s → IsAttended s'
  pub started : (c : ℕ) → is_started c s.calls ≡ true → is_started c s'.calls ≡ true
  pub ctx : s'.browser.ctx ≡ s.browser.ctx
  pub ready : s'.browser.ready ≡ s.browser.ready

pub Quiet-refl : (s : Session) → Quiet s s
Quiet-refl s = record { attended = λ h. h; started = λ c h. h; ctx = refl; ready = refl }

pub Quiet-trans : (s t u : Session) → Quiet s t → Quiet t u → Quiet s u
Quiet-trans s t u p q = record {
  attended = λ h. q.attended (p.attended h);
  started = λ c h. q.started c (p.started c h);
  ctx = q.ctx ∙ p.ctx;
  ready = q.ready ∙ p.ready;
}

pub started-tell :
    (x : Call) (c : ℕ) (s : Session)
    → is_started c s.calls ≡ true
    → is_started c (tell x s).calls ≡ true
unfolding tell
started-tell x c s h = ground (arith, is_started-append c s.calls (x ∷ []))

pub tell-Quiet : (x : Call) (s : Session) → IsQuiet x → Quiet s (tell x s)
unfolding tell
tell-Quiet x s q = record {
  attended = λ h. record { trace = safe-quiet s.calls x q h.trace; ui = h.ui; log = h.log };
  started = λ c h. started-tell x c s h;
  ctx = refl;
  ready = refl;
}

pub ask-Quiet : (chrome : Chrome) (x : Call) (s : Session) → IsQuiet x → Quiet s (ask chrome x s).1
unfolding ask
ask-Quiet chrome x s q = tell-Quiet x s q

pub logged-Quiet : (m : List Text) (s : Session) → Quiet s (logged m s)
unfolding logged
logged-Quiet m s = record {
  attended =
      λ h. record { trace = h.trace; ui = ground (arith, h.ui); log = ground (arith, h.log) };
  started = λ c h. h;
  ctx = ground arith;
  ready = ground arith;
}

pub update-Quiet :
    (f : DevBrowser → DevBrowser) (s : Session)
    → (f s.browser).ctx ≡ s.browser.ctx
    → (f s.browser).ready ≡ s.browser.ready
    → (f s.browser).ui ≡ s.browser.ui
    → (f s.browser).log ≡ s.browser.log
    → Quiet s (update f s)
update-Quiet f s ec er eu el = record {
  attended = λ h. record {
    trace = h.trace;
    ui = ap (λ (o : Option ℕ). is_set o) eu ∙ h.ui;
    log = ap (λ (o : Option (List (List Text))). is_set o) el ∙ h.log;
  };
  started = λ c h. h;
  ctx = ec;
  ready = er;
}

pub if-Quiet :
    (b : Bool) (s : Session) (t u : Option Text × Session)
    → Quiet s t.1
    → Quiet s u.1
    → Quiet s (if b then t else u).1
if-Quiet true s t u p q = p
if-Quiet false s t u p q = q
