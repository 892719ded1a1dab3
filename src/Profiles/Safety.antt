-- ===== src/Profiles/Safety.antt =====
-- No profile directory that is in use is swept.
use devbrowser.Prelude.{
  ℕ, ◌+◌, ◌-◌, ◌≤◌, ◌≡◌, refl, Bool, true, false, none, some, List, [], ◌∷◌, ◌++◌, if◌then◌else◌, ℤ,
  pos, InRange, arith, length, length-append, append_assoc, append-nil, ap, ◌∙◌, Succeeds,
}
use devbrowser.Text.{Text, Lacks}
use devbrowser.Text.Decimal.{itoa, atoi-itoa, itoa_pos-Lacks, itoa_pos-ne-nil, is_digit}
use devbrowser.Profiles.{
  Entry, Sweep, behind_last_dash, lock_owner, is_removed, sweep, swept, clean_stale,
  effective_grace, listed, untouched,
}

behind_last_dash-Lacks : (s : Text) → Lacks b'-' s → behind_last_dash s ≡ none
unfolding behind_last_dash
behind_last_dash-Lacks [] h = refl
behind_last_dash-Lacks (c ∷ s) (hc, hs) = ground (arith, behind_last_dash-Lacks s hs, hc)

behind_last_dash-append :
    (host s : Text) → Lacks b'-' s → behind_last_dash (host ++ b'-' ∷ s) ≡ some s
unfolding behind_last_dash
behind_last_dash-append [] s h = ground (arith, behind_last_dash-Lacks s h)
behind_last_dash-append (c ∷ host) s h = ground (arith, behind_last_dash-append host s h)

module _ (alive : ℤ → Bool) (now grace : ℕ) where
  -- The entries that a sweep leaves.
  spared : List Entry → List Entry
  spared [] = []
  spared (e ∷ es) = let rest = spared es in if is_removed alive now grace e then rest else e ∷ rest

  spared-append : (xs ys : List Entry) → spared (xs ++ ys) ≡ spared xs ++ spared ys
  unfolding spared
  spared-append [] ys = refl
  spared-append (e ∷ xs) ys = ground (arith, spared-append xs ys)

  kept-sweep :
      (es : List Entry) (s : Sweep) → (sweep alive now grace es s).kept ≡ s.kept ++ spared es
  unfolding sweep spared
  kept-sweep [] s = rw append-nil
  kept-sweep (e ∷ es) s =
      kept-sweep es (swept (is_removed alive now grace e) e s) ∙ go (is_removed alive now grace e)
    where
      go :
          (b : Bool)
          → (swept b e s).kept ++ spared es ≡ s.kept ++ (if b then spared es else e ∷ spared es)
      go true = refl
      go false = append_assoc s.kept (e ∷ []) (spared es)

  removed-sweep :
      (es : List Entry) (s : Sweep)
      → (sweep alive now grace es s).removed + length (sweep alive now grace es s).kept
        ≡ s.removed + length s.kept + length es
  unfolding sweep
  removed-sweep [] s = omega arith
  removed-sweep (e ∷ es) s =
      removed-sweep es (swept (is_removed alive now grace e) e s)
      ∙ go (is_removed alive now grace e)
    where
      go :
          (b : Bool)
          → (swept b e s).removed + length (swept b e s).kept + length es
            ≡ s.removed + length s.kept + length (e ∷ es)
      go true = omega arith
      go false = omega (arith, length-append s.kept (e ∷ []))

  sweep-keeps :
      (before after : List Entry) (e : Entry)
      → is_removed alive now grace e ≡ false
      → (sweep alive now grace (before ++ e ∷ after) untouched).kept
        ≡ spared before ++ e ∷ spared after
  unfolding spared
  sweep-keeps before after e stays =
      kept-sweep (before ++ e ∷ after) untouched
      ∙ spared-append before (e ∷ after)
      ∙ ap (λ (b : Bool). spared before ++ (if b then spared after else e ∷ spared after)) stays

-- The list holds the entry.
abbrev pub Holds : Entry → List Entry → Type 0
Holds e es = (xs : List Entry) × (ys : List Entry) × (es ≡ xs ++ e ∷ ys)

lock_owner_lem :
    (host : Text) (pid : ℕ)
    → InRange (pos pid)
    → lock_owner (some (host ++ b'-' ∷ itoa (pos pid))) ≡ (pos pid, true, true)
unfolding lock_owner
lock_owner_lem host pid range = ground (
  arith,
  behind_last_dash-append host (itoa (pos pid)) (itoa_pos-Lacks b'-' pid (unfold is_digit in refl)),
  itoa_pos-ne-nil pid,
  atoi-itoa (pos pid) range,
)

module _ (alive : ℤ → Bool) (now : ℕ) (grace : ℤ) (before after : List Entry) (e : Entry) where
  -- A directory whose lock names a live process, on any host name, is left in place, whatever else
  -- the root holds.
  pub clean_stale_live :
      (host : Text) (pid : ℕ)
      → e.lock_target ≡ some (host ++ b'-' ∷ itoa (pos pid))
      → InRange (pos pid)
      → alive (pos pid) ≡ true
      → Succeeds (clean_stale alive now grace (listed (before ++ e ∷ after))) (λ s. Holds e s.kept)
  unfolding clean_stale
  clean_stale_live host pid lock range live =
      let g = effective_grace grace in
      let stays : is_removed alive now g e ≡ false =
        unfold is_removed in ground (arith, lock, lock_owner_lem host pid range, live) in
      (
        spared alive now g before,
        spared alive now g after,
        sweep-keeps alive now g before after e stays,
      )

  -- A directory without a lock that is not older than the grace, which is five minutes if
  -- none is set, is left in place.
  pub clean_stale_young :
      (time : ℕ)
      → e.lock_target ≡ none
      → e.mod_time ≡ some time
      → now - time ≤ effective_grace grace
      → Succeeds (clean_stale alive now grace (listed (before ++ e ∷ after))) (λ s. Holds e s.kept)
  unfolding clean_stale
  clean_stale_young time lock modified young =
      let g = effective_grace grace in
      let stays : is_removed alive now g e ≡ false =
        unfold is_removed in ground (arith, lock, modified, young) in
      (
        spared alive now g before,
        spared alive now g after,
        sweep-keeps alive now g before after e stays,
      )

-- A sweep of a readable root counts each entry once: those that it reports as removed and those
-- that are left are as many as there were.
pub clean_stale_counts :
    (alive : ℤ → Bool) (now : ℕ) (grace : ℤ) (entries : List Entry)
    → Succeeds
        (clean_stale alive now grace (listed entries))
        (λ s. s.removed + length s.kept ≡ length entries)
unfolding clean_stale
clean_stale_counts alive now grace entries =
    removed-sweep alive now (effective_grace grace) entries untouched ∙ omega arith
