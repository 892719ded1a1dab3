-- ===== src/Profiles.antt =====
-- The clean-up of profile directories that browsers left behind (profiles.go). What the file system
-- holds is an argument; times and durations are numbers of nanoseconds.
pub mod Safety
pub mod Directory
pub mod Whole
pub mod Locked
pub mod Size
use devbrowser.Prelude.{
  ℕ, zero, suc, ◌+◌, ◌-◌, ◌*◌, Bool, true, false, not, ◌&&◌, Option, none, some, List, [], ◌∷◌,
  ◌++◌, ltb, ◌==◌, if◌then◌else◌, ℤ, pos, negsuc, add64, Result, ok, err,
}
use devbrowser.Text.{Text, codes, has_prefix}
use devbrowser.Text.Decimal.{atoi}

abbrev profile_prefix : Text
profile_prefix = codes "chromedp-runner"

-- Five minutes.
abbrev pub default_stale_grace : ℕ
default_stale_grace = 300000000000

-- An entry of the root directory: its lock's target if there is one, its modification time unless
-- it cannot be read, the bytes in it, and whether it can be removed.
pub record Entry : Type 0 where
  pub name : Text
  pub is_dir : Bool
  pub lock_target : Option Text
  pub mod_time : Option ℕ
  pub size : ℤ
  pub removable : Bool

-- What reading the root directory gives.
pub data Listing : Type 0 where
  listed : List Entry → Listing
  not_exist : Listing
  failed : Text → Listing

-- The text behind the last dash.
pub behind_last_dash : Text → Option Text
behind_last_dash [] = none
behind_last_dash (c ∷ s) = elim (behind_last_dash s) [
  | some t ↦ some t
  | none ↦ if c == b'-' then some s else none
]

abbrev owner : Option ℤ → ℤ × Bool × Bool
owner none = (pos 0, true, false)
owner (some pid) = (pid, true, true)

abbrev behind_dash : Option Text → ℤ × Bool × Bool
behind_dash none = (pos 0, true, false)
behind_dash (some []) = (pos 0, true, false)
behind_dash (some (c ∷ s)) = owner (atoi (c ∷ s))

-- The process, whether there is a lock, and whether its target can be parsed.
unfoldable pub lock_owner : Option Text → ℤ × Bool × Bool
unfolding behind_last_dash
lock_owner none = (pos 0, false, false)
lock_owner (some target) = behind_dash (behind_last_dash target)

-- A grace that is not positive stands for the default.
unfoldable pub effective_grace : ℤ → ℕ
effective_grace (pos zero) = default_stale_grace
effective_grace (pos (suc n)) = suc n
effective_grace (negsuc n) = default_stale_grace

abbrev older : ℕ → ℕ → Option ℕ → Bool
older now grace none = false
older now grace (some time) = ltb grace (now - time)

-- How far a sweep has come.
pub record Sweep : Type 0 where
  pub removed : ℕ
  pub freed : ℤ
  pub kept : List Entry

-- One entry, removed or kept.
abbrev pub swept : Bool → Entry → Sweep → Sweep
swept true e s = record s { removed = s.removed + 1; freed = add64 s.freed e.size }
swept false e s = record s { kept = s.kept ++ e ∷ [] }

module _ (alive : ℤ → Bool) (now grace : ℕ) where
  pub is_stale : Entry → Bool
  unfolding lock_owner
  is_stale e =
      let (pid, has_lock, readable) = lock_owner e.lock_target in
      if has_lock then readable && not (alive pid) else older now grace e.mod_time

  pub is_removed : Entry → Bool
  unfolding is_stale has_prefix
  is_removed e = (e.is_dir && has_prefix e.name profile_prefix) && (is_stale e && e.removable)

  pub sweep : List Entry → Sweep → Sweep
  unfolding is_removed
  sweep [] s = s
  sweep (e ∷ es) s = sweep es (swept (is_removed e) e s)

abbrev pub untouched : Sweep
untouched = record { removed = 0; freed = pos 0; kept = [] }

-- `CleanStale`, of a cleaner with this clock, this grace and this test for live processes.
unfoldable pub clean_stale : (ℤ → Bool) → ℕ → ℤ → Listing → Result Sweep
unfolding sweep effective_grace
clean_stale alive now grace (listed entries) =
    ok (sweep alive now (effective_grace grace) entries untouched)
clean_stale alive now grace not_exist = ok untouched
clean_stale alive now grace (failed e) = err e
