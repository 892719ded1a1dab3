-- ===== src/Profiles/Locked.antt =====
-- Whether a running Chrome holds a profile (context.go), and whether a process lives
-- (process_unix.go). The look-up of a process and the signal are parameters.
use devbrowser.Prelude.{
  ℕ, ◌≡◌, Bool, true, false, not, ◌&&◌, ◌||◌, Option, none, some, if◌then◌else◌, ℤ, arith, refl,
}
use devbrowser.Text.{Text, has_prefix}
use devbrowser.Profiles.{Entry, lock_owner, is_stale, is_removed, profile_prefix, older}

-- The errors of `os.FindProcess` and of the signal 0.
pub record Processes : Type 0 where
  pub find_error : ℤ → Option Text
  pub signal_error : ℤ → Option Text

abbrev pub lives : Option Text → Option Text → Bool
lives (some e) signalled = false
lives none (some e) = false
lives none none = true

unfoldable pub process_alive : Processes → ℤ → Bool
process_alive processes pid = lives (processes.find_error pid) (processes.signal_error pid)

-- A lock whose owner cannot be read counts as held.
abbrev pub held_by : (ℤ → Bool) → ℤ × Bool × Bool → Bool
held_by alive (pid, has_lock, readable) =
    if not has_lock then false else (not readable || alive pid)

-- The argument is the target of the lock, if there is one.
unfoldable pub profile_locked : Processes → Option Text → Bool
unfolding process_alive lock_owner
profile_locked processes target = held_by (process_alive processes) (lock_owner target)

stale_by : (ℤ → Bool) → Bool → ℤ × Bool × Bool → Bool
stale_by alive old (pid, has_lock, readable) = if has_lock then readable && not (alive pid) else old

held_or_stale :
    (alive : ℤ → Bool) (old : Bool) (o : ℤ × Bool × Bool)
    → held_by alive o ≡ true
    → stale_by alive old o ≡ false
unfolding stale_by
held_or_stale alive old (pid, true, true) h = ground arith
held_or_stale alive old (pid, true, false) h = refl
held_or_stale alive old (pid, false, readable) h = cc

refused : (a s r : Bool) → s ≡ false → (a && (s && r)) ≡ false
refused true false r h = refl
refused false s r h = refl
refused true true r h = cc

-- A profile that counts as held when a browser is started is never removed by the clean-up, with
-- the same processes, at any time and with any grace.
pub profile_locked-is_removed :
    (processes : Processes) (now grace : ℕ) (e : Entry)
    → profile_locked processes e.lock_target ≡ true
    → is_removed (process_alive processes) now grace e ≡ false
unfolding profile_locked is_removed is_stale stale_by
profile_locked-is_removed processes now grace e h =
    refused (e.is_dir && has_prefix e.name profile_prefix) _ e.removable (
      held_or_stale (process_alive processes) (older now grace e.mod_time)
        (lock_owner e.lock_target) h)
