-- ===== src/Tests/Sweeps.antt =====
-- The theorems on the clean-up of profiles at concrete inputs.
use devbrowser.Prelude.{
  ◌≡◌, refl, Bool, true, false, if◌then◌else◌, none, some, [], ◌∷◌, ◌++◌, ℤ, pos, arith, Succeeds,
  eq_ℤ,
}
use devbrowser.Text.{codes}
use devbrowser.Text.Decimal.{itoa, atoi}
use devbrowser.Profiles.{Entry, clean_stale, listed, is_removed}
use devbrowser.Profiles.Locked.{Processes, process_alive, profile_locked, profile_locked-is_removed}
use devbrowser.Profiles.Safety.{Holds, clean_stale_live}

-- Process 42 lives.
abbrev alive : ℤ → Bool
alive pid = eq_ℤ pid (pos 42)

abbrev profile : Entry
profile = record {
  name = codes "chromedp-runner1";
  is_dir = true;
  lock_target = none;
  mod_time = some 0;
  size = pos 10;
  removable = true;
}

abbrev live_profile : Entry
live_profile = record profile { lock_target = some (codes "my-host-42") }

abbrev dead_profile : Entry
dead_profile = record profile { lock_target = some (codes "my-host-7") }

clean_stale_live_example :
    Succeeds
      (clean_stale alive 900000000000
        (pos 0)
        (listed ((dead_profile ∷ []) ++ live_profile ∷ profile ∷ [])))
      (λ s. Holds live_profile s.kept)
unfolding itoa
clean_stale_live_example =
    clean_stale_live alive 900000000000 (pos 0) (dead_profile ∷ []) (profile ∷ []) live_profile
      (codes "my-host") 42 refl (omega arith) refl

-- Process 42 takes a signal, no other one can be found.
abbrev running : Processes
running = record {
  find_error = λ pid. if eq_ℤ pid (pos 42) then none else some (codes "not found");
  signal_error = λ pid. none;
}

profile_locked-is_removed_example :
    is_removed (process_alive running) 900000000000 600000000000 live_profile ≡ false
unfolding profile_locked process_alive atoi
profile_locked-is_removed_example =
    profile_locked-is_removed running 900000000000 600000000000 live_profile refl
