-- ===== src/Profiles/Directory.antt =====
-- The persistent profile directory (profile_dir.go) and the executable of Chrome (execpath.go).
use devbrowser.Prelude.{
  Bool, true, Option, none, some, List, [], ◌∷◌, ◌++◌, if◌then◌else◌, Result, ok, err, Outcome,
  done, panic, take,
}
use devbrowser.Text.{Text, codes, text_eq}
use devbrowser.Browser.{DevBrowser}
use devbrowser.Text.Paths.{join_paths, abs}

-- What a read of a file answers: an error of its own stands for a file that is missing.
pub data ReadFile : Type 0 where
  content : Text → ReadFile
  missing : ReadFile
  unreadable : Text → ReadFile

-- The calls of `os`, of `encoding/json` on objects, which are lists of keys and values, and of
-- `crypto/sha256`. A JSON `null` decodes to no object.
pub record Disk : Type 1 where
  pub World : Type 0
  pub Value : Type 0
  pub read : Text → World → ReadFile
  pub write : Text → Text → World → Option Text × World
  -- the old name and the new one
  pub rename : Text → Text → World → Option Text × World
  pub mkdir_all : Text → World → Option Text × World
  pub user_cache_dir : World → Result Text
  pub getwd : World → Result Text
  pub sha256_hex : Text → Text
  pub text_value : Text → Value
  pub bool_value : Bool → Value
  pub object_value : List (Text × Value) → Value
  pub as_object : Value → Option (List (Text × Value))
  pub decode : Text → Result (Option (List (Text × Value)))
  pub encode : List (Text × Value) → Result Text

abbrev pub tmp_path : Text → Text
tmp_path path = path ++ codes ".tmp"

module _ (disk : Disk) where
  open disk use {World, Value}

  -- A new key goes to the end.
  set_key : Text → Value → List (Text × Value) → List (Text × Value)
  unfolding text_eq
  set_key k v [] = (k, v) ∷ []
  set_key k v ((j, x) ∷ object) =
      let rest = set_key k v object in if text_eq k j then (k, v) ∷ object else (j, x) ∷ rest

  look_up : Text → List (Text × Value) → Option Value
  unfolding text_eq
  look_up k [] = none
  look_up k ((j, x) ∷ object) = let rest = look_up k object in if text_eq k j then some x else rest

  -- The object of the profile, or a new one.
  profile_object : Option Value → List (Text × Value)
  profile_object none = []
  profile_object (some v) = elim (disk.as_object v) [ none ↦ [] | some object ↦ object ]

  pub with_clean_exit : List (Text × Value) → List (Text × Value)
  unfolding set_key look_up profile_object
  with_clean_exit prefs =
      set_key (codes "profile")
        (disk.object_value (
          set_key (codes "exited_cleanly") (disk.bool_value true) (
            set_key (codes "exit_type") (disk.text_value (codes "Normal"))
              (profile_object (look_up (codes "profile") prefs)))))
        prefs

  unfoldable pub prefs_path : Text → Text
  unfolding join_paths
  prefs_path dir = join_paths dir (codes "Default/Preferences")

  unfoldable pub renamed : Text → Option Text × World → Option Text × World
  renamed path (some e, w) = (some e, w)
  renamed path (none, w) = disk.rename (tmp_path path) path w

  unfoldable pub encoded : Text → Result Text → World → Option Text × World
  unfolding renamed
  encoded path (err e) w = (some e, w)
  encoded path (ok out) w = renamed path (disk.write (tmp_path path) out w)

  -- A write to a nil map panics.
  unfoldable pub decoded :
      Text → Result (Option (List (Text × Value))) → World → Outcome (Option Text × World)
  unfolding encoded
  decoded path (err e) w = done (some e, w)
  decoded path (ok none) w = panic
  decoded path (ok (some prefs)) w = done (encoded path (disk.encode (with_clean_exit prefs)) w)

  unfoldable pub marked_file : Text → ReadFile → World → Outcome (Option Text × World)
  unfolding decoded
  marked_file path missing w = done (none, w)
  marked_file path (unreadable e) w = done (some e, w)
  marked_file path (content raw) w = decoded path (disk.decode raw) w

  unfoldable pub mark_profile_exited_cleanly : Text → World → Outcome (Option Text × World)
  unfolding marked_file prefs_path
  mark_profile_exited_cleanly dir w = marked_file (prefs_path dir) (disk.read (prefs_path dir) w) w

  dir_below : Text → Result Text → Result Text
  unfolding join_paths
  dir_below cache (err e) = err (codes "absolute root: " ++ e)
  dir_below cache (ok root) =
      ok (join_paths cache (codes "webtyp/devbrowser/profiles/" ++ take 12 (disk.sha256_hex root)))

  dir_in : Result Text → Result Text → Result Text
  unfolding dir_below
  dir_in (err e) root = err (codes "user cache dir: " ++ e)
  dir_in (ok cache) root = dir_below cache root

  unfoldable pub profile_dir : Text → World → Result Text
  unfolding dir_in abs
  profile_dir root w = dir_in (disk.user_cache_dir w) (abs (disk.getwd w) root)

  made : Text → Option Text × World → DevBrowser → DevBrowser × World
  made dir (some e, w) b = (record b { profile_fallback_reason = codes "mkdir: " ++ e }, w)
  made dir (none, w) b = (record b { profile_dir = dir }, w)

  with_dir : Result Text → DevBrowser → World → DevBrowser × World
  unfolding made
  with_dir (err e) b w = (record b { profile_fallback_reason = e }, w)
  with_dir (ok dir) b w = made dir (disk.mkdir_all dir w) b

  -- The option `WithProfile`
  unfoldable pub with_profile : Text → DevBrowser → World → DevBrowser × World
  unfolding with_dir profile_dir
  with_profile root b w = with_dir (profile_dir root w) b w

-- The candidates of Unix, other than macOS, in their order.
abbrev candidates : List Text
candidates =
    codes "google-chrome"
    ∷ codes "google-chrome-stable"
    ∷ codes "google-chrome-beta"
    ∷ codes "google-chrome-unstable"
    ∷ codes "chromium"
    ∷ codes "chromium-browser"
    ∷ codes "headless-shell"
    ∷ codes "headless_shell"
    ∷ codes "/usr/bin/google-chrome"
    ∷ codes "/usr/local/bin/chrome"
    ∷ codes "/snap/bin/chromium"
    ∷ codes "chrome"
    ∷ []

-- `exec.LookPath`, none on an error, and whether a run with `--version` succeeds.
module _ (look_path : Text → Option Text) (is_valid : Text → Bool) where
  valid_path : Option Text → Option Text
  valid_path none = none
  valid_path (some path) = if is_valid path then some path else none

  first_valid : List Text → Text
  unfolding valid_path
  first_valid [] = codes "google-chrome"
  first_valid (name ∷ names) = elim (valid_path (look_path name)) [
    | some path ↦ path
    | none ↦ first_valid names
  ]

  -- The environment variable is empty if it is not set.
  unfoldable pub resolve_chrome_exec_path : Text → Text
  unfolding first_valid
  resolve_chrome_exec_path [] = first_valid candidates
  resolve_chrome_exec_path (c ∷ env) =
      if is_valid (c ∷ env) then c ∷ env else first_valid candidates
