-- ===== src/Tests/Disks.antt =====
-- The theorem on the file of preferences at a concrete input.
use devbrowser.Prelude.{arith, none, some, [], if◌then◌else◌, ok}
use devbrowser.Text.{Text, codes, text_eq, text_eq_refl, text_eq_iff}
use devbrowser.Profiles.Directory.{
  Disk, ReadFile, content, missing, prefs_path, mark_profile_exited_cleanly,
}
use devbrowser.Profiles.Whole.{IsDisk, Whole, mark_profile_exited_cleanly-Whole}

-- A map from paths to files, in which every call succeeds. Every file decodes to an empty object.
abbrev map_disk : Disk
map_disk = record {
  World = Text → ReadFile;
  Value = Text;
  read = λ p w. w p;
  write = λ p t w. (none, λ q. if text_eq q p then content t else w q);
  rename = λ p q w. (none, λ x. if text_eq x q then w p else w x);
  mkdir_all = λ p w. (none, w);
  user_cache_dir = λ w. ok (codes "/home/cache");
  getwd = λ w. ok (codes "/home");
  sha256_hex = λ s. codes "0123456789abcdef";
  text_value = λ t. t;
  bool_value = λ b. if b then codes "true" else codes "false";
  object_value = λ object. codes "{}";
  as_object = λ v. none;
  decode = λ raw. ok (some []);
  encode = λ object. ok (codes "{\"profile\":{}}");
}

map_disk-IsDisk : IsDisk map_disk
map_disk-IsDisk = record {
  write_ne = λ p q t w ne. ground (arith, text_eq_iff q p);
  write_self = λ p t w e. ground (arith, text_eq_refl p);
  rename_done = λ p q w e. ground (arith, text_eq_refl q);
  rename_failed = λ p q w x e. absurd (cc);
}

abbrev crashed : Text → ReadFile
crashed p =
    if text_eq p (codes "/home/p/Default/Preferences") then content (codes "{}") else missing

mark_profile_exited_cleanly-Whole_example :
    Whole map_disk map_disk-IsDisk
      (prefs_path map_disk (codes "/home/p"))
      crashed
      (mark_profile_exited_cleanly map_disk (codes "/home/p") crashed)
mark_profile_exited_cleanly-Whole_example =
    mark_profile_exited_cleanly-Whole map_disk map_disk-IsDisk (codes "/home/p") crashed
