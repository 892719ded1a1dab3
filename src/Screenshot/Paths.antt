-- ===== src/Screenshot/Paths.antt =====
-- The path of a screenshot (`cleanAndValidatePath` of mcp-screenshot.go).
use devbrowser.Prelude.{
  ℕ, ◌+◌, ◌-◌, Bool, false, ◌&&◌, ◌||◌, List, [], ◌∷◌, ◌++◌, map, if◌then◌else◌, ◌==◌, leb, length,
  drop, Result, ok, err,
}
use devbrowser.Text.{Text, codes, text_eq}
use devbrowser.Text.Split.{split}
use devbrowser.Text.Paths.{clean, join_paths, dir, abs}

-- `strings.ContainsAny(name, "/\\")`
unfoldable pub has_separator : Text → Bool
has_separator [] = false
has_separator (c ∷ s) = c == b'/' || (c == b'\\' || has_separator s)

pub to_lower : ℕ → ℕ
to_lower c = if leb b'A' c && leb c b'Z' then c + 32 else c

-- `strings.HasSuffix`
unfoldable pub has_suffix : Text → Text → Bool
unfolding text_eq
has_suffix s t = leb (length t) (length s) && text_eq (drop (length s - length t) s) t

unfoldable pub full_name : Text → Text
unfolding has_suffix to_lower
full_name name =
    if has_suffix (map to_lower name) (codes ".png") then name else name ++ codes ".png"

unfoldable pub has_parent_part : List Text → Bool
unfolding text_eq
has_parent_part [] = false
has_parent_part (part ∷ parts) = text_eq part (codes "..") || has_parent_part parts

unfoldable pub checked : Text → Text → Text → Result Text
unfolding dir text_eq
checked name abs_dir path =
    if text_eq (dir path) abs_dir then ok path else err (codes "path traversal detected: " ++ name)

unfoldable pub resolved : Text → Result Text → Result Text
unfolding checked join_paths full_name
resolved name (err e) = err (codes "failed to resolve absolute path for directory: " ++ e)
resolved name (ok abs_dir) = checked name abs_dir (join_paths abs_dir (full_name name))

unfoldable pub clean_and_validate_path : Result Text → Text → Text → Result Text
unfolding has_separator clean has_parent_part split abs resolved
clean_and_validate_path wd d name =
    if has_separator name
    then err (codes "file name cannot contain path separators: " ++ name)
    else if has_parent_part (split b'/' (clean d))
    then err (codes "path traversal (..) is not allowed: " ++ d)
    else resolved name (abs wd (clean d))
