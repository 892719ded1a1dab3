-- ===== src/Screenshot/Inside.antt =====
-- The path of a screenshot stays in its directory (`cleanAndValidatePath` of mcp-screenshot.go).
use devbrowser.Prelude.{
  ℕ, suc, ◌≤◌, ◌≡◌, ◌≢◌, refl, sym, ◌∙◌, ap, Bool, true, false, List, [], ◌∷◌, ◌++◌, map,
  if◌then◌else◌, if_either, arith, All, All-append, Bool-cases, ==_iff, inl, inr, length,
  length-append, Result, ok, err,
}
use devbrowser.Text.{Text, Lacks, codes, text_eq, text_eq_iff}
use devbrowser.Text.Split.{split}
use devbrowser.Text.Paths.{is_rooted, clean, join_paths, dir, abs, in_dir, shown}
use devbrowser.Screenshot.Paths.{
  has_separator, to_lower, has_suffix, full_name, has_parent_part, checked, resolved,
  clean_and_validate_path,
}
use devbrowser.Text.Clean.{IsProper, trail, clean-IsProper, clean-shown, dir-trail}

-- The working directory, if there is one, is a rooted path.
abbrev pub IsRootedDir : Result Text → Type 0
IsRootedDir (ok wd) = is_rooted wd ≡ true
IsRootedDir (err e) = Unit

has_separator-Lacks : (s : Text) → has_separator s ≡ false → Lacks b'/' s
unfolding has_separator
has_separator-Lacks [] h = tt
has_separator-Lacks (c ∷ s) h = ground (arith, has_separator-Lacks s)

long-IsProper : (s : Text) → 4 ≤ length s → Lacks b'/' s → IsProper s
unfolding text_eq
long-IsProper [] h l = absurd (omega arith)
long-IsProper (a ∷ []) h l = absurd (omega arith)
long-IsProper (a ∷ b ∷ []) h l = absurd (omega arith)
long-IsProper (a ∷ b ∷ c ∷ s) h l = record {
  is_part = ground arith;
  is_below = ground arith;
  lacks = l;
}

length-map : (f : ℕ → ℕ) (s : Text) → length (map f s) ≡ length s
length-map f [] = refl
length-map f (c ∷ s) = ap suc (length-map f s)

full_name-IsProper : (name : Text) → Lacks b'/' name → IsProper (full_name name)
unfolding full_name has_suffix
full_name-IsProper name l = elim (Bool-cases (has_suffix (map to_lower name) (codes ".png"))) [
  | inl e ↦ rw e (long-IsProper name (ground (arith, length-map to_lower name)) l)
  | inr e ↦ rw e (
      long-IsProper (name ++ codes ".png") (ground (arith, length-append name (codes ".png")))
        (All-append (λ c. c ≢ b'/') name (codes ".png") l (ground arith)))
]

-- A clean directory below the root.
abbrev pub Absolute : Text → Type 0
Absolute d = (parts : List Text) × All IsProper parts × (d ≡ shown true parts)

clean-Absolute : (s : Text) → is_rooted s ≡ true → Absolute (clean s)
clean-Absolute [] h = absurd (cc)
clean-Absolute (c ∷ s) h = rw ((==_iff c b'/').0 h) (clean-IsProper s)

join_paths-Absolute : (wd s : Text) → is_rooted wd ≡ true → Absolute (join_paths wd s)
unfolding join_paths
join_paths-Absolute [] s h = absurd (cc)
join_paths-Absolute (c ∷ wd) s h = clean-Absolute ((c ∷ wd) ++ b'/' ∷ s) h

-- What an `Abs` that succeeds returns.
AbsoluteOk : Result Text → Type 0
AbsoluteOk (ok d) = Absolute d
AbsoluteOk (err e) = Unit

abs-Absolute : (wd : Result Text) (s : Text) → IsRootedDir wd → AbsoluteOk (abs wd s)
unfolding abs AbsoluteOk
abs-Absolute wd s r = go (is_rooted s) refl
  where
    below : (wd : Result Text) → IsRootedDir wd → AbsoluteOk (in_dir s wd)
    below (ok wd) r = join_paths-Absolute wd s r
    below (err e) r = tt

    go : (b : Bool) → is_rooted s ≡ b → AbsoluteOk (if b then ok (clean s) else in_dir s wd)
    go true e = clean-Absolute s e
    go false e = below wd r

-- `resolved` without its last check.
abbrev pub placed : Text → Result Text → Result Text
placed name (err e) = err (codes "failed to resolve absolute path for directory: " ++ e)
placed name (ok abs_dir) = ok (join_paths abs_dir (full_name name))

module _ (parts : List Text) (h : All IsProper parts) (name : Text) (l : Lacks b'/' name) where
  pub join_paths-trail :
      join_paths (shown true parts) (full_name name) ≡ b'/' ∷ trail parts (full_name name)
  unfolding join_paths shown
  join_paths-trail = clean-shown parts (full_name name) h (full_name-IsProper name l)

  dir-join_paths : dir (join_paths (shown true parts) (full_name name)) ≡ shown true parts
  dir-join_paths =
      ap dir join_paths-trail ∙ dir-trail parts (full_name name) h (full_name-IsProper name l).lacks

resolved-placed :
    (name : Text) (found : Result Text)
    → AbsoluteOk found
    → Lacks b'/' name
    → resolved name found ≡ placed name found
unfolding resolved checked AbsoluteOk
resolved-placed name (err e) a l = refl
resolved-placed name (ok d) a l =
    rw ((text_eq_iff (dir (join_paths d (full_name name))) d).1 (same d a)) refl
  where
    same : (d : Text) → Absolute d → dir (join_paths d (full_name name)) ≡ d
    same d (parts, h, e) =
        ap (λ x. dir (join_paths x (full_name name))) e ∙ (dir-join_paths parts h name l ∙ sym e)

-- `cleanAndValidatePath` without its last check.
abbrev pub unchecked_path : Result Text → Text → Text → Result Text
unfolding has_separator clean has_parent_part split abs join_paths full_name
unchecked_path wd d name =
    if has_separator name
    then err (codes "file name cannot contain path separators: " ++ name)
    else if has_parent_part (split b'/' (clean d))
    then err (codes "path traversal (..) is not allowed: " ++ d)
    else placed name (abs wd (clean d))

-- The last check of `cleanAndValidatePath` never fires: over a working directory that is a rooted
-- path, or an error of `Getwd`, the function is the one without it, for every directory and name.
pub clean_and_validate_path-unchecked_path :
    (wd : Result Text) (d name : Text)
    → IsRootedDir wd
    → clean_and_validate_path wd d name ≡ unchecked_path wd d name
unfolding clean_and_validate_path
clean_and_validate_path-unchecked_path wd d name r = elim (Bool-cases (has_separator name)) [
  | inl e ↦ rw e refl
  | inr e ↦
      rw
        (
          e,
          resolved-placed name (abs wd (clean d)) (abs-Absolute wd (clean d) r)
              (has_separator-Lacks name e),
        )
        refl
]

-- Where a path that was accepted leads: directly into the directory, which has no part `.` or `..`.
abbrev pub InDir : Text → Result Text → Type 0
InDir name (err e) = Unit
InDir name (ok path) =
    (parts : List Text) × All IsProper parts
    × IsProper (full_name name)
    × (path ≡ b'/' ∷ trail parts (full_name name))

placed-InDir :
    (name : Text) (found : Result Text)
    → Lacks b'/' name
    → AbsoluteOk found
    → InDir name (placed name found)
unfolding AbsoluteOk
placed-InDir name (err e) l a = tt
placed-InDir name (ok d) l (parts, h, e) = (
  parts,
  h,
  full_name-IsProper name l,
  ap (λ x. join_paths x (full_name name)) e ∙ join_paths-trail parts h name l,
)

-- A path that `cleanAndValidatePath` returns is a directory and directly behind it the file name,
-- which, like each part of the directory, is neither empty nor `.` nor `..` and has no separator in
-- it. The working directory must be a rooted path, or an error of `Getwd`.
pub clean_and_validate_path-InDir :
    (wd : Result Text) (d name : Text)
    → IsRootedDir wd
    → InDir name (clean_and_validate_path wd d name)
unfolding unchecked_path has_separator
clean_and_validate_path-InDir wd d name r =
    rw (clean_and_validate_path-unchecked_path wd d name r) (go (has_separator name) refl)
  where
    go :
        (b : Bool)
        → has_separator name ≡ b
        → InDir name (
            if b
            then err (codes "file name cannot contain path separators: " ++ name)
            else if has_parent_part (split b'/' (clean d))
            then err (codes "path traversal (..) is not allowed: " ++ d)
            else placed name (abs wd (clean d)))
    go true e = tt
    go false e = if_either (InDir name) (has_parent_part (split b'/' (clean d))) _ _ tt (
        placed-InDir name (abs wd (clean d)) (has_separator-Lacks name e)
          (abs-Absolute wd (clean d) r))
