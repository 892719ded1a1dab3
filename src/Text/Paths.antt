-- ===== src/Text/Paths.antt =====
-- What the program uses of `path/filepath`, on Unix.
use devbrowser.Prelude.{
  ℕ, Bool, true, false, ◌||◌, List, [], ◌∷◌, ◌++◌, if◌then◌else◌, ◌==◌, Result, ok, err,
}
use devbrowser.Text.{Text, codes, text_eq, is_empty, join}
use devbrowser.Text.Split.{split}

abbrev pub is_rooted : Text → Bool
is_rooted [] = false
is_rooted (c ∷ s) = c == b'/'

-- A part `..` behind the parts so far, the last of which stands first.
abbrev pub up : Bool → List Text → List Text
unfolding text_eq
up rooted [] = if rooted then [] else codes ".." ∷ []
up rooted (top ∷ stack) = if text_eq top (codes "..") then codes ".." ∷ top ∷ stack else stack

unfoldable pub add_part : Bool → List Text → Text → List Text
unfolding text_eq
add_part rooted stack part =
    if is_empty part || text_eq part (codes ".")
    then stack
    else if text_eq part (codes "..")
    then up rooted stack
    else part ∷ stack

unfoldable pub add_parts : Bool → List Text → List Text → List Text
unfolding add_part
add_parts rooted stack [] = stack
add_parts rooted stack (part ∷ parts) = add_parts rooted (add_part rooted stack part) parts

abbrev pub reversed : List Text → List Text → List Text
reversed [] parts = parts
reversed (part ∷ stack) parts = reversed stack (part ∷ parts)

unfoldable pub shown : Bool → List Text → Text
unfolding join
shown true parts = b'/' ∷ join parts (codes "/")
shown false [] = codes "."
shown false (part ∷ parts) = join (part ∷ parts) (codes "/")

-- `filepath.Clean`
unfoldable pub clean : Text → Text
unfolding add_parts shown split
clean path = shown (is_rooted path) (reversed (add_parts (is_rooted path) [] (split b'/' path)) [])

-- `filepath.Join` of two paths
unfoldable pub join_paths : Text → Text → Text
unfolding clean
join_paths [] [] = []
join_paths [] (c ∷ s) = clean (c ∷ s)
join_paths (c ∷ s) t = clean ((c ∷ s) ++ b'/' ∷ t)

unfoldable pub with_head : ℕ → Text → Text
with_head c [] = if c == b'/' then c ∷ [] else []
with_head c (d ∷ s) = c ∷ d ∷ s

-- Up to the last separator.
unfoldable pub up_to_last : Text → Text
unfolding with_head
up_to_last [] = []
up_to_last (c ∷ s) = with_head c (up_to_last s)

-- `filepath.Dir`
unfoldable pub dir : Text → Text
unfolding clean up_to_last
dir path = clean (up_to_last path)

abbrev pub in_dir : Text → Result Text → Result Text
unfolding join_paths
in_dir path (err e) = err e
in_dir path (ok wd) = ok (join_paths wd path)

-- `filepath.Abs`, with the working directory or its error.
unfoldable pub abs : Result Text → Text → Result Text
unfolding clean join_paths
abs wd path = if is_rooted path then ok (clean path) else in_dir path wd
