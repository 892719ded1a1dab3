-- ===== src/Profiles/Size.antt =====
-- How many bytes the files in a profile have (`dirSize` of profiles.go).
use devbrowser.Prelude.{◌≡◌, refl, sym, ap, ◌∙◌, List, [], ◌∷◌, ◌++◌, ℤ, pos, add64}

-- A directory tree, as `filepath.Walk` visits it: a file with its size, a directory, or an entry
-- that cannot be read.
mutual
  pub data Tree : Type 0 where
    file : ℤ → Tree
    directory : Trees → Tree
    unreadable : Tree

  pub data Trees : Type 0 where
    none_left : Trees
    first : Tree → Trees → Trees

-- The walk, with the sum so far.
mutual
  pub walk : Tree → ℤ → ℤ
  walk (file n) size = add64 size n
  walk (directory ts) size = walk_all ts size
  walk unreadable size = size

  pub walk_all : Trees → ℤ → ℤ
  walk_all none_left size = size
  walk_all (first t ts) size = walk_all ts (walk t size)

unfoldable pub dir_size : Tree → ℤ
unfolding walk
dir_size t = walk t (pos 0)

-- The sizes of the files that can be read, in the order of the walk.
mutual
  pub sizes : Tree → List ℤ
  sizes (file n) = n ∷ []
  sizes (directory ts) = all_sizes ts
  sizes unreadable = []

  pub all_sizes : Trees → List ℤ
  all_sizes none_left = []
  all_sizes (first t ts) = sizes t ++ all_sizes ts

pub total : ℤ → List ℤ → ℤ
total size [] = size
total size (n ∷ ns) = total (add64 size n) ns

total-append : (size : ℤ) (xs ys : List ℤ) → total size (xs ++ ys) ≡ total (total size xs) ys
unfolding total
total-append size [] ys = refl
total-append size (x ∷ xs) ys = total-append (add64 size x) xs ys

mutual
  unfolding walk walk_all sizes all_sizes total

  walk-total : (t : Tree) (size : ℤ) → walk t size ≡ total size (sizes t)
  walk-total (file n) size = refl
  walk-total (directory ts) size = walk_all-total ts size
  walk-total unreadable size = refl

  walk_all-total : (ts : Trees) (size : ℤ) → walk_all ts size ≡ total size (all_sizes ts)
  walk_all-total none_left size = refl
  walk_all-total (first t ts) size =
      walk_all-total ts (walk t size)
      ∙ (ap (λ n. total n (all_sizes ts)) (walk-total t size)
          ∙ sym (total-append size (sizes t) (all_sizes ts)))

-- The size of a directory is the sum, in 64 bits, of the sizes of all files below it that can be
-- read, each counted once: what cannot be read adds nothing and stops nothing.
pub dir_size-total : (t : Tree) → dir_size t ≡ total (pos 0) (sizes t)
unfolding dir_size
dir_size-total t = walk-total t (pos 0)
