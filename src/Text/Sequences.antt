-- ===== src/Text/Sequences.antt =====
-- `strings.Split` and `strings.LastIndex` at a separator of several characters, and `strings.Fields`.
use devbrowser.Prelude.{
  ℕ, zero, suc, ◌-◌, Bool, ◌||◌, Option, none, some, List, [], ◌∷◌, ◌==◌, if◌then◌else◌, length,
  drop,
}
use devbrowser.Text.{Text, has_prefix, is_empty}

abbrev grow : ℕ → List Text → List Text
grow c [] = (c ∷ []) ∷ []
grow c (part ∷ parts) = (c ∷ part) ∷ parts

-- The first number counts the characters of a separator that are still to be skipped.
split_skipping : Text → ℕ → Text → List Text
unfolding has_prefix
split_skipping sep k [] = [] ∷ []
split_skipping sep (suc k) (c ∷ s) = split_skipping sep k s
split_skipping sep zero (c ∷ s) =
    let behind = split_skipping sep (length sep - 1) s in
    let rest = split_skipping sep zero s in
    if has_prefix (c ∷ s) sep then [] ∷ behind else grow c rest

unfoldable pub split_text : Text → Text → List Text
unfolding split_skipping
split_text s sep = split_skipping sep 0 s

-- What stands behind the last separator.
unfoldable pub behind_last : Text → Text → Option Text
unfolding has_prefix
behind_last sep [] = none
behind_last sep (c ∷ s) = elim (behind_last sep s) [
  | some t ↦ some t
  | none ↦ if has_prefix (c ∷ s) sep then some (drop (length sep) (c ∷ s)) else none
]

is_space : ℕ → Bool
is_space c = c == 32 || c == 9 || c == 10 || c == 11 || c == 12 || c == 13

abbrev without_empty : List Text → List Text
without_empty [] = []
without_empty (part ∷ parts) = if is_empty part then parts else part ∷ parts

words_from : Text → List Text
unfolding is_space
words_from [] = [] ∷ []
words_from (c ∷ s) =
    let rest = words_from s in if is_space c then [] ∷ without_empty rest else grow c rest

-- On the white space of ASCII.
unfoldable pub fields : Text → List Text
unfolding words_from
fields s = without_empty (words_from s)
