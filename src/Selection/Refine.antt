-- ===== src/Selection/Refine.antt =====
-- The history against a specification that drops nothing: it shows the last ten of all
-- selections that were accepted, and numbers by their count.
use devbrowser.Prelude.{
  ℕ, ◌+◌, ◌-◌, ◌≡◌, refl, ◌∙◌, sym, Option, none, some, List, [], ◌∷◌, ◌++◌, arith, if◌then◌else◌,
  length, length-append, length-drop, drop, drop-append, drop-drop, get_last?, get_last?-drop,
  take_last, inl, inr, Bool-cases, ap,
}
use devbrowser.Selection.{Selection, History, selection_history_cap, is_repeat, trim, push}
use devbrowser.Selection.Numbers.{trim_lem}

-- The specification: a selection is recorded unless the one before it is of the same node.
pub accept : List Selection → Selection → List Selection × Option Selection
accept past s =
    if is_repeat (get_last? past) s
    then (past, none)
    else (let added = record s { seq = length past + 1 } in (past ++ added ∷ [], some added))

-- What the history shows of the whole past.
pub shown : List Selection → History
shown past = record { items = take_last selection_history_cap past; next_seq = length past }

last_shown :
    (past : List Selection) → get_last? (take_last selection_history_cap past) ≡ get_last? past
last_shown [] = refl
last_shown (s ∷ past) =
    get_last?-drop (length (s ∷ past) - selection_history_cap) (s ∷ past) (omega arith)

trim-append :
    (past : List Selection) (s : Selection)
    → trim (take_last selection_history_cap past ++ s ∷ [])
      ≡ take_last selection_history_cap (past ++ s ∷ [])
trim-append past s =
    let longer = past ++ s ∷ [] in
    let n = length past - selection_history_cap in
    let e : drop n past ++ s ∷ [] ≡ drop n longer =
      sym (drop-append n past (s ∷ []) (omega arith)) in
    let k : n + (length (drop n longer) - selection_history_cap)
        ≡ length longer - selection_history_cap =
      omega (arith, length-drop n longer, length-append past (s ∷ [])) in
    rw e (
      trim_lem (drop n longer)
      ∙ drop-drop (length (drop n longer) - selection_history_cap) n longer
      ∙ ap (λ (m : ℕ). drop m longer) k)

-- `push` does to the last ten of all selections, and their count, what the specification that
-- drops nothing does to the whole past, with the same answer.
pub push-shown :
    (past : List Selection) (s : Selection)
    → push (shown past) s ≡ (shown (accept past s).0, (accept past s).1)
unfolding push accept shown
push-shown past s = elim (Bool-cases (is_repeat (get_last? past) s)) [
  | inl dup ↦ rw (last_shown past, dup)
  | inr new ↦ ground (
    arith,
    last_shown past,
    trim-append past (record s { seq = length past + 1 }),
    length-append past (record s { seq = length past + 1 } ∷ []),
  )
]
