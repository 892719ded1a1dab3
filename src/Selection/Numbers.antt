-- ===== src/Selection/Numbers.antt =====
-- The numbers of the history: what the badges on the page show.
use devbrowser.Prelude.{
  ℕ, zero, suc, ◌+◌, ◌-◌, ◌≤◌, ◌≡◌, refl, List, [], ◌∷◌, ◌++◌, arith, ltb, if◌then◌else◌, length,
  length-append, length-drop, drop, inl, inr, Bool-cases, get_last?,
}
use devbrowser.Selection.{Selection, History, selection_history_cap, empty, is_repeat, trim, push}

-- The items are numbered from `suc k` on.
abbrev pub Numbered : ℕ → List Selection → Type 0
Numbered k [] = Unit
Numbered k (s ∷ ss) = (s.seq ≡ suc k) × Numbered (suc k) ss

-- The newest item carries the number of the counter, the numbers below it are consecutive, and items
-- are missing only when the counter is beyond the cap. `clear` sets the counter back to zero.
pub record IsNumbered (h : History) : Type 0 where
  pub full :
      length h.items
      ≡ (if ltb selection_history_cap h.next_seq then selection_history_cap else h.next_seq)
  pub numbered : Numbered (h.next_seq - length h.items) h.items

Numbered-drop :
    (n k : ℕ) (ss : List Selection) → n ≤ length ss → Numbered k ss → Numbered (k + n) (drop n ss)
Numbered-drop zero k ss le h = let e : k + 0 ≡ k = omega arith in rw e h
Numbered-drop (suc n) k [] le h = absurd (omega arith)
Numbered-drop (suc n) k (s ∷ ss) le (_, h) =
    let e : k + suc n ≡ suc k + n = omega arith in rw e (Numbered-drop n (suc k) ss (omega arith) h)

Numbered-append :
    (k : ℕ) (ss : List Selection) (s : Selection)
    → Numbered k ss
    → s.seq ≡ suc (k + length ss)
    → Numbered k (ss ++ s ∷ [])
Numbered-append k [] s h e = (omega arith, tt)
Numbered-append k (x ∷ ss) s (hx, h) e = (hx, Numbered-append (suc k) ss s h (omega arith))

pub trim_lem : (ss : List Selection) → trim ss ≡ drop (length ss - selection_history_cap) ss
unfolding trim
trim_lem ss = elim (Bool-cases (ltb selection_history_cap (length ss))) [
  | inl over ↦ rw over
  | inr under ↦ let e : length ss - selection_history_cap ≡ 0 = ground arith in rw (under, e)
]

length-trim :
    (ss : List Selection)
    → length (trim ss)
      ≡ (if ltb selection_history_cap (length ss) then selection_history_cap else length ss)
length-trim ss = ground (arith, trim_lem ss, length-drop (length ss - selection_history_cap) ss)

Numbered-trim :
    (k : ℕ) (ss : List Selection)
    → Numbered k ss
    → Numbered (k + length ss - length (trim ss)) (trim ss)
Numbered-trim k ss h =
    let e : k + length ss - length (trim ss) ≡ k + (length ss - selection_history_cap) =
      ground (arith, length-trim ss) in
    rw (e, trim_lem) (Numbered-drop (length ss - selection_history_cap) k ss (omega arith) h)

module _ (h : History) (s : Selection) (v : IsNumbered h) where
  abbrev longer : List Selection
  longer = h.items ++ record s { seq = h.next_seq + 1 } ∷ []

  longer-Numbered : Numbered (h.next_seq - length h.items) longer
  longer-Numbered =
      Numbered-append (h.next_seq - length h.items) h.items (record s { seq = h.next_seq + 1 })
        v.numbered (ground (arith, v.full))

  length-longer : length longer ≡ length h.items + 1
  length-longer = length-append h.items (record s { seq = h.next_seq + 1 } ∷ [])

  added-IsNumbered : IsNumbered (record { items = trim longer; next_seq = h.next_seq + 1 })
  added-IsNumbered = record {
    full = ground (arith, length-trim longer, length-longer, v.full);
    numbered =
        let e : h.next_seq - length h.items + length longer ≡ h.next_seq + 1 =
          ground (arith, length-longer, v.full) in
        rw e at (Numbered-trim (h.next_seq - length h.items) longer longer-Numbered);
  }

-- Every call of `push`, one that adds nothing included, keeps the numbering: ten items are held, or
-- as many as the counter says where that is less, with the consecutive numbers up to the counter.
pub push-IsNumbered : (h : History) (s : Selection) → IsNumbered h → IsNumbered (push h s).0
unfolding push
push-IsNumbered h s v = elim (Bool-cases (is_repeat (get_last? h.items) s)) [
  | inl dup ↦ rw dup v
  | inr new ↦ rw new (added-IsNumbered h s v)
]

pub empty-IsNumbered : IsNumbered empty
empty-IsNumbered = record { full = refl; numbered = tt }
