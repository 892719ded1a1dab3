-- ===== src/Selection/Order.antt =====
-- What `latest` returns.
use devbrowser.Prelude.{
  ℕ, zero, suc, ◌-◌, ◌≤◌, ◌<◌, ◌≡◌, refl, List, arith, ltb, if◌then◌else◌, length, get_elem?,
  get_elem?-some, Bool-cases, inl, inr,
}
use devbrowser.Selection.{Selection, History, collect, latest}

length-collect :
    (items : List Selection) (k end : ℕ)
    → k ≤ end
    → end ≤ length items
    → length (collect items k end) ≡ k
unfolding collect
length-collect items zero end h g = refl
length-collect items (suc k) zero h g = absurd (omega arith)
length-collect items (suc k) (suc i) h g =
    let (s, e) = get_elem?-some items i (omega arith) in
    ground (arith, length-collect items k i (omega arith) (omega arith))

get_elem?-collect :
    (items : List Selection) (k end j : ℕ)
    → k ≤ end
    → end ≤ length items
    → j < k
    → get_elem? (collect items k end) j ≡ get_elem? items (end - 1 - j)
unfolding collect
get_elem?-collect items zero end j h g lt = absurd (omega arith)
get_elem?-collect items (suc k) zero j h g lt = absurd (omega arith)
get_elem?-collect items (suc k) (suc i) zero h g lt =
    let (s, e) = get_elem?-some items i (omega arith) in
    let i' : suc i - 1 - 0 ≡ i = omega arith in rw i' (ground arith)
get_elem?-collect items (suc k) (suc i) (suc j) h g lt =
    let (s, e) = get_elem?-some items i (omega arith) in
    let i' : suc i - 1 - suc j ≡ i - 1 - j = omega arith in
    rw i' (ground (arith, get_elem?-collect items k i j (omega arith) (omega arith) (omega arith)))

module _ (h : History) (n : ℕ) where
  -- `latest` returns as many items as asked for, or all there are.
  pub length-latest : length (latest h n) ≡ (if ltb (length h.items) n then length h.items else n)
  unfolding latest
  length-latest = elim (Bool-cases (ltb (length h.items) n)) [
    | inl few ↦
        rw few
          (length-collect h.items (length h.items) (length h.items) (omega arith) (omega arith))
    | inr enough ↦
        rw enough (length-collect h.items n (length h.items) (ground arith) (omega arith))
  ]

  -- The result of `latest` at any index within it is the item as far from the end of the history: newest first.
  pub get_elem?-latest :
      (j : ℕ)
      → j < length (latest h n)
      → get_elem? (latest h n) j ≡ get_elem? h.items (length h.items - 1 - j)
  unfolding latest
  get_elem?-latest j lt = elim (Bool-cases (ltb (length h.items) n)) [
    | inl few ↦ rw few (
        get_elem?-collect h.items (length h.items) (length h.items) j (omega arith) (omega arith)
          (ground (arith, length-latest)))
    | inr enough ↦ rw enough (
        get_elem?-collect h.items n (length h.items) j (ground arith) (omega arith)
          (ground (arith, length-latest)))
  ]
