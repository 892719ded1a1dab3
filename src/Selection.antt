-- ===== src/Selection.antt =====
-- The elements that the developer selected (selection_history.go): the last ten, numbered.
pub mod Numbers
pub mod Refine
pub mod Order
use devbrowser.Prelude.{
  ℕ, zero, suc, ◌+◌, ◌-◌, Bool, true, false, not, ◌&&◌, Option, none, some, List, [], ◌∷◌, ◌++◌,
  ltb, if◌then◌else◌, ℤ, pos, eq_ℤ, length, get_elem?, get_last?, take_last,
}
use devbrowser.Text.{Text, codes}

abbrev pub selection_history_cap : ℕ
selection_history_cap = 10

pub data SelectionSource : Type 0 where
  inspect_pointer alt_click dev_tools_panel : SelectionSource

abbrev pub source_text : SelectionSource → Text
source_text inspect_pointer = codes "devtools inspect pointer"
source_text alt_click = codes "alt+click"
source_text dev_tools_panel = codes "devtools elements panel"

pub record Selection : Type 0 where
  pub seq : ℕ
  pub source : SelectionSource
  pub at : ℤ
  pub page_url : Text
  pub node_id : ℤ
  pub report : Text
  pub screenshot : Option (List ℕ)

pub record History : Type 0 where
  pub items : List Selection
  pub next_seq : ℕ

abbrev pub empty : History
empty = record { items = []; next_seq = 0 }

-- Whether the newest item is the very node of `s`.
pub is_repeat : Option Selection → Selection → Bool
is_repeat none s = false
is_repeat (some newest) s = not (eq_ℤ s.node_id (pos 0)) && eq_ℤ newest.node_id s.node_id

pub trim : List Selection → List Selection
trim items =
    if ltb selection_history_cap (length items)
    then take_last selection_history_cap items
    else items

-- The result is the selection with its number, if it was added.
unfoldable pub push : History → Selection → History × Option Selection
unfolding is_repeat trim
push h s =
    if is_repeat (get_last? h.items) s
    then (h, none)
    else (let seq = h.next_seq + 1 in
        let added = record s { seq = seq } in
        (record { items = trim (h.items ++ added ∷ []); next_seq = seq }, some added))

-- `rounds` rounds of the loop, from the item before index `end` downwards.
pub collect : List Selection → ℕ → ℕ → List Selection
collect items zero end = []
collect items (suc rounds) zero = []
collect items (suc rounds) (suc i) = elim (get_elem? items i) [
  | none ↦ []
  | some s ↦ s ∷ collect items rounds i
]

unfoldable pub latest : History → ℕ → List Selection
unfolding collect
latest h n =
    let held = length h.items in
    let n' = (if ltb held n then held else n) in collect h.items n' held

-- The history after it, and how many items it held.
unfoldable pub clear : History → History × ℕ
clear h = (empty, length h.items)
