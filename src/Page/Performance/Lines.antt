-- ===== src/Page/Performance/Lines.antt =====
-- The lines of times in the report about the performance (mcp-performance.go).
use devbrowser.Prelude.{◌≡◌, refl, Option, none, some, List, [], ◌∷◌, ◌++◌, append_assoc}
use devbrowser.Text.{Text, codes, join}
use devbrowser.Page.{Tab}
use devbrowser.Page.Performance.{measured, timing_line, paint_line}

-- The values that are there, in their order.
abbrev pub present_parts : {A : Type 0} → List (Option A) → List A
present_parts [] = []
present_parts (none ∷ os) = present_parts os
present_parts (some a ∷ os) = a ∷ present_parts os

-- The parts behind a heading, with bars between them, and no line without parts.
abbrev pub headed : Text → List Text → Text
unfolding join
headed heading [] = []
headed heading (p ∷ ps) = heading ++ (join (p ∷ ps) (codes " | ") ++ codes "\n")

module _ (tab : Tab) where
  open tab use {Float}

  timing_line-present_parts :
      (i l f : Option Float)
      → timing_line tab i l f
        ≡ headed (codes "Timing:    ") (
            present_parts (
              measured tab (codes "Interactive") i
              ∷ measured tab (codes "DOM Loaded") l
              ∷ measured tab (codes "Full Load") f
              ∷ []))
  unfolding timing_line measured join
  timing_line-present_parts none none none = refl
  timing_line-present_parts (some i) none none = simp append_assoc
  timing_line-present_parts none (some l) none = simp append_assoc
  timing_line-present_parts none none (some f) = simp append_assoc
  timing_line-present_parts (some i) (some l) none = simp append_assoc
  timing_line-present_parts (some i) none (some f) = simp append_assoc
  timing_line-present_parts none (some l) (some f) = simp append_assoc
  timing_line-present_parts (some i) (some l) (some f) = simp append_assoc

  paint_line-present_parts :
      (first contentful : Option Float)
      → paint_line tab first contentful
        ≡ headed (codes "Paint:     ") (
            present_parts
              (measured tab (codes "FP") first ∷ measured tab (codes "FCP") contentful ∷ []))
  unfolding paint_line measured join
  paint_line-present_parts none none = refl
  paint_line-present_parts (some x) none = simp append_assoc
  paint_line-present_parts none (some y) = simp append_assoc
  paint_line-present_parts (some x) (some y) = simp append_assoc

  -- The line of the timing and the line of the paints hold exactly the times that were measured, in
  -- their order, each with its name, with a bar between any two of them and none at an end, behind
  -- their heading; there is no such line if none was measured.
  pub timing_line-headed :
      (interactive loaded full first contentful : Option Float)
      → (timing_line tab interactive loaded full
          ≡ headed (codes "Timing:    ") (
              present_parts (
                measured tab (codes "Interactive") interactive
                ∷ measured tab (codes "DOM Loaded") loaded
                ∷ measured tab (codes "Full Load") full
                ∷ [])))
        × (paint_line tab first contentful
            ≡ headed (codes "Paint:     ") (
                present_parts
                  (measured tab (codes "FP") first ∷ measured tab (codes "FCP") contentful ∷ [])))
  timing_line-headed i l f first contentful =
      (timing_line-present_parts i l f, paint_line-present_parts first contentful)
