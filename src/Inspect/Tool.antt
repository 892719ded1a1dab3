-- ===== src/Inspect/Tool.antt =====
-- The tool `browser_get_selected_element` (mcp-selected.go) and the listener of selections
-- (selection_capture.go). The bound arguments of the tool, or the error of binding them, are an
-- argument.
use devbrowser.Prelude.{
  ℕ, Bool, true, false, ◌||◌, Option, none, some, List, [], ◌∷◌, ◌++◌, if◌then◌else◌, ℤ, pos,
  negsuc, eq_ℤ, ltb_ℤ, ltb, Result, ok, err, length,
}
use devbrowser.Text.{Text, codes}
use devbrowser.Text.Decimal.{itoa}
use devbrowser.Capture.{browser_not_open}
use devbrowser.Selection.{
  Selection, SelectionSource, dev_tools_panel, selection_history_cap, source_text, latest,
}
use devbrowser.Selection
use devbrowser.Session.{Chrome, Session, update}
use devbrowser.Session.Open.{install_selection_capture}
use devbrowser.Inspect.{PageApi, Site}
use devbrowser.Inspect.Capture.{enqueue_node, capture_selection, dev_tools_panel_node_id}

-- The blocks of a result of a tool.
pub data Block : Type 0 where
  text_block : Text → Block
  image_block : List ℕ → Block

pub record GetSelectedElementArgs : Type 0 where
  pub count : ℤ
  pub clear : Bool

abbrev no_selection : Text
no_selection =
    codes
      "No element selected. Alt+click an element in the page, or use the DevTools inspect pointer, then call this tool again."

abbrev pub default_count : ℤ → ℤ
default_count count = if eq_ℤ count (pos 0) then pos 1 else count

abbrev pub is_bad_count : ℤ → Bool
is_bad_count count = ltb_ℤ count (pos 1) || ltb_ℤ (pos selection_history_cap) count

abbrev pub to_nat : ℤ → ℕ
to_nat (pos n) = n
to_nat (negsuc n) = 0

module _ (api : PageApi) where
  open api use {World, clock}

  image_blocks : Option (List ℕ) → List Block
  image_blocks none = []
  image_blocks (some image) = image_block image ∷ []

  pub item_blocks : List Selection → List Block
  unfolding itoa image_blocks
  item_blocks [] = []
  item_blocks (s ∷ ss) =
      text_block (
        codes "Selection #"
        ++ (itoa (pos s.seq)
            ++ (codes " ("
                ++ (source_text s.source
                    ++ (codes ", "
                        ++ (clock s.at
                            ++ (codes ", page " ++ (s.page_url ++ (codes ")\n" ++ s.report)))))))))
      ∷ (image_blocks s.screenshot ++ item_blocks ss)

  pub more_blocks : ℕ → ℕ → List Block
  unfolding itoa
  more_blocks held n =
      if ltb n held
      then text_block (
          codes "History holds "
          ++ (itoa (pos held)
              ++ (codes " selection(s); call with count="
                  ++ (itoa (pos held) ++ codes " to see them all."))))
        ∷ []
      else []

  pub shown_blocks : List Selection → ℕ → ℕ → List Block
  unfolding item_blocks more_blocks
  shown_blocks [] held n = text_block no_selection ∷ []
  shown_blocks (s ∷ ss) held n = item_blocks (s ∷ ss) ++ more_blocks held n

  module _ (chrome : Chrome) where
    -- A node of the panel that was queued is captured.
    unfoldable pub panel_queued : Bool × World → Session → Site api
    unfolding capture_selection
    panel_queued (true, w) s = capture_selection api dev_tools_panel (s, w)
    panel_queued (false, w) s = (s, w)

    -- A selection in the panel of DevTools is added once.
    unfoldable pub panel_selected : ℕ → ℤ × World → Session → Site api
    unfolding panel_queued enqueue_node
    panel_selected c (id, w) s =
        let s' = update (λ b. record b { last_panel_node_id = id }) s in
        let added = panel_queued (enqueue_node api c id w) s' in
        if eq_ℤ id (pos 0)
        then (s, w)
        else if eq_ℤ id s.browser.last_panel_node_id
        then (s', w)
        else added

    unfoldable pub poll_panel : ℕ → Site api → Site api
    unfolding panel_selected dev_tools_panel_node_id
    poll_panel c (s, w) = panel_selected c (dev_tools_panel_node_id api s.browser.ctx w) s

    unfoldable pub answered : ℕ → Site api → Result (List Block) × Site api
    unfolding latest shown_blocks
    answered n (s, w) = (
      ok (shown_blocks (latest s.browser.selections n) (length s.browser.selections.items) n),
      (s, w),
    )

    unfoldable pub cleared : ℕ → Site api → Result (List Block) × Site api
    unfolding itoa Selection.clear
    cleared c (s, w) =
        let (history, n) = Selection.clear s.browser.selections in
        let text : Text = codes "Cleared " ++ (itoa (pos n) ++ codes " selection(s).") in
        (
          ok (text_block text ∷ []),
          (update (λ b. record b { selections = history }) s, api.clear_badges c w),
        )

    unfoldable pub with_count : ℕ → ℤ → Site api → Result (List Block) × Site api
    unfolding poll_panel answered
    with_count c count site =
        if is_bad_count count
        then (err (codes "count must be between 1 and 10"), site)
        else answered (to_nat count) (poll_panel c site)

    unfoldable pub executed :
        ℕ → Result GetSelectedElementArgs → Site api → Result (List Block) × Site api
    unfolding cleared with_count
    executed c (err e) site = (err e, site)
    executed c (ok args) site =
        if args.clear then cleared c site else with_count c (default_count args.count) site

    unfoldable pub on_context :
        Option ℕ → Result GetSelectedElementArgs → Site api → Result (List Block) × Site api
    unfolding executed install_selection_capture
    on_context none args site = (err (codes "browser context is nil"), site)
    on_context (some c) args (s, w) = executed c args (install_selection_capture chrome s, w)

    unfoldable pub get_selected_element :
        Result GetSelectedElementArgs → Site api → Result (List Block) × Site api
    unfolding on_context
    get_selected_element args (s, w) =
        if s.browser.is_open_flag
        then on_context s.browser.ctx args (s, w)
        else (err browser_not_open, (s, w))
