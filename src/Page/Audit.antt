-- ===== src/Page/Audit.antt =====
-- The report of the audit for mobile devices and its tool (mcp-audit.go).
use devbrowser.Prelude.{ℕ, false, List, [], ◌∷◌, ◌++◌, if◌then◌else◌, pos, length}
use devbrowser.Text.{Text, codes}
use devbrowser.Text.Decimal.{itoa}
use devbrowser.Models.Reads.{AuditMobileArgs}
use devbrowser.Page.{
  mobile_audit, location, evaluate, browser_ctx, AuditViewportMeta, AuditMobileReport, Tab, Step,
  returned, ◌>>=◌, on_error, perform,
}
use devbrowser.Page.Quote.{quote}

pub viewport_meta_text : AuditViewportMeta → Text
viewport_meta_text m =
    if m.missing
    then codes
        "   [FAIL] <meta name=\"viewport\"> is missing! iOS will render at 980px zoom, breaking layouts.\n"
    else if m.missing_fit
    then codes
        "   [FAIL] viewport-fit=cover is missing in viewport meta. Safe area insets (safe-area-inset-*) will resolve to 0.\n"
    else codes "   [PASS] Viewport meta present with viewport-fit=cover.\n"

pub element_lines : List Text → Text
element_lines [] = []
element_lines (e ∷ es) = codes "     - " ++ (e ++ (codes "\n" ++ element_lines es))

-- The result of one check: what was found, or that it passed.
pub check_text : Text → Text → List Text → Text
unfolding itoa element_lines
check_text fail pass [] = codes "   [PASS] " ++ pass
check_text fail pass (e ∷ es) =
    codes "   [FAIL] Found "
    ++ (itoa (pos (length (e ∷ es))) ++ (codes " " ++ (fail ++ element_lines (e ∷ es))))

abbrev pub vh_text : List Text → Text
unfolding check_text
vh_text =
    check_text
      (codes
        "element(s) using 'vh' units. '100vh' does not shrink when mobile browser bars contract/expand; use dvh/svh instead.\n")
      (codes "No vh units found.\n")

abbrev pub safe_area_text : List Text → Text
unfolding check_text
safe_area_text =
    check_text
      (codes
        "fixed/absolute element(s) at edge without safe-area-inset padding/margin. Content might be covered by notches or home bars.\n")
      (codes "All edge fixed/absolute elements use safe-area-inset padding/margin.\n")

abbrev pub input_zoom_text : List Text → Text
unfolding check_text
input_zoom_text =
    check_text
      (codes
        "input element(s) with font-size < 16px. iOS Safari will trigger automatic layout-shifting zoom when focused.\n")
      (codes "All form inputs have font-size >= 16px.\n")

abbrev pub tap_target_text : List Text → Text
unfolding check_text
tap_target_text =
    check_text
      (codes
        "interactive element(s) with tap bounding box smaller than 44x44 px (Apple HIG recommendation).\n")
      (codes "All interactive elements have tap sizes >= 44x44 px.\n")

abbrev pub fixed_vh_text : List Text → Text
unfolding check_text
fixed_vh_text =
    check_text
      (codes
        "fixed position element(s) using 'vh' height units. This causes severe rendering jumpiness on mobile scrolling.\n")
      (codes "No fixed position elements are using 'vh' heights.\n")

unfoldable pub format_audit_mobile_report : Text → AuditMobileReport → Text
unfolding viewport_meta_text check_text
format_audit_mobile_report url r =
    codes "Mobile Audit Report: "
    ++ (url
        ++ (codes "\n\n1. Viewport Meta Check:\n"
            ++ (viewport_meta_text r.viewport_meta
                ++ (codes "\n2. VH Units Check:\n"
                    ++ (vh_text r.vh_units
                        ++ (codes "\n3. Safe Area Check:\n"
                            ++ (safe_area_text r.safe_area
                                ++ (codes "\n4. Input Zoom Check:\n"
                                    ++ (input_zoom_text r.input_zoom
                                        ++ (codes "\n5. Tap Target Check:\n"
                                            ++ (tap_target_text r.tap_target
                                                ++ (codes "\n6. Fixed VH Check:\n"
                                                    ++ fixed_vh_text r.fixed_vh))))))))))))

module _ (tab : Tab) where
  open tab use {Float}

  unfoldable pub audit_mobile : ℕ → AuditMobileArgs → Step Float Text
  unfolding perform quote format_audit_mobile_report
  audit_mobile c args = on_error (codes "Failed to run mobile audit: ") (do
    url ← perform tab tab.text_of (browser_ctx c) location
    report ←
        perform tab tab.audit_of (browser_ctx c)
          (evaluate (mobile_audit (quote tab.is_print args.selector)) false false)
    returned (format_audit_mobile_report url report))
