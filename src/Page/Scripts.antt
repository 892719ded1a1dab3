-- ===== src/Page/Scripts.antt =====
-- Where the selector stands in the scripts that the tools send to the page.
use devbrowser.Prelude.{◌≡◌, refl, ap, ◌∙◌, some, false, [], ◌∷◌, ◌++◌, append_assoc, All}
use devbrowser.Text.{Text, codes, is_empty}
use devbrowser.Page.{Tab}
use devbrowser.Page.Quote.{quote}
use devbrowser.Page.Quote.Literal.{
  IsShared, IsBare, text_literal, text_literal-quote, literal-append,
}
use devbrowser.Page.Reading.{source_script}
use devbrowser.Page.Interaction.{click_script, single_quoted}

-- The script that clicks an element is a call of `document.querySelector` on one text literal, and
-- the literal reads back to the selector, for every selector that is not empty and consists of
-- printable characters, tabs and line breaks. So is the script that reads the source of an element.
pub text_literal-script :
    (tab : Tab) (selector : Text)
    → is_empty selector ≡ false
    → All (IsShared tab.is_print) selector
    → ((rest : Text) × (click_script tab selector ≡ codes "document.querySelector(" ++ rest)
        × (text_literal rest ≡ some (selector, codes ").click()")))
      × ((rest : Text) × (source_script tab (record { selector = selector })
            ≡ codes "document.querySelector(" ++ rest)
          × (text_literal rest ≡ some (selector, codes ")?.outerHTML ?? \"Element not found\"")))
unfolding click_script quote
text_literal-script tab selector e h = (
  (
    quote tab.is_print selector ++ codes ").click()",
    refl,
    text_literal-quote tab.is_print selector (codes ").click()") h,
  ),
  (
    quote tab.is_print selector ++ codes ")?.outerHTML ?? \"Element not found\"",
    rw e,
    text_literal-quote tab.is_print selector (codes ")?.outerHTML ?? \"Element not found\"") h,
  ),
)

behind_quote :
    (a b rest : Text) → ((a ++ b'\'' ∷ b) ++ b'\'' ∷ []) ++ rest ≡ a ++ b'\'' ∷ (b ++ b'\'' ∷ rest)
behind_quote a b rest = simp append_assoc

-- A selector without single quotes, backslashes and line breaks reads back from the literal that the
-- swipe writes. If a single quote and any text follow such a selector, the literal ends at that
-- quote, and the text behind it is read as script.
pub text_literal-single_quoted :
    (a b rest : Text)
    → All (IsBare b'\'') a
    → (text_literal (single_quoted a ++ rest) ≡ some (a, rest))
      × (text_literal (single_quoted (a ++ b'\'' ∷ b) ++ rest) ≡ some (a, b ++ b'\'' ∷ rest))
unfolding text_literal
text_literal-single_quoted a b rest h = (
  ap text_literal (ap (λ s. b'\'' ∷ s) (append_assoc a (b'\'' ∷ []) rest))
      ∙ literal-append b'\'' a rest h,
  ap text_literal (ap (λ s. b'\'' ∷ s) (behind_quote a b rest))
      ∙ literal-append b'\'' a (b ++ b'\'' ∷ rest) h,
)
