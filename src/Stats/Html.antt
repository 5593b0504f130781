-- ===== src/Stats/Html.antt =====
-- escapeHtml of tools/stats-worker/render.js, with which every value enters the page of the
-- statistics.
pub mod Inert
use frp_manager.Base.{ℕ, [], ◌∷◌, ◌++◌, Text, ◌==◌, if◌then◌else◌, codes}

-- the text of one character: those of /[&<>"']/ have one of their own
unfoldable pub escape_char : ℕ → Text
escape_char c =
    if c == b'&'
    then codes "&amp;"
    else if c == b'<'
    then codes "&lt;"
    else if c == b'>'
    then codes "&gt;"
    else if c == 34
    then codes "&quot;"
    else if c == 39
    then codes "&#39;"
    else c ∷ []

-- `escapeHtml` of a text
unfoldable pub escape_html : Text → Text
escape_html [] = []
escape_html (c ∷ s) = escape_char c ++ escape_html s
