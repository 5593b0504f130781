-- ===== src/Toml/Blocks/Strip.antt =====
-- The parts of a file around its blocks in toml.js: dropTrailingComments, stripBlocks and
-- extractBlocks.
use frp_manager.Base.{
  ℕ, ◌+◌, Bool, not, ◌&&◌, ◌||◌, none, some, List, [], ◌∷◌, Text, if◌then◌else◌, length, take, drop,
  is_empty, some_of, includes, starts_with, trim, trim_end, split, join, codes,
}
use frp_manager.Toml.Lines.{split_lines, is_blank_line}
use frp_manager.Toml.Blocks.{find_block, multiline_string_lines, is_in_string}
use frp_manager.Toml.Blocks.Prep.{prep}

-- `!lines[i].trim() || lines[i].trim().startsWith('#')`
abbrev pub is_comment_line : Text → Bool
unfolding trim starts_with
is_comment_line l = is_blank_line l || starts_with (trim l) (codes "#")

-- `starts`: the offsets of the lines
abbrev pub offsets : ℕ → List Text → List ℕ
offsets off [] = []
offsets off (l ∷ ls) = off ∷ offsets (off + length l + 1) ls

-- `while (lines.length && isNote(lines.length - 1)) lines.pop()`, with the offset of each line. There
-- is one for each, as both ways to split a text end its lines at the same places.
unfoldable pub drop_notes : List ℕ → List ℕ → List Text → List Text
unfolding trim starts_with
drop_notes inside [] ls = ls
drop_notes inside (off ∷ starts) [] = []
drop_notes inside (off ∷ starts) (l ∷ ls) =
    let rest = drop_notes inside starts ls in
    if is_empty rest && not (is_in_string inside off) && is_comment_line l then [] else l ∷ rest

-- `dropTrailingComments`
unfoldable pub drop_trailing_comments : Text → Text
unfolding drop_notes split_lines multiline_string_lines split join includes trim starts_with
drop_trailing_comments base =
    let lines = split_lines base in
    let inside = multiline_string_lines base in
    let line_break = if includes base (codes "\r\n") then codes "\r\n" else codes "\n" in
    if some_of (λ l. not (is_comment_line l)) lines
    then join line_break (drop_notes inside (offsets 0 (split 10 base)) lines)
    else base

-- `stripBlocks`
unfoldable pub strip_blocks : Text → Text
unfolding prep find_block drop_trailing_comments trim_end
strip_blocks text =
    let prepared = prep text in
    elim (find_block prepared) [
      | none ↦ trim_end prepared
      | some i ↦ drop_trailing_comments (trim_end (take i prepared))
    ]

-- `extractBlocks`
unfoldable pub extract_blocks : Text → Text
unfolding prep find_block trim
extract_blocks text =
    let prepared = prep text in
    elim (find_block prepared) [ none ↦ [] | some i ↦ trim (drop i prepared) ]
