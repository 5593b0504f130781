-- ===== src/Toml/Blocks/Tables.antt =====
-- The tables behind the blocks of a file: tablesAfterBlocks of toml.js.
pub mod None
use frp_manager.Base.{
  ℕ, zero, suc, Bool, true, false, not, ◌&&◌, ◌||◌, none, some, is_some, List, [], ◌∷◌, ◌++◌, Text,
  if◌then◌else◌, ltb, length, drop, is_empty, includes, starts_with, trim, join, codes,
}
use frp_manager.Base.Int.{pos, ◌+ℤ◌, pos_part}
use frp_manager.Toml.Scan.{key_end, split_comment}
use frp_manager.Toml.Brackets.{bracket_depth}
use frp_manager.Toml.Match.{range_line}
use frp_manager.Toml.Headers.{block_kind, is_block_sub}
use frp_manager.Toml.Value.{delimiter}
use frp_manager.Toml.Lines.{split_lines}
use frp_manager.Toml.Blocks.Prep.{prep}

-- The variables of the loop.
pub record Reader : Type 0 where
  pub out : List Text
  pub seen : Bool
  pub in_table : Bool
  pub buf : List Text
  pub above : List Text
  pub arr_depth : ℕ
  pub str_delim : Text
  pub pinned : ℕ

abbrev pub fresh_reader : Reader
fresh_reader = record {
  out = [];
  seen = false;
  in_table = false;
  buf = [];
  above = [];
  arr_depth = 0;
  str_delim = [];
  pinned = 0;
}

-- a line that `trimBuf` takes off
abbrev pub is_droppable : Bool → Text → Bool
unfolding trim starts_with range_line split_comment
is_droppable with_range raw =
    let l = trim raw in
    is_empty l
    || starts_with l (codes "#")
    || (with_range && is_some (range_line (split_comment l).0))

-- `trimBuf`: the lines left, the first `pinned` in any case
unfoldable pub trim_buf : Bool → ℕ → List Text → List Text
unfolding trim starts_with range_line split_comment
trim_buf with_range pinned [] = []
trim_buf with_range (suc pinned) (l ∷ ls) = l ∷ trim_buf with_range pinned ls
trim_buf with_range zero (l ∷ ls) =
    let rest = trim_buf with_range zero ls in
    if is_empty rest && is_droppable with_range l then [] else l ∷ rest

-- `if (buf.length) out.push(buf.join('\n'))` behind `trimBuf`
unfoldable pub push_buf : Bool → Reader → List Text
unfolding trim_buf join
push_buf with_range r =
    let kept = trim_buf with_range r.pinned r.buf in
    if is_empty kept then r.out else r.out ++ join (codes "\n") kept ∷ []

-- `flush`
unfoldable pub flush : Reader → Reader
unfolding push_buf
flush r = record r { out = push_buf true r; buf = []; pinned = 0 }

-- the value that a line opens: a string or an array over several lines
unfoldable pub open_value : Text → Reader → Reader
open_value line r = elim (if starts_with line (codes "[") then none else key_end line) [
  | none ↦ r
  | some eq ↦
      let v0 = trim (drop (suc eq) line) in
      let d0 = delimiter v0 in
      if not (is_empty d0) && not (includes (drop 3 v0) d0)
      then record r { str_delim = d0 }
      else record r { arr_depth = pos_part (bracket_depth (split_comment (drop (suc eq) line)).0) }
]

-- a line that is neither the continuation of a value nor the header of a block
unfoldable pub keep_line : Text → Text → Reader → Reader
unfolding starts_with
keep_line raw line r =
    let header = starts_with line (codes "[") && not (is_block_sub line) in
    let start = if header && not r.in_table then r.above else r.buf in
    if not r.seen
    then r
    else if header || r.in_table
    then record r { in_table = true; buf = start ++ raw ∷ [] }
    else if starts_with line (codes "#")
    then record r { above = r.above ++ raw ∷ [] }
    else if is_empty line
    then r
    else record r { above = [] }

-- one round of the loop
unfoldable pub read_table_line : Text → Reader → Reader
read_table_line raw r =
    let line = trim raw in
    let grown = r.buf ++ raw ∷ [] in
    let deeper = pos_part (pos r.arr_depth +ℤ bracket_depth (split_comment line).0) in
    let opened = open_value line r in
    let flushed = if opened.in_table then flush opened else opened in
    if ltb 0 r.arr_depth
    then record r { arr_depth = deeper; buf = if r.in_table then grown else r.buf }
    else if not (is_empty r.str_delim)
    then record r {
      str_delim = if includes raw r.str_delim then [] else r.str_delim;
      buf = if r.in_table then grown else r.buf;
      pinned = if r.in_table then length grown else r.pinned;
    }
    else if is_some (block_kind line)
    then record flushed { in_table = false; seen = true }
    else keep_line raw line opened

unfoldable pub read_tables : List Text → Reader → Reader
read_tables [] r = r
read_tables (raw ∷ lines) r = read_tables lines (read_table_line raw r)

-- `tablesAfterBlocks`
unfoldable pub tables_after_blocks : Text → Text
unfolding prep split_lines read_tables push_buf join
tables_after_blocks text =
    let r = read_tables (split_lines (prep text)) fresh_reader in
    join (codes "\n\n") (if r.in_table then push_buf false r else r.out)
