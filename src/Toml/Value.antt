-- ===== src/Toml/Value.antt =====
-- Values in toml.js as `parseToml` reads them: strings, inline tables and arrays that go on over
-- several lines.
pub mod Rest
use frp_manager.Base.{
  ℕ, suc, ◌-◌, ◌+◌, Bool, not, ◌&&◌, List, [], ◌∷◌, ◌++◌, Text, if◌then◌else◌, length, drop,
  is_empty, starts_with, includes, trim, trim_start, join, codes,
}
use frp_manager.Base.Int.{ℤ, is_pos, ◌+ℤ◌}
use frp_manager.Toml.Scan.{split_comment, triple, quote_mark, apostrophe}
use frp_manager.Toml.Brackets.{bracket_depth, open_depth}

-- the lines of a string up to the one that holds the delimiter, and those behind it
unfoldable pub take_string : Text → List Text → List Text × List Text
take_string delim [] = ([], [])
take_string delim (l ∷ ls) =
    let (more, rest) = take_string delim ls in
    if includes l delim then (l ∷ [], ls) else (l ∷ more, rest)

-- the lines of an inline table while braces or brackets are open
unfoldable pub take_table : ℤ → List Text → List Text × List Text
unfolding open_depth
take_table d [] = ([], [])
take_table d (l ∷ ls) =
    let (more, rest) = take_table (d +ℤ open_depth l) ls in
    if is_pos d then (l ∷ more, rest) else ([], l ∷ ls)

-- The value of a key, what follows it on its line, and the lines behind it.
pub record Value : Type 0 where
  pub raw : Text
  pub eol : Text
  pub inner : List Text
  pub rest : List Text

-- the lines of an array while brackets are open: `parts` are read, and the comments in `inner`
take_array : List Text → List Text → List Text → List Text × List Text × List Text
unfolding bracket_depth split_comment join
take_array parts inner [] = (parts, inner, [])
take_array parts inner (l ∷ ls) =
    let (more, note) = split_comment l in
    let after =
      take_array (if is_empty more then parts else parts ++ more ∷ [])
        (if is_empty note then inner else inner ++ note ∷ []) ls in
    if is_pos (bracket_depth (join (codes "\n") parts)) then after else (parts, inner, l ∷ ls)

abbrev pub delimiter : Text → Text
delimiter s =
    if starts_with s (triple quote_mark)
    then triple quote_mark
    else if starts_with s (triple apostrophe)
    then triple apostrophe
    else []

-- a string over several lines is kept from its first character on
unfoldable pub read_string : Text → ℕ → List Text → Value → Value
unfolding take_string includes starts_with trim trim_start join
read_string raw_line eq lines v =
    let line = trim raw_line in
    let rest0 = trim (drop (suc eq) line) in
    let delim = delimiter rest0 in
    let lead = length raw_line - length (trim_start raw_line) in
    let (more, rest) = take_string delim lines in
    if not (is_empty delim) && not (includes (drop 3 rest0) delim)
    then record {
      raw = join (codes "\n") (trim_start (drop (lead + eq + 1) raw_line) ∷ more);
      eol = [];
      inner = [];
      rest = rest;
    }
    else v

-- an inline table over several lines, outside the blocks, is kept with its comments
unfoldable pub read_table : Bool → Text → Value → Value
unfolding take_table open_depth starts_with join
read_table in_block rest0 v =
    let (more, rest) = take_table (open_depth rest0) v.rest in
    if not in_block && starts_with v.raw (codes "{") && is_pos (open_depth rest0)
    then record v { raw = join (codes "\n") (rest0 ∷ more); eol = []; rest = rest }
    else v

-- an array over several lines loses its comments, which are kept apart
unfoldable pub read_array : Value → Value
unfolding take_array bracket_depth starts_with join
read_array v =
    let (parts, inner, rest) = take_array (v.raw ∷ []) [] v.rest in
    if starts_with v.raw (codes "[") && is_pos (bracket_depth v.raw)
    then record {
      raw = join (codes "\n") parts;
      eol = [];
      inner = if is_empty v.eol then inner else v.eol ∷ inner;
      rest = rest;
    }
    else v

-- the value of the line whose "=" stands at `eq`
unfoldable pub read_value : Bool → Text → ℕ → List Text → Value
unfolding split_comment trim
read_value in_block raw_line eq lines =
    let line = trim raw_line in
    let (raw, eol) = split_comment (drop (suc eq) line) in
    let v : Value = record { raw = raw; eol = eol; inner = []; rest = lines } in
    read_array (read_table in_block (trim (drop (suc eq) line)) (read_string raw_line eq lines v))
