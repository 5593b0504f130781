-- ===== src/Toml/Parse.antt =====
-- `parseToml` over the lines of a text that `prep` has normalised. Each round reads one line, and
-- the lines behind it that a multi-line value goes on in. `none` stands for the RangeError of
-- `unquote`.
pub mod Bare
pub mod Ends
pub mod Line
pub mod Written
use frp_manager.Base.{
  is_some, ℕ, suc, zero, ◌-◌, ◌+◌, Bool, true, false, not, ◌&&◌, ◌||◌, Option, none, some, List, [],
  ◌∷◌, ◌++◌, Text, ◌==◌, leb, ltb, if◌then◌else◌, length, take, drop, every, is_empty, starts_with,
  includes, trim, trim_start, join, codes, ◌>>=◌,
}
use frp_manager.Base.Int.{ℤ, is_pos, ◌+ℤ◌}
use frp_manager.Base.Dict.{Dict, assign, has}
use frp_manager.Toml.Scan.{key_end, split_comment, triple, quote_mark, apostrophe, newline}
use frp_manager.Toml.Brackets.{bracket_depth, open_depth}
use frp_manager.Toml.KeyPath.{key_path, unquote_name, is_name_char}
use frp_manager.Toml.Unquote.{unquote}
use frp_manager.Toml.Hosts.{is_dot}
use frp_manager.Toml.Match.{PortRange, range_line, is_end_line}
use frp_manager.Toml.Headers.{
  Kind, proxies, visitors, block_kind, block_prefix, is_block_sub, strip_head,
}
use frp_manager.Toml.Inline.{inline_values}
use frp_manager.Toml.Block.{Note, Notes, Block}
use frp_manager.Toml.Value.{Value, read_value, read_string, read_table, read_array}

-- A block that is being read, with its kind.
pub record Open : Type 0 where
  pub kind : Kind
  pub block : Block

-- The variables of the loop. `out.proxies` and `out.visitors` get a block when it is complete:
-- in the source they hold the object that `block` still changes.
pub record State : Type 0 where
  pub values : Dict Text
  pub proxies_read : List Block
  pub visitors_read : List Block
  pub block : Option Open
  pub prefix : Text
  pub section : Text
  pub pending_range : Option PortRange
  pub comments : List Text
  pub seen_block : Bool
  pub any_content : Bool

abbrev pub initial : State
initial = record {
  values = [];
  proxies_read = [];
  visitors_read = [];
  block = none;
  prefix = [];
  section = [];
  pending_range = none;
  comments = [];
  seen_block = false;
  any_content = false;
}

abbrev pub add_block : Kind → Block → State → State
add_block proxies b st = record st { proxies_read = st.proxies_read ++ b ∷ [] }
add_block visitors b st = record st { visitors_read = st.visitors_read ++ b ∷ [] }

-- the open block, if there is one, becomes a complete one
unfoldable pub close_block : State → State
close_block st = elim st.block [
  | none ↦ st
  | some o ↦ add_block o.kind o.block (record st { block = none })
]

-- `[["proxies"]] # note`: a new block takes the comments above it and the range line before it
unfoldable pub open_block : Kind → Text → State → State
unfolding close_block
open_block kind head_eol st =
    let fresh : Block = record {
      values = [];
      raw = [];
      order = [];
      comments = st.comments;
      notes =
          if is_empty head_eol
          then []
          else (codes "[[]]", record { before = []; eol = head_eol }) ∷ [];
      range = st.pending_range;
    } in
    record (close_block st) {
      block = some (record { kind = kind; block = fresh });
      prefix = [];
      pending_range = none;
      comments = [];
      seen_block = true;
    }

-- `name.match(/^(?:proxies|visitors)\.(.+)$/)`
abbrev pub sub_table : Text → Option Text
unfolding block_prefix
sub_table name = elim (block_prefix name) [
  | none ↦ none
  | some rest ↦ if not (is_empty rest) && every is_dot rest then some rest else none
]

-- a table header; `pending` are the comments above it
unfoldable pub read_header : Text → List Text → State → State
unfolding split_comment key_path strip_head is_block_sub block_prefix close_block
read_header line pending st =
    let in_block = is_some st.block in
    let content = st.any_content || not (in_block && is_block_sub line) in
    let (code, eol) = split_comment line in
    let name = key_path (strip_head code) in
    let table = record (close_block st) {
      prefix = [];
      section = name;
      comments = [];
      any_content = content;
    } in
    elim (if in_block then sub_table name else none) [
      | none ↦ table
      | some sub ↦ record st {
        prefix = sub ++ codes ".";
        comments = if is_empty eol then pending else pending ++ eol ∷ [];
        any_content = content;
      }
    ]

-- the comments of a key, if it has any
abbrev pub note_of : List Text → Value → Notes → Text → Notes
note_of pending v notes k =
    if is_empty pending && is_empty v.inner && is_empty v.eol
    then notes
    else assign k (record { before = pending ++ v.inner; eol = v.eol }) notes

-- a key of a block
unfoldable pub store_in_block : Text → Text → Value → List Text → Block → Block
unfolding assign has
store_in_block k value v pending b = record b {
  order = if has k b.raw then b.order else b.order ++ k ∷ [];
  values = assign k value b.values;
  raw = assign k v.raw b.raw;
  notes = note_of pending v b.notes k;
}

-- a key of the connection part; the keys of an inline table are stored one by one
unfoldable pub store_outside : Text → Text → Value → State → Option State
unfolding assign starts_with inline_values
store_outside key value v st =
    let full = if is_empty st.section then key else st.section ++ b'.' ∷ key in
    let direct = assign full value st.values in
    do
      values ←
          if starts_with v.raw (codes "{") then inline_values v.raw full direct else some direct
      some (record st { values = values; any_content = true })

-- the key of a line: inside a block only plain quotes are taken off
abbrev pub key_of : Bool → Text → Text
unfolding unquote_name key_path trim
key_of in_block s =
    if in_block then unquote_name (λ c. is_name_char c || c == b'.') (trim s) else key_path s

unfoldable pub store_value : Text → Value → List Text → State → Option State
unfolding unquote store_in_block store_outside
store_value key v pending st = do
  value ← unquote v.raw
  elim st.block [
    | none ↦ store_outside key value v st
    | some o ↦ some (record st {
      block = some (record o { block = store_in_block (st.prefix ++ key) value v pending o.block });
    })
  ]

-- The state and the lines that are left.
pub record Progress : Type 0 where
  pub state : State
  pub lines : List Text

-- a line "key = value"; `pending` are the comments above it
unfoldable pub read_key : Text → List Text → List Text → State → Option Progress
unfolding key_end trim
read_key raw_line lines pending st =
    let line = trim raw_line in
    let in_block = is_some st.block in
    elim (key_end line) [
      | none ↦ some (record { state = st; lines = lines })
      | some eq ↦ do
        let v = read_value in_block raw_line eq lines
        after ← store_value (key_of in_block (take eq line)) v pending st
        some (record { state = after; lines = v.rest })
    ]

-- a line that is not blank, no comment and no template line
unfoldable pub read_content : Text → List Text → State → Option Progress
unfolding open_block read_header split_comment starts_with trim
read_content raw_line lines st =
    let line = trim raw_line in
    let head_eol = if starts_with line (codes "[[") then (split_comment line).1 else [] in
    elim (block_kind line) [
      | some kind ↦ some (record { state = open_block kind head_eol st; lines = lines })
      | none ↦
          let cleared = record st { comments = [] } in
          if starts_with line (codes "[")
          then some (record { state = read_header line st.comments cleared; lines = lines })
          else read_key raw_line lines st.comments cleared
    ]

-- one round of the loop
unfoldable pub read_line : Text → List Text → State → Option Progress
unfolding split_comment starts_with trim
read_line raw_line lines st =
    let line = trim raw_line in
    let is_comment = starts_with line (codes "#") in
    let commented =
      if is_comment && (st.seen_block || st.any_content)
      then record st { comments = st.comments ++ line ∷ [] }
      else st in
    let (code, note) = if starts_with line (codes "{{") then split_comment line else (line, []) in
    let range = range_line code in
    let template = is_some range || is_end_line code in
    let noted =
      if template && not (is_empty note)
      then record st { comments = st.comments ++ note ∷ [] }
      else st in
    if is_empty line || is_comment
    then some (record { state = commented; lines = lines })
    else if template
    then some (record {
      state = record noted { pending_range = if is_some range then range else st.pending_range };
      lines = lines;
    })
    else read_content raw_line lines st

-- The loop of `parseToml`. Each round reads a line, so that their number is fuel enough.
unfoldable pub read_lines : ℕ → List Text → State → Option State
unfolding read_line range_line is_end_line read_content block_kind read_key store_value read_value
    read_string read_table read_array
read_lines fuel [] st = some st
read_lines zero (l ∷ ls) st = none
read_lines (suc fuel) (l ∷ ls) st = do p ← read_line l ls st; read_lines fuel p.lines p.state

-- The result of `parseToml`.
pub record Config : Type 0 where
  pub values : Dict Text
  pub proxies_read : List Block
  pub visitors_read : List Block
  pub trailing : List Text

-- `parseToml` of the lines of a prepared text
unfoldable pub parse_lines : List Text → Option Config
unfolding read_lines close_block
parse_lines lines = do
  st ← read_lines (length lines) lines initial
  let done = close_block st
  some (record {
    values = done.values;
    proxies_read = done.proxies_read;
    visitors_read = done.visitors_read;
    trailing = done.comments;
  })
