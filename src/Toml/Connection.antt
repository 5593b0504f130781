-- ===== src/Toml/Connection.antt =====
-- The lines of the connection part in toml.js: scanConnection and the template actions it counts.
pub mod Entries
use frp_manager.Base.{
  ℕ, zero, suc, ◌+◌, Bool, true, false, not, ◌&&◌, ◌||◌, Option, none, some, is_some, List, [], ◌∷◌,
  ◌++◌, Text, ◌==◌, if◌then◌else◌, length, take, drop, is_empty, some_of, same, starts_with,
  includes, trim, trim_start, codes,
}
use frp_manager.Base.Int.{ℤ, pos, negsuc, ◌+ℤ◌, pos_part}
use frp_manager.Toml.Scan.{key_end, split_comment}
use frp_manager.Toml.Brackets.{open_depth}
use frp_manager.Toml.KeyPath.{key_path, is_name_char}
use frp_manager.Toml.Match.{eat, eat_if}
use frp_manager.Toml.Headers.{kind_of, strip_head, block_prefix}
use frp_manager.Toml.Value.{delimiter, take_string, take_table}

-- `\w`
abbrev pub is_word : ℕ → Bool
is_word c = is_name_char c && not (c == b'-')

take_word : Text → Text
take_word [] = []
take_word (c ∷ s) = let rest = take_word s in if is_word c then c ∷ rest else []

-- the word behind `\{\{-?\s*` at the start of a text; the expressions end it by `\b`
unfoldable pub action_word : Text → Option Text
unfolding eat eat_if trim_start take_word
action_word s = elim (eat (codes "{{") s) [
  | none ↦ none
  | some rest ↦ some (take_word (trim_start (eat_if (codes "-") rest)))
]

abbrev pub openers : List Text
openers = codes "if" ∷ codes "range" ∷ codes "with" ∷ codes "block" ∷ codes "define" ∷ []

abbrev pub delta_of : Option Text → ℤ
unfolding same
delta_of none = pos 0
delta_of (some w) =
    if same w (codes "end")
    then negsuc 0
    else if some_of (λ o. same o w) openers
    then pos 1
    else pos 0

-- `tplDelta`. A match holds no start of another.
unfoldable pub tpl_delta : Text → ℤ
unfolding action_word ◌+ℤ◌ same
tpl_delta [] = pos 0
tpl_delta (c ∷ s) = delta_of (action_word (c ∷ s)) +ℤ tpl_delta s

-- `tplClosing`
unfoldable pub tpl_closing : Text → Bool
unfolding action_word trim same
tpl_closing line = elim (action_word (trim line)) [
  | none ↦ false
  | some w ↦ same w (codes "end") || same w (codes "else")
]

-- A line "key = value": the full key, its table, its first and last line, and where its "=" stands.
pub record Entry : Type 0 where
  pub key : Text
  pub table : Text
  pub start : ℕ
  pub last : ℕ
  pub eq : ℕ

pub record Header : Type 0 where
  pub name : Text
  pub is_array : Bool
  pub line : ℕ

-- What `scanConnection` returns. `depth` and `body` go line by line, `depth` with one more for the
-- end of the file.
pub record Scanned : Type 0 where
  pub entries : List Entry
  pub headers : List Header
  pub heads : List ℕ
  pub first_block : Option ℕ
  pub depth : List ℕ
  pub body : List Bool

-- The variables of the loop; a table is `none` in an unknown [[table]].
pub record Place : Type 0 where
  pub tdepth : ℕ
  pub table : Option Text
  pub in_block : Bool

-- What one line is: the variables behind it, the number of further lines of its value, and what is
-- noted of it.
pub record Seen : Type 0 where
  pub after : Place
  pub more : ℕ
  pub entry : Option Entry
  pub header : Option Header
  pub is_head : Bool
  pub is_block : Bool

abbrev pub plain_line : Place → Seen
plain_line at = record {
  after = at;
  more = 0;
  entry = none;
  header = none;
  is_head = false;
  is_block = false;
}

-- a line that starts with "["
unfoldable pub see_header : Place → ℕ → Text → Seen
see_header at i tr =
    let code = (split_comment tr).0 in
    let array = starts_with code (codes "[[") in
    let name = key_path (strip_head code) in
    let head = record (plain_line at) { is_head = true } in
    if array && is_some (kind_of name)
    then record head { after = record at { in_block = true }; is_block = true }
    else if at.in_block && is_some (block_prefix name)
    then head
    else record head {
      after = record at { in_block = false; table = if array then none else some name };
      header = some (record { name = name; is_array = array; line = i });
    }

-- how many further lines the value of a line has
unfoldable pub further_lines : Text → List Text → ℕ
unfolding take_string take_table open_depth starts_with includes
further_lines rest lines =
    let d = delimiter rest in
    if is_empty d
    then length (take_table (open_depth rest) lines).0
    else if includes (drop 3 rest) d
    then 0
    else length (take_string d lines).0

-- a line with a "=" at `eq`
unfoldable pub see_key : Place → ℕ → Text → ℕ → List Text → Seen
see_key at i line eq lines =
    let more = further_lines (trim (drop (suc eq) line)) lines in
    let seen = record (plain_line at) { more = more } in
    let k = key_path (take eq line) in
    elim at.table [
      | none ↦ seen
      | some table ↦ if at.in_block then seen else record seen {
        entry = some (record {
          key = if is_empty table then k else table ++ b'.' ∷ k;
          table = table;
          start = i;
          last = i + more;
          eq = eq;
        });
      }
    ]

-- one line, with the lines behind it
unfoldable pub see_line : Place → ℕ → Text → List Text → Seen
see_line at i line lines =
    let tr = trim line in
    if starts_with tr (codes "{{")
    then record (plain_line at) {
      after = record at { tdepth = pos_part (pos at.tdepth +ℤ tpl_delta tr) };
    }
    else if is_empty tr || starts_with tr (codes "#")
    then plain_line at
    else if starts_with tr (codes "[")
    then see_header at i tr
    else elim (key_end line) [ none ↦ plain_line at | some eq ↦ see_key at i line eq lines ]

abbrev with_option {ℓ} : {A : Type ℓ} → Option A → List A → List A
with_option none xs = xs
with_option (some x) xs = x ∷ xs

-- what a line adds to what the lines behind it give
abbrev pub add_seen : Place → ℕ → Seen → Scanned → Scanned
add_seen at i seen rest = record {
  entries = with_option seen.entry rest.entries;
  headers = with_option seen.header rest.headers;
  heads = if seen.is_head then i ∷ rest.heads else rest.heads;
  first_block = if seen.is_block then some i else rest.first_block;
  depth = at.tdepth ∷ rest.depth;
  body = false ∷ rest.body;
}

-- The loop of `scanConnection` from line `i` on; `more` counts the lines of a value that are still
-- to be passed.
unfoldable pub scan_from : Place → ℕ → ℕ → List Text → Scanned
scan_from at more i [] = record {
  entries = [];
  headers = [];
  heads = [];
  first_block = none;
  depth = at.tdepth ∷ [];
  body = [];
}
scan_from at (suc more) i (l ∷ ls) =
    let rest = scan_from at more (suc i) ls in
    record rest { depth = at.tdepth ∷ rest.depth; body = true ∷ rest.body }
scan_from at zero i (l ∷ ls) =
    let seen = see_line at i l ls in add_seen at i seen (scan_from seen.after seen.more (suc i) ls)

-- `scanConnection`
unfoldable pub scan_connection : List Text → Scanned
unfolding scan_from
scan_connection lines =
    scan_from (record { tdepth = 0; table = some []; in_block = false }) 0 0 lines
