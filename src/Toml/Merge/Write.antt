-- ===== src/Toml/Merge/Write.antt =====
-- The text that `mergeConnection` of toml.js writes, from the changes that the keys have made.
pub mod Untouched
use frp_manager.Base.{
  ℕ, suc, ◌-◌, Bool, true, false, not, ◌&&◌, ◌||◌, Option, none, some, is_some, List, [], ◌∷◌, ◌++◌,
  Text, ◌==◌, leb, ltb, if◌then◌else◌, ◌>>=◌, length, is_empty, some_of, every, keep, map, min, max,
  split, join, same, includes, codes,
}
use frp_manager.Base.Dict.{Dict, lookup}
use frp_manager.Toml.Lines.{without_bom, lone_cr, split_lines, line_at, is_blank_line}
use frp_manager.Toml.Edit.{inline_empty}
use frp_manager.Toml.Connection.{Entry, Header, scan_connection}
use frp_manager.Toml.Merge.Raws.{generated_raws, inline_open}
use frp_manager.Toml.Merge.Places.{above, outside_of, above_blank}
use frp_manager.Toml.Merge.Keys.{
  File, Changes, no_changes, numbers, entry_lines, entry_text, merge_keys,
}

-- `drop.has(i)`
abbrev pub has_line : List ℕ → ℕ → Bool
has_line gone i = some_of (λ j. j == i) gone

-- `before.has(q)`, and the lines that are added there
abbrev pub has_before : List (ℕ × Text) → ℕ → Bool
has_before [] q = false
has_before ((p, l) ∷ before) q = p == q || has_before before q

abbrev pub added : List (ℕ × Text) → ℕ → List Text
added [] q = []
added ((p, l) ∷ before) q = if p == q then l ∷ added before q else added before q

abbrev pub put_at : List (ℕ × Text) → ℕ → Option Text
put_at [] q = none
put_at ((p, l) ∷ put) q = if p == q then some l else put_at put q

-- `add(q, ...ls)`
abbrev pub add_lines : ℕ → List Text → List (ℕ × Text)
add_lines q ls = map (λ l. (q, l)) ls

-- the inline tables that have changed
unfoldable pub write_inline : List Text → Bool → List (Entry × Text) → Changes → Changes
unfolding inline_empty inline_open entry_text split join same
write_inline lines crlf [] ch = ch
write_inline lines crlf ((e, text) ∷ rest) ch =
    let emptied = elim (inline_open text e.eq) as (λ _. Bool) [
      | none ↦ false
      | some at ↦ inline_empty text at
    ] in
    let written = if crlf then join (codes "\r\n") (split 10 text) else text in
    write_inline lines crlf rest (
      if emptied
      then record ch { gone = ch.gone ++ entry_lines 0 e }
      else if same text (entry_text lines e)
      then ch
      else record ch { put = (e.start, written) ∷ ch.put; gone = ch.gone ++ entry_lines 1 e })

abbrev pub limit_of : File → ℕ
limit_of f = elim f.scan.first_block [ none ↦ length f.lines | some i ↦ i ]

abbrev pub least : ℕ → List ℕ → ℕ
least n [] = n
least n (x ∷ xs) = least (min n x) xs

-- `tablesAt`, where there are new tables
unfoldable pub tables_at : File → ℕ
unfolding above outside_of
tables_at f = outside_of f.lines f.scan (above f.lines f.scan (limit_of f) 0 true) 0 true

-- the keys that are added at the root
unfoldable pub write_root : File → Changes → Changes
unfolding above above_blank outside_of tables_at
write_root f ch =
    let n = length f.lines in
    let first_head = least (limit_of f) (map (λ (h : Header). h.line) f.scan.headers) in
    let q₀ =
      if ltb first_head n
      then above f.lines f.scan first_head 0 false
      else above_blank f.lines first_head in
    let q = outside_of f.lines f.scan q₀ 0 false in
    let joined = not (is_empty ch.new_tables) && leb (tables_at f) q in
    let gap = not joined && ltb q n && not (is_blank_line (line_at f.lines q)) in
    if is_empty ch.root_adds then ch else record ch {
      root_at = max ch.root_at q;
      before = ch.before ++ add_lines q (ch.root_adds ++ (if gap then [] ∷ [] else []));
    }

-- the lines of new tables; `apart` tells whether a blank line stands in front of the next one
abbrev pub table_lines : Bool → Dict (List Text) → List Text
table_lines apart [] = []
table_lines apart ((sec, kv) ∷ tables) =
    (if apart then [] ∷ [] else [])
    ++ (((b'[' ∷ (sec ++ codes "]")) ∷ kv) ++ table_lines true tables)

unfoldable pub write_tables : File → Changes → Changes
unfolding tables_at
write_tables f ch =
    let n = length f.lines in
    let q = max (tables_at f) ch.root_at in
    let ls = table_lines (ltb 0 q || has_before ch.before q) ch.new_tables in
    let gap = ltb q n && not (is_blank_line (line_at f.lines q)) in
    if is_empty ch.new_tables
    then ch
    else record ch { before = ch.before ++ add_lines q (ls ++ (if gap then [] ∷ [] else [])) }

-- `drop.delete(i)`
abbrev pub restore : ℕ → List ℕ → List ℕ
restore i gone = keep (λ j. not (j == i)) gone

abbrev pub last_number : List ℕ → Option ℕ
last_number [] = none
last_number (x ∷ xs) = elim (last_number xs) [ none ↦ some x | some y ↦ some y ]

-- where the table of a header ends
abbrev pub stop_of : File → Header → ℕ
stop_of f h = least (length f.lines) (keep (λ x. ltb h.line x) f.scan.heads)

abbrev pub region_of : File → Header → List ℕ
region_of f h = numbers (suc h.line) (stop_of f h - suc h.line)

-- whether a table had keys and the merge has left none, and adds none
unfoldable pub is_emptied : File → Changes → Header → Bool
is_emptied f ch h =
    let stop = stop_of f h in
    let region = region_of f h in
    let had = some_of (λ (e : Entry). ltb h.line e.start && ltb e.start stop) f.scan.entries in
    let empty = every (λ j. has_line ch.gone j || is_blank_line (line_at f.lines j)) region in
    let fed = some_of (has_before ch.before) region || has_before ch.before stop in
    had && empty && not fed && not h.is_array

-- the header of an emptied table goes, with the blank lines but one
unfoldable pub drop_table : File → Changes → Header → Changes
drop_table f ch h =
    let n = length f.lines in
    let stop = stop_of f h in
    let region = region_of f h in
    let gap_before = ltb 0 h.line && is_blank_line (line_at f.lines (h.line - 1)) in
    let left = keep (λ j. not (has_line ch.gone j || j == h.line)) region in
    let gone = ch.gone ++ (h.line ∷ region) in
    let at_end = if is_empty (line_at f.lines (n - 1)) then restore (n - 1) gone else gone in
    let kept = elim (last_number left) as (λ _. List ℕ) [ none ↦ gone | some j ↦ restore j gone ] in
    record ch {
      gone =
          if stop == n
          then (if gap_before then at_end ++ (h.line - 1) ∷ [] else at_end)
          else if gap_before
          then gone
          else kept;
    }

unfoldable pub drop_tables : File → List Header → Changes → Changes
unfolding is_emptied drop_table
drop_tables f [] ch = ch
drop_tables f (h ∷ hs) ch = drop_tables f hs (if is_emptied f ch h then drop_table f ch h else ch)

-- the last loop, from line `i` on
unfoldable pub write_from : Changes → ℕ → List Text → List Text
write_from ch i [] = added ch.before i
write_from ch i (l ∷ ls) =
    let line = elim (put_at ch.put i) as (λ _. Text) [ none ↦ l | some new ↦ new ] in
    added ch.before i
    ++ ((if has_line ch.gone i then [] else line ∷ []) ++ write_from ch (suc i) ls)

-- What `mergeConnection` returns, or the keys of the error that it throws.
pub data Merged : Type 0 where
  written : Text → Merged
  refused : List Text → Merged

-- the keys that are wanted first, then those that are no longer generated; `touched` is the list of
-- a Set, with no key twice
abbrev pub touched_keys : Dict Text → List Text → List Text
unfolding same lookup
touched_keys want touched =
    keep (λ k. some_of (same k) touched) (map (λ (kv : Text × Text). kv.0) want)
    ++ keep (λ k. not (is_some (lookup k want))) touched

-- the lines that are written
unfoldable pub merged_lines : File → Bool → Changes → List Text
merged_lines f crlf ch =
    let ch' = write_tables f (write_root f (write_inline f.lines crlf ch.inline ch)) in
    write_from (drop_tables f f.scan.headers ch') 0 f.lines

abbrev pub line_break : Bool → Text
line_break crlf = if crlf then codes "\r\n" else codes "\n"

-- the lines of the file, with the keys changed
unfoldable pub merge_file : File → Bool → Dict Text → List Text → Option Merged
merge_file f crlf want touched = do
  ch ← merge_keys f want (touched_keys want touched) no_changes
  some (
      if is_empty ch.refused
      then written (join (line_break crlf) (merged_lines f crlf ch))
      else refused ch.refused)

-- `mergeConnection`; `none` if `unquote` throws
unfoldable pub merge_connection : Text → Text → List Text → Option Merged
merge_connection text generated touched =
    let src = lone_cr (without_bom text) in
    let lines = split_lines src in
    let f : File = record { lines = lines; scan = scan_connection lines } in
    merge_file f (includes src (codes "\r\n")) (generated_raws generated) touched
