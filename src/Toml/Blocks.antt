-- ===== src/Toml/Blocks.antt =====
-- The blocks of a whole file in toml.js: where its multi-line strings are, and its first block.
pub mod Prep
pub mod Strip
pub mod Tables
pub mod Compose
use frp_manager.Base.{
  ℕ, zero, suc, ◌+◌, ◌-◌, Bool, true, false, not, ◌&&◌, ◌||◌, Option, none, some, is_some, List, [],
  ◌∷◌, ◌++◌, Text, ◌==◌, if◌then◌else◌, ◌>>=◌, length, take, drop, is_empty, some_of, split,
  includes, starts_with, trim, trim_start, codes,
}
use frp_manager.Toml.Scan.{key_end, quote_mark, apostrophe}
use frp_manager.Toml.Value.{delimiter}
use frp_manager.Toml.Lines.{skip_blanks, line_start}
use frp_manager.Toml.Match.{eat, eat_if, range_front}

-- the delimiter of a string that a line opens and does not close
unfoldable pub opened_string : Text → Text
unfolding includes key_end trim starts_with
opened_string line =
    let v = elim (key_end line) as (λ _. Text) [
      | none ↦ []
      | some eq ↦ trim (drop (suc eq) line)
    ] in
    let d = delimiter v in if is_empty d || includes (drop 3 v) d then [] else d

-- the delimiter that is open behind a line
unfoldable pub string_after : Text → Text → Text
unfolding includes trim_start starts_with opened_string
string_after delim line =
    if not (is_empty delim)
    then (if includes line delim then [] else delim)
    else if starts_with (trim_start line) (codes "#")
    then []
    else opened_string line

-- The loop of `multilineStringLines`: the offsets of the lines in a string that is open.
unfoldable pub string_offsets : Text → ℕ → List Text → List ℕ
unfolding string_after
string_offsets delim off [] = []
string_offsets delim off (line ∷ lines) =
    let rest = string_offsets (string_after delim line) (off + length line + 1) lines in
    if is_empty delim then rest else off ∷ rest

-- `multilineStringLines`
unfoldable pub multiline_string_lines : Text → List ℕ
unfolding string_offsets split
multiline_string_lines text = string_offsets [] 0 (split 10 text)

-- `skip.has(i)`
abbrev pub is_in_string : List ℕ → ℕ → Bool
is_in_string skip i = some_of (λ j. j == i) skip

-- `^` of an expression with the flag `m`, behind the character `c`
abbrev pub ends_line : ℕ → Bool
ends_line c = c == 10 || c == 13 || c == 0x2028 || c == 0x2029

-- `(?:#[^\r\n]*)?`
drop_note : Bool → Text → Text
drop_note noted [] = []
drop_note noted (c ∷ s) =
    let rest = drop_note true s in
    if (noted || c == b'#') && not (c == 10 || c == 13) then rest else c ∷ s

-- `[ \t]*(?:#[^\r\n]*)?\r?\n`
eat_note_line : Text → Option Text
unfolding skip_blanks drop_note eat eat_if
eat_note_line s = eat (codes "\n") (eat_if (codes "\r") (drop_note false (skip_blanks s)))

-- any number of such lines; each of them takes a character
eat_note_lines : ℕ → Text → Text
unfolding eat_note_line
eat_note_lines zero s = s
eat_note_lines (suc fuel) s = elim (eat_note_line s) [
  | none ↦ s
  | some rest ↦ eat_note_lines fuel rest
]

-- `(proxies|visitors)`
unfoldable pub eat_kind : Text → Option (Text × Text)
unfolding eat starts_with
eat_kind s =
    if starts_with s (codes "proxies")
    then some (codes "proxies", drop 7 s)
    else if starts_with s (codes "visitors")
    then some (codes "visitors", drop 8 s)
    else none

-- `(["']?)`
abbrev pub quote_of : Text → Text
unfolding starts_with
quote_of s =
    if starts_with s (quote_mark ∷ [])
    then quote_mark ∷ []
    else if starts_with s (apostrophe ∷ [])
    then apostrophe ∷ []
    else []

-- `\[\[[ \t]*(["']?)(proxies|visitors)\4[ \t]*\]\]`
eat_block_head : Text → Option Text
unfolding eat eat_kind skip_blanks starts_with
eat_block_head s = do
  t₁ ← eat (codes "[[") s
  let t₂ = skip_blanks t₁
  let quote = quote_of t₂
  named ← eat_kind (drop (length quote) t₂)
  t₃ ← eat quote named.1
  eat (codes "]]") (skip_blanks t₃)

-- `BLOCK_RE` at the start of a line: what follows the match
unfoldable pub eat_block : Text → Option Text
unfolding range_front eat_note_line eat_note_lines eat_block_head skip_blanks
eat_block s = elim (range_front (skip_blanks s)) [
  | none ↦ eat_block_head (skip_blanks s)
  | some (_, rest) ↦ do
    first ← eat_note_line rest
    eat_block_head (skip_blanks (eat_note_lines (length first) first))
]

-- The search of `findBlock` from place `i` on; `text` is the whole text, and `fresh` tells whether a
-- line starts here.
find_from : Text → List ℕ → Bool → ℕ → Text → Option ℕ
unfolding eat_block line_start
find_from text skip fresh i [] = none
find_from text skip fresh i (c ∷ s) =
    let further = find_from text skip (ends_line c) (suc i) s in
    let found = if fresh then eat_block (c ∷ s) else none in
    elim found [
      | none ↦ further
      | some rest ↦
          let head = line_start text (length text - length rest - 1) in
          if is_in_string skip i || is_in_string skip head then further else some i
    ]

-- `findBlock`: where the match starts
unfoldable pub find_block : Text → Option ℕ
unfolding find_from multiline_string_lines
find_block text = find_from text (multiline_string_lines text) true 0 text
