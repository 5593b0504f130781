-- ===== src/Toml/Lines.antt =====
-- The lines of a text in toml.js, and the normalising in front of them.
pub mod Joined
use frp_manager.Base.{
  ℕ, zero, suc, ◌+◌, Bool, not, ◌&&◌, ◌||◌, Option, none, some, List, [], ◌∷◌, Text, ◌==◌,
  if◌then◌else◌, take, drop, is_empty, index_of, starts_with, add_part, trim, codes,
}

-- `text.replace(/^\uFEFF/, '')`
abbrev pub without_bom : Text → Text
without_bom [] = []
without_bom (c ∷ s) = if c == 0xfeff then s else c ∷ s

-- `text.replace(/\r(?!\n)/g, '\n')`
unfoldable pub lone_cr : Text → Text
unfolding starts_with
lone_cr [] = []
lone_cr (c ∷ s) = (if c == 13 && not (starts_with s (codes "\n")) then 10 else c) ∷ lone_cr s

-- `text.split(/\r?\n/)`
unfoldable pub split_lines : Text → List Text
unfolding starts_with
split_lines [] = [] ∷ []
split_lines (c ∷ s) =
    let rest = split_lines s in
    if c == 13 && starts_with s (codes "\n")
    then rest
    else if c == 10
    then [] ∷ rest
    else add_part c rest

-- `lines[i]`, the empty text behind the end
abbrev pub line_at : List Text → ℕ → Text
line_at [] i = []
line_at (l ∷ ls) zero = l
line_at (l ∷ ls) (suc i) = line_at ls i

-- `!line.trim()`
abbrev pub is_blank_line : Text → Bool
unfolding trim
is_blank_line l = is_empty (trim l)

-- `[ \t]`
abbrev pub is_blank : ℕ → Bool
is_blank c = c == 32 || c == 9

-- `/^[ \t]*/`, and what follows it
unfoldable pub blanks : Text → Text
blanks [] = []
blanks (c ∷ s) = let rest = blanks s in if is_blank c then c ∷ rest else []

unfoldable pub skip_blanks : Text → Text
skip_blanks [] = []
skip_blanks (c ∷ s) = let rest = skip_blanks s in if is_blank c then rest else c ∷ s

-- where the line starts that the end of a text stands in: `s.lastIndexOf('\n') + 1`
start_from : ℕ → ℕ → Text → ℕ
start_from start i [] = start
start_from start i (c ∷ s) = start_from (if c == 10 then suc i else start) (suc i) s

-- `s.lastIndexOf('\n', i - 1) + 1` for 0 < i
unfoldable pub line_start : Text → ℕ → ℕ
unfolding start_from
line_start s i = start_from 0 0 (take i s)

-- `s.indexOf(c, from)`
unfoldable pub index_from : ℕ → Text → ℕ → Option ℕ
unfolding index_of
index_from c s from = elim (index_of c (drop from s)) [ none ↦ none | some i ↦ some (from + i) ]
