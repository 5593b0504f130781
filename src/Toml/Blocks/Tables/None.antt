-- ===== src/Toml/Blocks/Tables/None.antt =====
-- What tablesAfterBlocks of toml.js gives for a file without blocks.
use frp_manager.Base.{
  true, false, not, ◌&&◌, none, List, [], ◌∷◌, Text, if◌then◌else◌, ltb, drop, suc, is_empty, ap,
  starts_with, includes, trim, join, codes, All, ◌≡◌, refl, Bool-cases, Option-cases, inl, inr,
}
use frp_manager.Toml.Scan.{key_end}
use frp_manager.Toml.Value.{delimiter}
use frp_manager.Toml.Headers.{block_kind}
use frp_manager.Toml.Lines.{split_lines}
use frp_manager.Toml.Blocks.Prep.{prep}
use frp_manager.Toml.Blocks.Tables.{
  Reader, fresh_reader, open_value, keep_line, read_table_line, read_tables, tables_after_blocks,
}

-- nothing has been kept yet
abbrev IsIdle : Reader → Type 0
IsIdle r = (r.seen ≡ false) × (r.in_table ≡ false) × (r.out ≡ [])

open_value-IsIdle : (line : Text) (r : Reader) → IsIdle r → IsIdle (open_value line r)
unfolding open_value
open_value-IsIdle line r h =
    elim (Option-cases (if starts_with line (codes "[") then none else key_end line)) [
      | inl e ↦ rw (e, open_value) h
      | inr (eq, e) ↦
          let v0 = trim (drop (suc eq) line) in
          elim (Bool-cases
            (not (is_empty (delimiter v0)) && not (includes (drop 3 v0) (delimiter v0)))) [
              | inl k ↦ rw (e, open_value) (rw k h)
              | inr k ↦ rw (e, open_value) (rw k h)
            ]
    ]

keep_line-IsIdle : (raw line : Text) (r : Reader) → IsIdle r → IsIdle (keep_line raw line r)
unfolding keep_line
keep_line-IsIdle raw line r (h, k, l) = let idle : not r.seen ≡ true = ap not h in rw idle (h, k, l)

read_table_line-IsIdle :
    (raw : Text) (r : Reader)
    → block_kind (trim raw) ≡ none
    → IsIdle r
    → IsIdle (read_table_line raw r)
unfolding read_table_line
read_table_line-IsIdle raw r none_here (h, k, l) = elim (Bool-cases (ltb 0 r.arr_depth)) [
  | inl deep ↦ rw deep (h, k, l)
  | inr flat_line ↦ elim (Bool-cases (not (is_empty r.str_delim))) [
    | inl string ↦ rw (flat_line, string) (h, k, l)
    | inr plain ↦
        rw (flat_line, plain, none_here)
          (keep_line-IsIdle raw (trim raw) (open_value (trim raw) r)
            (open_value-IsIdle (trim raw) r (h, k, l)))
  ]
]

read_tables-IsIdle :
    (lines : List Text) (r : Reader)
    → All (λ l. block_kind (trim l) ≡ none) lines
    → IsIdle r
    → IsIdle (read_tables lines r)
unfolding read_tables
read_tables-IsIdle [] r h idle = idle
read_tables-IsIdle (l ∷ ls) r (h, hs) idle =
    read_tables-IsIdle ls (read_table_line l r) hs (read_table_line-IsIdle l r h idle)

-- If no line of a text, as `prep` leaves it, is the header of a block, `tablesAfterBlocks` gives
-- nothing.
pub tables_after_blocks_nothing :
    (text : Text)
    → All (λ l. block_kind (trim l) ≡ none) (split_lines (prep text))
    → tables_after_blocks text ≡ []
unfolding tables_after_blocks join
tables_after_blocks_nothing text h =
    let (_, outside, empty) =
      read_tables-IsIdle (split_lines (prep text)) fresh_reader h (refl, refl, refl) in
    rw (outside, empty) refl
