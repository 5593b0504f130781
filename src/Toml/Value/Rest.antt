-- ===== src/Toml/Value/Rest.antt =====
-- Reading a value leaves at most the lines that follow it.
use frp_manager.Base.{
  ℕ, suc, ◌≤◌, Bool, true, false, List, [], ◌∷◌, ◌++◌, Text, length, join, includes, is_empty, drop,
  trim, codes, if◌then◌else◌, arith, Bool-cases, inl, inr,
}
use frp_manager.Base.Int.{ℤ, is_pos, ◌+ℤ◌}
use frp_manager.Toml.Brackets.{bracket_depth, open_depth}
use frp_manager.Toml.Scan.{split_comment}
use frp_manager.Toml.Value.{
  Value, take_string, take_table, take_array, read_string, read_table, read_array, read_value,
}

take_string-rest : (d : Text) (ls : List Text) → length (take_string d ls).1 ≤ length ls
unfolding take_string
take_string-rest d [] = omega arith
take_string-rest d (l ∷ ls) = elim (Bool-cases (includes l d)) [
  | inl h ↦ rw h (omega arith)
  | inr h ↦ rw h (omega (arith, take_string-rest d ls))
]

take_table-rest : (d : ℤ) (ls : List Text) → length (take_table d ls).1 ≤ length ls
unfolding take_table
take_table-rest d [] = omega arith
take_table-rest d (l ∷ ls) = elim (Bool-cases (is_pos d)) [
  | inl h ↦ rw h (omega (arith, take_table-rest (d +ℤ open_depth l) ls))
  | inr h ↦ rw h (omega arith)
]

take_array-rest : (parts inner ls : List Text) → length (take_array parts inner ls).2 ≤ length ls
unfolding take_array
take_array-rest parts inner [] = omega arith
take_array-rest parts inner (l ∷ ls) =
    elim (Bool-cases (is_pos (bracket_depth (join (codes "\n") parts)))) [
      | inl h ↦ rw h (
          omega (
            arith,
            take_array-rest
                (if is_empty (split_comment l).0 then parts else parts ++ (split_comment l).0 ∷ [])
                (if is_empty (split_comment l).1 then inner else inner ++ (split_comment l).1 ∷ [])
                ls,
          ))
      | inr h ↦ rw h (omega arith)
    ]

-- a choice between two values keeps a bound of both
choice-rest :
    (b : Bool) (v w : Value) (n : ℕ)
    → length v.rest ≤ n
    → length w.rest ≤ n
    → length (if b then v else w).rest ≤ n
choice-rest true v w n h k = h
choice-rest false v w n h k = k

read_string-rest :
    (raw_line : Text) (eq : ℕ) (lines : List Text) (v : Value)
    → length v.rest ≤ length lines
    → length (read_string raw_line eq lines v).rest ≤ length lines
unfolding read_string
read_string-rest raw_line eq lines v h =
    choice-rest _ _ v (length lines) (take_string-rest _ lines) h

read_table-rest : (b : Bool) (s : Text) (v : Value) → length (read_table b s v).rest ≤ length v.rest
unfolding read_table
read_table-rest b s v = choice-rest _ _ v (length v.rest) (take_table-rest _ v.rest) (omega arith)

read_array-rest : (v : Value) → length (read_array v).rest ≤ length v.rest
unfolding read_array
read_array-rest v = choice-rest _ _ v (length v.rest) (take_array-rest _ [] v.rest) (omega arith)

pub read_value-rest :
    (b : Bool) (raw_line : Text) (eq : ℕ) (lines : List Text)
    → length (read_value b raw_line eq lines).rest ≤ length lines
unfolding read_value
read_value-rest b raw_line eq lines =
    let parts = split_comment (drop (suc eq) (trim raw_line)) in
    let v : Value = record { raw = parts.0; eol = parts.1; inner = []; rest = lines } in
    let s = read_string raw_line eq lines v in
    let t = read_table b (trim (drop (suc eq) (trim raw_line))) s in
    omega (
      arith,
      read_array-rest t,
      read_table-rest b (trim (drop (suc eq) (trim raw_line))) s,
      read_string-rest raw_line eq lines v (omega arith),
    )
