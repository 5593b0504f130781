-- ===== src/Toml/Parse/Ends.antt =====
-- The loop of `parseToml` ends: each round takes a line at least, so that their number is fuel
-- enough.
use frp_manager.Base.{
  ℕ, zero, suc, ◌≤◌, Bool, true, false, ◌||◌, Option, none, some, is_some, List, [], ◌∷◌, Text,
  length, take, is_empty, trim, starts_with, codes, if◌then◌else◌, ◌>>=◌, ◌≡◌, refl, ◌⊎◌, arith,
  Option-cases, inl, inr,
}
use frp_manager.Toml.Scan.{key_end, split_comment}
use frp_manager.Toml.Match.{range_line, is_end_line}
use frp_manager.Toml.Headers.{block_kind}
use frp_manager.Toml.Value.{read_value}
use frp_manager.Toml.Value.Rest.{read_value-rest}
use frp_manager.Toml.Parse.{
  State, Progress, key_of, store_value, read_key, read_content, read_line, read_lines,
}

-- at most `n` lines are left, if there is a result
Fits : ℕ → Option Progress → Type 0
Fits n none = Unit
Fits n (some p) = length p.lines ≤ n

kept : (ls : List Text) (st : State) → Fits (length ls) (some (record { state = st; lines = ls }))
unfolding Fits
kept ls st = omega arith

Fits-some :
    (n : ℕ) (o : Option Progress) (p : Progress) → o ≡ some p → Fits n o → length p.lines ≤ n
unfolding Fits
Fits-some n o p e h = rw e at h

Fits-if :
    (b : Bool) (x y : Option Progress) (n : ℕ) → Fits n x → Fits n y → Fits n (if b then x else y)
Fits-if true x y n h k = h
Fits-if false x y n h k = k

Fits-bind :
    (o : Option State) (lines : List Text) (n : ℕ)
    → length lines ≤ n
    → Fits n (do after ← o; some (record { state = after; lines = lines }))
unfolding Fits
Fits-bind none lines n h = tt
Fits-bind (some st) lines n h = h

read_key-Fits :
    (l : Text) (ls pending : List Text) (st : State) → Fits (length ls) (read_key l ls pending st)
unfolding read_key Fits
read_key-Fits l ls pending st = elim (Option-cases (key_end (trim l))) [
  | inl e ↦ rw (e, read_key) (omega arith)
  | inr (eq, e) ↦
      rw (e, read_key)
        (Fits-bind
          (store_value (key_of (is_some st.block) (take eq (trim l)))
            (read_value (is_some st.block) l eq ls) pending st)
          _ (length ls) (read_value-rest (is_some st.block) l eq ls))
]

read_content-Fits :
    (l : Text) (ls : List Text) (st : State) → Fits (length ls) (read_content l ls st)
unfolding read_content
read_content-Fits l ls st = elim (Option-cases (block_kind (trim l))) [
  | inl e ↦
      rw (e, read_content)
        (Fits-if _ _ _ (length ls) (kept ls _)
          (read_key-Fits l ls st.comments (record st { comments = [] })))
  | inr (kind, e) ↦ rw (e, read_content) (kept ls _)
]

read_line-Fits : (l : Text) (ls : List Text) (st : State) → Fits (length ls) (read_line l ls st)
unfolding read_line
read_line-Fits l ls st =
    let line = trim l in
    let code = (if starts_with line (codes "{{") then split_comment line else (line, [])).0 in
    Fits-if (is_empty line || starts_with line (codes "#")) _ _ (length ls) (kept ls _) (
      Fits-if (is_some (range_line code) || is_end_line code) _ _ (length ls) (kept ls _)
        (read_content-Fits l ls st))

-- The rounds of the loop that lead from some lines and a state to others.
pub data Run : List Text → State → List Text → State → Type 0 where
  done : (ls : List Text) (st : State) → Run ls st ls st
  round :
      (l : Text) (ls : List Text) (st : State) (p : Progress) (end : List Text) (at : State)
      → read_line l ls st ≡ some p
      → Run p.lines p.state end at
      → Run (l ∷ ls) st end at

-- With as much fuel as there are lines, or more, the loop over lines ends in one of two ways: its
-- rounds lead behind the last line, and the state there is the result, or they lead to a line at
-- which `read_line` gives no result, and then the loop gives none.
pub read_lines_ends :
    (fuel : ℕ) (ls : List Text) (st : State)
    → length ls ≤ fuel
    → ((last : State) × Run ls st [] last × (read_lines fuel ls st ≡ some last))
      ⊎ ((l : Text) × (rest : List Text) × (at : State) × Run ls st (l ∷ rest) at
          × (read_line l rest at ≡ none)
          × (read_lines fuel ls st ≡ none))
unfolding read_lines
read_lines_ends zero [] st h = inl (st, done [] st, refl)
read_lines_ends (suc fuel) [] st h = inl (st, done [] st, refl)
read_lines_ends zero (l ∷ ls) st h = absurd (omega arith)
read_lines_ends (suc fuel) (l ∷ ls) st h = elim (Option-cases (read_line l ls st)) [
  | inl k ↦ inr (l, ls, st, done (l ∷ ls) st, k, rw (k, read_lines) refl)
  | inr (p, k) ↦
      let after : length p.lines ≤ length ls =
        Fits-some (length ls) (read_line l ls st) p k (read_line-Fits l ls st) in
      elim (read_lines_ends fuel p.lines p.state (omega (arith, after))) [
        | inl (last, run, e) ↦ inl (last, round l ls st p [] last k run, rw (k, read_lines) e)
        | inr (m, rest, at, run, f, e) ↦
            inr (m, rest, at, round l ls st p (m ∷ rest) at k run, f, rw (k, read_lines) e)
      ]
]
