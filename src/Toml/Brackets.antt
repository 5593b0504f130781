-- ===== src/Toml/Brackets.antt =====
-- Nesting of brackets in toml.js: bracketDepth, openDepth, scanEnd and splitTop.
use frp_manager.Base.{
  ℕ, suc, Bool, true, false, ◌&&◌, ◌||◌, Option, none, some, List, [], ◌∷◌, ◌++◌, Text, ◌==◌, not,
  if◌then◌else◌, drop, is_empty, keep, trim,
}
use frp_manager.Base.Int.{ℤ, pos, up, down, is_zero}
use frp_manager.Toml.Scan.{Mode, outside, comment, opened, advance, newline}

abbrev pub opens : ℕ → Bool
opens c = c == b'[' || c == b'{'

abbrev pub closes : ℕ → Bool
closes c = c == b']' || c == b'}'

abbrev deepen : ℕ → ℤ → ℤ
deepen c d = if opens c then up d else if closes c then down d else d

-- `bracketDepth`: open square brackets outside strings
depth_from : (ℕ → ℤ → ℤ) → Bool → Mode → ℤ → Text → ℤ
depth_from count stops m d [] = d
depth_from count stops outside d (c ∷ s) =
    let rest = depth_from count stops (opened c) (count c d) s in
    if stops && (c == b'#') then d else rest
depth_from count stops m d (c ∷ s) = depth_from count stops (advance m c) d s

abbrev square : ℕ → ℤ → ℤ
square c d = if c == b'[' then up d else if c == b']' then down d else d

unfoldable pub bracket_depth : Text → ℤ
unfolding depth_from
bracket_depth s = depth_from square false outside (pos 0) s

-- `openDepth`: open brackets and braces outside strings, up to the comment
unfoldable pub open_depth : Text → ℤ
unfolding depth_from
open_depth s = depth_from deepen true outside (pos 0) s

-- `scanEnd`: the index behind the bracket that closes the one at `start`. A "#" starts a comment.
end_from : Mode → ℤ → ℕ → Text → Option ℕ
end_from m d i [] = none
end_from outside d i (c ∷ s) =
    let rest = end_from (if c == b'#' then comment else opened c) (deepen c d) (suc i) s in
    if closes c && is_zero (deepen c d) then some (suc i) else rest
end_from m d i (c ∷ s) = end_from (advance m c) d (suc i) s

unfoldable pub scan_end : Text → ℕ → Option ℕ
unfolding end_from
scan_end s start = end_from outside (pos 0) start (drop start s)

-- An element of `splitTop`, with the comments read inside it.
pub record Element : Type 0 where
  pub text : Text
  pub notes : List Text

abbrev element : Text → List Text → Element
element cur notes = record { text = trim cur; notes = notes }

-- The loop of `splitTop`: `cur` is the element that is read, `note` the comment that is read.
top_from : Mode → ℤ → Text → List Text → Text → Text → List Element
top_from comment d cur notes note [] = element cur (notes ++ trim note ∷ []) ∷ []
top_from m d cur notes note [] = element cur notes ∷ []
top_from comment d cur notes note (c ∷ s) = elim (c == newline) [
  | true ↦ top_from outside d cur (notes ++ trim note ∷ []) [] s
  | false ↦ top_from comment d cur notes (note ++ c ∷ []) s
]
top_from outside d cur notes note (c ∷ s) = elim (c == b'#') [
  | true ↦ top_from comment d cur notes (c ∷ []) s
  | false ↦ elim ((c == b',') && is_zero d) [
    | true ↦ element cur notes ∷ top_from outside d [] [] [] s
    | false ↦ top_from (opened c) (deepen c d) (cur ++ c ∷ []) notes [] s
  ]
]
top_from m d cur notes note (c ∷ s) = top_from (advance m c) d (cur ++ c ∷ []) notes note s

-- `splitTop`: the parts between the top-level commas, outside strings and comments
unfoldable pub split_top : Text → List Element
unfolding top_from
split_top s =
    keep (λ e. not (is_empty e.text) || not (is_empty e.notes))
      (top_from outside (pos 0) [] [] [] s)
