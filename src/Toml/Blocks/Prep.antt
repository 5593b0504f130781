-- ===== src/Toml/Blocks/Prep.antt =====
-- The text that toml.js reads: inlineLines, expandInline and prep, and `parseToml` of a whole text.
use frp_manager.Base.{
  ℕ, zero, suc, ◌-◌, Bool, true, not, ◌&&◌, ◌||◌, Option, none, some, List, [], ◌∷◌, ◌++◌, map,
  Text, if◌then◌else◌, ◌>>=◌, leb, length, take, drop, is_empty, every, includes, starts_with,
  ends_with, trim, trim_end, is_space, slice, join, codes,
}
use frp_manager.Toml.Scan.{key_end, quote_mark, apostrophe}
use frp_manager.Toml.Brackets.{Element, split_top, scan_end}
use frp_manager.Toml.Hosts.{is_dot}
use frp_manager.Toml.Lines.{without_bom, lone_cr, split_lines, skip_blanks}
use frp_manager.Toml.Match.{eat}
use frp_manager.Toml.Parse.{Config, parse_lines}
use frp_manager.Toml.Blocks.{multiline_string_lines, is_in_string, ends_line, eat_kind, quote_of}

-- `x.replace(/^(["'])(.*)\1$/, '$2')`
unfoldable pub strip_quotes : Text → Text
unfolding starts_with ends_with
strip_quotes x =
    let inner = slice x 1 (length x - 1) in
    let quoted =
      (starts_with x (quote_mark ∷ []) && ends_with x (quote_mark ∷ []))
      || (starts_with x (apostrophe ∷ []) && ends_with x (apostrophe ∷ [])) in
    if leb 2 (length x) && quoted && every is_dot inner then inner else x

-- `val.replace(/\s*\n\s*/g, ' ')`; `run` is the white space that has been read
unfoldable pub fold_breaks : Text → Text → Text
unfolding includes
fold_breaks run [] = if includes run (codes "\n") then codes " " else run
fold_breaks run (c ∷ s) =
    let gap = if includes run (codes "\n") then codes " " else run in
    let rest = fold_breaks (if is_space c then run ++ c ∷ [] else []) s in
    if is_space c then rest else gap ++ c ∷ rest

-- `inlineLines`. A table in a table is shorter than the one around it, so that the length of the
-- text is fuel enough.
unfoldable pub inline_lines : ℕ → Text → List Element → List Text
unfolding key_end split_top trim starts_with ends_with strip_quotes fold_breaks
inline_lines fuel prefix [] = []
inline_lines zero prefix (e ∷ es) = []
inline_lines (suc fuel) prefix (e ∷ es) =
    let rest = inline_lines (suc fuel) prefix es in
    elim (key_end e.text) [
      | none ↦ rest
      | some eq ↦
          let key = strip_quotes (trim (take eq e.text)) in
          let val = trim (drop (suc eq) e.text) in
          let inner =
            inline_lines fuel (prefix ++ (key ++ codes "."))
              (split_top (slice val 1 (length val - 1))) in
          if starts_with val (codes "{") && ends_with val (codes "}")
          then inner ++ rest
          else (prefix ++ (key ++ (codes " = " ++ fold_breaks [] val))) ∷ rest
    ]

-- what an element of an array adds to `extra`
unfoldable pub element_block : Text → Element → List Text
unfolding inline_lines split_top starts_with ends_with join
element_block kind e =
    let notes = join (codes "\n") e.notes in
    let body = slice e.text 1 (length e.text - 1) in
    if is_empty e.text
    then notes ∷ []
    else if not (starts_with e.text (codes "{") && ends_with e.text (codes "}"))
    then []
    else (notes
        ++ ((if is_empty e.notes then [] else codes "\n")
            ++ (codes "[["
                ++ (kind
                    ++ (codes "]]\n"
                        ++ join (codes "\n") (inline_lines (length e.text) [] (split_top body)))))))
      ∷ []

-- `^[ \t]*["']?(proxies|visitors)["']?[ \t]*=[ \t]*\[` at the start of a line: the kind, and what
-- follows the match
unfoldable pub eat_inline : Text → Option (Text × Text)
unfolding skip_blanks eat eat_kind starts_with
eat_inline s = do
  let t₁ = skip_blanks s
  named ← eat_kind (drop (length (quote_of t₁)) t₁)
  let t₂ = named.1
  t₃ ← eat (codes "=") (skip_blanks (drop (length (quote_of t₂)) t₂))
  rest ← eat (codes "[") (skip_blanks t₃)
  some (named.0, rest)

-- An array of blocks: its kind, and where its line and its bracket start and where it ends.
pub record Found : Type 0 where
  pub kind : Text
  pub from : ℕ
  pub bracket : ℕ
  pub stop : ℕ

-- The search of `expandInline` from place `i` on: `wait` characters lie in a match, `fresh` tells
-- whether a line starts here.
unfoldable pub inline_found : Text → List ℕ → Bool → ℕ → ℕ → Text → List Found
unfolding eat_inline scan_end
inline_found text skip fresh wait i [] = []
inline_found text skip fresh (suc wait) i (c ∷ s) =
    inline_found text skip (ends_line c) wait (suc i) s
inline_found text skip fresh zero i (c ∷ s) =
    let found = if fresh then eat_inline (c ∷ s) else none in
    let behind = elim found as (λ _. ℕ) [
      | none ↦ suc i
      | some (_, rest) ↦ length text - length rest
    ] in
    let stop = if is_in_string skip i then none else scan_end text (behind - 1) in
    let hit = elim found as (λ _. Option Found) [
      | none ↦ none
      | some (kind, _) ↦ elim stop as (λ _. Option Found) [
        | none ↦ none
        | some e ↦ some (record { kind = kind; from = i; bracket = behind - 1; stop = e })
      ]
    ] in
    let next = elim hit as (λ _. ℕ) [ none ↦ behind | some h ↦ h.stop ] in
    let rest = inline_found text skip (ends_line c) (next - suc i) (suc i) s in
    elim hit [ none ↦ rest | some h ↦ h ∷ rest ]

-- the text without the arrays, from place `pos` on
abbrev pub text_around : Text → ℕ → List Found → Text
text_around text pos [] = drop pos text
text_around text pos (h ∷ hs) = slice text pos h.from ++ text_around text h.stop hs

abbrev pub flat {ℓ} : {A : Type ℓ} → List (List A) → List A
flat [] = []
flat (xs ∷ xss) = xs ++ flat xss

-- `expandInline`
unfoldable pub expand_inline : Text → Text
unfolding inline_found multiline_string_lines element_block split_top trim_end join
expand_inline text =
    let found = inline_found text (multiline_string_lines text) true 0 0 text in
    let extra = flat (
      map
        (λ (h : Found).
          flat (map (element_block h.kind) (split_top (slice text (suc h.bracket) (h.stop - 1)))))
        found) in
    let rest = trim_end (text_around text 0 found) ++ codes "\n" in
    if is_empty found
    then text
    else if is_empty extra
    then rest
    else rest ++ (codes "\n" ++ (join (codes "\n\n") extra ++ codes "\n"))

-- `prep`
unfoldable pub prep : Text → Text
unfolding expand_inline lone_cr
prep text = expand_inline (lone_cr (without_bom text))

-- `parseToml`, `none` where `unquote` throws
unfoldable pub parse_toml : Text → Option Config
unfolding prep split_lines parse_lines
parse_toml text = parse_lines (split_lines (prep text))
