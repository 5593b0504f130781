-- ===== src/Toml/Edit.antt =====
-- Changing an inline table in toml.js: inlineDrop, inlineAdd, inlineEmpty and inlineSet.
use frp_manager.Base.{
  ℕ, zero, suc, Bool, true, false, not, ◌&&◌, ◌||◌, Option, none, some, List, [], ◌∷◌, ◌++◌, Text,
  ◌==◌, ltb, if◌then◌else◌, ◌>>=◌, length, take, drop, get_elem?, is_empty, every, some_of, slice,
  same, starts_with, codes, ◌≡◌, refl,
}
use frp_manager.Toml.Unquote.{unquote}
use frp_manager.Toml.Hosts.{is_dot}
use frp_manager.Toml.Inline.{Item, Items, inline_items}
use frp_manager.Toml.Lines.{is_blank_line, blanks, skip_blanks, line_start, index_from}

-- `/^[ \t]*,/`
abbrev pub has_comma : Text → Bool
unfolding skip_blanks starts_with
has_comma s = starts_with (skip_blanks s) (codes ",")

-- `s.replace(/^[ \t]*,/, '')`
abbrev pub without_comma : Text → Text
unfolding skip_blanks starts_with
without_comma s = if has_comma s then drop 1 (skip_blanks s) else s

-- `/^(?:#.*)?$/`
abbrev is_comment_rest : Text → Bool
is_comment_rest [] = true
is_comment_rest (c ∷ s) = c == b'#' && every is_dot s

-- `/^[ \t]*,?[ \t]*(?:#.*)?$/`
unfoldable pub is_line_rest : Text → Bool
unfolding skip_blanks
is_line_rest s = is_comment_rest (skip_blanks (without_comma s))

-- whether an element stands alone on its line; `limit` is where the next one starts, or the table
-- closes, and `ls` where the line starts
unfoldable pub is_alone : Text → Item → ℕ → ℕ → Bool
unfolding index_from is_line_rest
is_alone s it ls limit = elim (index_from 10 s it.ve) [
  | none ↦ false
  | some nl ↦ is_blank_line (slice s ls it.ks) && ltb nl limit && is_line_rest (slice s it.ve nl)
]

-- `s.slice(0, a) + s.slice(b)`
abbrev pub cut : Text → ℕ → ℕ → Text
cut s a b = take a s ++ drop b s

-- `inlineDrop` of the element `it` between `prev` and `next`
unfoldable pub drop_item : Text → Option Item → Item → Option Item → ℕ → Text
unfolding line_start index_from is_alone
drop_item s prev it (some next) close =
    let ls = line_start s it.ks in
    let own = has_comma (drop it.ve s) in
    let nl = elim (index_from 10 s it.ve) as (λ _. ℕ) [ none ↦ 0 | some i ↦ i ] in
    if is_alone s it ls next.ks && own then cut s ls (suc nl) else cut s it.ks next.ks
drop_item s (some prev) it none close =
    let ls = line_start s it.ks in
    let own = has_comma (drop it.ve s) in
    let nl = elim (index_from 10 s it.ve) as (λ _. ℕ) [ none ↦ 0 | some i ↦ i ] in
    elim (index_from b',' s prev.ve) [
      | none ↦ cut s prev.ve it.ve
      | some sep ↦
          if ltb it.ks sep
          then cut s prev.ve it.ve
          else if not (is_alone s it ls close)
          then cut s sep it.ve
          else if own
          then cut s ls (suc nl)
          else cut (cut s ls (suc nl)) sep (suc sep)
    ]
drop_item s none it none close =
    let ls = line_start s it.ks in
    let nl = elim (index_from 10 s it.ve) as (λ _. ℕ) [ none ↦ 0 | some i ↦ i ] in
    if is_alone s it ls close
    then cut s ls (suc nl)
    else take it.ks s ++ without_comma (drop it.ve s)

abbrev before_index : List Item → ℕ → Option Item
before_index items zero = none
before_index items (suc k) = get_elem? items k

-- `inlineDrop`. An index behind the last element, which the code does not use, leaves the text as
-- it is.
unfoldable pub inline_drop : Text → List Item → ℕ → ℕ → Text
unfolding drop_item
inline_drop s items k close = elim (get_elem? items k) [
  | none ↦ s
  | some it ↦ drop_item s (before_index items k) it (get_elem? items (suc k)) close
]

abbrev last_of : List Item → Option Item
last_of [] = none
last_of (it ∷ items) = elim (last_of items) [ none ↦ some it | some last ↦ some last ]

-- `inlineAdd`
unfoldable pub inline_add : Text → ℕ → List Item → ℕ → Text → Text
unfolding line_start index_from blanks
inline_add s open_at items close line = elim (last_of items) [
  | none ↦
      let ls = line_start s close in
      if is_blank_line (slice s (suc open_at) close)
      then take (suc open_at) s ++ (codes " " ++ (line ++ (codes " " ++ drop close s)))
      else take ls s ++ (codes "  " ++ (line ++ (10 ∷ drop ls s)))
  | some last ↦
      let row = take last.ve s ++ (codes ", " ++ (line ++ drop last.ve s)) in
      elim (index_from 10 s last.ve) [
        | none ↦ row
        | some nl ↦
            let indent = blanks (drop (line_start s last.ks) s) in
            let own = has_comma (drop last.ve s) in
            let out =
              take (suc nl) s
              ++ (indent
                  ++ (line ++ ((if own then codes "," else []) ++ (10 ∷ drop (suc nl) s)))) in
            if ltb close nl
            then row
            else if own
            then out
            else take last.ve out ++ (b',' ∷ drop last.ve out)
      ]
]

-- `inlineEmpty`
unfoldable pub inline_empty : Text → ℕ → Bool
unfolding inline_items
inline_empty s open_at = elim (inline_items s open_at) [
  | none ↦ false
  | some t ↦ is_empty t.items && is_blank_line (slice s (suc open_at) t.close)
]

-- `items.findIndex(p)`
abbrev pub index_where : (Item → Bool) → List Item → Option ℕ
index_where p [] = none
index_where p (it ∷ items) =
    if p it then some 0 else elim (index_where p items) [ none ↦ none | some i ↦ some (suc i) ]

-- a key that stands in the table itself: `raw` takes the place of its value, or it is dropped
unfoldable pub set_item : Text → Items → ℕ → Item → Option Text → Option Text
unfolding unquote inline_drop same
set_item s t k it none = some (inline_drop s t.items k t.close)
set_item s t k it (some raw) = do
  old ← unquote (slice s it.vs it.ve)
  new ← unquote raw
  some (if same old new then s else take it.vs s ++ (raw ++ drop it.ve s))

-- a nested table that is empty after a change goes with its key
unfoldable pub drop_emptied : Text → ℕ → ℕ → ℕ → Text → Option Text
unfolding inline_empty inline_drop inline_items same
drop_emptied s open_at vs p sub =
    if same sub s || not (inline_empty sub vs) then some sub else elim (inline_items sub open_at) [
      | none ↦ none
      | some u ↦ some (inline_drop sub u.items p u.close)
    ]

-- `inlineSet`: `some none` for null, and `none` if `unquote` throws. Each table in a table takes a
-- part of the path, so that its length is fuel enough.
unfoldable pub inline_set : ℕ → Text → ℕ → Text → Option Text → Option (Option Text)
unfolding inline_items set_item drop_emptied inline_add same starts_with
inline_set zero s open_at path raw = some none
inline_set (suc fuel) s open_at path raw = elim (inline_items s open_at) [
  | none ↦ some none
  | some t ↦ elim (index_where (λ it. same it.key path) t.items) [
    | some k ↦ elim (get_elem? t.items k) [
      | none ↦ some none
      | some it ↦ (do out ← set_item s t k it raw; some (some out))
    ]
    | none ↦ elim (index_where (λ it. starts_with path (it.key ++ codes ".")) t.items) [
      | some p ↦ elim (get_elem? t.items p) [
        | none ↦ some none
        | some it ↦
            if not (starts_with (drop it.vs s) (codes "{"))
            then some none
            else (inline_set fuel s it.vs (drop (suc (length it.key)) path) raw >>= λ sub.
                some (elim sub [ none ↦ none | some sub' ↦ drop_emptied s open_at it.vs p sub' ]))
      ]
      | none ↦
          if some_of (λ it. starts_with it.key (path ++ codes ".")) t.items
          then some none
          else elim raw [
            | none ↦ some (some s)
            | some r ↦
                some (some (inline_add s open_at t.items t.close (path ++ (codes " = " ++ r))))
          ]
    ]
  ]
]

edit_tests :
    (inline_set 20 (codes "{ a = 1, b = { c = 2 } }") 0 (codes "b.c") (some (codes "3"))
      ≡ some (some (codes "{ a = 1, b = { c = 3 } }")))
    × (inline_set 20 (codes "{ a = 1, b = { c = 2 } }") 0 (codes "b.c") none
        ≡ some (some (codes "{ a = 1 }")))
    × (inline_set 20 (codes "{ a = 1 }") 0 (codes "d") (some (codes "4"))
        ≡ some (some (codes "{ a = 1, d = 4 }")))
unfolding inline_set
edit_tests = (refl, refl, refl)
