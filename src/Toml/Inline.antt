-- ===== src/Toml/Inline.antt =====
-- Inline tables in toml.js (auth = { token = "…" }): inlineValueEnd, inlineItems and inlineValues.
use frp_manager.Base.{
  ℕ, suc, zero, ◌-◌, ◌+◌, Bool, true, false, not, ◌&&◌, ◌||◌, Option, none, some, List, [], ◌∷◌,
  ◌++◌, Text, ◌==◌, leb, ltb, if◌then◌else◌, length, take, drop, slice, is_empty, starts_with,
  get_elem?, is_space, trim_end, codes, ◌>>=◌, ◌≡◌, refl,
}
use frp_manager.Base.Dict.{Dict, assign}
use frp_manager.Toml.Scan.{
  Mode, outside, escape, advance, opened, quote_mark, apostrophe, backslash, newline,
  opens_multiline, multiline_close,
}
use frp_manager.Toml.Brackets.{scan_end, opens}
use frp_manager.Toml.KeyPath.{key_path}
use frp_manager.Toml.Unquote.{unquote}

-- the index behind the quote `q` that closes a string; `i` is the index of the text that is left,
-- and the Boolean is set behind a backslash
quoted_end : ℕ → ℕ → Bool → ℕ → Text → Option ℕ
quoted_end q close skip i [] = none
quoted_end q close true i (c ∷ s) = quoted_end q close false (suc i) s
quoted_end q close false i (c ∷ s) =
    let escaped = (q == quote_mark) && (c == backslash) in
    let rest = quoted_end q close escaped (suc i) s in
    if leb close i
    then none
    else if escaped
    then rest
    else if c == q
    then some (suc i)
    else if c == newline
    then none
    else rest

-- `/[,}#\n]/`
abbrev ends_value : ℕ → Bool
ends_value c = c == b',' || c == b'}' || c == b'#' || c == newline

take_until : (ℕ → Bool) → Text → Text
take_until p [] = []
take_until p (c ∷ s) = if p c then [] else c ∷ take_until p s

-- `inlineValueEnd`: the index behind the value at `vs`, in a table that closes at `close`
unfoldable pub inline_value_end : Text → ℕ → ℕ → Option ℕ
unfolding quoted_end take_until multiline_close scan_end starts_with trim_end
inline_value_end s vs close =
    let rest = drop vs s in
    let bare = trim_end (take_until ends_value (take (close - vs) rest)) in
    if opens_multiline rest
    then (do e ← multiline_close rest; if ltb close (vs + e) then none else some (vs + e))
    else elim (get_elem? s vs) [
      | none ↦ none
      | some c ↦
          if c == quote_mark || c == apostrophe
          then quoted_end c close false (suc vs) (drop 1 rest)
          else if opens c
          then (do e ← scan_end s vs; if ltb close e then none else some e)
          else if is_empty bare
          then none
          else some (vs + length bare)
    ]

-- An element of an inline table: its key, where the key starts, and where its value stands.
pub record Item : Type 0 where
  pub key : Text
  pub ks : ℕ
  pub vs : ℕ
  pub ve : ℕ

pub record Items : Type 0 where
  pub items : List Item
  pub close : ℕ

-- `/[=,#\n{}[\]]/`
abbrev ends_key : ℕ → Bool
ends_key c =
    c == b'=' || c == b',' || c == b'#' || c == newline || opens c || c == b'}' || c == b']'

-- where the scan of a key stops; behind a last backslash, one further
key_stop : ℕ → Mode → ℕ → Text → ℕ
key_stop close m i [] = i
key_stop close outside i (c ∷ s) =
    let rest = key_stop close (opened c) (suc i) s in if leb close i || ends_key c then i else rest
key_stop close escape i (c ∷ s) =
    let rest = key_stop close (advance escape c) (suc i) s in if leb close i then suc i else rest
key_stop close m i (c ∷ s) =
    let rest = key_stop close (advance m c) (suc i) s in if leb close i then i else rest

-- `while (i < close && p(s[i])) i += 1`, from index `i` of the text that is left
skip_while : (ℕ → Bool) → ℕ → ℕ → Text → ℕ
skip_while p close i [] = i
skip_while p close i (c ∷ s) =
    let rest = skip_while p close (suc i) s in if ltb i close && p c then rest else i

-- The loop of `inlineItems`. A round reads at least one character, so that the length of the text is
-- fuel enough.
items_from : ℕ → Text → ℕ → ℕ → Option (List Item)
unfolding key_stop skip_while inline_value_end key_path starts_with
items_from zero s close i = none
items_from (suc fuel) s close i = elim (ltb i close) [
  | false ↦ some []
  | true ↦ elim (get_elem? s i) [
    | none ↦ none
    | some c ↦ elim (is_space c || c == b',') [
      | true ↦ items_from fuel s close (suc i)
      | false ↦ elim (c == b'#') [
        | true ↦ items_from fuel s close (skip_while (λ d. not (d == newline)) close i (drop i s))
        | false ↦
            let eq = key_stop close outside i (drop i s) in
            let key = key_path (slice s i eq) in
            let vs = skip_while (λ d. d == 32 || d == 9) close (suc eq) (drop (suc eq) s) in
            let value = if ltb vs close then inline_value_end s vs close else none in
            if not (starts_with (drop eq s) (codes "=")) || is_empty key
            then none
            else (value >>= λ ve. items_from fuel s close ve >>= λ more.
                some (record { key = key; ks = i; vs = vs; ve = ve } ∷ more))
      ]
    ]
  ]
]

-- `inlineItems`
unfoldable pub inline_items : Text → ℕ → Option Items
unfolding items_from scan_end
inline_items s open_at = do
  end ← scan_end s open_at
  items ← items_from (suc (length s)) s (end - 1) (suc open_at)
  some (record { items = items; close = end - 1 })

-- the loop of `inlineValues` over the items, with its recursive call
add_items :
    (Text → Text → Dict Text → Option (Dict Text))
    → Text
    → Text
    → List Item
    → Dict Text
    → Option (Dict Text)
unfolding assign starts_with unquote
add_items nested raw prefix [] d = some d
add_items nested raw prefix (it ∷ items) d =
    let v = slice raw it.vs it.ve in
    let k = prefix ++ b'.' ∷ it.key in
    do
      value ← unquote v
      inner ←
          if starts_with v (codes "{")
          then nested v k (assign k value d)
          else some (assign k value d)
      add_items nested raw prefix items inner

-- `inlineValues`: the values of an inline table under `prefix`, those of its inline tables behind
-- each; `none` if `unquote` fails. A value is shorter than its table, so that the length is fuel
-- enough.
values_from : ℕ → Text → Text → Dict Text → Option (Dict Text)
unfolding add_items inline_items
values_from zero raw prefix d = some d
values_from (suc fuel) raw prefix d = elim (inline_items raw 0) [
  | none ↦ some d
  | some t ↦ add_items (values_from fuel) raw prefix t.items d
]

unfoldable pub inline_values : Text → Text → Dict Text → Option (Dict Text)
unfolding values_from
inline_values raw prefix into = values_from (length raw) raw prefix into

nested_values :
    inline_values (codes "{ a = 1, b = { c = \"x,y\" } # z\n }") (codes "auth") []
    ≡ some (
        (codes "auth.a", codes "1")
        ∷ (codes "auth.b", codes "{ c = \"x,y\" }")
        ∷ (codes "auth.b.c", codes "x,y")
        ∷ [])
unfolding inline_values
nested_values = refl
