-- ===== src/Toml/Merge/Keys.antt =====
-- The keys that `mergeConnection` of toml.js writes, one by one.
use frp_manager.Base.{
  ℕ, zero, suc, ◌+◌, ◌-◌, Bool, false, not, ◌&&◌, ◌||◌, Option, none, some, is_some, List, [], ◌∷◌,
  ◌++◌, Text, ◌==◌, leb, ltb, if◌then◌else◌, ◌>>=◌, length, take, drop, is_empty, some_of, keep,
  find, max, split, join, same, starts_with, includes, codes,
}
use frp_manager.Base.Dict.{Dict, lookup, store}
use frp_manager.Toml.Unquote.{unquote}
use frp_manager.Toml.Lines.{blanks}
use frp_manager.Toml.Edit.{inline_set}
use frp_manager.Toml.Connection.{Entry, Header, Scanned}
use frp_manager.Toml.Merge.Raws.{entry_value, inline_open, shared_segs}
use frp_manager.Toml.Merge.Places.{depth_at, outside_of}

-- What is fixed for all keys: the lines of the file and their scan.
pub record File : Type 0 where
  pub lines : List Text
  pub scan : Scanned

-- The changes that are collected: lines that go, lines that are replaced, lines that are added in
-- front of a line, tables that are added, inline tables that are changed, keys that cannot be
-- written, and keys that are added at the root. `root_at` is 0 for -1, as both stand below every
-- position that it is compared with.
pub record Changes : Type 0 where
  pub gone : List ℕ
  pub put : List (ℕ × Text)
  pub before : List (ℕ × Text)
  pub new_tables : Dict (List Text)
  pub inline : List (Entry × Text)
  pub refused : List Text
  pub root_adds : List Text
  pub root_at : ℕ

abbrev pub no_changes : Changes
no_changes = record {
  gone = [];
  put = [];
  before = [];
  new_tables = [];
  inline = [];
  refused = [];
  root_adds = [];
  root_at = 0;
}

-- `count` numbers from `i` on
abbrev pub numbers : ℕ → ℕ → List ℕ
numbers i zero = []
numbers i (suc count) = i ∷ numbers (suc i) count

-- `lines.slice(e.start, e.end + 1).join('\n')`
unfoldable pub entry_text : List Text → Entry → Text
unfolding join
entry_text lines e = join (codes "\n") (take (suc e.last - e.start) (drop e.start lines))

-- the lines of an entry from its `k`-th on
abbrev pub entry_lines : ℕ → Entry → List ℕ
entry_lines k e = numbers (e.start + k) (suc e.last - (e.start + k))

-- an entry of a key that is written: it goes, stays, or gets another value
unfoldable pub set_entry : List Text → Option Text → Entry → Changes → Option Changes
unfolding entry_text entry_value unquote blanks same
set_entry lines none e ch = some (record ch { gone = ch.gone ++ entry_lines 0 e })
set_entry lines (some raw) e ch =
    let old = entry_text lines e in
    let (old_raw, eol) = entry_value old e.eq in
    let front = take (suc e.eq) old ++ blanks (drop (suc e.eq) old) in
    let line = front ++ (raw ++ (if is_empty eol then [] else 32 ∷ eol)) in
    do
      was ← unquote old_raw
      is ← unquote raw
      some (
          if same was is
          then ch
          else record ch { put = (e.start, line) ∷ ch.put; gone = ch.gone ++ entry_lines 1 e })

set_entries : List Text → Option Text → List Entry → Changes → Option Changes
unfolding set_entry
set_entries lines raw [] ch = some ch
set_entries lines raw (e ∷ es) ch = do ch' ← set_entry lines raw e ch; set_entries lines raw es ch'

-- `inline.get(host)`
abbrev pub inline_of : List (Entry × Text) → Entry → Option Text
inline_of [] e = none
inline_of ((x, text) ∷ rest) e = if x.start == e.start then some text else inline_of rest e

-- `inline.set(host, text)`
abbrev pub put_inline : List (Entry × Text) → Entry → Text → List (Entry × Text)
put_inline [] e text = (e, text) ∷ []
put_inline ((x, old) ∷ rest) e text =
    if x.start == e.start then (x, text) ∷ rest else (x, old) ∷ put_inline rest e text

-- a key inside a value
unfoldable pub set_inside : List Text → Text → Option Text → Entry → Changes → Option Changes
unfolding entry_text inline_open inline_set
set_inside lines key raw host ch =
    let cur = elim (inline_of ch.inline host) as (λ _. Text) [
      | some text ↦ text
      | none ↦ entry_text lines host
    ] in
    let path = drop (suc (length host.key)) key in
    let edit = elim (inline_open cur host.eq) as (λ _. Option (Option Text)) [
      | none ↦ some none
      | some at ↦ inline_set (suc (length path)) cur at path raw
    ] in
    do
      next ← edit
      some (elim next [
        | some text ↦ record ch { inline = put_inline ch.inline host text }
        | none ↦ if is_some raw then record ch { refused = ch.refused ++ key ∷ [] } else ch
      ])

-- the segments of a key but the last, and the last
abbrev pub init_of : List Text → List Text
init_of [] = []
init_of (x ∷ []) = []
init_of (x ∷ y ∷ xs) = x ∷ init_of (y ∷ xs)

abbrev pub last_seg : List Text → Text
last_seg [] = []
last_seg (x ∷ []) = x
last_seg (x ∷ y ∷ xs) = last_seg (y ∷ xs)

abbrev pub first_seg : List Text → Text
first_seg [] = []
first_seg (x ∷ xs) = x

-- the longest table name that holds the section
home_from : Text → Text → List Header → Text
unfolding same starts_with
home_from sec home [] = home
home_from sec home (h ∷ hs) =
    let fits =
      not h.is_array
      && (same sec h.name || starts_with sec (h.name ++ codes "."))
      && ltb (length home) (length h.name) in
    home_from sec (if fits then h.name else home) hs

-- the last entry of those that share the most segments with the key
best_from : Text → Option Entry → List Entry → Option Entry
unfolding shared_segs
best_from key best [] = best
best_from key none (e ∷ es) = best_from key (some e) es
best_from key (some b) (e ∷ es) =
    best_from key (some (if leb (shared_segs b.key key) (shared_segs e.key key) then e else b)) es

abbrev pub is_dotted : Scanned → Bool
unfolding includes
is_dotted s =
    not (some_of (λ h. not h.is_array) s.headers)
    && some_of (λ e. includes e.key (codes ".")) s.entries

-- `headers.find((h) => h.name === home && !h.array).line`
abbrev pub header_line : List Header → Text → Option ℕ
unfolding same
header_line hs home = elim (find (λ h. same h.name home && not h.is_array) hs) [
  | none ↦ none
  | some h ↦ some h.line
]

abbrev pub add_to : Dict (List Text) → Text → Text → Dict (List Text)
unfolding lookup store
add_to tables sec line = elim (lookup sec tables) [
  | none ↦ store sec (line ∷ []) tables
  | some ls ↦ store sec (ls ++ line ∷ []) tables
]

-- a key that the file does not have yet
unfoldable pub add_key : File → Text → Text → Changes → Changes
unfolding home_from best_from shared_segs outside_of split join same starts_with includes lookup
    store
add_key f key raw ch =
    let s = f.scan in
    let segs = split b'.' key in
    let sec = join (codes ".") (init_of segs) in
    let home = home_from sec [] s.headers in
    let in_home = keep (λ (e : Entry). same e.table home) s.entries in
    let inner = if is_empty home then key else drop (suc (length home)) key in
    let child =
      if is_empty home then first_seg segs else home ++ b'.' ∷ first_seg (split b'.' inner) in
    let line = inner ++ (codes " = " ++ raw) in
    let fresh =
      not (is_empty sec)
      && not (same sec home)
      && not (is_dotted s)
      && not (some_of (λ (e : Entry). starts_with e.key (child ++ codes ".")) in_home) in
    let head = if is_empty home then none else header_line s.headers home in
    let base = elim head as (λ _. ℕ) [ none ↦ 0 | some h ↦ depth_at s.depth (suc h) ] in
    if fresh
    then record ch { new_tables = add_to ch.new_tables sec (last_seg segs ++ (codes " = " ++ raw)) }
    else elim (best_from key none in_home) [
      | some best ↦
          let q = outside_of f.lines s (suc best.last) base false in
          record ch {
            before = ch.before ++ (q, line) ∷ [];
            root_at = if is_empty home then max ch.root_at q else ch.root_at;
          }
      | none ↦ elim head [
        | some h ↦ record ch { before = ch.before ++ (suc h, line) ∷ [] }
        | none ↦ record ch { root_adds = ch.root_adds ++ line ∷ [] }
      ]
    ]

-- one key; `raw` is `none` for a key that is no longer generated
unfoldable pub merge_key : File → Dict Text → Text → Changes → Option Changes
unfolding set_entries set_inside add_key same starts_with lookup
merge_key f want key ch =
    let raw = lookup key want in
    let found = keep (λ (e : Entry). same e.key key) f.scan.entries in
    let host = find (λ (e : Entry). starts_with key (e.key ++ codes ".")) f.scan.entries in
    if not (is_empty found) then set_entries f.lines raw found ch else elim host [
      | some h ↦ set_inside f.lines key raw h ch
      | none ↦ some (elim raw [ none ↦ ch | some r ↦ add_key f key r ch ])
    ]

unfoldable pub merge_keys : File → Dict Text → List Text → Changes → Option Changes
unfolding merge_key
merge_keys f want [] ch = some ch
merge_keys f want (key ∷ keys) ch = do ch' ← merge_key f want key ch; merge_keys f want keys ch'
