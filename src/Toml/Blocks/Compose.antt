-- ===== src/Toml/Blocks/Compose.antt =====
-- A whole file of a client in toml.js: unbracketConnection and composeClientConfig.
pub mod Quoted
pub mod Reads
pub mod Unbracket
use frp_manager.Base.{
  ℕ, zero, suc, ◌+◌, Bool, true, false, not, ◌&&◌, ◌||◌, Option, none, some, is_some, List, [], ◌∷◌,
  ◌++◌, map, Text, ◌==◌, if◌then◌else◌, ◌>>=◌, length, take, drop, is_empty, every, some_of, keep,
  includes, starts_with, same, trim, is_space, split, join, codes,
}
use frp_manager.Toml.Scan.{quote_mark, apostrophe}
use frp_manager.Toml.Hosts.{is_dot}
use frp_manager.Toml.Connection.{is_word}
use frp_manager.Toml.Match.{eat}
use frp_manager.Toml.Lines.{split_lines}
use frp_manager.Toml.Generate.{filled, generate_proxy, generate_visitor}
use frp_manager.Toml.Tunnel.{Proxy, Visitor, split_pair}
use frp_manager.Toml.Parse.{Config}
use frp_manager.Toml.Blocks.{find_block, multiline_string_lines, is_in_string, quote_of}
use frp_manager.Toml.Blocks.Prep.{flat, prep, parse_toml}
use frp_manager.Toml.Blocks.Strip.{drop_trailing_comments, strip_blocks}
use frp_manager.Toml.Blocks.Tables.{tables_after_blocks}

-- `head.replace(/^\[+|\]+.*$/g, '')`
abbrev drop_open : Text → Text
drop_open [] = []
drop_open (c ∷ s) = let rest = drop_open s in if c == b'[' then rest else c ∷ s

abbrev drop_close : Text → Text
drop_close [] = []
drop_close (c ∷ s) = let rest = drop_close s in if c == b']' && every is_dot s then [] else c ∷ rest

-- `[\w.]`
abbrev pub is_path_char : ℕ → Bool
is_path_char c = is_word c || c == b'.'

-- the front of a text in the class `p`, and what follows it
unfoldable pub break_at : (ℕ → Bool) → Text → Text × Text
break_at p [] = ([], [])
break_at p (c ∷ s) =
    let (front, rest) = break_at p s in if p c then (c ∷ front, rest) else ([], c ∷ s)

-- The groups of /^(\s*)([\w.]+)(\s*=\s*)(["'])\[([^\]"']*)\]\4([\s\S]*)$/: what stands in front of
-- the quote, the key, the quote, the address, and what follows the quote behind it.
pub record Bracketed : Type 0 where
  pub front : Text
  pub path : Text
  pub mark : Text
  pub address : Text
  pub tail : Text

abbrev pub is_plain_char : ℕ → Bool
is_plain_char c = not (c == b']' || c == quote_mark || c == apostrophe)

-- the expression from the bracket on
unfoldable pub quoted_address : Text → Text → Text → Text → Option Bracketed
quoted_address front path mark s = do
  t₁ ← eat (codes "[") s
  t₂ ← eat (codes "]") (break_at is_plain_char t₁).1
  tail ← eat mark t₂
  some (record {
    front = front;
    path = path;
    mark = mark;
    address = (break_at is_plain_char t₁).0;
    tail = tail;
  })

-- the expression from behind the "=" on
unfoldable pub quoted_value : Text → Text → Text → Option Bracketed
quoted_value front path s =
    let (behind, t) = break_at is_space s in
    let mark = quote_of t in
    if is_empty path || is_empty mark
    then none
    else quoted_address (front ++ behind) path mark (drop (length mark) t)

unfoldable pub bracketed_line : Text → Option Bracketed
bracketed_line line =
    let (indent, t₁) = break_at is_space line in
    let (path, t₂) = break_at is_path_char t₁ in
    let (before, t₃) = break_at is_space t₂ in
    (eat (codes "=") t₃ >>= λ t₄. quoted_value (indent ++ (path ++ (before ++ codes "="))) path t₄)

abbrev pub address_keys : List Text
address_keys = codes "serverAddr" ∷ codes "dnsServer" ∷ codes "webServer.addr" ∷ []

-- a line outside strings and blocks that is no header
unfoldable pub unbracket_line : Text → Text → Text
unfolding same
unbracket_line table line = elim (bracketed_line line) [
  | none ↦ line
  | some m ↦
      let key = if is_empty table then m.path else table ++ b'.' ∷ m.path in
      if some_of (λ k. same k key) address_keys
      then m.front ++ (m.mark ++ (m.address ++ (m.mark ++ m.tail)))
      else line
]

-- the table behind a line, `none` for null
unfoldable pub table_after : Option Text → Text → Option Text
unfolding trim starts_with
table_after none line = none
table_after (some table) line =
    let head = trim line in
    if starts_with head (codes "[[")
    then none
    else if starts_with head (codes "[")
    then some (trim (drop_close (drop_open head)))
    else some table

-- The loop of `unbracketConnection`, from the offset `off` on.
unfoldable pub unbracket_lines : List ℕ → Option Text → ℕ → List Text → List Text
unbracket_lines inside table off [] = []
unbracket_lines inside table off (line ∷ lines) =
    let in_string = is_in_string inside off in
    let changed = elim table as (λ _. Text) [
      | none ↦ line
      | some t ↦ if starts_with (trim line) (codes "[") then line else unbracket_line t line
    ] in
    (if in_string then line else changed)
    ∷ unbracket_lines inside (if in_string then table else table_after table line)
        (off + length line + 1) lines

-- `unbracketConnection`
unfoldable pub unbracket_connection : Text → Text
unfolding unbracket_lines multiline_string_lines split join
unbracket_connection text =
    join (codes "\n") (unbracket_lines (multiline_string_lines text) (some []) 0 (split 10 text))

-- the comments of the end of a file without blocks, in front of the first block
abbrev pub with_trailing : List Text → List Text → List Text
unfolding join
with_trailing trailing [] = []
with_trailing trailing (b ∷ blocks) = join (codes "\n") (trailing ++ b ∷ []) ∷ blocks

-- `composeClientConfig`, `none` where `unquote` throws
unfoldable pub compose_client_config : Text → List Proxy → List Visitor → Option Text
unfolding prep find_block strip_blocks unbracket_connection drop_trailing_comments
    tables_after_blocks parse_toml generate_proxy generate_visitor split_pair split_lines join
    includes
compose_client_config base_text proxies visitors =
    let text = prep base_text in
    let blocks =
      map generate_proxy (flat (map split_pair proxies))
      ++ map generate_visitor (keep (λ (v : Visitor). filled v.name) visitors) in
    let base = unbracket_connection (strip_blocks text) in
    let tables = tables_after_blocks text in
    (parse_toml text >>= λ config.
    let bare = not (is_some (find_block text)) in
    let moved = bare && not (is_empty blocks) && not (is_empty config.trailing) in
    let base' = if moved then drop_trailing_comments base else base in
    let blocks' = if moved then with_trailing config.trailing blocks else blocks in
    let trailing = if bare then [] else join (codes "\n") config.trailing in
    let parts = base' ∷ tables ∷ (blocks' ++ trailing ∷ []) in
    let whole = join (codes "\n\n") (keep filled parts) ++ codes "\n" in
    some (if includes text (codes "\r\n") then join (codes "\r\n") (split_lines whole) else whole))
