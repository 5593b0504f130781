-- ===== src/Toml/Blocks/Compose/Unbracket.antt =====
-- What `unbracketConnection` of toml.js changes.
use frp_manager.Base.{
  append_assoc, every, arith, ℕ, ◌+◌, true, false, Option, some, List, [], ◌∷◌, ◌++◌, Text,
  if◌then◌else◌, length, is_empty, some_of, same_iff, split, join, same, starts_with, trim, codes,
  ◌≡◌, ◌⊎◌, inl, inr, refl, sym, Bool-cases, Option-cases,
}
use frp_manager.Toml.Blocks.{multiline_string_lines, is_in_string}
use frp_manager.Toml.Blocks.Compose.{
  Bracketed, is_plain_char, bracketed_line, address_keys, unbracket_line, unbracket_lines,
  table_after, unbracket_connection,
}
use frp_manager.Toml.Blocks.Compose.Reads.{bracketed_line-reads}
use frp_manager.Toml.Blocks.Compose.Quoted.{
  IsQuote, IsFront, bracketed_line_lem, bracketed_line_fields,
}

-- one of the three addresses, with its table in front
abbrev pub IsAddressKey : Text → Type 0
IsAddressKey key =
    (key ≡ codes "serverAddr") ⊎ (key ≡ codes "dnsServer") ⊎ (key ≡ codes "webServer.addr")

abbrev pub qualified : Text → Text → Text
qualified table path = if is_empty table then path else table ++ b'.' ∷ path

-- In the table, `line` gives one of the addresses, in brackets between two equal quotes, and `new`
-- is the same text without the brackets.
abbrev pub IsUnbracketed : Text → Text → Text → Type 0
IsUnbracketed table line new =
    (front : Text) × (path : Text) × (mark : Text) × (address : Text) × (tail : Text) × (line
      ≡ front ++ (mark ++ (codes "[" ++ (address ++ (codes "]" ++ (mark ++ tail))))))
    × (new ≡ front ++ (mark ++ (address ++ (mark ++ tail))))
    × IsFront front path
    × IsAddressKey (qualified table path)
    × IsQuote mark
    × (every is_plain_char address ≡ true)

-- In the table, and outside strings and heads, `line` is an address in brackets, and `new` is the
-- same text without them.
abbrev pub IsFreed : List ℕ → Option Text → ℕ → Text → Text → Type 0
IsFreed inside table off line new =
    (t : Text) × (table ≡ some t)
    × (is_in_string inside off ≡ false)
    × (starts_with (trim line) (codes "[") ≡ false)
    × IsUnbracketed t line new

-- line by line, from an offset on: an address in brackets loses them, and every other line is the
-- same
abbrev pub IsFixed : List ℕ → Option Text → ℕ → List Text → List Text → Type 0
IsFixed inside table off [] [] = Unit
IsFixed inside table off (l ∷ ls) (k ∷ ks) =
    (IsFreed inside table off l k ⊎ ((k ≡ l) × (¬ ((new : Text) × IsFreed inside table off l new))))
    × IsFixed inside (if is_in_string inside off then table else table_after table l)
        (off + length l + 1) ls ks
IsFixed inside table off _ _ = ⊥

address_keys-IsAddressKey :
    (key : Text) → some_of (λ k. same k key) address_keys ≡ true → IsAddressKey key
address_keys-IsAddressKey key h = elim (Bool-cases (same (codes "serverAddr") key)) [
  | inl a ↦ inl (sym ((same_iff (codes "serverAddr") key).0 a))
  | inr a ↦ elim (Bool-cases (same (codes "dnsServer") key)) [
    | inl b ↦ inr (inl (sym ((same_iff (codes "dnsServer") key).0 b)))
    | inr b ↦ elim (Bool-cases (same (codes "webServer.addr") key)) [
      | inl c ↦ inr (inr (sym ((same_iff (codes "webServer.addr") key).0 c)))
      | inr c ↦ absurd (cc (rw (a, b, c) at h))
    ]
  ]
]

IsAddressKey-address_keys :
    (key : Text) → IsAddressKey key → some_of (λ k. same k key) address_keys ≡ true
unfolding same
IsAddressKey-address_keys key (inl e) = rw e refl
IsAddressKey-address_keys key (inr (inl e)) = rw e refl
IsAddressKey-address_keys key (inr (inr e)) = rw e refl

-- a line that gives an address in brackets is read, with its key
IsUnbracketed-bracketed_line :
    (table line new : Text)
    → IsUnbracketed table line new
    → (m : Bracketed) × (bracketed_line line ≡ some m)
      × (some_of (λ k. same k (qualified table m.path)) address_keys ≡ true)
IsUnbracketed-bracketed_line table line new
      (
        front,
        path,
        mark,
        address,
        tail,
        e,
        _,
        (indent, before, behind, f, h, k, l, filled, word),
        key,
        quote,
        plain,
      ) =
    let value = behind ++ (mark ++ (codes "[" ++ (address ++ (codes "]" ++ (mark ++ tail))))) in
    let whole : line ≡ indent ++ (path ++ (before ++ b'=' ∷ value)) =
      rw (e, f) (simp append_assoc) in
    (
      record {
        front = (indent ++ (path ++ (before ++ codes "="))) ++ behind;
        path = path;
        mark = mark;
        address = address;
        tail = tail;
      },
      rw whole (
          bracketed_line-reads indent path before behind mark address tail h word filled k l quote
            plain),
      IsAddressKey-address_keys (qualified table path) key,
    )

unbracket_line_lem :
    (table line : Text)
    → IsUnbracketed table line (unbracket_line table line)
      ⊎ ((unbracket_line table line ≡ line) × (¬ ((new : Text) × IsUnbracketed table line new)))
unfolding unbracket_line
unbracket_line_lem table line = elim (Option-cases (bracketed_line line)) [
  | inl e ↦ inr (
    rw (e, unbracket_line) refl,
    λ (new, found).
        let (m, read, _) = IsUnbracketed-bracketed_line table line new found in absurd (cc),
  )
  | inr (m, e) ↦
      let key = qualified table m.path in
      elim (Bool-cases (some_of (λ k. same k key) address_keys)) [
        | inl h ↦
            let (front, quote, plain) = bracketed_line_fields line m e in
            inl (
              rw (e, unbracket_line)
                (rw h (
                  m.front,
                  m.path,
                  m.mark,
                  m.address,
                  m.tail,
                  bracketed_line_lem line m e,
                  refl,
                  front,
                  address_keys-IsAddressKey key h,
                  quote,
                  plain,
                )))
        | inr h ↦ inr (
          rw (e, unbracket_line) (rw h refl),
          λ (new, found).
              let (n, read, listed) = IsUnbracketed-bracketed_line table line new found in
              let same_line : n ≡ m = ground (arith, e, read) in absurd (cc),
        )
      ]
]

unbracket_lines-IsFixed :
    (inside : List ℕ) (table : Option Text) (off : ℕ) (lines : List Text)
    → IsFixed inside table off lines (unbracket_lines inside table off lines)
unfolding unbracket_lines
unbracket_lines-IsFixed inside table off [] = tt
unbracket_lines-IsFixed inside table off (line ∷ lines) =
    let rest =
      unbracket_lines-IsFixed inside
        (if is_in_string inside off then table else table_after table line) (off + length line + 1)
        lines in
    (
      elim (Bool-cases (is_in_string inside off)) [
        | inl h ↦ inr (rw h refl, λ (new, (t, e, out, _, _)). absurd (cc))
        | inr h ↦ elim (Option-cases table) [
          | inl e ↦ inr (rw (h, e) refl, λ (new, (t, some_table, _, _, _)). absurd (cc))
          | inr (t, e) ↦ elim (Bool-cases (starts_with (trim line) (codes "["))) [
            | inl k ↦ inr (rw (h, e, k) refl, λ (new, (u, some_table, out, head, _)). absurd (cc))
            | inr k ↦ elim (unbracket_line_lem t line) [
              | inl found ↦ inl (t, e, h, k, rw (h, e, k) found)
              | inr (kept, not_found) ↦ inr (
                rw (h, e, k) kept,
                λ (new, (u, some_table, out, head, found)).
                    let same_table : u ≡ t = ground (arith, e, some_table) in
                    not_found (new, rw same_table at found),
              )
            ]
          ]
        ]
      ],
      rest,
    )

-- `unbracketConnection` takes the brackets off an address between two equal quotes, with no "]" and
-- no quote in it, in every line that gives serverAddr, dnsServer or webServer.addr, with its table
-- in front, and keeps every other line; lines in a multi-line string, in the head of a table or
-- behind the first block stay as they are. No line is lost, added or moved.
pub unbracket_connection-IsFixed :
    (text : Text)
    → (ls : List Text) × (unbracket_connection text ≡ join (codes "\n") ls)
      × IsFixed (multiline_string_lines text) (some []) 0 (split 10 text) ls
unfolding unbracket_connection
unbracket_connection-IsFixed text =
    let inside = multiline_string_lines text in
    (
      unbracket_lines inside (some []) 0 (split 10 text),
      refl,
      unbracket_lines-IsFixed inside (some []) 0 (split 10 text),
    )
