-- ===== src/Toml/Parse/Line.antt =====
-- How `parseToml` reads one line "key = raw" inside a block.
use frp_manager.Base.{
  is_some, trim_start, none, ℕ, suc, ◌+◌, Bool, true, false, ◌&&◌, ◌||◌, some, List, [], ◌∷◌, ◌++◌,
  Text, ◌==◌, length, take, drop, every, is_empty, starts_with, codes, ◌≡◌, ◌≢◌, refl, sym, ap, ◌∙◌,
  arith, append_assoc, trim, trim_end, is_space,
}
use frp_manager.Base.Int.{is_pos}
use frp_manager.Base.TextLaws.{trim_end-append, trim_kept, take-suc-length, drop-suc-length}
use frp_manager.Toml.Scan.{key_end, key_end_from, split_comment, outside, quote_mark, apostrophe}
use frp_manager.Toml.Brackets.{bracket_depth}
use frp_manager.Toml.KeyPath.{unquote_name, unquote_name-other, is_name_char}
use frp_manager.Toml.Unquote.{unquote}
use frp_manager.Toml.Value.{Value, delimiter, read_value, read_string, read_table, read_array}
use frp_manager.Toml.Generate.{pair_line}
use frp_manager.Toml.Headers.{block_kind, block_kind-other}
use frp_manager.Toml.Match.{
  starts_other, range_line, is_end_line, range_line-other, is_end_line-other,
}
use frp_manager.Toml.Parse.{
  State, Open, Progress, key_of, store_value, store_in_block, read_key, read_content, read_line,
}

abbrev pub is_key_char : ℕ → Bool
is_key_char c = is_name_char c || c == b'.'

-- A raw value on one line: it holds no comment, opens no string or array that goes on behind its
-- line, and is read as the text `v`.
pub record IsRaw (r v : Text) : Type 0 where
  pub whole : split_comment (32 ∷ r) ≡ (r, [])
  pub trimmed : trim (32 ∷ r) ≡ r
  pub ended : trim_end r ≡ r
  pub filled : is_empty r ≡ false
  pub single : delimiter r ≡ []
  pub closed : (starts_with r (codes "[") && is_pos (bracket_depth r)) ≡ false
  pub value : unquote r ≡ some v

pub key_char_facts :
    (c : ℕ)
    → is_key_char c ≡ true
    → (is_space c ≡ false)
      × (c ≢ b'[')
      × (c ≢ b'{')
      × (c ≢ b'#')
      × (c ≢ b'=')
      × (c ≢ quote_mark)
      × (c ≢ apostrophe)
key_char_facts c h = ground arith

key_end_from-key :
    (k t : Text) (i : ℕ)
    → every is_key_char k ≡ true
    → key_end_from outside i (k ++ t) ≡ key_end_from outside (i + length k) t
unfolding key_end_from
key_end_from-key [] t i h = ap (λ n. key_end_from outside n t) (omega arith)
key_end_from-key (c ∷ k) t i h =
    let plain = key_char_facts c (ground arith) in
    let rest = key_end_from-key k t (suc i) (ground arith) in ground (arith, plain, rest)

read_string_single :
    (raw_line : Text) (eq : ℕ) (lines : List Text) (v : Value)
    → delimiter (trim (drop (suc eq) (trim raw_line))) ≡ []
    → read_string raw_line eq lines v ≡ v
unfolding read_string
read_string_single raw_line eq lines v h = rw (h, read_string)

read_table_in_block : (rest0 : Text) (v : Value) → read_table true rest0 v ≡ v
unfolding read_table
read_table_in_block rest0 v = refl

read_array_closed :
    (v : Value)
    → (starts_with v.raw (codes "[") && is_pos (bracket_depth v.raw)) ≡ false
    → read_array v ≡ v
unfolding read_array
read_array_closed v h = rw (h, read_array)

read_value_single :
    (raw_line : Text) (eq : ℕ) (lines : List Text) (r : Text)
    → split_comment (drop (suc eq) (trim raw_line)) ≡ (r, [])
    → delimiter (trim (drop (suc eq) (trim raw_line))) ≡ []
    → (starts_with r (codes "[") && is_pos (bracket_depth r)) ≡ false
    → read_value true raw_line eq lines ≡ record { raw = r; eol = []; inner = []; rest = lines }
unfolding read_value
read_value_single raw_line eq lines r e d h =
    rw (e, read_string_single, read_table_in_block, read_array_closed)

module _ (c : ℕ) (k r v : Text) (key : every is_key_char (c ∷ k) ≡ true) (raw : IsRaw r v) where
  abbrev line : Text
  line = pair_line (c ∷ k) r

  pub trim-line : trim line ≡ line
  trim-line =
      let ended = trim_end-append ((c ∷ k) ++ codes " = ") r raw.ended raw.filled in
      let whole = append_assoc (c ∷ k) (codes " = ") r in
      trim_kept c (k ++ (codes " = " ++ r)) (key_char_facts c (ground arith)).0
        (ap trim_end (sym whole) ∙ ended ∙ whole)

  pub key_end-line : key_end line ≡ some (suc (length (c ∷ k)))
  unfolding key_end
  key_end-line = key_end_from-key (c ∷ k) (codes " = " ++ r) 0 key ∙ ap some (omega arith)

  pub take-line : take (suc (length (c ∷ k))) line ≡ (c ∷ k) ++ 32 ∷ []
  take-line = take-suc-length (c ∷ k) 32 (b'=' ∷ 32 ∷ r)

  pub drop-line : drop (suc (suc (length (c ∷ k)))) line ≡ 32 ∷ r
  drop-line = drop-suc-length (c ∷ k) 32 b'=' (32 ∷ r)

  read_value-line :
      (lines : List Text)
      → read_value true line (suc (length (c ∷ k))) lines
        ≡ record { raw = r; eol = []; inner = []; rest = lines }
  read_value-line lines =
      read_value_single line (suc (length (c ∷ k))) lines r
        (ap (λ x. split_comment (drop (suc (suc (length (c ∷ k)))) x)) trim-line
          ∙ ap split_comment drop-line
          ∙ raw.whole)
        (ap (λ x. delimiter (trim (drop (suc (suc (length (c ∷ k)))) x))) trim-line
          ∙ ap (λ x. delimiter (trim x)) drop-line
          ∙ ap delimiter raw.trimmed
          ∙ raw.single)
        raw.closed

  trim_end-key : (k : Text) → every is_key_char k ≡ true → trim_end (k ++ 32 ∷ []) ≡ k
  unfolding trim_end
  trim_end-key [] h = refl
  trim_end-key (d ∷ k) h = rw (trim_end-key k (ground arith), (key_char_facts d (ground arith)).0)

  pub trim_key : is_space c ≡ false → trim ((c ∷ k) ++ 32 ∷ []) ≡ c ∷ k
  unfolding trim trim_start
  trim_key h = rw h (trim_end-key (c ∷ k) key)

  key_of-line : key_of true (take (suc (length (c ∷ k))) line) ≡ c ∷ k
  unfolding key_of unquote_name
  key_of-line =
      let (_, _, _, _, _, quote, apos) = key_char_facts c (ground arith) in
      ap (key_of true) take-line
      ∙ ap (unquote_name is_key_char) (trim_key (key_char_facts c (ground arith)).0)
      ∙ unquote_name-other is_key_char c k quote apos

  abbrev stored : List Text → State → Open → List Text → Progress
  stored pending st o ls = record {
    state = record st {
      block = some (record o {
        block =
            store_in_block (st.prefix ++ c ∷ k) v
              (record { raw = r; eol = []; inner = []; rest = ls }) pending o.block;
      });
    };
    lines = ls;
  }

  store_value-line :
      (ls pending : List Text) (st : State) (o : Open)
      → st.block ≡ some o
      → store_value (c ∷ k) (record { raw = r; eol = []; inner = []; rest = ls }) pending st
        ≡ some (stored pending st o ls).state
  unfolding store_value
  store_value-line ls pending st o e = rw (raw.value, e)

  read_key-line :
      (ls pending : List Text) (st : State) (o : Open)
      → st.block ≡ some o
      → read_key line ls pending st ≡ some (stored pending st o ls)
  unfolding read_key
  read_key-line ls pending st o e =
      let open_already : is_some st.block ≡ true = ap is_some e in
      rw (trim-line, key_end-line, read_key)
        (rw
          (
            open_already,
            trim-line,
            read_value-line ls,
            key_of-line,
            store_value-line ls pending st o e,
          )
          refl)

  read_content-line :
      (ls : List Text) (st : State) (o : Open)
      → st.block ≡ some o
      → read_content line ls st ≡ some (stored st.comments (record st { comments = [] }) o ls)
  unfolding read_content
  read_content-line ls st o e =
      let (spaces, square, _, _, _, _, _) = key_char_facts c (ground arith) in
      let no_block : block_kind line ≡ none = block_kind-other c _ spaces square trim-line in
      let no_table : starts_with line (codes "[") ≡ false =
        starts_other c b'[' (k ++ (codes " = " ++ r)) [] square in
      rw (trim-line, no_block, trim-line, no_table, read_content)
        (read_key-line ls st.comments (record st { comments = [] }) o e)

  read_line-line :
      (ls : List Text) (st : State) (o : Open)
      → st.block ≡ some o
      → read_line line ls st ≡ some (stored st.comments (record st { comments = [] }) o ls)
  unfolding read_line
  read_line-line ls st o e =
      let (_, _, curly, hash, _, _, _) = key_char_facts c (ground arith) in
      let no_comment : starts_with line (codes "#") ≡ false =
        starts_other c b'#' (k ++ (codes " = " ++ r)) [] hash in
      let no_template : starts_with line (codes "{{") ≡ false =
        starts_other c b'{' (k ++ (codes " = " ++ r)) (codes "{") curly in
      let no_range : range_line line ≡ none = range_line-other c _ curly in
      let no_end : is_end_line line ≡ false = is_end_line-other c _ curly in
      rw (trim-line, no_comment, no_template, no_range, no_end) (read_content-line ls st o e)

-- In an open block, the line of a key whose raw value needs no further line stores the key in
-- the block with its text, its raw value and the comments above it, and reads that line only.
pub read_line-pair_line :
    (c : ℕ) (k r v : Text)
    → every is_key_char (c ∷ k) ≡ true
    → IsRaw r v
    → (ls : List Text) (st : State) (o : Open) → st.block ≡ some o
    → read_line (pair_line (c ∷ k) r) ls st
      ≡ some (record {
        state = record st {
          comments = [];
          block = some (record o {
            block =
                store_in_block
                  (st.prefix ++ c ∷ k)
                  v
                  (record { raw = r; eol = []; inner = []; rest = ls })
                  st.comments
                  o.block;
          });
        };
        lines = ls;
      })
read_line-pair_line c k r v key raw ls st o e = read_line-line c k r v key raw ls st o e
