-- ===== src/Toml/Parse/Bare.antt =====
-- How `parseToml` reads the bare values that `generateProxy` and `generateVisitor` write: port
-- numbers and booleans.
use frp_manager.Base.{
  ℕ, ◌==◌, zero, suc, true, false, none, some, List, [], ◌∷◌, ◌++◌, Text, every, starts_with, same,
  ◌≡◌, ◌≢◌, refl, ap, ◌∙◌, arith, trim_end,
}
use frp_manager.Base.TextLaws.{trim_space, trim_kept}
use frp_manager.Toml.Scan.{opened, comment_from, outside, opens_multiline, quote_mark, apostrophe}
use frp_manager.Toml.Scan.Inside.{split_comment-none}
use frp_manager.Toml.Unquote.{unquote, multiline_text, multiline_value}
use frp_manager.Toml.Match.{starts_other}
use frp_manager.Toml.Generate.{pair_line}
use frp_manager.Toml.Parse.{State, Open, store_in_block, read_line}
use frp_manager.Toml.Parse.Line.{is_key_char, key_char_facts, IsRaw, read_line-pair_line}

opens_other : (c : ℕ) (s : Text) → c ≢ quote_mark → c ≢ apostrophe → opens_multiline (c ∷ s) ≡ false
opens_other c s h k = rw (
  starts_other c quote_mark s (quote_mark ∷ quote_mark ∷ []) h,
  starts_other c apostrophe s (apostrophe ∷ apostrophe ∷ []) k,
)

comment_from-bare :
    (r : Text) (i : ℕ) → every is_key_char r ≡ true → comment_from outside zero i r ≡ none
unfolding comment_from
comment_from-bare [] i h = refl
comment_from-bare (c ∷ r) i h =
    let (_, _, _, hash, _, quote, apos) = key_char_facts c (ground arith) in
    let rest = comment_from-bare r (suc i) (ground arith) in
    let no_hash : (c == b'#') ≡ false = ground arith in
    let plain : opened c ≡ outside = ground arith in
    rw (opens_other c r quote apos, no_hash, comment_from) (rw plain rest)

trim_end-bare : (r : Text) → every is_key_char r ≡ true → trim_end r ≡ r
unfolding trim_end
trim_end-bare [] h = refl
trim_end-bare (c ∷ r) h =
    let (space, _, _, _, _, _, _) = key_char_facts c (ground arith) in
    rw (trim_end-bare r (ground arith), space)

multiline_text-bare :
    (c : ℕ) (r : Text) → c ≢ quote_mark → c ≢ apostrophe → multiline_text (c ∷ r) ≡ none
unfolding multiline_text same
multiline_text-bare c r h k = ground arith

unquote-bare : (c : ℕ) (r : Text) → c ≢ quote_mark → c ≢ apostrophe → unquote (c ∷ r) ≡ some (c ∷ r)
unfolding unquote
unquote-bare c r h k =
    rw
      (
        multiline_text-bare c r h k,
        starts_other c quote_mark r [] h,
        starts_other c apostrophe r [] k,
        multiline_value,
      )
      (ground arith)

pub IsRaw-bare : (c : ℕ) (r : Text) → every is_key_char (c ∷ r) ≡ true → IsRaw (c ∷ r) (c ∷ r)
IsRaw-bare c r h =
    let (space, square, _, _, _, quote, apos) = key_char_facts c (ground arith) in
    let ended = trim_end-bare (c ∷ r) h in
    let trimmed = trim_space (c ∷ r) ∙ trim_kept c r space ended in
    record {
      whole =
          split_comment-none (32 ∷ c ∷ r)
            (unfold comment_from starts_with in comment_from-bare (c ∷ r) 1 h)
          ∙ ap (λ x. (x, [])) trimmed;
      trimmed = trimmed;
      ended = ended;
      filled = refl;
      single = rw (
        starts_other c quote_mark r (quote_mark ∷ quote_mark ∷ []) quote,
        starts_other c apostrophe r (apostrophe ∷ apostrophe ∷ []) apos,
      );
      closed = rw (starts_other c b'[' r [] square);
      value = unquote-bare c r quote apos;
    }

-- In an open block, a line that gives a key a bare value, as a port number or a boolean, is read
-- back as that value, with the comments above it, and no further line is read. The key and the
-- value consist of the characters of bare keys and dots.
pub read_line-bare :
    (c : ℕ) (k : Text) (d : ℕ) (r : Text)
    → every is_key_char (c ∷ k) ≡ true
    → every is_key_char (d ∷ r) ≡ true
    → (ls : List Text) (st : State) (o : Open) → st.block ≡ some o
    → read_line (pair_line (c ∷ k) (d ∷ r)) ls st
      ≡ some (record {
        state = record st {
          comments = [];
          block = some (record o {
            block =
                store_in_block
                  (st.prefix ++ c ∷ k)
                  (d ∷ r)
                  (record { raw = d ∷ r; eol = []; inner = []; rest = ls })
                  st.comments
                  o.block;
          });
        };
        lines = ls;
      })
read_line-bare c k d r key bare ls st o e =
    read_line-pair_line c k (d ∷ r) (d ∷ r) key (IsRaw-bare d r bare) ls st o e
