-- ===== src/Toml/Parse/Written.antt =====
-- How `parseToml` reads the lines that `generateProxy` and `generateVisitor` write.
use frp_manager.Base.{
  ℕ, zero, true, false, some, List, [], ◌∷◌, ◌++◌, Text, every, starts_with, codes, All, ◌≡◌, ◌≢◌,
  refl, ◌∙◌, arith,
}
use frp_manager.Base.TextLaws.{trim_space, trim_end-concat}
use frp_manager.Toml.Scan.{backslash, quote_mark, opens_multiline}
use frp_manager.Toml.Scan.Inside.{IsPlain, trim-str, opens_multiline-str, split_comment-str}
use frp_manager.Toml.Str.{str, str_from}
use frp_manager.Toml.Unquote.RoundTrip.{in_actions, unquote-str}
use frp_manager.Toml.Value.{delimiter}
use frp_manager.Toml.Generate.{pair_line}
use frp_manager.Toml.Parse.{State, Open, store_in_block, read_line}
use frp_manager.Toml.Parse.Line.{is_key_char, IsRaw, read_line-pair_line}

All-backslash : (xs : Text) → All IsPlain xs → All (λ c. c ≢ backslash) xs
All-backslash [] h = tt
All-backslash (x ∷ xs) ((p, _), h) = (p, All-backslash xs h)

delimiter-none : (s : Text) → opens_multiline s ≡ false → delimiter s ≡ []
delimiter-none s h = ground arith

opens-str : (s : Text) → starts_with (str s) (codes "[") ≡ false
unfolding str starts_with
opens-str s = refl

pub IsRaw-str : (s : Text) → All IsPlain (in_actions zero s) → IsRaw (str s) s
IsRaw-str s h = record {
  whole = split_comment-str s h;
  trimmed = trim_space (str s) ∙ trim-str s;
  ended = unfold str in trim_end-concat (quote_mark ∷ str_from zero s) quote_mark refl;
  filled = unfold str in refl;
  single =
      delimiter-none (str s) (unfold str in opens_multiline-str s [] (unfold starts_with in refl));
  closed = rw (opens-str s);
  value = unquote-str s (All-backslash (in_actions zero s) h);
}

-- In an open block, a line that gives a key a string as `str` writes it is read back as that
-- string, with the comments above it, and no further line is read. The key consists of the
-- characters of bare keys and dots, and no template action of the string holds a backslash or a
-- double quote.
pub read_line-str :
    (c : ℕ) (k s : Text)
    → every is_key_char (c ∷ k) ≡ true
    → All IsPlain (in_actions zero s)
    → (ls : List Text) (st : State) (o : Open) → st.block ≡ some o
    → read_line (pair_line (c ∷ k) (str s)) ls st
      ≡ some (record {
        state = record st {
          comments = [];
          block = some (record o {
            block =
                store_in_block
                  (st.prefix ++ c ∷ k)
                  s
                  (record { raw = str s; eol = []; inner = []; rest = ls })
                  st.comments
                  o.block;
          });
        };
        lines = ls;
      })
read_line-str c k s key plain ls st o e =
    read_line-pair_line c k (str s) s key (IsRaw-str s plain) ls st o e
