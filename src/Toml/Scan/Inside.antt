-- ===== src/Toml/Scan/Inside.antt =====
-- The scanners pass over a quoted string: inside it they look at nothing but its end.
use mathlib.Core.Path.{subst}
use frp_manager.Base.{
  ◌/◌, ◌%◌, ℕ, suc, zero, ◌+◌, ◌-◌, false, none, some, [], ◌∷◌, ◌++◌, Text, length, length-append,
  take-length-append, drop-length-append, starts_with, ◌≡◌, ◌≢◌, refl, sym, ap, ◌∙◌, arith, All,
  Bool-cases, Option-cases, inl, inr, append_assoc, append-nil, trim, trim_start, take, drop,
}
use frp_manager.Base.TextLaws.{trim-quoted, trim_end-concat, trim_end_space, trim_space}
use frp_manager.Toml.Scan.{
  Mode, outside, basic, escape, literal, comment, advance, quote_mark, backslash, opens_multiline,
  comment_from, comment_at, split_comment,
}
use frp_manager.Toml.Str.{
  is_control, action_length, hex_digit, named_escape, escape_char, str_from, str,
}
use frp_manager.Toml.Unquote.RoundTrip.{in_actions, str_from_head}

-- Read from a mode, the text leaves the scan inside a quoted string, at no escape.
abbrev pub Inside : Mode → Text → Type 0
Inside basic [] = Unit
Inside basic (c ∷ s) = Inside (advance basic c) s
Inside escape [] = ⊥
Inside escape (c ∷ s) = Inside basic s
Inside outside s = ⊥
Inside literal s = ⊥
Inside comment s = ⊥

Inside-append : (m : Mode) (a b : Text) → Inside m a → Inside basic b → Inside m (a ++ b)
Inside-append basic [] b h k = k
Inside-append basic (c ∷ a) b h k = Inside-append (advance basic c) a b h k
Inside-append escape (c ∷ a) b h k = Inside-append basic a b h k
Inside-append escape [] b h k = absurd h
Inside-append outside a b h k = absurd h
Inside-append literal a b h k = absurd h
Inside-append comment a b h k = absurd h

pub comment_from-Inside :
    (m : Mode) (i : ℕ) (a t : Text)
    → Inside m a
    → comment_from m zero i (a ++ t) ≡ comment_from basic zero (i + length a) t
unfolding comment_from
comment_from-Inside basic i [] t h = ap (λ n. comment_from basic zero n t) (omega arith)
comment_from-Inside basic i (c ∷ a) t h =
    comment_from-Inside (advance basic c) (suc i) a t h
    ∙ ap (λ n. comment_from basic zero n t) (omega arith)
comment_from-Inside escape i (c ∷ a) t h =
    comment_from-Inside basic (suc i) a t h ∙ ap (λ n. comment_from basic zero n t) (omega arith)
comment_from-Inside escape i [] t h = absurd h
comment_from-Inside outside i a t h = absurd h
comment_from-Inside literal i a t h = absurd h
comment_from-Inside comment i a t h = absurd h

abbrev pub IsPlain : ℕ → Type 0
IsPlain c = (c ≢ backslash) × (c ≢ quote_mark)

hex_digit-IsPlain : (d : ℕ) → IsPlain (hex_digit d)
hex_digit-IsPlain d = ground arith

Inside-plain : (c : ℕ) (s : Text) → IsPlain c → Inside basic s → Inside basic (c ∷ s)
Inside-plain c s h k =
    let e : advance basic c ≡ basic = ground arith in subst (λ m. Inside m s) (sym e) k

Inside-escape_char : (c : ℕ) → Inside basic (escape_char c)
unfolding escape_char
Inside-escape_char c = elim (Option-cases (named_escape c)) [
  | inl e ↦
      rw (e, escape_char)
        (elim (Bool-cases (is_control c)) [
          | inl control ↦ rw control (
              Inside-plain (hex_digit (c / 16)) (hex_digit (c % 16) ∷ [])
                (hex_digit-IsPlain (c / 16))
                (Inside-plain (hex_digit (c % 16)) [] (hex_digit-IsPlain (c % 16)) tt))
          | inr other ↦ rw other (Inside-plain c [] (unfold named_escape in ground arith) tt)
        ])
  | inr (k, e) ↦ rw (e, escape_char) tt
]

pub Inside-str_from :
    (skip : ℕ) (s : Text) → All IsPlain (in_actions skip s) → Inside basic (str_from skip s)
unfolding str_from
Inside-str_from skip [] h = tt
Inside-str_from (suc skip) (c ∷ s) (p, h) =
    Inside-plain c (str_from skip s) p (Inside-str_from skip s h)
Inside-str_from zero (c ∷ s) h = elim (Option-cases (action_length (c ∷ s))) [
  | inl e ↦
      rw (e, str_from)
        (Inside-append basic (escape_char c) _ (Inside-escape_char c)
          (Inside-str_from zero s (rw (e, in_actions) at h)))
  | inr (n, e) ↦
      let h' : All IsPlain (c ∷ in_actions (n - 1) s) = rw (e, in_actions) at h in
      rw (e, str_from) (Inside-plain c (str_from (n - 1) s) h'.0 (Inside-str_from (n - 1) s h'.1))
]

-- the text that `str` writes holds no end-of-line comment, and ends outside quotes
pub comment_from-str :
    (i : ℕ) (s t : Text)
    → All IsPlain (in_actions zero s)
    → comment_from basic zero i (str_from zero s ++ quote_mark ∷ t)
      ≡ comment_from outside zero (i + length (str_from zero s) + 1) t
unfolding comment_from
comment_from-str i s t h =
    comment_from-Inside basic i (str_from zero s) (quote_mark ∷ t) (Inside-str_from zero s h)
    ∙ ap (λ n. comment_from outside zero n t) (omega arith)

not_multiline :
    (t : Text) → starts_with t (quote_mark ∷ []) ≡ false → opens_multiline (quote_mark ∷ t) ≡ false
unfolding starts_with
not_multiline [] h = refl
not_multiline (c ∷ []) h = ground arith
not_multiline (c ∷ d ∷ t) h = ground arith

empty_string :
    (t : Text)
    → starts_with t (quote_mark ∷ []) ≡ false
    → opens_multiline (quote_mark ∷ quote_mark ∷ t) ≡ false
unfolding starts_with
empty_string [] h = refl
empty_string (c ∷ t) h = ground arith

pub opens_multiline-str :
    (s t : Text)
    → starts_with t (quote_mark ∷ []) ≡ false
    → opens_multiline (quote_mark ∷ (str_from zero s ++ quote_mark ∷ t)) ≡ false
opens_multiline-str [] t h = unfold str_from in empty_string t h
opens_multiline-str (c ∷ s) t h = not_multiline _ (str_from_head c s (quote_mark ∷ t))

comment_at_quote :
    (b : Text)
    → opens_multiline (quote_mark ∷ b) ≡ false
    → comment_at (32 ∷ quote_mark ∷ b) ≡ comment_from basic zero 2 b
unfolding comment_from
comment_at_quote b h = ground arith

-- Behind a space, a string that `str` writes ends before the comment that follows it.
pub comment_at-str :
    (s t : Text)
    → All IsPlain (in_actions zero s)
    → starts_with t (quote_mark ∷ []) ≡ false
    → comment_at (32 ∷ (str s ++ t)) ≡ comment_from outside zero (length (str s) + 1) t
unfolding str
comment_at-str s t h k =
    let grouped : str s ++ t ≡ quote_mark ∷ (str_from zero s ++ quote_mark ∷ t) =
      ap (◌∷◌ quote_mark) (append_assoc (str_from zero s) (quote_mark ∷ []) t) in
    ap (λ x. comment_at (32 ∷ x)) grouped
    ∙ comment_at_quote _ (opens_multiline-str s t k)
    ∙ comment_from-str 2 s t h
    ∙ ap (λ n. comment_from outside zero n t)
        (omega (arith, length-append (str_from zero s) (quote_mark ∷ [])))

pub trim-str : (s : Text) → trim (str s) ≡ str s
unfolding str
trim-str s = trim-quoted quote_mark quote_mark (str_from zero s) refl refl

pub split_comment-none : (v : Text) → comment_at v ≡ none → split_comment v ≡ (trim v, [])
unfolding split_comment
split_comment-none v e = rw (e, split_comment)

pub split_comment-some :
    (v : Text) (i : ℕ)
    → comment_at v ≡ some i
    → split_comment v ≡ (trim (take i v), trim (drop i v))
unfolding split_comment
split_comment-some v i e = rw (e, split_comment)

-- `split_comment` takes a written string whole, with a "#" or any quotes that it may hold.
pub split_comment-str :
    (s : Text) → All IsPlain (in_actions zero s) → split_comment (32 ∷ str s) ≡ (str s, [])
split_comment-str s h =
    let whole : comment_at (32 ∷ str s) ≡ none =
      ap (λ x. comment_at (32 ∷ x)) (sym (append-nil (str s)))
      ∙ comment_at-str s [] h (unfold starts_with in refl)
      ∙ (unfold comment_from in refl) in
    split_comment-none (32 ∷ str s) whole ∙ ap (λ x. (x, [])) (trim_space (str s) ∙ trim-str s)

comment_at_hash :
    (i : ℕ) (note : Text) → comment_from outside zero i (32 ∷ b'#' ∷ note) ≡ some (suc i)
unfolding comment_from
comment_at_hash i note = refl

trim-str_space : (s : Text) → trim (str s ++ 32 ∷ []) ≡ str s
unfolding trim str trim_start
trim-str_space s =
    trim_end_space (quote_mark ∷ (str_from zero s ++ quote_mark ∷ []))
    ∙ trim_end-concat (quote_mark ∷ str_from zero s) quote_mark refl

trim_front : (s : Text) → trim (32 ∷ (str s ++ 32 ∷ [])) ≡ str s
trim_front s = trim_space (str s ++ 32 ∷ []) ∙ trim-str_space s

-- Behind the string, a comment is split off.
pub split_comment-str_note :
    (s note : Text)
    → All IsPlain (in_actions zero s)
    → trim (b'#' ∷ note) ≡ b'#' ∷ note
    → split_comment (32 ∷ (str s ++ 32 ∷ b'#' ∷ note)) ≡ (str s, b'#' ∷ note)
split_comment-str_note s note h k =
    let front : Text = 32 ∷ (str s ++ 32 ∷ []) in
    let grouped : 32 ∷ (str s ++ 32 ∷ b'#' ∷ note) ≡ front ++ b'#' ∷ note =
      ap (◌∷◌ 32) (sym (append_assoc (str s) (32 ∷ []) (b'#' ∷ note))) in
    let found : comment_at (front ++ b'#' ∷ note) ≡ some (length front) =
      ap comment_at (sym grouped)
      ∙ comment_at-str s (32 ∷ b'#' ∷ note) h (unfold starts_with in refl)
      ∙ comment_at_hash (length (str s) + 1) note
      ∙ ap some (omega (arith, length-append (str s) (32 ∷ []))) in
    rw (
      grouped,
      split_comment-some _ _ found,
      take-length-append front (b'#' ∷ note),
      drop-length-append front (b'#' ∷ note),
      k,
      trim_front s,
    )
