-- ===== src/Toml/Unquote/RoundTrip.antt =====
-- `unquote` reads back what `str` writes.
use mathlib.Core.Option
use frp_manager.Base.{
  ℕ, zero, suc, ◌-◌, ◌/◌, ◌%◌, ◌<◌, true, false, none, some, [], ◌∷◌, ◌++◌, Text, if◌then◌else◌,
  length, drop, slice, starts_with, ends_with, codes, same, same_refl, inl, inr, ◌≡◌, ◌≢◌, refl,
  arith, All, Bool-cases, Option-cases, ap, append_assoc, take-length-append, drop-length-append,
  length-append,
}
use frp_manager.Toml.Scan.{quote_mark, backslash}
use frp_manager.Toml.Str.{
  is_control, action_length, hex_digit, named_escape, escape_char, str_from, str,
}
use frp_manager.Toml.Unquote.{
  hex_value, short_escape, escape_at, hex_run, unescape_from, unescape_basic, multiline_text,
  multiline_value, unquote, replaced, between,
}

-- The characters of a text that lie inside its template actions {{ … }}, which `str` copies. The
-- first argument counts the characters of the current action that follow.
abbrev pub in_actions : ℕ → Text → Text
in_actions skip [] = []
in_actions (suc skip) (c ∷ s) = c ∷ in_actions skip s
in_actions zero (c ∷ s) = elim (action_length (c ∷ s)) [
  | some n ↦ c ∷ in_actions (n - 1) s
  | none ↦ in_actions zero s
]

hex_value-hex_digit : (d : ℕ) → d < 16 → hex_value (hex_digit d) ≡ some d
unfolding hex_value
hex_value-hex_digit d h = ground arith

hex_run_control :
    (c : ℕ) (s : Text)
    → c < 256
    → hex_run 4 0 (b'0' ∷ b'0' ∷ hex_digit (c / 16) ∷ hex_digit (c % 16) ∷ s) ≡ some c
unfolding hex_run
hex_run_control c s h =
    let zeroth : hex_value b'0' ≡ some 0 = hex_value-hex_digit 0 (omega arith) in
    rw
      (
        zeroth,
        hex_value-hex_digit (c / 16) (omega arith),
        hex_value-hex_digit (c % 16) (omega arith),
      )
      (ap some (omega arith))

-- a control character is written as the code that its escape is read as
unescape_control :
    (c : ℕ) (s : Text)
    → c < 256
    → escape_at (b'u' ∷ b'0' ∷ b'0' ∷ hex_digit (c / 16) ∷ hex_digit (c % 16) ∷ s)
      ≡ replaced (c ∷ []) 5
unfolding escape_at
unescape_control c s h = rw (hex_run_control c s h) (ground arith)

unescape_plain :
    (c : ℕ) (s : Text)
    → c ≢ backslash
    → unescape_from zero (c ∷ s) ≡ Option.map (◌∷◌ c) (unescape_from zero s)
unfolding unescape_from
unescape_plain c s h = ground arith

unescape_at :
    (s : Text) {t : Text} {n : ℕ}
    → escape_at s ≡ replaced t n
    → unescape_from zero (backslash ∷ s) ≡ Option.map (◌++◌ t) (unescape_from n s)
unfolding unescape_from
unescape_at s e = rw (e, unescape_from)

unescape_short :
    (k d : ℕ) (s : Text)
    → short_escape k ≡ some d
    → unescape_from zero (backslash ∷ k ∷ s) ≡ Option.map (◌∷◌ d) (unescape_from zero s)
unfolding unescape_from escape_at
unescape_short k d s e = unescape_at (k ∷ s) {t = d ∷ []} {n = 1} (rw (e, escape_at))

short_escape-named_escape : (c k : ℕ) → named_escape c ≡ some k → short_escape k ≡ some c
unfolding short_escape named_escape
short_escape-named_escape c k h = ground arith

unescape_unnamed :
    (c : ℕ) (s : Text)
    → named_escape c ≡ none
    → unescape_from zero (
        (if is_control c
          then backslash ∷ b'u' ∷ b'0' ∷ b'0' ∷ hex_digit (c / 16) ∷ hex_digit (c % 16) ∷ []
          else c ∷ [])
        ++ s)
      ≡ Option.map (◌∷◌ c) (unescape_from zero s)
unfolding unescape_from
unescape_unnamed c s h = elim (Bool-cases (is_control c)) [
  | inl control ↦ rw control (unescape_at _ (unescape_control c s (ground arith)))
  | inr other ↦ rw other (unescape_plain c s (unfold named_escape in ground arith))
]

-- the escape of one character is read back as that character
unescape-escape_char :
    (c : ℕ) (s : Text)
    → unescape_from zero (escape_char c ++ s) ≡ Option.map (◌∷◌ c) (unescape_from zero s)
unfolding escape_char
unescape-escape_char c s = elim (Option-cases (named_escape c)) [
  | inl e ↦ rw (e, escape_char) (unescape_unnamed c s e)
  | inr (k, e) ↦ rw (e, escape_char) (unescape_short k c s (short_escape-named_escape c k e))
]

-- what `str` writes between the quotes is read back, if no template action holds a backslash
unescape-str_from :
    (skip : ℕ) (s : Text)
    → All (λ c. c ≢ backslash) (in_actions skip s)
    → unescape_from zero (str_from skip s) ≡ some s
unfolding str_from
unescape-str_from skip [] h = unfold unescape_from in refl
unescape-str_from (suc skip) (c ∷ s) (p, h) = rw (unescape_plain c _ p, unescape-str_from skip s h)
unescape-str_from zero (c ∷ s) h = elim (Option-cases (action_length (c ∷ s))) [
  | inl e ↦
      rw (e, str_from, unescape-escape_char, unescape-str_from zero s (rw (e, in_actions) at h))
  | inr (n, e) ↦
      let h' : All (λ x. x ≢ backslash) (c ∷ in_actions (n - 1) s) = rw (e, in_actions) at h in
      rw (e, str_from, unescape_plain c _ h'.0, unescape-str_from (n - 1) s h'.1)
]

-- the characters between two quotes
module _ (q : ℕ) (b : Text) where
  slice-quoted : slice (q ∷ (b ++ q ∷ [])) 1 (length (q ∷ (b ++ q ∷ [])) - 1) ≡ b
  slice-quoted =
      let n : length (q ∷ (b ++ q ∷ [])) - 1 - 1 ≡ length b =
        omega (arith, length-append b (q ∷ [])) in
      rw n (take-length-append b (q ∷ []))

  between-quoted : between q (q ∷ (b ++ q ∷ [])) ≡ true
  unfolding starts_with ends_with
  between-quoted =
      let n : length (q ∷ (b ++ q ∷ [])) - 1 ≡ suc (length b) =
        omega (arith, length-append b (q ∷ [])) in
      let last : drop (suc (length b)) (q ∷ (b ++ q ∷ [])) ≡ q ∷ [] =
        drop-length-append b (q ∷ []) in
      rw (n, last, same_refl) (ground (arith, length-append b (q ∷ [])))

-- an escape starts with no quotation mark
escape_char_head : (c : ℕ) (s : Text) → starts_with (escape_char c ++ s) (quote_mark ∷ []) ≡ false
unfolding escape_char starts_with
escape_char_head c s = ground arith

pub action_length_head :
    (c : ℕ) (s : Text) {n : ℕ} → action_length (c ∷ s) ≡ some n → c ≢ quote_mark
unfolding action_length starts_with
action_length_head c s e = elim (Bool-cases (starts_with (c ∷ s) (codes "{{"))) [
  | inl braces ↦ ground arith
  | inr other ↦ cc (rw other at e)
]

pub str_from_head :
    (c : ℕ) (s t : Text) → starts_with (str_from zero (c ∷ s) ++ t) (quote_mark ∷ []) ≡ false
unfolding str_from
str_from_head c s t = elim (Option-cases (action_length (c ∷ s))) [
  | inl e ↦ rw (e, str_from, append_assoc) (escape_char_head c _)
  | inr (n, e) ↦ rw (e, str_from) (unfold starts_with in ground (arith, action_length_head c s e))
]

not_multiline :
    (t : Text) → starts_with t (quote_mark ∷ []) ≡ false → multiline_text (quote_mark ∷ t) ≡ none
unfolding multiline_text same starts_with
not_multiline [] h = refl
not_multiline (a ∷ []) h = ground arith
not_multiline (a ∷ b ∷ t) h = ground arith

-- what `str` writes is not read as a multi-line string
multiline_text-str : (s : Text) → multiline_text (str s) ≡ none
unfolding str
multiline_text-str [] = unfold multiline_text same in refl
multiline_text-str (c ∷ s) = not_multiline _ (str_from_head c s (quote_mark ∷ []))

-- `unquote` gives back every text that `str` writes, as long as no template action {{ … }} of the
-- text holds a backslash: `str` copies the actions, and a backslash there is read as an escape.
pub unquote-str :
    (s : Text) → All (λ c. c ≢ backslash) (in_actions zero s) → unquote (str s) ≡ some s
unfolding unquote
unquote-str s h =
    rw (multiline_text-str s, multiline_value)
      (unfold str in
        rw (between-quoted quote_mark (str_from zero s), slice-quoted quote_mark (str_from zero s))
          (unfold unescape_basic in unescape-str_from zero s h))
