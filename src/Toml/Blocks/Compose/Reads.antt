-- ===== src/Toml/Blocks/Compose/Reads.antt =====
-- Which lines the expression of `unbracketConnection` of toml.js reads.
use frp_manager.Base.{
  ℕ, Bool, true, false, some, [], ◌∷◌, ◌++◌, Text, ◌>>=◌, is_empty, every, is_space, starts_with,
  codes, ◌≡◌, inl, inr, refl, arith, Bool-cases,
}
use frp_manager.Toml.Scan.{quote_mark, apostrophe}
use frp_manager.Toml.Match.{eat}
use frp_manager.Toml.Blocks.{quote_of}
use frp_manager.Toml.Blocks.Compose.{
  break_at, is_path_char, is_plain_char, quoted_address, quoted_value, bracketed_line,
}
use frp_manager.Toml.Blocks.Compose.Quoted.{IsQuote}

break_at-append_stop :
    (p : ℕ → Bool) (s : Text) (c : ℕ) (t : Text)
    → every p s ≡ true
    → p c ≡ false
    → break_at p (s ++ c ∷ t) ≡ (s, c ∷ t)
unfolding break_at
break_at-append_stop p [] c t h k = rw k refl
break_at-append_stop p (d ∷ s) c t h k = elim (Bool-cases (p d)) [
  | inl here ↦ rw here (rw (break_at-append_stop p s c t (rw here at h) k) refl)
  | inr other ↦ absurd (cc (rw other at h))
]

path_char-is_space : (c : ℕ) → is_path_char c ≡ true → is_space c ≡ false
path_char-is_space c h = ground arith

eat-lem : (p t : Text) → eat p (p ++ t) ≡ some t
unfolding eat starts_with
eat-lem [] t = refl
eat-lem (c ∷ p) t = ground (arith, eat-lem p t)

break_at-path :
    (path before t : Text)
    → every is_path_char path ≡ true
    → every is_space before ≡ true
    → break_at is_path_char (path ++ (before ++ b'=' ∷ t)) ≡ (path, before ++ b'=' ∷ t)
break_at-path path [] t h k = break_at-append_stop is_path_char path b'=' t h refl
break_at-path path (c ∷ before) t h k = elim (Bool-cases (is_path_char c)) [
  | inl inside ↦ absurd (cc (rw (path_char-is_space c inside) at k))
  | inr outside ↦ break_at-append_stop is_path_char path c (before ++ b'=' ∷ t) h outside
]

quoted_address-reads :
    (front path mark address tail : Text)
    → every is_plain_char address ≡ true
    → quoted_address front path mark (codes "[" ++ (address ++ (codes "]" ++ (mark ++ tail))))
      ≡ some (record { front = front; path = path; mark = mark; address = address; tail = tail })
unfolding quoted_address
quoted_address-reads front path mark address tail h =
    rw
      (
        eat-lem (codes "[") (address ++ (codes "]" ++ (mark ++ tail))),
        break_at-append_stop is_plain_char address b']' (mark ++ tail) h refl,
        eat-lem (codes "]") (mark ++ tail),
        eat-lem mark tail,
        ◌>>=◌,
      )
      refl

quoted_value-reads :
    (front path behind mark address tail : Text)
    → is_empty path ≡ false
    → every is_space behind ≡ true
    → IsQuote mark
    → every is_plain_char address ≡ true
    → quoted_value front path
        (behind ++ (mark ++ (codes "[" ++ (address ++ (codes "]" ++ (mark ++ tail))))))
      ≡ some (record {
        front = front ++ behind;
        path = path;
        mark = mark;
        address = address;
        tail = tail;
      })
unfolding quoted_value quote_of starts_with
quoted_value-reads front path behind mark address tail filled blank (inl double) plain = rw double (
    rw
      (
        break_at-append_stop is_space behind quote_mark
            (codes "[" ++ (address ++ (codes "]" ++ (codes "\"" ++ tail)))) blank refl,
        filled,
        quoted_address-reads (front ++ behind) path (codes "\"") address tail plain,
      )
      refl)
quoted_value-reads front path behind mark address tail filled blank (inr one) plain = rw one (
    rw
      (
        break_at-append_stop is_space behind apostrophe
            (codes "[" ++ (address ++ (codes "]" ++ (codes "'" ++ tail)))) blank refl,
        filled,
        quoted_address-reads (front ++ behind) path (codes "'") address tail plain,
      )
      refl)

-- A line of a key and an address in brackets between two equal quotes is read.
pub bracketed_line-reads :
    (indent path before behind mark address tail : Text)
    → every is_space indent ≡ true
    → every is_path_char path ≡ true
    → is_empty path ≡ false
    → every is_space before ≡ true
    → every is_space behind ≡ true
    → IsQuote mark
    → every is_plain_char address ≡ true
    → bracketed_line (
        indent
        ++ (path
            ++ (before
                ++ (b'='
                    ∷ (behind
                        ++ (mark ++ (codes "[" ++ (address ++ (codes "]" ++ (mark ++ tail))))))))))
      ≡ some (record {
        front = (indent ++ (path ++ (before ++ codes "="))) ++ behind;
        path = path;
        mark = mark;
        address = address;
        tail = tail;
      })
unfolding bracketed_line
bracketed_line-reads indent [] before behind mark address tail h k filled l m quote plain =
    absurd (cc)
bracketed_line-reads indent (p ∷ path) before behind mark address tail h k filled l m quote plain =
    let value = behind ++ (mark ++ (codes "[" ++ (address ++ (codes "]" ++ (mark ++ tail))))) in
    let first : is_path_char p ≡ true = ground arith in
    rw
      (break_at-append_stop is_space indent p (path ++ (before ++ b'=' ∷ value)) h
        (path_char-is_space p first))
      (rw (break_at-path (p ∷ path) before value k l) (
        rw (break_at-append_stop is_space before b'=' value l refl) (
          rw
            (
              eat-lem (codes "=") value,
              quoted_value-reads (indent ++ ((p ∷ path) ++ (before ++ codes "="))) (p ∷ path) behind
                  mark address tail filled m quote plain,
              ◌>>=◌,
            )
            refl)))
