-- ===== src/Toml/Blocks/Compose/Quoted.antt =====
-- What the expression of `unbracketConnection` of toml.js reads on a line.
use frp_manager.Base.{
  ℕ, Bool, true, false, ◌||◌, some, [], ◌∷◌, ◌++◌, Text, ◌>>=◌, length, drop, is_empty, every,
  is_space, starts_with, codes, append_assoc, ◌≡◌, ◌⊎◌, ◌∙◌, inl, inr, refl, ap, sym, arith,
  Bool-cases, Option-cases,
}
use frp_manager.Toml.Scan.{quote_mark, apostrophe}
use frp_manager.Toml.Match.{eat}
use frp_manager.Toml.Blocks.{quote_of}
use frp_manager.Toml.Blocks.Compose.{
  Bracketed, break_at, is_path_char, is_plain_char, quoted_address, quoted_value, bracketed_line,
}

-- one of the two quotes
abbrev pub IsQuote : Text → Type 0
IsQuote mark = (mark ≡ codes "\"") ⊎ (mark ≡ codes "'")

-- `front` is the key, one word or more with dots, with white space in front of it, an "=" behind it and white space around that.
abbrev pub IsFront : Text → Text → Type 0
IsFront front path =
    (indent : Text) × (before : Text) × (behind : Text) × (front
      ≡ (indent ++ (path ++ (before ++ codes "="))) ++ behind)
    × (every is_space indent ≡ true)
    × (every is_space before ≡ true)
    × (every is_space behind ≡ true)
    × (is_empty path ≡ false)
    × (every is_path_char path ≡ true)

break_at-append : (p : ℕ → Bool) (s : Text) → s ≡ (break_at p s).0 ++ (break_at p s).1
unfolding break_at
break_at-append p [] = refl
break_at-append p (c ∷ s) = elim (Bool-cases (p c)) [
  | inl h ↦ rw h (ap (◌∷◌ c) (break_at-append p s))
  | inr h ↦ rw h refl
]

starts_with-append : (p s : Text) → starts_with s p ≡ true → s ≡ p ++ drop (length p) s
unfolding starts_with
starts_with-append [] s h = refl
starts_with-append (c ∷ p) [] h = absurd (cc)
starts_with-append (c ∷ p) (d ∷ s) h = ground (arith, starts_with-append p s)

eat-append : (p s t : Text) → eat p s ≡ some t → s ≡ p ++ t
unfolding eat
eat-append p s t h = elim (Bool-cases (starts_with s p)) [
  | inl k ↦ starts_with-append p s k ∙ ap (◌++◌ p) (ground (arith, rw k at h))
  | inr k ↦ absurd (cc (rw k at h))
]

quote_of-append : (s : Text) → s ≡ quote_of s ++ drop (length (quote_of s)) s
unfolding quote_of
quote_of-append s = elim (Bool-cases (starts_with s (quote_mark ∷ []))) [
  | inl h ↦ rw h (starts_with-append (quote_mark ∷ []) s h)
  | inr h ↦ elim (Bool-cases (starts_with s (apostrophe ∷ []))) [
    | inl k ↦ rw (h, k) (starts_with-append (apostrophe ∷ []) s k)
    | inr k ↦ rw (h, k) refl
  ]
]

abbrev pub bracketed_text : Bracketed → Text
bracketed_text m =
    m.front ++ (m.mark ++ (codes "[" ++ (m.address ++ (codes "]" ++ (m.mark ++ m.tail)))))

quoted_address_lem :
    (front path mark s : Text) (m : Bracketed)
    → quoted_address front path mark s ≡ some m
    → front ++ (mark ++ s) ≡ bracketed_text m
unfolding quoted_address
quoted_address_lem front path mark s m h = elim (Option-cases (eat (codes "[") s)) [
  | inl e ↦ absurd (cc (rw (e, quoted_address, ◌>>=◌) at h))
  | inr (t₁, e) ↦
      let inner = break_at is_plain_char t₁ in
      elim (Option-cases (eat (codes "]") inner.1)) [
        | inl k ↦ absurd (cc (rw (e, k, quoted_address, ◌>>=◌) at h))
        | inr (t₂, k) ↦ elim (Option-cases (eat mark t₂)) [
          | inl l ↦ absurd (cc (rw (e, k, l, quoted_address, ◌>>=◌) at h))
          | inr (tail, l) ↦
              let read : Bracketed = record {
                front = front;
                path = path;
                mark = mark;
                address = inner.0;
                tail = tail;
              } in
              let same_m : read ≡ m = ground (arith, rw (e, k, l, quoted_address, ◌>>=◌) at h) in
              let rest : inner.1 ≡ codes "]" ++ (mark ++ tail) =
                eat-append (codes "]") inner.1 t₂ k
                ∙ ap (◌++◌ (codes "]")) (eat-append mark t₂ tail l) in
              let whole : s ≡ codes "[" ++ (inner.0 ++ (codes "]" ++ (mark ++ tail))) =
                eat-append (codes "[") s t₁ e
                ∙ ap (◌++◌ (codes "["))
                    (break_at-append is_plain_char t₁ ∙ ap (◌++◌ inner.0) rest) in
              ap (λ x. front ++ (mark ++ x)) whole ∙ ap bracketed_text same_m
        ]
      ]
]

quoted_value_lem :
    (front path s : Text) (m : Bracketed)
    → quoted_value front path s ≡ some m
    → front ++ s ≡ bracketed_text m
unfolding quoted_value
quoted_value_lem front path s m h =
    let (behind, t) = break_at is_space s in
    elim (Bool-cases (is_empty path || is_empty (quote_of t))) [
      | inl k ↦ absurd (cc (rw k at h))
      | inr k ↦
          let whole =
            quoted_address_lem (front ++ behind) path (quote_of t) (drop (length (quote_of t)) t) m
              (rw k at h) in
          ap (◌++◌ front) (break_at-append is_space s)
          ∙ sym (append_assoc front behind t)
          ∙ ap (◌++◌ (front ++ behind)) (quote_of-append t)
          ∙ whole
    ]

pub bracketed_line_lem :
    (line : Text) (m : Bracketed) → bracketed_line line ≡ some m → line ≡ bracketed_text m
unfolding bracketed_line
bracketed_line_lem line m h =
    let (indent, t₁) = break_at is_space line in
    let (path, t₂) = break_at is_path_char t₁ in
    let (before, t₃) = break_at is_space t₂ in
    elim (Option-cases (eat (codes "=") t₃)) [
      | inl e ↦ absurd (cc (rw (e, ◌>>=◌) at h))
      | inr (t₄, e) ↦
          let read =
            quoted_value_lem (indent ++ (path ++ (before ++ codes "="))) path t₄ m
              (rw (e, ◌>>=◌) at h) in
          let front : line ≡ indent ++ (path ++ (before ++ (codes "=" ++ t₄))) =
            break_at-append is_space line
            ∙ ap (◌++◌ indent) (
                break_at-append is_path_char t₁
                ∙ ap (◌++◌ path) (
                    break_at-append is_space t₂
                    ∙ ap (◌++◌ before) (eat-append (codes "=") t₃ t₄ e))) in
          let joined : (indent ++ (path ++ (before ++ codes "="))) ++ t₄
              ≡ indent ++ (path ++ (before ++ (codes "=" ++ t₄))) =
            append_assoc indent (path ++ (before ++ codes "=")) t₄
            ∙ ap (◌++◌ indent) (
                append_assoc path (before ++ codes "=") t₄
                ∙ ap (◌++◌ path) (append_assoc before (codes "=") t₄)) in
          front ∙ sym joined ∙ read
    ]

break_at-every : (p : ℕ → Bool) (s : Text) → every p (break_at p s).0 ≡ true
unfolding break_at
break_at-every p [] = refl
break_at-every p (c ∷ s) = elim (Bool-cases (p c)) [
  | inl h ↦ rw h (rw h (break_at-every p s))
  | inr h ↦ rw h refl
]

quote_of-IsQuote : (s : Text) → is_empty (quote_of s) ≡ false → IsQuote (quote_of s)
unfolding quote_of
quote_of-IsQuote s h = elim (Bool-cases (starts_with s (quote_mark ∷ []))) [
  | inl k ↦ inl (rw k refl)
  | inr k ↦ elim (Bool-cases (starts_with s (apostrophe ∷ []))) [
    | inl l ↦ inr (rw (k, l) refl)
    | inr l ↦ absurd (cc (rw (k, l) at h))
  ]
]

quoted_address_fields :
    (front path mark s : Text) (m : Bracketed)
    → quoted_address front path mark s ≡ some m
    → (m.front ≡ front) × (m.path ≡ path) × (m.mark ≡ mark) × (every is_plain_char m.address ≡ true)
unfolding quoted_address
quoted_address_fields front path mark s m h = elim (Option-cases (eat (codes "[") s)) [
  | inl e ↦ absurd (cc (rw (e, quoted_address, ◌>>=◌) at h))
  | inr (t₁, e) ↦ elim (Option-cases (eat (codes "]") (break_at is_plain_char t₁).1)) [
    | inl k ↦ absurd (cc (rw (e, k, quoted_address, ◌>>=◌) at h))
    | inr (t₂, k) ↦ elim (Option-cases (eat mark t₂)) [
      | inl l ↦ absurd (cc (rw (e, k, l, quoted_address, ◌>>=◌) at h))
      | inr (tail, l) ↦
          let read : Bracketed = record {
            front = front;
            path = path;
            mark = mark;
            address = (break_at is_plain_char t₁).0;
            tail = tail;
          } in
          let same_m : read ≡ m = ground (arith, rw (e, k, l, quoted_address, ◌>>=◌) at h) in
          (
            sym (ap (λ x. x.front) same_m),
            sym (ap (λ x. x.path) same_m),
            sym (ap (λ x. x.mark) same_m),
            rw (← same_m) (break_at-every is_plain_char t₁),
          )
    ]
  ]
]

quoted_value_fields :
    (front path s : Text) (m : Bracketed)
    → quoted_value front path s ≡ some m
    → (m.path ≡ path)
      × IsQuote m.mark
      × (behind : Text) × (m.front ≡ front ++ behind)
      × (every is_space behind ≡ true)
      × (is_empty path ≡ false)
      × (every is_plain_char m.address ≡ true)
unfolding quoted_value
quoted_value_fields front path s m h =
    let (behind, t) = break_at is_space s in
    elim (Bool-cases (is_empty path || is_empty (quote_of t))) [
      | inl k ↦ absurd (cc (rw k at h))
      | inr k ↦
          let (f, q, r, plain) =
            quoted_address_fields (front ++ behind) path (quote_of t) (drop (length (quote_of t)) t)
              m (rw k at h) in
          (
            q,
            rw r (quote_of-IsQuote t (ground arith)),
            behind,
            f,
            break_at-every is_space s,
            ground arith,
            plain,
          )
    ]

pub bracketed_line_fields :
    (line : Text) (m : Bracketed)
    → bracketed_line line ≡ some m
    → IsFront m.front m.path × IsQuote m.mark × (every is_plain_char m.address ≡ true)
unfolding bracketed_line
bracketed_line_fields line m h =
    let (indent, t₁) = break_at is_space line in
    let (path, t₂) = break_at is_path_char t₁ in
    let (before, t₃) = break_at is_space t₂ in
    elim (Option-cases (eat (codes "=") t₃)) [
      | inl e ↦ absurd (cc (rw (e, ◌>>=◌) at h))
      | inr (t₄, e) ↦
          let (q, mark, behind, f, blank, filled, plain) =
            quoted_value_fields (indent ++ (path ++ (before ++ codes "="))) path t₄ m
              (rw (e, ◌>>=◌) at h) in
          (
            (
              indent,
              before,
              behind,
              rw q f,
              break_at-every is_space line,
              break_at-every is_space t₂,
              blank,
              rw q filled,
              rw q (break_at-every is_path_char t₁),
            ),
            mark,
            plain,
          )
    ]
