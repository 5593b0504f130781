-- ===== src/Toml/Connection/Entries.antt =====
-- The lines that `scanConnection` of toml.js takes for keys.
use frp_manager.Base.{
  ℕ, zero, suc, ◌-◌, ◌≤◌, true, false, ◌||◌, Option, none, some, List, [], ◌∷◌, Text, is_empty,
  starts_with, trim, codes, All, ◌≡◌, refl, arith, Bool-cases, Option-cases, inl, inr,
}
use frp_manager.Toml.Scan.{key_end}
use frp_manager.Toml.Lines.{line_at, is_blank_line}
use frp_manager.Toml.Connection.{
  Entry, Place, see_header, see_key, see_line, scan_from, scan_connection,
}

-- the entry of a line, if it has one, starts there
abbrev StartsAt : ℕ → Option Entry → Type 0
StartsAt i e = (x : Entry) → e ≡ some x → x.start ≡ i

is_empty_lem : (t : Text) → is_empty t ≡ true → t ≡ []
is_empty_lem [] h = refl
is_empty_lem (c ∷ t) h = absurd (cc)

StartsAt-none : (i : ℕ) → StartsAt i none
StartsAt-none i x e = absurd (ground arith)

module _ (at : Place) (i : ℕ) where
  see_header-none : (tr : Text) → (see_header at i tr).entry ≡ none
  unfolding see_header
  see_header-none tr = ground arith

  see_key-StartsAt :
      (line : Text) (eq : ℕ) (lines : List Text) → StartsAt i (see_key at i line eq lines).entry
  unfolding see_key
  see_key-StartsAt line eq lines =
      elim at.table as (λ t. StartsAt i (see_key (record at { table = t }) i line eq lines).entry) [
        | none ↦ StartsAt-none i
        | some table ↦ elim (Bool-cases at.in_block) [
          | inl h ↦ rw h (StartsAt-none i)
          | inr h ↦ rw h (λ x e. ground (arith, e))
        ]
      ]

  see_line-StartsAt :
      (line : Text) (lines : List Text) → StartsAt i (see_line at i line lines).entry
  unfolding see_line
  see_line-StartsAt line lines = elim (Bool-cases (starts_with (trim line) (codes "{{"))) [
    | inl h ↦ rw h (StartsAt-none i)
    | inr h ↦ elim (Bool-cases (is_empty (trim line) || starts_with (trim line) (codes "#"))) [
      | inl k ↦ rw (h, k) (StartsAt-none i)
      | inr k ↦ elim (Bool-cases (starts_with (trim line) (codes "["))) [
        | inl l ↦ rw (h, k, l, see_header-none (trim line)) (StartsAt-none i)
        | inr l ↦ elim (Option-cases (key_end line)) [
          | inl e ↦ rw (h, k, l, e, see_line) (StartsAt-none i)
          | inr (eq, e) ↦ rw (h, k, l, e, see_line) (see_key-StartsAt line eq lines)
        ]
      ]
    ]
  ]

  see_line-blank :
      (line : Text) (lines : List Text)
      → is_blank_line line ≡ true
      → (see_line at i line lines).entry ≡ none
  unfolding see_line trim starts_with
  see_line-blank line lines h = rw (is_empty_lem (trim line) h) refl

-- an entry of the lines `ls` that follow the first `i`: its line is not blank
abbrev pub Filled : ℕ → List Text → Entry → Type 0
Filled i ls e = (i ≤ e.start) × (is_blank_line (line_at ls (e.start - i)) ≡ false)

Filled-suc :
    (i : ℕ) (l : Text) (ls : List Text) (e : Entry) → Filled (suc i) ls e → Filled i (l ∷ ls) e
Filled-suc i l ls e (h, k) =
    let shift : e.start - i ≡ suc (e.start - suc i) = omega arith in (omega arith, rw shift k)

All-Filled-suc :
    (i : ℕ) (l : Text) (ls : List Text) (es : List Entry)
    → All (Filled (suc i) ls) es
    → All (Filled i (l ∷ ls)) es
All-Filled-suc i l ls [] h = tt
All-Filled-suc i l ls (e ∷ es) (h, hs) = (Filled-suc i l ls e h, All-Filled-suc i l ls es hs)

scan_from-Filled :
    (at : Place) (more i : ℕ) (ls : List Text) → All (Filled i ls) (scan_from at more i ls).entries
unfolding scan_from
scan_from-Filled at more i [] = tt
scan_from-Filled at (suc more) i (l ∷ ls) =
    All-Filled-suc i l ls _ (scan_from-Filled at more (suc i) ls)
scan_from-Filled at zero i (l ∷ ls) =
    let seen = see_line at i l ls in
    let rest = All-Filled-suc i l ls _ (scan_from-Filled seen.after seen.more (suc i) ls) in
    elim (Option-cases seen.entry) [
      | inl e ↦ rw e rest
      | inr (x, e) ↦
          let at_line : x.start ≡ i = see_line-StartsAt at i l ls x e in
          let first : x.start - i ≡ 0 = omega arith in
          elim (Bool-cases (is_blank_line l)) [
            | inl blank ↦ absurd (cc (see_line-blank at i l ls blank, e))
            | inr filled ↦ rw e ((omega arith, rw first filled), rest)
          ]
    ]

-- every entry starts at a line that is not blank
pub scan_connection-Filled :
    (lines : List Text) → All (Filled 0 lines) (scan_connection lines).entries
unfolding scan_connection
scan_connection-Filled lines = scan_from-Filled _ 0 0 lines
