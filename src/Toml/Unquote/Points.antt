-- ===== src/Toml/Unquote/Points.antt =====
-- The escapes of eight hexadecimal digits in `unescapeBasic`.
use mathlib.Core.Option
use frp_manager.Base.{
  ℕ, zero, suc, ◌+◌, ◌-◌, ◌*◌, ◌/◌, ◌%◌, ◌<◌, ◌≤◌, ltb, Bool, true, false, ◌⊎◌, arith, none, some,
  [], ◌∷◌, ◌++◌, Text, leb, if◌then◌else◌, drop, ◌≡◌, ◌∙◌, refl, ap, inl, inr, Bool-cases,
}
use frp_manager.Toml.Scan.{backslash}
use frp_manager.Toml.Unquote.{
  hex_value, hex_run, code_units, escape_at, replaced, range_error, unescape_from, unescape_basic,
}

unescape_from-drop : (k : ℕ) (s : Text) → unescape_from k s ≡ unescape_from zero (drop k s)
unfolding unescape_from
unescape_from-drop zero s = refl
unescape_from-drop (suc k) [] = refl
unescape_from-drop (suc k) (c ∷ s) = unescape_from-drop k s

escape_at-point :
    (s : Text) (v : ℕ)
    → hex_run 8 0 s ≡ some v
    → escape_at (b'U' ∷ s) ≡ (if leb v 0x10ffff then replaced (code_units v) 9 else range_error)
unfolding escape_at
escape_at-point s v h = rw h refl

unescape_basic-point :
    (s : Text) (v : ℕ)
    → hex_run 8 0 s ≡ some v
    → unescape_basic (backslash ∷ b'U' ∷ s) ≡ (
        if leb v 0x10ffff
        then Option.map (◌++◌ (code_units v)) (unescape_basic (drop 8 s))
        else none)
unfolding unescape_basic unescape_from
unescape_basic-point s v h = elim (Bool-cases (leb v 0x10ffff)) [
  | inl small ↦
      let e : escape_at (b'U' ∷ s) ≡ replaced (code_units v) 9 =
        escape_at-point s v h ∙ rw small refl in
      rw (small, e, unescape_from) (ap (Option.map (◌++◌ (code_units v))) (unescape_from-drop 8 s))
  | inr large ↦
      let e : escape_at (b'U' ∷ s) ≡ range_error = escape_at-point s v h ∙ rw large refl in
      rw (large, e, unescape_from) refl
]

-- a hexadecimal digit, with letters of either case
abbrev pub hex_char : Bool → ℕ → ℕ
hex_char upper d = if ltb d 10 then b'0' + d else if upper then b'A' + (d - 10) else b'a' + (d - 10)

-- the last `k` hexadecimal digits of a number, in front of a text
abbrev pub hex_before : Bool → ℕ → ℕ → Text → Text
hex_before upper zero v rest = rest
hex_before upper (suc k) v rest = hex_before upper k (v / 16) (hex_char upper (v % 16) ∷ rest)

-- The code units are the UTF-16 form of a code point: the one unit that it is, or two surrogates.
abbrev pub IsUtf16 : Text → ℕ → Type 0
IsUtf16 units v =
    ((units ≡ v ∷ []) × (v < 0x10000))
    ⊎ ((high : ℕ) × (low : ℕ) × (units ≡ high ∷ low ∷ [])
        × (0xd800 ≤ high)
        × (high < 0xdc00)
        × (0xdc00 ≤ low)
        × (low < 0xe000)
        × (v ≡ 0x10000 + (high - 0xd800) * 0x400 + (low - 0xdc00)))

code_units-IsUtf16 : (v : ℕ) → v ≤ 0x10ffff → IsUtf16 (code_units v) v
unfolding code_units
code_units-IsUtf16 v h = elim (Bool-cases (ltb v 0x10000)) [
  | inl one ↦ inl (rw one refl, ground arith)
  | inr two ↦ inr (
    0xd800 + (v - 0x10000) / 0x400,
    0xdc00 + (v - 0x10000) % 0x400,
    rw two refl,
    omega arith,
    omega arith,
    omega arith,
    omega arith,
    ground arith,
  )
]

hex_value-hex_char : (upper : Bool) (d : ℕ) → d < 16 → hex_value (hex_char upper d) ≡ some d
unfolding hex_value
hex_value-hex_char true d h = ground arith
hex_value-hex_char false d h = ground arith

-- the numbers of `k` hexadecimal digits are below it
abbrev hex_bound : ℕ → ℕ
hex_bound zero = 1
hex_bound (suc k) = 16 * hex_bound k

hex_run-hex_before :
    (upper : Bool) (k j v : ℕ) (rest : Text)
    → v < hex_bound k
    → hex_run (k + j) 0 (hex_before upper k v rest) ≡ hex_run j v rest
unfolding hex_run
hex_run-hex_before upper zero j v rest h =
    let none_left : v ≡ 0 = omega arith in
    let all_read : 0 + j ≡ j = omega arith in rw (none_left, all_read) refl
hex_run-hex_before upper (suc k) j v rest h =
    let more : suc k + j ≡ k + suc j = omega arith in
    let whole : v / 16 * 16 + v % 16 ≡ v = omega arith in
    rw more (
      hex_run-hex_before upper k (suc j) (v / 16) (hex_char upper (v % 16) ∷ rest) (omega arith)
      ∙ rw (hex_value-hex_char upper (v % 16) (omega arith)) (rw whole refl))

drop-hex_before :
    (upper : Bool) (k j v : ℕ) (rest : Text)
    → drop (k + j) (hex_before upper k v rest) ≡ drop j rest
drop-hex_before upper zero j v rest = let all_read : 0 + j ≡ j = omega arith in rw all_read refl
drop-hex_before upper (suc k) j v rest =
    let more : suc k + j ≡ k + suc j = omega arith in
    rw more (drop-hex_before upper k (suc j) (v / 16) (hex_char upper (v % 16) ∷ rest))

-- A backslash, a "U" and the eight hexadecimal digits of a number stand for the UTF-16 form of that
-- code point, in front of what the rest is read as, if the number is at most 10FFFF. If it is larger,
-- there is no result, whatever follows: String.fromCodePoint throws.
pub unescape_basic-hex_before :
    (upper : Bool) (v : ℕ) (rest : Text)
    → v < 0x100000000
    → ((0x10ffff < v) × (unescape_basic (backslash ∷ b'U' ∷ hex_before upper 8 v rest) ≡ none))
      ⊎ ((v ≤ 0x10ffff)
          × (units : Text) × IsUtf16 units v
          × (unescape_basic (backslash ∷ b'U' ∷ hex_before upper 8 v rest)
              ≡ Option.map (◌++◌ units) (unescape_basic rest)))
unfolding hex_run
unescape_basic-hex_before upper v rest h =
    let digits = hex_before upper 8 v rest in
    let read = unescape_basic-point digits v (hex_run-hex_before upper 8 0 v rest h) in
    elim (Bool-cases (leb v 0x10ffff)) [
      | inr large ↦ inl (ground arith, read ∙ rw large refl)
      | inl small ↦
          let point : v ≤ 0x10ffff = ground arith in
          inr (
            point,
            code_units v,
            code_units-IsUtf16 v point,
            read ∙ rw small (rw (drop-hex_before upper 8 0 v rest) refl),
          )
    ]
