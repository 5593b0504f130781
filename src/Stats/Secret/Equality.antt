-- ===== src/Stats/Secret/Equality.antt =====
-- `sameSecret` compares the bytes themselves.
use Prim.Native.Nat.{bit_or, bit_xor, digits, bit_or-bitwise, bit_xor-bitwise, differ}
use frp_manager.Base.{
  ℕ, zero, suc, ◌/◌, ◌%◌, ◌≤◌, true, List, [], ◌∷◌, ==_iff, length, ◌≡◌, ◌↔◌, refl, sym, ◌∙◌, max,
  arith,
}
use frp_manager.Stats.Secret.{mix, same_secret}

abbrev or_digits : ℕ → ℕ → ℕ → ℕ
or_digits n a b = digits (λ b. b) max n a b

or_digits_zero : (n a b : ℕ) → a ≤ n → or_digits n a b ≡ 0 → (a ≡ 0) × (b ≡ 0)
or_digits_zero zero a b h e = omega arith
or_digits_zero (suc n) zero b h e = omega arith
or_digits_zero (suc n) (suc a) b h e =
    omega (arith, or_digits_zero n (suc a / 2) (b / 2) (omega arith) (omega arith))

or_zero : (a b : ℕ) → bit_or a b ≡ 0 → (a ≡ 0) × (b ≡ 0)
or_zero a b e = or_digits_zero a a b (omega arith) (sym (bit_or-bitwise a b) ∙ e)

differ_eq : (x y : ℕ) → differ x y ≡ 0 → x ≡ y
differ_eq zero y e = omega arith
differ_eq (suc x) zero e = absurd (omega arith)
differ_eq (suc x) (suc y) e = omega (arith, differ_eq x y e)

differ_self : (x : ℕ) → differ x x ≡ 0
differ_self zero = refl
differ_self (suc x) = differ_self x

abbrev xor_digits : ℕ → ℕ → ℕ → ℕ
xor_digits n a b = digits (λ b. b) differ n a b

xor_digits_eq : (n a b : ℕ) → a ≤ n → xor_digits n a b ≡ 0 → a ≡ b
xor_digits_eq zero a b h e = omega arith
xor_digits_eq (suc n) zero b h e = omega arith
xor_digits_eq (suc n) (suc a) b h e =
    let low : differ (suc a % 2) (b % 2) ≡ 0 = omega arith in
    omega (
      arith,
      differ_eq (suc a % 2) (b % 2) low,
      xor_digits_eq n (suc a / 2) (b / 2) (omega arith) (omega arith),
    )

xor_digits_self : (n a : ℕ) → a ≤ n → xor_digits n a a ≡ 0
xor_digits_self zero a h = omega arith
xor_digits_self (suc n) zero h = refl
xor_digits_self (suc n) (suc a) h =
    omega (arith, differ_self (suc a % 2), xor_digits_self n (suc a / 2) (omega arith))

xor_eq : (a b : ℕ) → bit_xor a b ≡ 0 → a ≡ b
xor_eq a b e = xor_digits_eq a a b (omega arith) (sym (bit_xor-bitwise a b) ∙ e)

xor_self : (a : ℕ) → bit_xor a a ≡ 0
xor_self a = bit_xor-bitwise a a ∙ xor_digits_self a a (omega arith)

mix_diff : (d : ℕ) (x y : List ℕ) → mix d x y ≡ 0 → d ≡ 0
unfolding mix
mix_diff d [] [] e = e
mix_diff d (a ∷ x) [] e = (or_zero d (bit_xor a 0) (mix_diff (bit_or d (bit_xor a 0)) x [] e)).0
mix_diff d [] (b ∷ y) e = (or_zero d (bit_xor 0 b) (mix_diff (bit_or d (bit_xor 0 b)) [] y e)).0
mix_diff d (a ∷ x) (b ∷ y) e = (or_zero d (bit_xor a b) (mix_diff (bit_or d (bit_xor a b)) x y e)).0

mix_eq : (d : ℕ) (x y : List ℕ) → length x ≡ length y → mix d x y ≡ 0 → x ≡ y
unfolding mix
mix_eq d [] [] h e = refl
mix_eq d (a ∷ x) [] h e = absurd (omega arith)
mix_eq d [] (b ∷ y) h e = absurd (omega arith)
mix_eq d (a ∷ x) (b ∷ y) h e =
    let rest = mix_eq (bit_or d (bit_xor a b)) x y (omega arith) e in
    let head = xor_eq a b (or_zero d _ (mix_diff _ x y e)).1 in cc

mix_self : (x : List ℕ) → mix 0 x x ≡ 0
unfolding mix
mix_self [] = refl
mix_self (a ∷ x) = rw (xor_self a) (mix_self x)

-- The comparison holds exactly if the two texts have the same bytes, also where one of them goes on
-- with bytes that are 0.
pub same_secret_iff : (x y : List ℕ) → (same_secret x y ≡ true) ↔ (x ≡ y)
unfolding same_secret
same_secret_iff x y = (
  λ h.
      let e = (==_iff (mix (bit_xor (length x) (length y)) x y) 0).0 h in
      mix_eq _ x y (xor_eq _ _ (mix_diff _ x y e)) e,
  λ e. rw e (rw (xor_self (length y)) (rw (mix_self y) refl)),
)
