-- ===== src/Base/Decimal/RoundTrip.antt =====
-- The numeral of a number, read again.
use Prim.Native.Nat.{ℕ, zero, suc, ◌+◌, ◌-◌, ◌*◌, ◌/◌, ◌%◌, ◌<◌}
use mathlib.Core.Path.{◌≡◌, refl, ◌∙◌}
use mathlib.Core.Logic.{inl, inr}
use mathlib.Core.Bool.{true, false}
use mathlib.Core.List.{[], ◌∷◌, ◌++◌, foldl}
use native.Mathlib.Omega.{arith}
use frp_manager.Base.Tests.{ltb, Bool-cases}
use frp_manager.Base.Lists.{every, is_empty}
use frp_manager.Base.Strings.{Text}
use frp_manager.Base.TextLaws.{every-append}
use frp_manager.Base.Decimal.{decimal, decimal_fuel, is_digit, number_of}

foldl-concat :
    (f : ℕ → ℕ → ℕ) (z : ℕ) (s : Text) (c : ℕ) → foldl f z (s ++ c ∷ []) ≡ f (foldl f z s) c
foldl-concat f z [] c = refl
foldl-concat f z (d ∷ s) c = foldl-concat f (f z d) s c

number_of-decimal_fuel : (fuel n : ℕ) → n < fuel → number_of (decimal_fuel fuel n) ≡ n
unfolding decimal_fuel
number_of-decimal_fuel zero n h = absurd (omega arith)
number_of-decimal_fuel (suc fuel) n h = elim (Bool-cases (ltb n 10)) [
  | inl e ↦ rw e (omega arith)
  | inr e ↦
      let high : number_of (decimal_fuel fuel (n / 10)) ≡ n / 10 =
        number_of-decimal_fuel fuel (n / 10) (ground arith) in
      let step =
        foldl-concat (λ m c. m * 10 + (c - b'0')) 0 (decimal_fuel fuel (n / 10)) (b'0' + n % 10) in
      rw e (step ∙ omega (arith, high))
]

pub number_of-decimal : (n : ℕ) → number_of (decimal n) ≡ n
unfolding decimal
number_of-decimal n = number_of-decimal_fuel (suc n) n (omega arith)

decimal_fuel-digits : (fuel n : ℕ) → every is_digit (decimal_fuel fuel n) ≡ true
unfolding decimal_fuel
decimal_fuel-digits zero n = refl
decimal_fuel-digits (suc fuel) n = elim (Bool-cases (ltb n 10)) [
  | inl e ↦ rw e (ground arith)
  | inr e ↦
      rw (e, every-append is_digit (decimal_fuel fuel (n / 10)) ((b'0' + n % 10) ∷ []))
        (rw (decimal_fuel-digits fuel (n / 10)) (ground arith))
]

pub decimal-digits : (n : ℕ) → every is_digit (decimal n) ≡ true
unfolding decimal
decimal-digits n = decimal_fuel-digits (suc n) n

is_empty-concat : (s : Text) (c : ℕ) → is_empty (s ++ c ∷ []) ≡ false
is_empty-concat [] c = refl
is_empty-concat (d ∷ s) c = refl

pub decimal-filled : (n : ℕ) → is_empty (decimal n) ≡ false
unfolding decimal decimal_fuel
decimal-filled n = elim (Bool-cases (ltb n 10)) [
  | inl e ↦ rw e refl
  | inr e ↦ rw e (is_empty-concat (decimal_fuel n (n / 10)) (b'0' + n % 10))
]
