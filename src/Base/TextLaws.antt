-- ===== src/Base/TextLaws.antt =====
-- Laws of the string methods: trimming, quoted texts and tests on all characters.
use Prim.Native.Nat.{ℕ, suc, ◌-◌}
use mathlib.Core.Path.{◌≡◌, refl}
use mathlib.Core.Bool.{Bool, true, false, ◌&&◌, ◌||◌}
use mathlib.Core.List.{List, [], ◌∷◌, ◌++◌}
use native.Mathlib.Omega.{arith}
use frp_manager.Base.Lists.{
  take, drop, length, some_of, every, is_empty, length-append, take-length-append,
  drop-length-append,
}
use frp_manager.Base.Strings.{
  Text, is_space, slice, same_refl, ends_with, trim_start, trim_end, trim,
}

is_empty-concat : (s : Text) (c : ℕ) → is_empty (s ++ c ∷ []) ≡ false
is_empty-concat [] c = refl
is_empty-concat (d ∷ s) c = refl

is_empty-append : (s t : Text) → is_empty t ≡ false → is_empty (s ++ t) ≡ false
is_empty-append [] t h = h
is_empty-append (c ∷ s) t h = refl

pub trim_end-concat : (s : Text) (c : ℕ) → is_space c ≡ false → trim_end (s ++ c ∷ []) ≡ s ++ c ∷ []
unfolding trim_end
trim_end-concat [] c h = rw h
trim_end-concat (d ∷ s) c h = rw (trim_end-concat s c h, is_empty-concat s c) (ground arith)

-- A text between two characters that are no white space is trimmed already.
pub trim-quoted :
    (a b : ℕ) (s : Text)
    → is_space a ≡ false
    → is_space b ≡ false
    → trim (a ∷ (s ++ b ∷ [])) ≡ a ∷ (s ++ b ∷ [])
unfolding trim
trim-quoted a b s ha hb = rw (ha, trim_start) (trim_end-concat (a ∷ s) b hb)

pub ends_with-concat : (s : Text) (c : ℕ) → ends_with (s ++ c ∷ []) (c ∷ []) ≡ true
unfolding ends_with
ends_with-concat s c =
    let n : length (s ++ c ∷ []) - 1 ≡ length s = omega (arith, length-append s (c ∷ [])) in
    rw (n, drop-length-append s (c ∷ []), same_refl) (ground (arith, length-append s (c ∷ [])))

pub slice-quoted :
    (a b : ℕ) (s : Text) → slice (a ∷ (s ++ b ∷ [])) 1 (length (a ∷ (s ++ b ∷ [])) - 1) ≡ s
slice-quoted a b s =
    let n : length (a ∷ (s ++ b ∷ [])) - 1 - 1 ≡ length s =
      omega (arith, length-append s (b ∷ [])) in
    rw n (take-length-append s (b ∷ []))

module _ {ℓ} {A : Type ℓ} (p : A → Bool) where
  pub some_of-append : (s t : List A) → some_of p (s ++ t) ≡ (some_of p s || some_of p t)
  some_of-append [] t = refl
  some_of-append (c ∷ s) t = ground (arith, some_of-append s t)

  pub every-append : (s t : List A) → every p (s ++ t) ≡ (every p s && every p t)
  every-append [] t = refl
  every-append (c ∷ s) t = ground (arith, every-append s t)

pub trim_end_space : (s : Text) → trim_end (s ++ 32 ∷ []) ≡ trim_end s
unfolding trim_end
trim_end_space [] = refl
trim_end_space (c ∷ s) = rw (trim_end_space s)

-- A text that ends in no white space ends so behind any other.
pub trim_end-append :
    (s t : Text) → trim_end t ≡ t → is_empty t ≡ false → trim_end (s ++ t) ≡ s ++ t
unfolding trim_end
trim_end-append [] t h e = h
trim_end-append (c ∷ s) t h e = rw (trim_end-append s t h e, is_empty-append s t e) (ground arith)

pub trim_space : (s : Text) → trim (32 ∷ s) ≡ trim s
unfolding trim trim_start
trim_space s = refl

pub trim_kept :
    (c : ℕ) (s : Text) → is_space c ≡ false → trim_end (c ∷ s) ≡ c ∷ s → trim (c ∷ s) ≡ c ∷ s
unfolding trim trim_start
trim_kept c s h e = rw h e

module _ {ℓ} {A : Type ℓ} where
  pub take-suc-length :
      (xs : List A) (x : A) (ys : List A) → take (suc (length xs)) (xs ++ x ∷ ys) ≡ xs ++ x ∷ []
  take-suc-length [] x ys = refl
  take-suc-length (z ∷ xs) x ys = rw (take-suc-length xs x ys)

  pub drop-suc-length :
      (xs : List A) (x y : A) (ys : List A) → drop (suc (suc (length xs))) (xs ++ x ∷ y ∷ ys) ≡ ys
  drop-suc-length [] x y ys = refl
  drop-suc-length (z ∷ xs) x y ys = drop-suc-length xs x y ys
