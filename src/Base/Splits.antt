-- ===== src/Base/Splits.antt =====
-- What splitting at a separator does with texts that were put together.
use Prim.Native.Nat.{ℕ}
use mathlib.Core.Path.{◌≡◌, refl, ap, ◌∙◌}
use mathlib.Core.Bool.{true, false, not}
use mathlib.Core.List.{List, [], ◌∷◌, ◌++◌}
use native.Mathlib.Omega.{arith}
use frp_manager.Base.Tests.{◌==◌}
use frp_manager.Base.Lists.{every, All}
use frp_manager.Base.Strings.{Text, split, join}

pub split-append :
    (sep : ℕ) (a b : Text)
    → every (λ c. not (c == sep)) a ≡ true
    → split sep (a ++ sep ∷ b) ≡ a ∷ split sep b
unfolding split
split-append sep [] b h = let same_char : (sep == sep) ≡ true = ground arith in rw same_char refl
split-append sep (c ∷ a) b h =
    let other : (c == sep) ≡ false = ground arith in
    rw (other, split-append sep a b (ground arith)) refl

pub split-alone : (sep : ℕ) (a : Text) → every (λ c. not (c == sep)) a ≡ true → split sep a ≡ a ∷ []
unfolding split
split-alone sep [] h = refl
split-alone sep (c ∷ a) h =
    let other : (c == sep) ≡ false = ground arith in
    rw (other, split-alone sep a (ground arith)) refl

-- lines without the separator, joined and split again
pub split-join :
    (sep : ℕ) (l : Text) (ls : List Text)
    → All (λ m. every (λ c. not (c == sep)) m ≡ true) (l ∷ ls)
    → split sep (join (sep ∷ []) (l ∷ ls)) ≡ l ∷ ls
unfolding join
split-join sep l [] (h, _) = split-alone sep l h
split-join sep l (m ∷ ls) (h, hs) =
    split-append sep l _ h ∙ ap (λ ms. l ∷ ms) (split-join sep m ls hs)
