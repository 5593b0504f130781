-- ===== src/Stats/Sums.antt =====
-- Sums of a number and conditions over the requests that are under way in tools/stats-worker.
use frp_manager.Base.{ℕ, ◌+◌, List, [], ◌∷◌, ◌++◌, ◌≡◌, refl, arith, All}

module _ {ℓ} {A : Type ℓ} where
  abbrev pub sum_of : (A → ℕ) → List A → ℕ
  sum_of f [] = 0
  sum_of f (x ∷ xs) = f x + sum_of f xs

  pub sum_of-append :
      (f : A → ℕ) (front : List A) (x : A) (back : List A)
      → sum_of f (front ++ x ∷ back) ≡ f x + sum_of f (front ++ back)
  sum_of-append f [] x back = refl
  sum_of-append f (y ∷ front) x back = omega (arith, sum_of-append f front x back)

  pub All-at {p} :
      (P : A → Type p) (front : List A) (x : A) (back : List A) → All P (front ++ x ∷ back) → P x
  All-at P [] x back h = h.0
  All-at P (y ∷ front) x back h = All-at P front x back h.1

  pub All-put {p} :
      (P : A → Type p) (front : List A) (x new : A) (back : List A)
      → P new
      → All P (front ++ x ∷ back)
      → All P (front ++ new ∷ back)
  All-put P [] x new back k h = (k, h.1)
  All-put P (y ∷ front) x new back k h = (h.0, All-put P front x new back k h.1)
