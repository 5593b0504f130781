-- ===== src/Panel/Tunnels/Names/Kept.antt =====
-- Lists of entries that share no name, as the editors change them.
use frp_manager.Base.{
  ℕ, suc, ◌≤◌, not, List, [], ◌∷◌, ◌++◌, Text, ◌==◌, All, All-map, All-append, keep-All, ◌≡◌, ◌≢◌,
  inl, inr, arith, Bool-cases,
}
use frp_manager.Panel.Tunnels.Names.{
  without_uid, put_back, Disjoint, ListIsApart, put_back-ListIsApart, append_new-ListIsApart,
  keep-ListIsApart,
}

module _ {A : Type 0} (uid : A → ℕ) where
  -- an edited entry has the `uid` of the one whose place it takes
  pub put_back-bounded :
      (n : ℕ) (d : A) (xs : List A)
      → All (λ x. uid x ≤ n) xs
      → All (λ x. uid x ≤ n) (put_back uid d xs)
  put_back-bounded n d [] h = tt
  put_back-bounded n d (x ∷ xs) (hx, h) = elim (Bool-cases (uid x == uid d)) [
    | inl e ↦ rw e (ground arith, put_back-bounded n d xs h)
    | inr e ↦ rw e (hx, put_back-bounded n d xs h)
  ]

module _ {A : Type 0} (uid : A → ℕ) (names : A → List Text) where
  -- The entries share no name, and have `uid`s that have been given.
  pub record IsKept (made : ℕ) (xs : List A) : Type 0 where
    pub apart : ListIsApart uid names xs
    pub given : All (λ x. uid x ≤ made) xs

  pub IsKept-suc : (made : ℕ) (xs : List A) → IsKept made xs → IsKept (suc made) xs
  IsKept-suc made xs k = record { apart = k.apart; given = All-map (λ x h. omega arith) xs k.given }

  pub IsKept-new :
      (made : ℕ) (xs : List A) (d : A)
      → uid d ≡ suc made
      → All (λ x. uid x ≢ uid d → Disjoint (names d) (names x)) xs
      → IsKept made xs
      → IsKept (suc made) (xs ++ d ∷ [])
  IsKept-new made xs d u f k =
      let later : (x : A) → uid x ≤ made → uid x ≢ uid d = λ x h e. omega arith in
      record {
        apart = append_new-ListIsApart uid names xs d (All-map later xs k.given) f k.apart;
        given =
            All-append (λ x. uid x ≤ suc made) xs (d ∷ []) (All-map (λ x h. omega arith) xs k.given)
              (omega arith, tt);
      }

  pub IsKept-edited :
      (made : ℕ) (xs : List A) (d : A)
      → All (λ x. uid x ≢ uid d → Disjoint (names d) (names x)) xs
      → IsKept made xs
      → IsKept made (put_back uid d xs)
  IsKept-edited made xs d f k = record {
    apart = put_back-ListIsApart uid names d xs f k.apart;
    given = put_back-bounded uid made d xs k.given;
  }

  pub IsKept-removed :
      (made n : ℕ) (xs : List A) → IsKept made xs → IsKept made (without_uid uid n xs)
  IsKept-removed made n xs k = record {
    apart = keep-ListIsApart uid names (λ x. not (uid x == n)) xs k.apart;
    given = keep-All (λ x. uid x ≤ made) (λ x. not (uid x == n)) xs k.given;
  }
