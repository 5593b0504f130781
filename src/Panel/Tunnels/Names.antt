-- ===== src/Panel/Tunnels/Names.antt =====
-- Lists of entries of the page that are told apart by their `uid`, with the names of each: what the
-- editors do with them, and entries that share no name.
pub mod Kept
use frp_manager.Base.{
  ℕ, suc, ◌≤◌, Bool, true, false, not, ◌||◌, Option, none, some, List, [], ◌∷◌, ◌++◌, Text, ◌==◌,
  if◌then◌else◌, some_of, keep, find, map, same, same_iff, flat_map, All, All-map, All-map2,
  keep-All_inv, All-append, keep-All, ◌≡◌, ◌≢◌, inl, inr, refl, arith, Bool-cases, sym, ◌∙◌,
}

-- `set.has(n)`
abbrev pub has_name : Text → List Text → Bool
has_name n names = some_of (λ m. same n m) names

-- `names.find((n) => taken.has(n))`
abbrev pub first_taken : List Text → List Text → Option Text
first_taken taken names = find (λ n. has_name n taken) names

abbrev pub Disjoint : List Text → List Text → Type 0
Disjoint xs ys = (n : Text) → has_name n xs ≡ true → has_name n ys ≡ false

Disjoint-sym : (xs ys : List Text) → Disjoint xs ys → Disjoint ys xs
Disjoint-sym xs ys d n h = elim (Bool-cases (has_name n xs)) [
  | inl e ↦ absurd (ground (arith, d n e))
  | inr e ↦ e
]

-- No name is taken where the search finds none.
pub first_taken-none :
    (taken names : List Text) → first_taken taken names ≡ none → Disjoint names taken
first_taken-none taken [] h n e = absurd (ground arith)
first_taken-none taken (m ∷ names) h n e = elim (Bool-cases (has_name m taken)) [
  | inl t ↦ absurd (ground arith)
  | inr f ↦ elim (Bool-cases (same n m)) [
    | inl s ↦ rw ((same_iff n m).0 s) f
    | inr d ↦ first_taken-none taken names (ground arith) n (ground arith)
  ]
]

pub has_name-append :
    (n : Text) (xs ys : List Text) → has_name n (xs ++ ys) ≡ (has_name n xs || has_name n ys)
has_name-append n [] ys = refl
has_name-append n (x ∷ xs) ys = ground (arith, has_name-append n xs ys)

abbrev pub OnSome : {A : Type 0} → (A → Type 0) → Option A → Type 0
OnSome P none = Unit
OnSome P (some x) = P x

pub find-OnSome :
    {A : Type 0} (P : A → Type 0) (p : A → Bool) (xs : List A) → All P xs → OnSome P (find p xs)
find-OnSome P p [] h = tt
find-OnSome P p (x ∷ xs) (px, h) = elim (Bool-cases (p x)) [
  | inl t ↦ rw t px
  | inr f ↦ rw f (find-OnSome P p xs h)
]

pub has_name-flat_map :
    {A : Type 0} (f : A → List Text) (n : Text) (ps : List A)
    → has_name n (flat_map f ps) ≡ false
    → All (λ p. has_name n (f p) ≡ false) ps
has_name-flat_map f n [] h = tt
has_name-flat_map f n (p ∷ ps) h =
    let split : (has_name n (f p) || has_name n (flat_map f ps)) ≡ false =
      sym (has_name-append n (f p) (flat_map f ps)) ∙ h in
    (ground arith, has_name-flat_map f n ps (ground arith))

pub All-swap :
    {A : Type 0} (ns : List Text) (Q : Text → A → Type 0) (ps : List A)
    → ((n : Text) → has_name n ns ≡ true → All (Q n) ps)
    → All (λ p. (n : Text) → has_name n ns ≡ true → Q n p) ps
All-swap ns Q [] h = tt
All-swap ns Q (p ∷ ps) h = ((λ n e. (h n e).0), All-swap ns Q ps (λ n e. (h n e).1))

module _ {A : Type 0} (uid : A → ℕ) where
  -- `list.filter((x) => x.uid !== n)`
  abbrev pub without_uid : ℕ → List A → List A
  without_uid n xs = keep (λ x. not (uid x == n)) xs

  -- `list.map((x) => (x.uid === draft.uid ? draft : x))`
  abbrev pub put_back : A → List A → List A
  put_back d xs = map (λ x. if uid x == uid d then d else x) xs

  -- what holds of the others holds of each entry with another `uid`
  pub All-without_uid {κ} :
      (P : A → Type κ) (n : ℕ) (xs : List A)
      → All P (without_uid n xs)
      → All (λ x. uid x ≢ n → P x) xs
  All-without_uid P n xs h =
      All-map (λ x f d. f (ground arith)) xs (keep-All_inv P (λ x. not (uid x == n)) xs h)

  put_back_other : (d : A) (xs : List A) → All (λ x. uid x ≢ uid d) xs → put_back d xs ≡ xs
  put_back_other d [] h = refl
  put_back_other d (x ∷ xs) (e, h) = elim (Bool-cases (uid x == uid d)) [
    | inl s ↦ absurd (e (ground arith))
    | inr s ↦ rw (s, put_back_other d xs h) refl
  ]

module _ {A : Type 0} (uid : A → ℕ) (names : A → List Text) where
  -- two entries with different `uid`s and no name in common
  abbrev pub AreApart : A → A → Type 0
  AreApart x y = (uid x ≢ uid y) × Disjoint (names x) (names y)

  -- such are any two entries of the list
  abbrev pub ListIsApart : List A → Type 0
  ListIsApart [] = Unit
  ListIsApart (x ∷ xs) = All (AreApart x) xs × ListIsApart xs

  AreApart-sym : (x y : A) → AreApart x y → AreApart y x
  AreApart-sym x y (u, d) = ((λ e. u (sym e)), Disjoint-sym (names x) (names y) d)

  put_back-All : (P : A → Type 0) (d : A) (xs : List A) → P d → All P xs → All P (put_back uid d xs)
  put_back-All P d [] pd h = tt
  put_back-All P d (x ∷ xs) pd (px, h) = elim (Bool-cases (uid x == uid d)) [
    | inl e ↦ rw e (pd, put_back-All P d xs pd h)
    | inr e ↦ rw e (px, put_back-All P d xs pd h)
  ]

  -- An edited entry that shares no name with the others takes the place of the old one.
  pub put_back-ListIsApart :
      (d : A) (xs : List A)
      → All (λ x. uid x ≢ uid d → Disjoint (names d) (names x)) xs
      → ListIsApart xs
      → ListIsApart (put_back uid d xs)
  put_back-ListIsApart d [] f h = tt
  put_back-ListIsApart d (x ∷ xs) (fx, f) (hx, h) = elim (Bool-cases (uid x == uid d)) [
    | inl e ↦
        let same_uid : uid x ≡ uid d = ground arith in
        let differs : (y : A) → AreApart x y → uid y ≢ uid d = λ y a s. a.0 (same_uid ∙ sym s) in
        let apart : (y : A)
            → AreApart x y
            → (uid y ≢ uid d → Disjoint (names d) (names y))
            → AreApart d y =
          λ y a g. ((λ s. differs y a (sym s)), g (differs y a)) in
        rw (e, put_back_other uid d xs (All-map differs xs hx))
          (All-map2 (AreApart x) _ (AreApart d) apart xs hx f, h)
    | inr e ↦
        let apart : AreApart x d =
          ((λ s. ground arith), Disjoint-sym (names d) (names x) (fx (λ s. ground arith))) in
        rw e (put_back-All (AreApart x) d xs apart hx, put_back-ListIsApart d xs f h)
  ]

  append-ListIsApart :
      (xs : List A) (d : A)
      → All (λ x. AreApart x d) xs
      → ListIsApart xs
      → ListIsApart (xs ++ d ∷ [])
  append-ListIsApart [] d f h = (tt, tt)
  append-ListIsApart (x ∷ xs) d (fx, f) (hx, h) =
      (All-append (AreApart x) xs (d ∷ []) hx (fx, tt), append-ListIsApart xs d f h)

  pub keep-ListIsApart : (p : A → Bool) (xs : List A) → ListIsApart xs → ListIsApart (keep p xs)
  keep-ListIsApart p [] h = tt
  keep-ListIsApart p (x ∷ xs) (hx, h) = elim (Bool-cases (p x)) [
    | inl e ↦ rw e (keep-All (AreApart x) p xs hx, keep-ListIsApart p xs h)
    | inr e ↦ rw e (keep-ListIsApart p xs h)
  ]

  -- A new entry with a `uid` of its own that shares no name with the others goes to the end.
  pub append_new-ListIsApart :
      (xs : List A) (d : A)
      → All (λ x. uid x ≢ uid d) xs
      → All (λ x. uid x ≢ uid d → Disjoint (names d) (names x)) xs
      → ListIsApart xs
      → ListIsApart (xs ++ d ∷ [])
  append_new-ListIsApart xs d u f h =
      let apart : (x : A)
          → uid x ≢ uid d
          → (uid x ≢ uid d → Disjoint (names d) (names x))
          → AreApart x d =
        λ x n g. (n, Disjoint-sym (names d) (names x) (g n)) in
      append-ListIsApart xs d (All-map2 (λ x. uid x ≢ uid d) _ (λ x. AreApart x d) apart xs u f) h
