-- ===== src/Stats/Gate/Window.antt =====
-- The window of the refusals in the private area: how many it holds, and how long it blocks.
use frp_manager.Base.{
  ℕ, ◌+◌, ◌*◌, ◌≤◌, ◌<◌, false, Option, none, some, List, [], ◌∷◌, ◌++◌, Text, leb, length, min,
  All, ◌≡◌, ◌≢◌, refl, ap, arith, Bool-cases, Option-cases, inl, inr,
}
use frp_manager.Stats.Secret.{same_secret}
use frp_manager.Stats.Access.{basic_password, retry_after, max_fails, fail_window}
use frp_manager.Stats.Gate.{is_recent, recent, first_of, Answer, private_gate}

-- time takes refusals out of the window and puts none into it
pub length-recent-le :
    (now later : ℕ) (fails : List ℕ)
    → now ≤ later
    → length (recent later fails) ≤ length (recent now fails)
length-recent-le now later [] h = omega arith
length-recent-le now later (at ∷ fails) h = ground (arith, length-recent-le now later fails h)

pub length-recent-append :
    (now : ℕ) (xs ys : List ℕ)
    → length (recent now (xs ++ ys)) ≡ length (recent now xs) + length (recent now ys)
length-recent-append now [] ys = omega arith
length-recent-append now (x ∷ xs) ys = ground (arith, length-recent-append now xs ys)

length-recent-lt :
    (now later m : ℕ) (fails : List ℕ)
    → now ≤ later
    → first_of (recent now fails) ≡ some m
    → m + fail_window * 1000 ≤ later
    → length (recent later fails) < length (recent now fails)
length-recent-lt now later m [] h e k = absurd (cc)
length-recent-lt now later m (at ∷ fails) h e k = elim (Bool-cases (is_recent now at)) [
  | inr out ↦
      let out' : is_recent later at ≡ false = ground arith in
      rw (out, out') (length-recent-lt now later m fails h (rw out at e) k)
  | inl inside ↦ elim (Option-cases (first_of (recent now fails))) [
    | inl none_left ↦
        let first : at ≡ m = ground (arith, rw (inside, none_left, first_of) at e) in
        let out' : is_recent later at ≡ false = ground arith in
        rw (inside, out') (omega (arith, length-recent-le now later fails h))
    | inr (m', e') ↦
        let first : min at m' ≡ m = ground (arith, rw (inside, e', first_of) at e) in
        elim (Bool-cases (is_recent later at)) [
          | inl stays ↦
              rw (inside, stays)
                (omega (arith, length-recent-lt now later m' fails h e' (ground arith)))
          | inr out' ↦ rw (inside, out') (omega (arith, length-recent-le now later fails h))
        ]
  ]
]

retry_enough :
    (m now later r : ℕ)
    → m ≤ now
    → retry_after (some m) now ≡ r
    → now + r * 1000 ≤ later
    → m + fail_window * 1000 ≤ later
unfolding retry_after
retry_enough m now later r h e k = omega arith

-- the earliest refusal of a window that is not empty
first_of-recent :
    (now : ℕ) (fails : List ℕ)
    → All (λ at. at ≤ now) fails
    → 1 ≤ length (recent now fails)
    → (m : ℕ) × (first_of (recent now fails) ≡ some m) × (m ≤ now)
first_of-recent now [] past h = absurd (omega arith)
first_of-recent now (at ∷ fails) (p, past) h = elim (Bool-cases (is_recent now at)) [
  | inl inside ↦ elim (Option-cases (first_of (recent now fails))) [
    | inl e ↦ (at, rw (inside, e, first_of) refl, p)
    | inr (m, e) ↦ (min at m, rw (inside, e, first_of) refl, omega arith)
  ]
  | inr out ↦ rw out (first_of-recent now fails past (rw out at h))
]

answers_differ :
    (n : Option ℕ)
    → ◌≢◌ {A = Option Answer}
        (some (record { status = 401; retry = none }))
        (some (record { status = 429; retry = n }))
answers_differ n e = ground arith

none_differ :
    (n : Option ℕ) → ◌≢◌ {A = Option Answer} none (some (record { status = 429; retry = n }))
none_differ n e = ground arith

module _ (decode : Text → Option Text) (hash : Text → Text) where
  private_gate_open :
      (a : Option Text) (key : Text) (now : ℕ) (fails : List ℕ) (n : Option ℕ)
      → leb max_fails (length (recent now fails)) ≡ false
      → (private_gate decode hash a key now fails).0 ≢ some (record { status = 429; retry = n })
  unfolding private_gate
  private_gate_open a key now fails n room e = elim (Option-cases (basic_password decode a)) [
    | inl k ↦ answers_differ n (rw (room, k, private_gate) at e)
    | inr (password, k) ↦ elim (Bool-cases (same_secret (hash password) key)) [
      | inl right ↦ none_differ n (rw (room, k, right, private_gate) at e)
      | inr wrong ↦ answers_differ n (rw (room, k, wrong, private_gate) at e)
    ]
  ]

  -- A blocked request that waits for as long as it was told to is not blocked again: if at most 10
  -- refusals lie in the window, all from the past, and none is added, then after the seconds of
  -- Retry-After the status is not 429.
  pub private_gate_opens :
      (a b : Option Text) (key : Text) (now later r : ℕ) (fails : List ℕ)
      → All (λ at. at ≤ now) fails
      → length (recent now fails) ≤ max_fails
      → private_gate decode hash a key now fails
        ≡ (some (record { status = 429; retry = some r }), fails)
      → now + r * 1000 ≤ later
      → (n : Option ℕ)
      → (private_gate decode hash b key later fails).0 ≢ some (record { status = 429; retry = n })
  unfolding private_gate
  private_gate_opens a b key now later r fails past h e k n =
      elim (Bool-cases (leb max_fails (length (recent now fails)))) [
        | inr room ↦ absurd (private_gate_open a key now fails (some r) room (ap (λ x. x.0) e))
        | inl full ↦
            let (m, first, old) = first_of-recent now fails past (ground arith) in
            let wait : retry_after (some m) now ≡ r =
              ground (arith, rw (full, first, private_gate) at e) in
            let fewer =
              length-recent-lt now later m fails (omega arith) first
                (retry_enough m now later r old wait k) in
            private_gate_open b key later fails n (ground (arith, fewer))
      ]
