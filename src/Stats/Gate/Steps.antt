-- ===== src/Stats/Gate/Steps.antt =====
-- privateGate of tools/stats-worker/worker.js, statement by statement: between its SELECT and the
-- batch of DELETE and INSERT the statements of other requests run.
use frp_manager.Base.{
  ℕ, ◌≤◌, Option, none, some, List, [], ◌∷◌, ◌++◌, Text, leb, if◌then◌else◌, length, ◌≡◌, refl,
  Bool-cases, Option-cases, inl, inr,
}
use frp_manager.Stats.Secret.{same_secret}
use frp_manager.Stats.Access.{basic_password, retry_after, max_fails}
use frp_manager.Stats.Sums.{sum_of}
use frp_manager.Stats.Gate.{recent, first_of, Answer, private_gate}

-- A request: the time of its `Date.now()`, its Authorization header, and the configured key.
pub record Caller : Type 0 where
  pub now : ℕ
  pub authorization : Option Text
  pub key : Text

-- What a request has still to do: the SELECT, the hash of its password, which it compares then, and
-- the batch. An answer is as that of `private_gate`.
pub data Turn : Type 0 where
  selecting : Caller → Turn
  hashing : Caller → Text → Turn
  refusing : Caller → Turn
  answered : Option Answer → Turn

module _ (decode : Text → Option Text) (hash : Text → Text) where
  -- what a request does up to its next `await`, and the table of the refusals after it
  unfoldable pub take_turn : Turn → List ℕ → Turn × List ℕ
  unfolding basic_password retry_after
  take_turn (selecting q) fails =
      let inside = recent q.now fails in
      let blocked : Answer = record {
        status = 429;
        retry = some (retry_after (first_of inside) q.now);
      } in
      if leb max_fails (length inside)
      then (answered (some blocked), fails)
      else elim (basic_password decode q.authorization) [
        | none ↦ (answered (some (record { status = 401; retry = none })), fails)
        | some password ↦ (hashing q password, fails)
      ]
  take_turn (hashing q password) fails =
      (if same_secret (hash password) q.key then answered none else refusing q, fails)
  take_turn (refusing q) fails =
      (answered (some (record { status = 401; retry = none })), recent q.now fails ++ q.now ∷ [])
  take_turn (answered answer) fails = (answered answer, fails)

  -- a request with no other between its statements
  unfoldable pub take_turns : Turn → List ℕ → Turn × List ℕ
  unfolding take_turn
  take_turns turn fails =
      let (turn₁, fails₁) = take_turn turn fails in
      let (turn₂, fails₂) = take_turn turn₁ fails₁ in take_turn turn₂ fails₂

  -- The statements of a request, one after the other, do what `private_gate` does.
  pub take_turns-private_gate :
      (q : Caller) (fails : List ℕ)
      → take_turns (selecting q) fails ≡ (
        answered (private_gate decode hash q.authorization q.key q.now fails).0,
        (private_gate decode hash q.authorization q.key q.now fails).1,
      )
  unfolding take_turns take_turn private_gate
  take_turns-private_gate q fails =
      elim (Bool-cases (leb max_fails (length (recent q.now fails)))) [
        | inl full ↦ rw (full, take_turns, take_turn, private_gate) refl
        | inr room ↦ elim (Option-cases (basic_password decode q.authorization)) [
          | inl e ↦ rw (room, e, take_turns, take_turn, private_gate) refl
          | inr (password, e) ↦ elim (Bool-cases (same_secret (hash password) q.key)) [
            | inl right ↦ rw (room, e, right, take_turns, take_turn, private_gate) refl
            | inr wrong ↦ rw (room, e, wrong, take_turns, take_turn, private_gate) refl
          ]
        ]
      ]

-- The refusals in the table and the requests that are under way or answered.
pub record Gate : Type 0 where
  pub fails : List ℕ
  pub turns : List Turn

-- What requests can do from a state on: a request comes in, at the time `last` or before, or one of
-- them has its next turn. After a turn the requests are as `Allowed` says.
pub data Visits (decode : Text → Option Text) (hash : Text → Text) (last : ℕ)
    (Allowed : List Turn → Type 0) (start : Gate) : Gate → Type 0 where
  nobody : Visits decode hash last Allowed start start
  enter :
      {g : Gate} (q : Caller)
      → Visits decode hash last Allowed start g
      → q.now ≤ last
      → Visits decode hash last Allowed start (record g { turns = selecting q ∷ g.turns })
  go :
      {g : Gate} (front : List Turn) (turn : Turn) (back : List Turn)
      → Visits decode hash last Allowed start g
      → g.turns ≡ front ++ turn ∷ back
      → Allowed (front ++ (take_turn decode hash turn g.fails).0 ∷ back)
      → Visits decode hash last Allowed start (record {
        fails = (take_turn decode hash turn g.fails).1;
        turns = front ++ (take_turn decode hash turn g.fails).0 ∷ back;
      })

-- 1 for a request between its SELECT and its answer
abbrev pub in_flight : Turn → ℕ
in_flight (selecting q) = 0
in_flight (hashing q password) = 1
in_flight (refusing q) = 1
in_flight (answered answer) = 0

-- At most `c` requests stand between their SELECT and their answer.
abbrev pub IsNarrow : ℕ → List Turn → Type 0
IsNarrow c turns = sum_of in_flight turns ≤ c
