-- ===== src/Stats/Gate/Entry.antt =====
-- Who gets into the private area.
use frp_manager.Base.{
  ℕ, Bool, ◌||◌, Option, none, some, List, Text, leb, length, starts_with, same, codes, ◌≡◌,
  Bool-cases, Option-cases, inl, inr,
}
use frp_manager.Stats.Secret.{same_secret}
use frp_manager.Stats.Secret.Equality.{same_secret_iff}
use frp_manager.Stats.Access.{
  private_key, basic_password, max_fails, is_read, strip_slashes, redirect_target,
}
use frp_manager.Stats.Gate.{recent, private_gate, statistics, Visit, Env, prive, fetch}

module _ (decode : Text → Option Text) (hash : Text → Text) where
  -- the gate lets a request in only with the password of the key
  gate_password :
      (authorization : Option Text) (key : Text) (now : ℕ) (fails : List ℕ)
      → (private_gate decode hash authorization key now fails).0 ≡ none
      → (password : Text) × (basic_password decode authorization ≡ some password)
        × (hash password ≡ key)
  unfolding private_gate
  gate_password authorization key now fails e =
      elim (Bool-cases (leb max_fails (length (recent now fails)))) [
        | inl full ↦ absurd (cc (rw full at e))
        | inr room ↦ elim (Option-cases (basic_password decode authorization)) [
          | inl k ↦ absurd (cc (rw (room, k, private_gate) at e))
          | inr (password, k) ↦ elim (Bool-cases (same_secret (hash password) key)) [
            | inl right ↦ (password, k, (same_secret_iff (hash password) key).0 right)
            | inr wrong ↦ absurd (cc (rw (room, k, wrong, private_gate) at e))
          ]
        ]
      ]

  prive_password :
      (env : Env) (v : Visit) (now : ℕ) (fails : List ℕ) (json body : Bool)
      → (prive decode hash env v now fails).0 ≡ statistics json body
      → (key : Text) × (password : Text) × (private_key env.prive_sha256 ≡ some key)
        × (basic_password decode v.authorization ≡ some password)
        × (hash password ≡ key)
  unfolding prive
  prive_password env v now fails json body e = elim (Option-cases (private_key env.prive_sha256)) [
    | inl k ↦ absurd (cc (rw (k, prive) at e))
    | inr (key, k) ↦ elim (Bool-cases (is_read v.method)) [
      | inr other ↦ absurd (cc (rw (k, other, prive) at e))
      | inl reading ↦ elim (Bool-cases (same v.url.pathname (codes "/prive"))) [
        | inl bare ↦ absurd (cc (rw (k, reading, bare, prive) at e))
        | inr full ↦
            elim (Option-cases (private_gate decode hash v.authorization key now fails).0) [
              | inl passed ↦
                  let (password, h, same_key) =
                    gate_password v.authorization key now fails passed in
                  (key, password, k, h, same_key)
              | inr (answer, h) ↦ absurd (cc (rw (k, reading, full, h, prive) at e))
            ]
      ]
    ]
  ]

  -- The statistics are answered only to a request that carries a password whose hash is the
  -- configured one, and only if the configured hash is a valid one.
  pub fetch_password :
      (env : Env) (v : Visit) (now : ℕ) (fails : List ℕ) (json body : Bool)
      → (fetch decode hash env v now fails).0 ≡ statistics json body
      → (key : Text) × (password : Text) × (private_key env.prive_sha256 ≡ some key)
        × (basic_password decode v.authorization ≡ some password)
        × (hash password ≡ key)
  unfolding fetch
  fetch_password env v now fails json body e =
      elim (Bool-cases (same (strip_slashes v.url.pathname) (codes "/api/ping"))) [
        | inl ping ↦ absurd (cc (rw ping at e))
        | inr other ↦
            elim (Option-cases (redirect_target v.url v.method env.old_host env.new_site)) [
              | inr (target, h) ↦ absurd (cc (rw (other, h, fetch) at e))
              | inl h ↦
                  elim (Bool-cases (
                    same v.url.pathname (codes "/prive")
                    || starts_with v.url.pathname (codes "/prive/"))) [
                      | inl inside ↦
                          prive_password env v now fails json body
                            (rw (other, h, inside, fetch) at e)
                      | inr outside ↦ absurd (cc (rw (other, h, outside, fetch) at e))
                    ]
            ]
      ]
