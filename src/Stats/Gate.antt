-- ===== src/Stats/Gate.antt =====
-- The private area of tools/stats-worker/worker.js: privateGate, prive and the dispatch of requests.
-- The table `fails` is the list of its times. The hash of a password, and what follows from the
-- Authorization header, are made by functions that are parameters.
pub mod Window
pub mod Entry
pub mod Steps
pub mod Capped
use frp_manager.Base.{
  ℕ, suc, zero, ◌-◌, ◌+◌, ◌*◌, Bool, true, false, not, ◌&&◌, ◌||◌, Option, none, some, List, [],
  ◌∷◌, ◌++◌, Text, leb, ltb, if◌then◌else◌, length, is_empty, keep, starts_with, same, codes, min,
}
use frp_manager.Stats.Secret.{same_secret}
use frp_manager.Stats.Access.{
  private_key, basic_password, retry_after, max_fails, fail_window, Url, strip_slashes, is_read,
  redirect_target,
}

-- `at > since`, where `since` is `now - PRIVE_FAIL_WINDOW * 1000`
abbrev pub is_recent : ℕ → ℕ → Bool
is_recent now at = ltb now (at + fail_window * 1000)

abbrev pub recent : ℕ → List ℕ → List ℕ
recent now fails = keep (is_recent now) fails

-- `MIN(at)`
abbrev pub first_of : List ℕ → Option ℕ
first_of [] = none
first_of (at ∷ fails) = elim (first_of fails) [ none ↦ some at | some m ↦ some (min at m) ]

-- An answer: its status, and the seconds of Retry-After.
pub record Answer : Type 0 where
  pub status : ℕ
  pub retry : Option ℕ

-- `privateGate` of a request that runs alone: `none` lets it in. Steps has its statements, between
-- which others run. The hexadecimal texts that it compares are their own bytes.
unfoldable pub private_gate :
    (Text → Option Text) → (Text → Text) → Option Text → Text → ℕ → List ℕ → Option Answer × List ℕ
unfolding basic_password retry_after
private_gate decode hash authorization key now fails =
    let inside = recent now fails in
    let blocked : Answer = record {
      status = 429;
      retry = some (retry_after (first_of inside) now);
    } in
    let asked : Answer = record { status = 401; retry = none } in
    if leb max_fails (length inside)
    then (some blocked, fails)
    else elim (basic_password decode authorization) [
      | none ↦ (some asked, fails)
      | some password ↦
          if same_secret (hash password) key
          then (none, fails)
          else (some asked, inside ++ now ∷ [])
    ]

-- What the private area answers: an answer of the gate or a plain status, a redirection, or the
-- statistics, as JSON or as a page, with a body or without.
pub data Reply : Type 0 where
  plain : ℕ → Reply
  denied : Answer → Reply
  redirect : Text → Reply
  statistics : Bool → Bool → Reply
  ping : Reply

-- A request with its parsed URL.
pub record Visit : Type 0 where
  pub url : Url
  pub origin : Text
  pub method : Text
  pub authorization : Option Text

pub record Env : Type 0 where
  pub prive_sha256 : Option Text
  pub old_host : Text
  pub new_site : Text

module _ (decode : Text → Option Text) (hash : Text → Text) where
  -- the page that is asked for, once the gate has let the request in
  abbrev pub page : Visit → Reply
  unfolding same
  page v =
      let json = same v.url.pathname (codes "/prive/stats.json") in
      if not json && not (same v.url.pathname (codes "/prive/"))
      then plain 404
      else statistics json (not (same v.method (codes "HEAD")))

  -- `prive`
  unfoldable pub prive : Env → Visit → ℕ → List ℕ → Reply × List ℕ
  unfolding same
  prive env v now fails = elim (private_key env.prive_sha256) [
    | none ↦ (plain 404, fails)
    | some key ↦
        let (answer, after) = private_gate decode hash v.authorization key now fails in
        if not (is_read v.method)
        then (plain 405, fails)
        else if same v.url.pathname (codes "/prive")
        then (redirect (v.origin ++ (codes "/prive/" ++ v.url.search)), fails)
        else (elim answer [ none ↦ page v | some a ↦ denied a ], after)
  ]

  -- `fetch`; `ping` stands for the answer of the handler of pings
  unfoldable pub fetch : Env → Visit → ℕ → List ℕ → Reply × List ℕ
  unfolding same starts_with
  fetch env v now fails =
      if same (strip_slashes v.url.pathname) (codes "/api/ping")
      then (ping, fails)
      else elim (redirect_target v.url v.method env.old_host env.new_site) [
        | some target ↦ (redirect target, fails)
        | none ↦
            if same v.url.pathname (codes "/prive") || starts_with v.url.pathname (codes "/prive/")
            then prive env v now fails
            else (plain 404, fails)
      ]
