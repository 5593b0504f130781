-- ===== src/Toml/Pairs.antt =====
-- `pairProxies` of toml.js, on tunnels that have been read from a file. Tunnels are told apart by
-- their place in the list, as the source tells them apart by their identity.
pub mod RoundTrip
use frp_manager.Base.{
  ℕ, zero, suc, ◌-◌, Bool, true, false, not, ◌&&◌, ◌||◌, Option, none, some, is_some, List, [], ◌∷◌,
  ◌++◌, Text, ◌==◌, if◌then◌else◌, length, take, get_elem?, is_empty, every, some_of, same,
  ends_with, codes,
}
use frp_manager.Base.Dict.{Dict}
use frp_manager.Toml.Hosts.{is_dot}
use frp_manager.Toml.Tunnel.{Proxy, tcp_udp}

-- equality of two switches
abbrev pub same_bit : Bool → Bool → Bool
same_bit true b = b
same_bit false b = not b

unfoldable pub same_extras : Dict Text → Dict Text → Bool
unfolding same
same_extras [] [] = true
same_extras ((k, x) ∷ xs) ((l, y) ∷ ys) = same k l && same x y && same_extras xs ys
same_extras _ _ = false

-- `rest(x) === rest(p)`
unfoldable pub same_rest : Proxy → Proxy → Bool
unfolding same
same_rest x p =
    same x.local_ip p.local_ip
    && same x.local_port p.local_port
    && same x.remote_port p.remote_port
    && same x.domains p.domains
    && same x.secret_key p.secret_key
    && same x.proxy_protocol p.proxy_protocol
    && same_bit x.compression p.compression
    && same_bit x.encryption p.encryption
    && same_extras x.extras p.extras

-- `s.slice(0, -'-tcp'.length)`
abbrev pub without_suffix : Text → Text
without_suffix s = take (length s - 4) s

-- `base`: the group of /^(.+)-tcp$/
unfoldable pub base_of : Proxy → Option Text
unfolding same ends_with
base_of p =
    let base = without_suffix p.name in
    if same p.type (codes "tcp")
      && not (is_empty p.remote_port)
      && ends_with p.name (codes "-tcp")
      && not (is_empty base)
      && every is_dot base
    then some base
    else none

-- The map `mates`: each pair stands in it once, the tcp tunnel first.
abbrev pub Mates : Type 0
Mates = List (ℕ × ℕ)

abbrev pub is_mated : ℕ → Mates → Bool
is_mated i mates = some_of (λ (m : ℕ × ℕ). m.0 == i || m.1 == i) mates

-- `proxies.find(…)` from place `j` on, for the tcp tunnel `p`
unfoldable pub mate_from : Mates → Text → Proxy → ℕ → List Proxy → Option ℕ
unfolding same
mate_from mates base p j [] = none
mate_from mates base p j (x ∷ xs) =
    let rest = mate_from mates base p (suc j) xs in
    if same x.type (codes "udp")
      && same x.name (base ++ codes "-udp")
      && not (is_mated j mates)
      && same_rest x p
    then some j
    else rest

-- one round of the first loop, at place `i`
unfoldable pub add_mate : List Proxy → Mates → ℕ → Proxy → Mates
add_mate all mates i p =
    let base = if is_mated i mates then none else base_of p in
    let found = elim base as (λ _. Option ℕ) [ none ↦ none | some b ↦ mate_from mates b p 0 all ] in
    elim found [ none ↦ mates | some j ↦ (i, j) ∷ mates ]

-- the first loop, from place `i` on
unfoldable pub mates_from : List Proxy → Mates → ℕ → List Proxy → Mates
mates_from all mates i [] = mates
mates_from all mates i (p ∷ ps) = mates_from all (add_mate all mates i p) (suc i) ps

-- `mates.get(p)`
abbrev pub mate_of : ℕ → Mates → Option ℕ
mate_of i [] = none
mate_of i ((t, u) ∷ mates) = if t == i then some u else if u == i then some t else mate_of i mates

-- the entry of a pair
unfoldable pub join_pair : Proxy → Proxy → Proxy
join_pair tcp udp = record tcp {
  name = without_suffix tcp.name;
  type = tcp_udp;
  udp_comments = some udp.comments;
  udp_notes = some udp.notes;
}

-- the second loop, from place `i` on; a mate that is no place of the list does not occur
unfoldable pub paired_from : List Proxy → Mates → List ℕ → ℕ → List Proxy → List Proxy
unfolding join_pair same
paired_from all mates done i [] = []
paired_from all mates done i (p ∷ ps) =
    let was_done = some_of (λ j. j == i) done in
    let mate = if was_done then none else mate_of i mates in
    let other = elim mate as (λ _. Option Proxy) [ none ↦ none | some j ↦ get_elem? all j ] in
    let done' = elim mate as (λ _. List ℕ) [ none ↦ done | some j ↦ j ∷ done ] in
    let out = elim other as (λ _. Proxy) [
      | none ↦ p
      | some q ↦ if same p.type (codes "tcp") then join_pair p q else join_pair q p
    ] in
    let rest = paired_from all mates done' (suc i) ps in if was_done then rest else out ∷ rest

-- `pairProxies`
unfoldable pub pair_proxies : List Proxy → List Proxy
unfolding mates_from paired_from
pair_proxies proxies = paired_from proxies (mates_from proxies [] 0 proxies) [] 0 proxies
