-- ===== src/Panel/Tunnels/Page.antt =====
-- What tunnels.js loads, compares, shows and saves: load, isDirty, stateOf, save and the public
-- address of a tunnel. An answer of the panel is `none` where the request fails.
use frp_manager.Base.{
  ℕ, suc, ◌+◌, Bool, true, false, not, ◌&&◌, Option, none, some, List, [], ◌∷◌, Text, if◌then◌else◌,
  length, map, same, codes,
}
use frp_manager.Base.Dict.{Dict, lookup}
use frp_manager.Toml.Block.{Block}
use frp_manager.Toml.Hosts.{unbracket}
use frp_manager.Toml.Tunnel.{Proxy, Visitor}
use frp_manager.Toml.Pairs.{pair_proxies}
use frp_manager.Toml.Parse.{Config}
use frp_manager.Toml.FromBlock.{proxy_from_block, visitor_from_block}
use frp_manager.Toml.Blocks.Prep.{parse_toml}
use frp_manager.Toml.Blocks.Strip.{strip_blocks}
use frp_manager.Toml.Blocks.Compose.{unbracket_connection}

-- `S.status`, the state of the proxies that frpc gives
pub record Status : Type 0 where
  pub admin : Bool
  pub reachable : Bool
  -- the `remote_addr` of each name
  pub addresses : Dict Text

-- The fields of `S`, and `uidSeq` of toml.js; `snapshot` is `none` for the empty text.
pub record Page : Type 0 where
  pub base_text : Text
  pub server_addr : Text
  pub base_fix : Bool
  pub docker : Bool
  pub proxies : List Proxy
  pub visitors : List Visitor
  pub snapshot : Option (List Proxy × List Visitor)
  pub status : Option Status
  pub made : ℕ

-- `cfg.proxies.map(proxyFromBlock)`, from the number `n` on
abbrev pub proxies_from : ℕ → List Block → List Proxy
unfolding proxy_from_block
proxies_from n [] = []
proxies_from n (b ∷ bs) = proxy_from_block (suc n) b ∷ proxies_from (suc n) bs

abbrev pub visitors_from : ℕ → List Block → List Visitor
unfolding visitor_from_block
visitors_from n [] = []
visitors_from n (b ∷ bs) = visitor_from_block (suc n) b ∷ visitors_from (suc n) bs

-- `{ ...p, localIP: p.localIP && unbracket(p.localIP) }`: `unbracket` of the empty text is empty
unfoldable pub fixed_proxy : Proxy → Proxy
unfolding unbracket
fixed_proxy p = record p { local_ip = unbracket (some p.local_ip) }

unfoldable pub fixed_visitor : Visitor → Visitor
unfolding unbracket
fixed_visitor v = record v { bind_addr = unbracket (some v.bind_addr) }

-- `S.snapshot = snapshotOf()`
abbrev pub take_snapshot : Page → Page
take_snapshot s = record s { snapshot = some (s.proxies, s.visitors) }

abbrev pub snapshot_if : Bool → Page → Page
snapshot_if b s = if b then take_snapshot s else s

-- the rest of the `try` block of load, once the file is parsed
unfoldable pub show_config : Bool → Config → Page → Page
unfolding fixed_proxy fixed_visitor pair_proxies strip_blocks unbracket_connection lookup same
show_config discarded cfg s =
    let proxies = proxies_from s.made cfg.proxies_read in
    let made = s.made + length proxies in
    let visitors = visitors_from made cfg.visitors_read in
    let read = record s {
      server_addr = elim (lookup (codes "serverAddr") cfg.values) [ none ↦ [] | some a ↦ a ];
      proxies = pair_proxies proxies;
      visitors = visitors;
      made = made + length visitors;
    } in
    let base = strip_blocks s.base_text in
    let fixed = record (snapshot_if (not discarded) read) {
      proxies = pair_proxies (map fixed_proxy proxies);
      visitors = map fixed_visitor visitors;
      base_fix = not discarded && not (same (unbracket_connection base) base);
    } in
    snapshot_if discarded fixed

-- the `catch` block of load
unfoldable pub show_nothing : Page → Page
show_nothing s = take_snapshot (record s { proxies = []; visitors = [] })

-- what follows parseToml in load: the `catch` block where it throws
unfoldable pub show_file : Bool → Option Config → Page → Page
show_file discarded none s = show_nothing s
show_file discarded (some cfg) s = show_config discarded cfg s

-- The answer to /api/config/….
pub record Answer : Type 0 where
  pub content : Text
  pub docker : Bool

-- `load`, up to loadStatus
unfoldable pub load : Bool → Option Answer → Page → Page
load discarded answer s =
    let start = record s { base_fix = false } in
    elim answer [
      | none ↦ show_nothing start
      | some a ↦
          let got = record start { base_text = a.content; docker = a.docker } in
          show_file discarded (parse_toml a.content) got
    ]

-- `discard`
unfoldable pub discard : Option Answer → Page → Page
discard answer s = load true answer (record s { snapshot = none })
