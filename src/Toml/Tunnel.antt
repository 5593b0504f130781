-- ===== src/Toml/Tunnel.antt =====
-- Tunnels and visitors of toml.js as the interface edits them.
pub mod Named
use frp_manager.Base.{
  ℕ, Bool, ◌&&◌, ◌||◌, Option, none, some, List, [], ◌∷◌, ◌++◌, Text, if◌then◌else◌, same, codes,
}
use frp_manager.Base.Dict.{Dict}
use frp_manager.Toml.Block.{Notes}
use frp_manager.Toml.Ports.{is_port_range, range_names}

-- A tunnel. `udp_comments` and `udp_notes` are there in a "TCP + UDP" entry only; a missing `notes`
-- is an empty one.
pub record Proxy : Type 0 where
  pub uid : ℕ
  pub name : Text
  pub type : Text
  pub local_ip : Text
  pub local_port : Text
  pub remote_port : Text
  pub domains : Text
  pub secret_key : Text
  pub proxy_protocol : Text
  pub compression : Bool
  pub encryption : Bool
  pub extras : Dict Text
  pub comments : List Text
  pub notes : Notes
  pub udp_comments : Option (List Text)
  pub udp_notes : Option Notes

pub record Visitor : Type 0 where
  pub uid : ℕ
  pub name : Text
  pub type : Text
  pub server_name : Text
  pub secret_key : Text
  pub bind_addr : Text
  pub bind_port : Text
  pub server_ports : Text
  pub extras : Dict Text
  pub comments : List Text
  pub notes : Notes

-- `TCP_UDP`
abbrev pub tcp_udp : Text
tcp_udp = codes "both"

-- `hasRemotePort`, `hasDomains`, `hasSecret`
unfoldable pub has_remote_port : Text → Bool
unfolding same
has_remote_port type = same type (codes "tcp") || same type (codes "udp") || same type tcp_udp

unfoldable pub has_domains : Text → Bool
unfolding same
has_domains type = same type (codes "http") || same type (codes "https")

unfoldable pub has_secret : Text → Bool
unfolding same
has_secret type = same type (codes "stcp") || same type (codes "xtcp")

-- `isRanged`
unfoldable pub is_ranged : Proxy → Bool
unfolding is_port_range has_remote_port
is_ranged p = is_port_range p.local_port || (has_remote_port p.type && is_port_range p.remote_port)

-- `isVisitorRanged`
unfoldable pub is_visitor_ranged : Visitor → Bool
unfolding is_port_range
is_visitor_ranged v = is_port_range v.bind_port

-- `splitPair`
unfoldable pub split_pair : Proxy → List Proxy
unfolding same
split_pair p =
    let q = record p { udp_comments = none; udp_notes = none } in
    let udp_comments : List Text = elim p.udp_comments [ none ↦ [] | some c ↦ c ] in
    let udp_notes : Notes = elim p.udp_notes [ none ↦ p.notes | some n ↦ n ] in
    if same p.type tcp_udp
    then record q { name = p.name ++ codes "-tcp"; type = codes "tcp" }
      ∷ record q {
        name = p.name ++ codes "-udp";
        type = codes "udp";
        comments = udp_comments;
        notes = udp_notes;
      }
      ∷ []
    else p ∷ []

-- the names of an entry that is no pair
unfoldable pub own_names : Proxy → List Text
unfolding is_ranged range_names
own_names p = if is_ranged p then range_names p.name p.local_port else p.name ∷ []

abbrev flat_names : List Proxy → List Text
flat_names [] = []
flat_names (p ∷ ps) = own_names p ++ flat_names ps

-- `frpcNames`: the halves of a pair are no pairs themselves
unfoldable pub frpc_names : Proxy → List Text
unfolding split_pair own_names
frpc_names p = if same p.type tcp_udp then flat_names (split_pair p) else own_names p

-- `visitorNames`
unfoldable pub visitor_names : Visitor → List Text
unfolding is_visitor_ranged range_names
visitor_names v = if is_visitor_ranged v then range_names v.name v.bind_port else v.name ∷ []
