-- ===== src/Toml/Tunnel/Named.antt =====
-- The names that `rangeNames`, `frpcNames` and `visitorNames` make are not empty.
use frp_manager.Base.{
  ℕ, zero, suc, true, false, List, [], ◌∷◌, ◌++◌, Text, is_empty, same, codes, All, All-append,
  All-take, append-nil, ◌≡◌, inl, inr, refl, arith, Bool-cases,
}
use frp_manager.Base.Decimal.{decimal}
use frp_manager.Toml.Ports.{part_range, is_numeral_part, width, max_names, range_names}
use frp_manager.Toml.Ports.Count.{parts_of}
use frp_manager.Toml.Ports.Names.{port_names, all_names, range_names_lem}
use frp_manager.Toml.Tunnel.{
  Proxy, Visitor, tcp_udp, is_ranged, is_visitor_ranged, split_pair, own_names, frpc_names,
  visitor_names,
}

abbrev pub IsNamed : Text → Type 0
IsNamed n = is_empty n ≡ false

IsNamed-append : (a : Text) (c : ℕ) (b : Text) → IsNamed (a ++ c ∷ b)
IsNamed-append [] c b = refl
IsNamed-append (x ∷ a) c b = refl

IsNamed-left : (a b : Text) → IsNamed a → IsNamed (a ++ b)
IsNamed-left [] b h = absurd (ground arith)
IsNamed-left (x ∷ a) b h = refl

port_names-All : (base : Text) (rounds port : ℕ) → All IsNamed (port_names base rounds port)
port_names-All base zero port = tt
port_names-All base (suc rounds) port =
    (IsNamed-append base b'-' (decimal port), port_names-All base rounds (suc port))

all_names-All : (base : Text) (parts : List Text) → All IsNamed (all_names base parts)
all_names-All base [] = tt
all_names-All base (part ∷ parts) = elim (Bool-cases (is_numeral_part part)) [
  | inl numeral ↦ rw numeral (
      All-append IsNamed (port_names base (width (part_range part)) (part_range part).first) _
        (port_names-All base _ _) (all_names-All base parts))
  | inr other ↦ rw other (all_names-All base parts)
]

range_names-All : (base spec : Text) → All IsNamed (range_names base spec)
range_names-All base spec =
    rw (range_names_lem base spec)
      (All-take IsNamed max_names _ (all_names-All base (parts_of spec)))

own_names-All : (p : Proxy) → IsNamed p.name → All IsNamed (own_names p)
unfolding own_names
own_names-All p h = elim (Bool-cases (is_ranged p)) [
  | inl r ↦ rw r (range_names-All p.name p.local_port)
  | inr r ↦ rw r (h, tt)
]

pub frpc_names_own : (p : Proxy) → same p.type tcp_udp ≡ false → frpc_names p ≡ own_names p
unfolding frpc_names
frpc_names_own p h = rw h refl

-- the halves of a pair
abbrev pub tcp_half : Proxy → Proxy
tcp_half p = record p { name = p.name ++ codes "-tcp"; type = codes "tcp" }

abbrev pub udp_half : Proxy → Proxy
udp_half p = record p { name = p.name ++ codes "-udp"; type = codes "udp" }

pub frpc_names_pair :
    (p : Proxy)
    → same p.type tcp_udp ≡ true
    → frpc_names p ≡ own_names (tcp_half p) ++ own_names (udp_half p)
unfolding frpc_names split_pair
frpc_names_pair p h = rw (h, append-nil) refl

-- No name of a tunnel whose entry has a name is empty.
pub frpc_names-All : (p : Proxy) → IsNamed p.name → All IsNamed (frpc_names p)
frpc_names-All p h = elim (Bool-cases (same p.type tcp_udp)) [
  | inl b ↦ rw (frpc_names_pair p b) (
      All-append IsNamed (own_names (tcp_half p)) _
        (own_names-All (tcp_half p) (IsNamed-left p.name (codes "-tcp") h))
        (own_names-All (udp_half p) (IsNamed-left p.name (codes "-udp") h)))
  | inr b ↦ rw (frpc_names_own p b) (own_names-All p h)
]

-- No name of a visitor whose entry has a name is empty.
pub visitor_names-All : (v : Visitor) → IsNamed v.name → All IsNamed (visitor_names v)
unfolding visitor_names
visitor_names-All v h = elim (Bool-cases (is_visitor_ranged v)) [
  | inl r ↦ rw r (range_names-All v.name v.bind_port)
  | inr r ↦ rw r (h, tt)
]
