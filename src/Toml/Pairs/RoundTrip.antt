-- ===== src/Toml/Pairs/RoundTrip.antt =====
-- A "TCP + UDP" entry, split and joined again.
use frp_manager.Base.{
  ◌-◌, Bool, true, false, none, some, List, [], ◌∷◌, ◌++◌, Text, length, length-append,
  take-length-append, drop-length-append, is_empty, every, same, same_refl, ends_with, codes, ◌≡◌,
  refl, ap, arith,
}
use frp_manager.Base.Dict.{Dict}
use frp_manager.Toml.Block.{Notes}
use frp_manager.Toml.Hosts.{is_dot}
use frp_manager.Toml.Tunnel.{Proxy, tcp_udp, split_pair}
use frp_manager.Toml.Pairs.{
  same_bit, same_extras, same_rest, without_suffix, base_of, mate_from, add_mate, mates_from,
  join_pair, paired_from, pair_proxies,
}

abbrev tcp_suffix : Text
tcp_suffix = codes "-tcp"

same_bit_refl : (b : Bool) → same_bit b b ≡ true
same_bit_refl true = refl
same_bit_refl false = refl

pub same_extras_refl : (xs : Dict Text) → same_extras xs xs ≡ true
unfolding same same_extras
same_extras_refl [] = refl
same_extras_refl ((k, x) ∷ xs) = rw (same_refl k, same_refl x) (same_extras_refl xs)

without_suffix-tcp_suffix : (s : Text) → without_suffix (s ++ tcp_suffix) ≡ s
without_suffix-tcp_suffix s =
    let n : length (s ++ tcp_suffix) - 4 ≡ length s = omega (arith, length-append s tcp_suffix) in
    rw n (take-length-append s tcp_suffix)

ends_with-tcp_suffix : (s : Text) → ends_with (s ++ tcp_suffix) tcp_suffix ≡ true
unfolding ends_with
ends_with-tcp_suffix s =
    let n : length (s ++ tcp_suffix) - 4 ≡ length s = omega (arith, length-append s tcp_suffix) in
    rw (n, drop-length-append s tcp_suffix, same_refl) (ground (arith, length-append s tcp_suffix))

-- the two tunnels of an entry
abbrev tcp_half : Proxy → Proxy
tcp_half p = record p {
  udp_comments = none;
  udp_notes = none;
  name = p.name ++ tcp_suffix;
  type = codes "tcp";
}

abbrev udp_half : Proxy → List Text → Notes → Proxy
udp_half p c n = record p {
  udp_comments = none;
  udp_notes = none;
  name = p.name ++ codes "-udp";
  type = codes "udp";
  comments = c;
  notes = n;
}

same_rest-halves :
    (p : Proxy) (c : List Text) (n : Notes) → same_rest (udp_half p c n) (tcp_half p) ≡ true
unfolding same_rest
same_rest-halves p c n =
    rw
      (
        same_refl p.local_ip,
        same_refl p.local_port,
        same_refl p.remote_port,
        same_refl p.domains,
        same_refl p.secret_key,
        same_refl p.proxy_protocol,
        same_bit_refl p.compression,
        same_bit_refl p.encryption,
        same_extras_refl p.extras,
      )
      refl

base_of-tcp_half :
    (p : Proxy)
    → is_empty p.remote_port ≡ false
    → is_empty p.name ≡ false
    → every is_dot p.name ≡ true
    → base_of (tcp_half p) ≡ some p.name
unfolding base_of
base_of-tcp_half p h k l =
    rw (without_suffix-tcp_suffix p.name, ends_with-tcp_suffix p.name, h, k, l) refl

mate_from-halves :
    (p : Proxy) (c : List Text) (n : Notes)
    → mate_from [] p.name (tcp_half p) 0 (tcp_half p ∷ udp_half p c n ∷ []) ≡ some 1
unfolding mate_from
mate_from-halves p c n = rw (same_refl (p.name ++ codes "-udp"), same_rest-halves p c n) refl

mates-halves :
    (p : Proxy) (c : List Text) (n : Notes)
    → base_of (tcp_half p) ≡ some p.name
    → mates_from (tcp_half p ∷ udp_half p c n ∷ []) [] 0 (tcp_half p ∷ udp_half p c n ∷ [])
      ≡ (0, 1) ∷ []
unfolding mates_from add_mate
mates-halves p c n h =
    let first : add_mate (tcp_half p ∷ udp_half p c n ∷ []) [] 0 (tcp_half p) ≡ (0, 1) ∷ [] =
      rw (h, add_mate) (rw (mate_from-halves p c n) refl) in
    rw first refl

paired-halves :
    (p : Proxy) (c : List Text) (n : Notes)
    → paired_from
        (tcp_half p ∷ udp_half p c n ∷ [])
        ((0, 1) ∷ [])
        []
        0
        (tcp_half p ∷ udp_half p c n ∷ [])
      ≡ join_pair (tcp_half p) (udp_half p c n) ∷ []
unfolding paired_from same
paired-halves p c n = refl

split_pair-halves :
    (p : Proxy) (c : List Text) (n : Notes)
    → p.type ≡ tcp_udp
    → p.udp_comments ≡ some c
    → p.udp_notes ≡ some n
    → split_pair p ≡ tcp_half p ∷ udp_half p c n ∷ []
unfolding split_pair
split_pair-halves p c n both comments notes = rw (both, comments, notes) refl

join_pair-halves :
    (p : Proxy) (c : List Text) (n : Notes)
    → p.type ≡ tcp_udp
    → p.udp_comments ≡ some c
    → p.udp_notes ≡ some n
    → join_pair (tcp_half p) (udp_half p c n) ≡ p
unfolding join_pair
join_pair-halves p c n both comments notes =
    ground (arith, both, comments, notes, without_suffix-tcp_suffix p.name)

-- A "TCP + UDP" entry that is written as its two tunnels is read back as the same entry, with the
-- comments of both, if it has a public port, a name on one line, and the comments of the udp tunnel.
pub pair_proxies-split_pair :
    (p : Proxy) (c : List Text) (n : Notes)
    → p.type ≡ tcp_udp
    → is_empty p.remote_port ≡ false
    → is_empty p.name ≡ false
    → every is_dot p.name ≡ true
    → p.udp_comments ≡ some c
    → p.udp_notes ≡ some n
    → pair_proxies (split_pair p) ≡ p ∷ []
unfolding pair_proxies
pair_proxies-split_pair p c n both port name dots comments notes =
    rw (split_pair-halves p c n both comments notes) (
      rw (mates-halves p c n (base_of-tcp_half p port name dots), paired-halves p c n)
        (ap (λ q. q ∷ []) (join_pair-halves p c n both comments notes)))
