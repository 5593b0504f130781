-- ===== src/Toml/FromBlock.antt =====
-- Tunnels and visitors from the blocks that `parseToml` has read.
use frp_manager.Base.{
  ℕ, Bool, not, ◌&&◌, ◌||◌, none, some, List, [], ◌∷◌, map, Text, ◌==◌, if◌then◌else◌, every, keep,
  some_of, is_empty, same, split, join, trim, without, codes,
}
use frp_manager.Base.Decimal.{is_digit}
use frp_manager.Base.Dict.{Dict, lookup}
use frp_manager.Base.Number.{is_truthy_number}
use frp_manager.Toml.Match.{drop_loop, replace_loops}
use frp_manager.Toml.Block.{Block}
use frp_manager.Toml.Tunnel.{Proxy, Visitor}

-- the raw values of some keys. Every key of `order` has one, but `__proto__`, whose raw value is an
-- object that is no text.
raws_of : Dict Text → List Text → Dict Text
unfolding lookup
raws_of raw [] = []
raws_of raw (k ∷ ks) = elim (lookup k raw) [
  | none ↦ raws_of raw ks
  | some r ↦ (k, r) ∷ raws_of raw ks
]

-- `extrasOf`: the keys of a block that the interface does not handle, with their raw values
unfoldable pub extras_of : Block → List Text → Dict Text
unfolding raws_of same
extras_of b known = raws_of b.raw (keep (λ k. not (some_of (λ n. same n k) known)) b.order)

abbrev pub proxy_keys : List Text
proxy_keys =
    codes "name"
    ∷ codes "type"
    ∷ codes "localIP"
    ∷ codes "localPort"
    ∷ codes "remotePort"
    ∷ codes "customDomains"
    ∷ codes "secretKey"
    ∷ codes "transport.useCompression"
    ∷ codes "transport.useEncryption"
    ∷ codes "transport.proxyProtocolVersion"
    ∷ []

abbrev pub visitor_keys : List Text
visitor_keys =
    codes "name"
    ∷ codes "type"
    ∷ codes "serverName"
    ∷ codes "secretKey"
    ∷ codes "bindAddr"
    ∷ codes "bindPort"
    ∷ []

-- `intText` of a text
unfoldable pub int_text : Text → Text
unfolding split
int_text t =
    if every (λ part. not (is_empty part) && every is_digit part) (split b'_' t)
    then without (λ c. c == b'_') t
    else t

-- `values[k] || ''`
abbrev pub text_at : Text → Dict Text → Text
unfolding lookup
text_at k d = elim (lookup k d) [ none ↦ [] | some v ↦ v ]

-- `s || d`
abbrev pub or_else : Text → Text → Text
or_else [] d = d
or_else (c ∷ s) d = c ∷ s

-- `/["'[\]]/`
abbrev is_list_mark : ℕ → Bool
is_list_mark c = c == 34 || c == 39 || c == b'[' || c == b']'

-- the domains of `customDomains`, joined by ", "
unfoldable pub domain_list : Text → Text
unfolding split trim join
domain_list s =
    join (codes ", ")
      (keep (λ d. not (is_empty d)) (map trim (split b',' (without is_list_mark s))))

abbrev pub port_token : Text
port_token = codes "{port}"

abbrev pub first_field : Text
first_field = codes ".First"

abbrev pub second_field : Text
second_field = codes ".Second"

-- `proxyFromBlock`, with the number that `uid` gives
unfoldable pub proxy_from_block : ℕ → Block → Proxy
unfolding extras_of int_text domain_list drop_loop replace_loops is_truthy_number lookup same
proxy_from_block uid b =
    let name = text_at (codes "name") b.values in
    let domains = domain_list (text_at (codes "customDomains") b.values) in
    let remote = int_text (text_at (codes "remotePort") b.values) in
    record {
      uid = uid;
      name = elim b.range [ none ↦ name | some r ↦ drop_loop first_field name ];
      type = or_else (text_at (codes "type") b.values) (codes "tcp");
      local_ip = or_else (text_at (codes "localIP") b.values) (codes "127.0.0.1");
      local_port = elim b.range [
        | none ↦ int_text (text_at (codes "localPort") b.values)
        | some r ↦ r.local
      ];
      remote_port = elim b.range [
        | none ↦ if is_truthy_number remote then remote else []
        | some r ↦ r.remote
      ];
      domains = elim b.range [
        | none ↦ domains
        | some r ↦ replace_loops first_field port_token domains
      ];
      secret_key = text_at (codes "secretKey") b.values;
      proxy_protocol = text_at (codes "transport.proxyProtocolVersion") b.values;
      compression = same (text_at (codes "transport.useCompression") b.values) (codes "true");
      encryption = same (text_at (codes "transport.useEncryption") b.values) (codes "true");
      extras = extras_of b proxy_keys;
      comments = b.comments;
      notes = b.notes;
      udp_comments = none;
      udp_notes = none;
    }

-- `visitorFromBlock`, with the number that `uid` gives
unfoldable pub visitor_from_block : ℕ → Block → Visitor
unfolding extras_of int_text drop_loop lookup same
visitor_from_block uid b =
    let name = text_at (codes "name") b.values in
    let server = text_at (codes "serverName") b.values in
    record {
      uid = uid;
      name = elim b.range [ none ↦ name | some r ↦ drop_loop first_field name ];
      type = or_else (text_at (codes "type") b.values) (codes "stcp");
      server_name = elim b.range [ none ↦ server | some r ↦ drop_loop second_field server ];
      secret_key = text_at (codes "secretKey") b.values;
      bind_addr = or_else (text_at (codes "bindAddr") b.values) (codes "127.0.0.1");
      bind_port = elim b.range [
        | none ↦ int_text (text_at (codes "bindPort") b.values)
        | some r ↦ r.local
      ];
      server_ports = elim b.range [
        | none ↦ []
        | some r ↦ if is_empty r.remote || same r.remote r.local then [] else r.remote
      ];
      extras = extras_of b visitor_keys;
      comments = b.comments;
      notes = b.notes;
    }
