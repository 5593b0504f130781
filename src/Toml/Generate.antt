-- ===== src/Toml/Generate.antt =====
-- The text of tunnels and visitors: annotate, generateProxy and generateVisitor.
use frp_manager.Base.{
  Bool, not, ◌&&◌, ◌||◌, Option, none, some, List, [], ◌∷◌, ◌++◌, map, Text, if◌then◌else◌, ltb,
  take, keep, is_empty, same, starts_with, split, join, trim, codes,
}
use frp_manager.Base.Dict.{Dict, lookup}
use frp_manager.Toml.Scan.{key_end}
use frp_manager.Toml.Str.{str}
use frp_manager.Toml.Hosts.{unbracket}
use frp_manager.Toml.Match.{replace_all}
use frp_manager.Toml.Block.{Note, Notes}
use frp_manager.Toml.Tunnel.{
  Proxy, Visitor, is_ranged, is_visitor_ranged, has_remote_port, has_domains, has_secret,
}
use frp_manager.Toml.FromBlock.{port_token}

-- the comments of a line: those of the header, or those of the key before its "="
note_for : Notes → Text → Option Note
unfolding key_end lookup starts_with trim same
note_for notes line =
    if same line (codes "[[proxies]]") || same line (codes "[[visitors]]")
    then lookup (codes "[[]]") notes
    else elim (key_end line) [
      | none ↦ none
      | some eq ↦
          if ltb 0 eq && not (starts_with line (codes "{") || starts_with line (codes "["))
          then lookup (trim (take eq line)) notes
          else none
    ]

-- `annotate`
unfoldable pub annotate : List Text → Notes → List Text
unfolding note_for
annotate [] notes = []
annotate (line ∷ lines) notes = elim (note_for notes line) [
  | none ↦ line ∷ annotate lines notes
  | some n ↦
      n.before ++ ((if is_empty n.eol then line else line ++ b' ' ∷ n.eol) ∷ annotate lines notes)
]

-- `${key} = ${raw}`
abbrev pub pair_line : Text → Text → Text
pair_line key raw = key ++ (codes " = " ++ raw)

-- `if (test) L.push(line)`
abbrev pub line_if : Bool → Text → List Text
line_if test line = if test then line ∷ [] else []

abbrev pub filled : Text → Bool
filled s = not (is_empty s)

abbrev pub extra_lines : Dict Text → List Text
extra_lines [] = []
extra_lines ((k, raw) ∷ extras) = pair_line k raw ∷ extra_lines extras

-- the domains of `customDomains`, quoted; in a range `{port}` becomes the port of the loop
domain_items : Bool → Text → Text → List Text
unfolding str replace_all split trim
domain_items ranged port domains =
    map (λ d. if ranged then replace_all port_token port (str d) else str d)
      (keep filled (map trim (split b',' domains)))

-- the lines of `generateProxy`, before their comments
unfoldable pub proxy_lines : Proxy → List Text
unfolding is_ranged has_remote_port has_domains has_secret domain_items str unbracket join
proxy_lines p =
    let ranged = is_ranged p in
    let pair = ranged && has_remote_port p.type in
    let port = if pair then codes "{{ $v.First }}" else codes "{{ $v }}" in
    let head =
      if pair
      then codes "{{- range $_, $v := parseNumberRangePair \""
        ++ (p.local_port ++ (codes "\" \"" ++ (p.remote_port ++ codes "\" }}")))
      else codes "{{- range $_, $v := parseNumberRange \"" ++ (p.local_port ++ codes "\" }}") in
    let name = if ranged then p.name ++ b'-' ∷ port else p.name in
    line_if ranged head
    ++ (codes "[[proxies]]"
        ∷ pair_line (codes "name") (str name)
        ∷ pair_line (codes "type") (str p.type)
        ∷ (line_if (filled p.local_ip)
              (pair_line (codes "localIP") (str (unbracket (some p.local_ip))))
            ++ (line_if (ranged || filled p.local_port)
                  (pair_line (codes "localPort") (if ranged then port else p.local_port))
                ++ (line_if (pair || (has_remote_port p.type && filled p.remote_port)) (
                      pair_line (codes "remotePort")
                        (if pair then codes "{{ $v.Second }}" else p.remote_port))
                    ++ (line_if (has_domains p.type && filled p.domains) (
                          pair_line (codes "customDomains") (
                            b'['
                            ∷ (join (codes ", ") (domain_items ranged port p.domains)
                                ++ codes "]")))
                        ++ (line_if (has_secret p.type && filled p.secret_key)
                              (pair_line (codes "secretKey") (str p.secret_key))
                            ++ (line_if p.compression (codes "transport.useCompression = true")
                                ++ (line_if p.encryption (codes "transport.useEncryption = true")
                                    ++ (line_if (filled p.proxy_protocol) (
                                          pair_line (codes "transport.proxyProtocolVersion")
                                            (str p.proxy_protocol))
                                        ++ (extra_lines p.extras
                                            ++ line_if ranged (codes "{{- end }}")))))))))))

-- `generateProxy`, as the list of the lines that it joins
unfoldable pub generate_proxy_lines : Proxy → List Text
unfolding annotate proxy_lines
generate_proxy_lines p = p.comments ++ annotate (proxy_lines p) p.notes

-- `generateProxy`
unfoldable pub generate_proxy : Proxy → Text
unfolding generate_proxy_lines join
generate_proxy p = join (codes "\n") (generate_proxy_lines p)

-- the lines of `generateVisitor`, before their comments
unfoldable pub visitor_lines : Visitor → List Text
unfolding is_visitor_ranged str unbracket
visitor_lines v =
    let ranged = is_visitor_ranged v in
    let targets = if is_empty v.server_ports then v.bind_port else v.server_ports in
    let head =
      codes "{{- range $_, $v := parseNumberRangePair \""
      ++ (v.bind_port ++ (codes "\" \"" ++ (targets ++ codes "\" }}"))) in
    let name = if ranged then v.name ++ codes "-{{ $v.First }}" else v.name in
    let server = if ranged then v.server_name ++ codes "-{{ $v.Second }}" else v.server_name in
    line_if ranged head
    ++ (codes "[[visitors]]"
        ∷ pair_line (codes "name") (str name)
        ∷ pair_line (codes "type") (str v.type)
        ∷ (line_if (filled v.server_name) (pair_line (codes "serverName") (str server))
            ++ (line_if (filled v.secret_key) (pair_line (codes "secretKey") (str v.secret_key))
                ++ (line_if (filled v.bind_addr)
                      (pair_line (codes "bindAddr") (str (unbracket (some v.bind_addr))))
                    ++ (line_if (ranged || filled v.bind_port) (
                          pair_line (codes "bindPort")
                            (if ranged then codes "{{ $v.First }}" else v.bind_port))
                        ++ (extra_lines v.extras ++ line_if ranged (codes "{{- end }}")))))))

-- `generateVisitor`, as the list of the lines that it joins
unfoldable pub generate_visitor_lines : Visitor → List Text
unfolding annotate visitor_lines
generate_visitor_lines v = v.comments ++ annotate (visitor_lines v) v.notes

-- `generateVisitor`
unfoldable pub generate_visitor : Visitor → Text
unfolding generate_visitor_lines join
generate_visitor v = join (codes "\n") (generate_visitor_lines v)
