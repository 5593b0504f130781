-- ===== src/Panel/Tunnels/Editor.antt =====
-- The dialog editProxy of tunnels.js: what its button does with the fields. `made` stands for
-- `uidSeq` of toml.js, whose next value is the `uid` of a new entry.
pub mod Accepted
use frp_manager.Base.{
  ℕ, suc, Bool, true, false, not, ◌&&◌, Option, none, some, is_some, List, [], ◌∷◌, ◌++◌, Text,
  if◌then◌else◌, is_empty, is_space, without, trim, same, map, flat_map, codes,
}
use frp_manager.Toml.Hosts.{unbracket}
use frp_manager.Toml.Tunnel.{Proxy, tcp_udp, is_ranged, frpc_names}
use frp_manager.Toml.Entries.{new_proxy, tunnel_name_ok}
use frp_manager.Panel.Tunnels.Fields.{FieldError, PortErrors, port_errors, domain_error, shape}
use frp_manager.Panel.Tunnels.Names.{first_taken, without_uid, put_back}

-- the fields as they are typed
pub record ProxyForm : Type 0 where
  pub name : Text
  pub type : Text
  pub local_ip : Text
  pub local_port : Text
  pub remote_port : Text
  pub domains : Text
  pub secret_key : Text
  pub proxy_protocol : Text
  pub encryption : Bool
  pub compression : Bool

-- `values`
pub record Values : Type 0 where
  pub name : Text
  pub local_ip : Text
  pub local_port : Text
  pub remote_port : Text

unfoldable pub values_of : ProxyForm → Values
unfolding trim unbracket
values_of f = record {
  name = trim f.name;
  local_ip = unbracket (some (trim f.local_ip));
  local_port = without is_space f.local_port;
  remote_port = without is_space f.remote_port;
}

-- `kindOf`
abbrev pub kind_of : Text → Text
unfolding same
kind_of type = if same type tcp_udp then codes "tcp" else type

-- `taken`, for the entries but the one with that `uid`
unfoldable pub taken_by : ℕ → List Proxy → List Text
unfolding frpc_names
taken_by n proxies =
    let others = without_uid (λ p. p.uid) n proxies in
    map (λ (p : Proxy). p.name) others ++ flat_map frpc_names others

-- `{ ...values, type: tp }`
abbrev pub shape_of : Text → Values → Proxy
shape_of type v = record (shape type v.local_port v.remote_port) { name = v.name }

-- `[values.name, ...frpcNames({ ...values, type: tp })]`
unfoldable pub wanted_names : Text → Values → List Text
unfolding frpc_names
wanted_names type v = v.name ∷ frpc_names (shape_of type v)

-- the error of the name: `clash` is its first name that is taken
unfoldable pub name_error : Text → Bool → Option Text → Option FieldError
unfolding same
name_error name bad clash =
    if is_empty name
    then some FieldError.required
    else if bad
    then some FieldError.name_format
    else elim clash [
      | none ↦ none
      | some n ↦
          if same n name
          then some FieldError.name_taken
          else if is_empty n
          then none
          else some (FieldError.name_clash n)
    ]

-- `badName`
unfoldable pub bad_name : Option Proxy → Text → Bool
unfolding same tunnel_name_ok
bad_name none name = not (tunnel_name_ok name)
bad_name (some p) name = not (same name p.name) && not (tunnel_name_ok name)

-- what the calls of `check` set
pub record FormErrors : Type 0 where
  pub name : Option FieldError
  pub local_ip : Option FieldError
  pub local_port : Option FieldError
  pub remote_port : Option FieldError
  pub domains : Option FieldError

unfoldable pub form_errors : Option Proxy → ℕ → ProxyForm → List Proxy → FormErrors
unfolding values_of taken_by wanted_names name_error bad_name port_errors domain_error is_ranged
    same
form_errors existing uid f proxies =
    let v = values_of f in
    let kind = kind_of f.type in
    let ports = port_errors kind v.local_port v.remote_port in
    record {
      name =
          name_error v.name (bad_name existing v.name)
            (first_taken (taken_by uid proxies) (wanted_names f.type v));
      local_ip = if is_empty v.local_ip then some FieldError.required else none;
      local_port = ports.local;
      remote_port =
          if same f.type tcp_udp && is_empty v.remote_port
          then some FieldError.both_remote
          else ports.remote;
      domains = domain_error kind (is_ranged (shape_of kind v)) f.domains;
    }

-- `ok`
abbrev pub no_errors : FormErrors → Bool
no_errors e =
    not (is_some e.name)
    && not (is_some e.local_ip)
    && not (is_some e.local_port)
    && not (is_some e.remote_port)
    && not (is_some e.domains)

-- `Object.assign(draft, …)`
unfoldable pub filled_in : Proxy → ProxyForm → Proxy
unfolding values_of trim
filled_in draft f =
    let v = values_of f in
    record draft {
      name = v.name;
      local_ip = v.local_ip;
      local_port = v.local_port;
      remote_port = v.remote_port;
      type = f.type;
      domains = trim f.domains;
      secret_key = f.secret_key;
      proxy_protocol = f.proxy_protocol;
      encryption = f.encryption;
      compression = f.compression;
    }

-- What `submit` leaves: the errors shown, or the new `S.proxies`.
pub data Submitted : Type 0 where
  refused : FormErrors → Submitted
  accepted : List Proxy → Submitted

-- `draft`
abbrev pub draft_of : Option Proxy → ℕ → Proxy
draft_of none uid = new_proxy uid
draft_of (some p) uid = p

-- the draft, once it is accepted
abbrev pub entry_of : Option Proxy → ℕ → ProxyForm → Proxy
entry_of existing uid f = filled_in (draft_of existing uid) f

-- the new list of an accepted draft
unfoldable pub put_draft : Option Proxy → Proxy → List Proxy → List Proxy
put_draft none draft proxies = proxies ++ draft ∷ []
put_draft (some p) draft proxies = put_back (λ q. q.uid) draft proxies

-- `submit`, where `uid` is that of a new entry
unfoldable pub submit : Option Proxy → ℕ → ProxyForm → List Proxy → Submitted
unfolding form_errors filled_in put_draft
submit existing uid f proxies =
    let errors = form_errors existing (draft_of existing uid).uid f proxies in
    if no_errors errors
    then Submitted.accepted (put_draft existing (entry_of existing uid f) proxies)
    else Submitted.refused errors
