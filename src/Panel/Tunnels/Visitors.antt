-- ===== src/Panel/Tunnels/Visitors.antt =====
-- The dialog editVisitor of tunnels.js. `made` is as in the dialog of a tunnel.
pub mod Accepted
use frp_manager.Base.{
  ℕ, Bool, not, ◌&&◌, ◌||◌, Option, none, some, is_some, List, [], ◌∷◌, ◌++◌, Text, ◌==◌,
  if◌then◌else◌, is_empty, is_space, without, trim, same, flat_map, ltb,
}
use frp_manager.Toml.Hosts.{unbracket}
use frp_manager.Toml.Ports.{is_port_range, port_spec_count}
use frp_manager.Toml.Tunnel.{Visitor, visitor_names}
use frp_manager.Toml.Entries.{new_visitor}
use frp_manager.Panel.Tunnels.Fields.{FieldError, valid_port, max_range_ports}
use frp_manager.Panel.Tunnels.Names.{first_taken, without_uid, put_back}

-- the fields as they are typed
pub record VisitorForm : Type 0 where
  pub name : Text
  pub type : Text
  pub server_name : Text
  pub secret_key : Text
  pub bind_addr : Text
  pub bind_port : Text
  pub server_ports : Text

-- `nm`, `bp` and `sp`
pub record VisitorValues : Type 0 where
  pub name : Text
  pub bind_port : Text
  pub server_ports : Text

unfoldable pub visitor_values : VisitorForm → VisitorValues
unfolding trim is_port_range
visitor_values f =
    let bp = without is_space f.bind_port in
    record {
      name = trim f.name;
      bind_port = bp;
      server_ports = if is_port_range bp then without is_space f.server_ports else [];
    }

-- `[v.name, ...visitorNames(v)]`
abbrev pub visitor_own_names : Visitor → List Text
visitor_own_names v = v.name ∷ visitor_names v

-- `taken`, for the entries but the one with that `uid`
abbrev pub visitors_taken : ℕ → List Visitor → List Text
visitors_taken n visitors = flat_map visitor_own_names (without_uid (λ v. v.uid) n visitors)

-- `{ name: nm, bindPort: bp }`, the only fields that visitorNames reads
abbrev pub visitor_shape : VisitorValues → Visitor
visitor_shape v = record (new_visitor 0) { name = v.name; bind_port = v.bind_port }

-- the error of the name: `clash` is its first name that is taken
unfoldable pub visitor_name_error : Text → Option Text → Option FieldError
unfolding same
visitor_name_error name clash = if is_empty name then some FieldError.required else elim clash [
  | none ↦ none
  | some n ↦
      if same n name
      then some FieldError.name_taken
      else if is_empty n
      then none
      else some (FieldError.visitor_name_clash n)
]

-- the error of the local ports
unfoldable pub bind_error : Text → Option FieldError
bind_error bp =
    let nb = port_spec_count bp in
    if not (is_port_range bp)
    then if valid_port bp then none else some FieldError.port
    else if nb == 0
    then some FieldError.port_spec
    else if ltb max_range_ports nb
    then some FieldError.range_too_big
    else none

-- the error of the ports of the target tunnel, where there are `nb` local ones: `nb` is 0 only in
-- an entry that is no valid range
unfoldable pub server_error : ℕ → Text → Option FieldError
server_error nb sp =
    let ns = port_spec_count sp in
    if is_empty sp
    then none
    else if ns == 0
    then some FieldError.port_spec
    else if not (nb == 0) && not (ns == nb)
    then some (FieldError.range_count_visitor nb ns)
    else none

pub record VisitorErrors : Type 0 where
  pub name : Option FieldError
  pub server_name : Option FieldError
  pub bind_port : Option FieldError
  pub server_ports : Option FieldError

-- what the calls of `check` set; the ports of the target are empty where the local ones are no range
unfoldable pub visitor_errors : ℕ → VisitorForm → List Visitor → VisitorErrors
unfolding visitor_name_error bind_error server_error
visitor_errors uid f visitors =
    let v = visitor_values f in
    let nb = if is_port_range v.bind_port then port_spec_count v.bind_port else 0 in
    record {
      name =
          visitor_name_error v.name
            (first_taken (visitors_taken uid visitors) (visitor_own_names (visitor_shape v)));
      server_name = if is_empty (trim f.server_name) then some FieldError.required else none;
      bind_port = bind_error v.bind_port;
      server_ports = server_error nb v.server_ports;
    }

-- `ok`
abbrev pub no_visitor_errors : VisitorErrors → Bool
no_visitor_errors e =
    not (is_some e.name)
    && not (is_some e.server_name)
    && not (is_some e.bind_port)
    && not (is_some e.server_ports)

-- `Object.assign(draft, …)`
unfoldable pub filled_visitor : Visitor → VisitorForm → Visitor
filled_visitor draft f =
    let v = visitor_values f in
    record draft {
      name = v.name;
      type = f.type;
      server_name = trim f.server_name;
      secret_key = f.secret_key;
      bind_addr = unbracket (some (trim f.bind_addr));
      bind_port = v.bind_port;
      server_ports = if same v.server_ports v.bind_port then [] else v.server_ports;
    }

pub data VisitorSubmitted : Type 0 where
  refused : VisitorErrors → VisitorSubmitted
  accepted : List Visitor → VisitorSubmitted

-- `draft`
abbrev pub visitor_draft : Option Visitor → ℕ → Visitor
visitor_draft none uid = new_visitor uid
visitor_draft (some v) uid = v

abbrev pub visitor_entry : Option Visitor → ℕ → VisitorForm → Visitor
visitor_entry existing uid f = filled_visitor (visitor_draft existing uid) f

unfoldable pub put_visitor : Option Visitor → Visitor → List Visitor → List Visitor
put_visitor none draft visitors = visitors ++ draft ∷ []
put_visitor (some v) draft visitors = put_back (λ w. w.uid) draft visitors

-- `submit`, where `uid` is that of a new entry
unfoldable pub submit_visitor : Option Visitor → ℕ → VisitorForm → List Visitor → VisitorSubmitted
unfolding visitor_errors filled_visitor put_visitor
submit_visitor existing uid f visitors =
    let errors = visitor_errors (visitor_draft existing uid).uid f visitors in
    if no_visitor_errors errors
    then VisitorSubmitted.accepted (put_visitor existing (visitor_entry existing uid f) visitors)
    else VisitorSubmitted.refused errors
