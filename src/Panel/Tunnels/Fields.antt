-- ===== src/Panel/Tunnels/Fields.antt =====
-- The checks of the fields of both editors of tunnels.js: validPort, portErrors and domainError.
-- An error stands for its translated text; no error stands for the empty text.
pub mod Counts
use frp_manager.Base.{
  ℕ, Bool, true, not, ◌&&◌, ◌||◌, Option, none, some, List, [], ◌∷◌, Text, ◌==◌, if◌then◌else◌, ltb,
  leb, is_empty, some_of, keep, map, includes, split, trim, codes, ◌≡◌, refl,
}
use frp_manager.Base.Decimal.{number_of}
use frp_manager.Toml.Tunnel.{Proxy, has_remote_port, has_domains, is_ranged}
use frp_manager.Toml.Entries.{new_proxy}
use frp_manager.Toml.FromBlock.{port_token}
use frp_manager.Toml.Ports.{is_port_text, port_spec_count}

pub data FieldError : Type 0 where
  required : FieldError
  name_format : FieldError
  name_taken : FieldError
  name_clash : Text → FieldError
  visitor_name_clash : Text → FieldError
  port : FieldError
  port_spec : FieldError
  range_too_big : FieldError
  range_remote : FieldError
  range_count : ℕ → ℕ → FieldError
  range_count_visitor : ℕ → ℕ → FieldError
  both_remote : FieldError
  domain_port : FieldError
  domain_port_single : FieldError

-- `MAX_RANGE_PORTS` of toml.js
abbrev pub max_range_ports : ℕ
max_range_ports = 1000

-- `validPort`
abbrev pub valid_port : Text → Bool
valid_port v = is_port_text v && leb 1 (number_of v) && leb (number_of v) 65535

-- `{ type, localPort, remotePort }`, the only fields that isRanged reads
abbrev pub shape : Text → Text → Text → Proxy
shape kind local remote = record (new_proxy 0) {
  type = kind;
  local_port = local;
  remote_port = remote;
}

pub record PortErrors : Type 0 where
  pub local : Option FieldError
  pub remote : Option FieldError

-- both errors of two single ports
unfoldable pub single_errors : Text → Text → Text → PortErrors
unfolding has_remote_port
single_errors kind local remote = record {
  local = if valid_port local then none else some FieldError.port;
  remote =
      if not (has_remote_port kind) || is_empty remote || valid_port remote
      then none
      else some FieldError.port;
}

-- `localError`, for a number of ports
abbrev pub count_error : ℕ → Option FieldError
count_error n =
    if n == 0
    then some FieldError.port_spec
    else if ltb max_range_ports n
    then some FieldError.range_too_big
    else none

-- the error of the public port of a range
unfoldable pub remote_error : Text → ℕ → ℕ → Option FieldError
remote_error remote nl nr =
    if is_empty remote
    then some FieldError.range_remote
    else if nr == 0
    then some FieldError.port_spec
    else if not (nl == 0) && not (nr == nl)
    then some (FieldError.range_count nl nr)
    else none

-- both errors of a range
unfoldable pub ranged_errors : Text → Text → Text → PortErrors
unfolding remote_error has_remote_port port_spec_count
ranged_errors kind local remote = record {
  local = count_error (port_spec_count local);
  remote =
      if has_remote_port kind
      then remote_error remote (port_spec_count local) (port_spec_count remote)
      else none;
}

-- `portErrors`
unfoldable pub port_errors : Text → Text → Text → PortErrors
unfolding single_errors ranged_errors is_ranged
port_errors kind local remote =
    if is_ranged (shape kind local remote)
    then ranged_errors kind local remote
    else single_errors kind local remote

-- `text.split(',').map((s) => s.trim()).filter(Boolean)`
unfoldable pub domains_of : Text → List Text
unfolding split trim
domains_of text = keep (λ d. not (is_empty d)) (map trim (split b',' text))

-- `domainError`
unfoldable pub domain_error : Text → Bool → Text → Option FieldError
unfolding has_domains domains_of includes
domain_error kind ranged text =
    let list = domains_of text in
    if not (has_domains kind)
    then none
    else if ranged && is_empty list
    then some FieldError.required
    else if ranged
    then if some_of (λ d. not (includes d port_token)) list
      then some FieldError.domain_port
      else none
    else if some_of (λ d. includes d port_token) list
    then some FieldError.domain_port_single
    else none
