-- ===== src/Panel/Tunnels/Visitors/Accepted.antt =====
-- What the dialog of a visitor accepts.
use frp_manager.Base.{
  ℕ, ◌≤◌, true, false, Option, none, some, List, [], Text, is_empty, if◌then◌else◌, same, All,
  All-map, ◌≡◌, ◌≢◌, inl, inr, refl, sym, subst, arith, Bool-cases,
}
use frp_manager.Toml.Ports.{is_port_range, port_spec_count}
use frp_manager.Toml.Tunnel.{Visitor, visitor_names}
use frp_manager.Toml.Tunnel.Named.{IsNamed, visitor_names-All}
use frp_manager.Panel.Tunnels.Fields.{max_range_ports}
use frp_manager.Panel.Tunnels.Fields.Counts.{valid_port-count}
use frp_manager.Panel.Tunnels.Names.{
  OnSome, find-OnSome, has_name-flat_map, All-swap, has_name, first_taken, first_taken-none,
  without_uid, All-without_uid, Disjoint,
}
use frp_manager.Panel.Tunnels.Visitors.{
  VisitorForm, VisitorValues, visitor_values, visitor_own_names, visitors_taken, visitor_shape,
  visitor_name_error, bind_error, server_error, VisitorErrors, visitor_errors, no_visitor_errors,
  filled_visitor, VisitorSubmitted, visitor_draft, visitor_entry, put_visitor, submit_visitor,
}

filled_visitor-names :
    (draft : Visitor) (f : VisitorForm)
    → visitor_own_names (filled_visitor draft f)
      ≡ visitor_own_names (visitor_shape (visitor_values f))
unfolding filled_visitor visitor_names
filled_visitor-names draft f = refl

visitor_name_error-clash :
    (name : Text) (clash : Option Text)
    → visitor_name_error name clash ≡ none
    → (IsNamed name → OnSome IsNamed clash)
    → IsNamed name × (clash ≡ none)
unfolding visitor_name_error
visitor_name_error-clash name none h k = (ground arith, refl)
visitor_name_error-clash name (some n) h k =
    let named : IsNamed name = ground arith in let other = k named in absurd (ground arith)

-- an accepted name is not empty, and none of its names is taken
visitor_name_error-none :
    (v : VisitorValues) (taken : List Text)
    → visitor_name_error v.name (first_taken taken (visitor_own_names (visitor_shape v))) ≡ none
    → IsNamed v.name × Disjoint (visitor_own_names (visitor_shape v)) taken
visitor_name_error-none v taken h =
    let wanted = visitor_own_names (visitor_shape v) in
    let (named, free) = visitor_name_error-clash v.name (first_taken taken wanted) h (λ k.
      find-OnSome IsNamed (λ n. has_name n taken) wanted
        (k, visitor_names-All (visitor_shape v) k)) in
    (named, first_taken-none taken wanted free)

-- What the checks of the dialog establish of a visitor, beside its names.
pub record IsSoundVisitor (v : Visitor) : Type 0 where
  pub named : IsNamed v.name
  pub aimed : is_empty v.server_name ≡ false
  pub some_port : 1 ≤ port_spec_count v.bind_port
  pub bounded : port_spec_count v.bind_port ≤ max_range_ports
  pub paired :
      is_empty v.server_ports ≡ false → port_spec_count v.server_ports ≡ port_spec_count v.bind_port

bind_error-none :
    (bp : Text)
    → bind_error bp ≡ none
    → (1 ≤ port_spec_count bp) × (port_spec_count bp ≤ max_range_ports)
unfolding bind_error
bind_error-none bp h = elim (Bool-cases (is_port_range bp)) [
  | inl r ↦ (ground arith, ground arith)
  | inr r ↦
      let one = valid_port-count bp (ground arith) in (rw one (ground arith), rw one (ground arith))
]

abbrev IsEmpty : VisitorErrors → Type 0
IsEmpty e =
    (e.name ≡ none) × (e.server_name ≡ none) × (e.bind_port ≡ none) × (e.server_ports ≡ none)

no_visitor_errors-IsEmpty : (e : VisitorErrors) → no_visitor_errors e ≡ true → IsEmpty e
no_visitor_errors-IsEmpty e h = (ground arith, ground arith, ground arith, ground arith)

abbrev errors_of : Option Visitor → ℕ → VisitorForm → List Visitor → VisitorErrors
errors_of existing uid f vs = visitor_errors (visitor_draft existing uid).uid f vs

submit_visitor-inv :
    (existing : Option Visitor) (uid : ℕ) (f : VisitorForm) (vs vs' : List Visitor)
    → submit_visitor existing uid f vs ≡ VisitorSubmitted.accepted vs'
    → IsEmpty (errors_of existing uid f vs)
      × (vs' ≡ put_visitor existing (visitor_entry existing uid f) vs)
unfolding submit_visitor
submit_visitor-inv existing uid f vs vs' h =
    let errors = errors_of existing uid f vs in
    elim (Bool-cases (no_visitor_errors errors)) [
      | inl e ↦ (no_visitor_errors-IsEmpty errors e, cc (rw e at h))
      | inr e ↦ absurd (cc (rw e at h))
    ]

-- where the local ports are no range, the values have no ports of the target
visitor_values-single :
    (f : VisitorForm)
    → is_port_range (visitor_values f).bind_port ≡ false
    → (visitor_values f).server_ports ≡ []
unfolding visitor_values
visitor_values-single f h = rw h refl

server_error-none :
    (nb : ℕ) (sp : Text)
    → 1 ≤ nb
    → server_error nb sp ≡ none
    → is_empty sp ≡ false
    → port_spec_count sp ≡ nb
unfolding server_error
server_error-none nb sp h e k = ground arith

kept_ports-count :
    (bp sp : Text)
    → (is_port_range bp ≡ false → sp ≡ [])
    → 1 ≤ port_spec_count bp
    → server_error (if is_port_range bp then port_spec_count bp else 0) sp ≡ none
    → is_empty (if same sp bp then [] else sp) ≡ false
    → port_spec_count (if same sp bp then [] else sp) ≡ port_spec_count bp
kept_ports-count bp sp single lo h k = elim (Bool-cases (same sp bp)) [
  | inl e ↦ absurd (ground arith)
  | inr e ↦ elim (Bool-cases (is_port_range bp)) [
    | inl r ↦ rw e (server_error-none (port_spec_count bp) sp lo (rw r at h) (ground arith))
    | inr r ↦ absurd (cc (rw (e, single r) at k))
  ]
]

filled_visitor-IsSoundVisitor :
    (draft : Visitor) (uid : ℕ) (f : VisitorForm) (vs : List Visitor)
    → IsEmpty (visitor_errors uid f vs)
    → IsSoundVisitor (filled_visitor draft f)
unfolding visitor_errors filled_visitor
filled_visitor-IsSoundVisitor draft uid f vs (e1, e2, e3, e4) =
    let v = visitor_values f in
    let (lo, hi) = bind_error-none v.bind_port e3 in
    record {
      named = (visitor_name_error-none v (visitors_taken uid vs) e1).0;
      aimed = ground arith;
      some_port = lo;
      bounded = hi;
      paired = kept_ports-count v.bind_port v.server_ports (visitor_values-single f) lo e4;
    }

-- A visitor that the dialog accepts has a name and the name of a tunnel, from one to MAX_RANGE_PORTS
-- local ports and, where ports of the target are kept, as many of them; the new list is the old one
-- with it in its place.
pub submit_visitor-IsSoundVisitor :
    (existing : Option Visitor) (uid : ℕ) (f : VisitorForm) (vs vs' : List Visitor)
    → submit_visitor existing uid f vs ≡ VisitorSubmitted.accepted vs'
    → IsSoundVisitor (visitor_entry existing uid f)
      × (vs' ≡ put_visitor existing (visitor_entry existing uid f) vs)
submit_visitor-IsSoundVisitor existing uid f vs vs' h =
    let (free, put) = submit_visitor-inv existing uid f vs vs' h in
    (filled_visitor-IsSoundVisitor (visitor_draft existing uid) _ f vs free, put)

free-Disjoint :
    (uid : ℕ) (f : VisitorForm) (vs : List Visitor)
    → IsEmpty (visitor_errors uid f vs)
    → Disjoint (visitor_own_names (visitor_shape (visitor_values f))) (visitors_taken uid vs)
unfolding visitor_errors
free-Disjoint uid f vs free =
    (visitor_name_error-none (visitor_values f) (visitors_taken uid vs) free.0).1

-- the names of an accepted visitor and those of the other visitors
pub submit_visitor-Disjoint :
    (existing : Option Visitor) (uid : ℕ) (f : VisitorForm) (vs vs' : List Visitor)
    → submit_visitor existing uid f vs ≡ VisitorSubmitted.accepted vs'
    → All
        (λ v.
          v.uid ≢ (visitor_draft existing uid).uid
          → Disjoint (visitor_own_names (visitor_entry existing uid f)) (visitor_own_names v))
        vs
submit_visitor-Disjoint existing uid f vs vs' h =
    let draft = visitor_draft existing uid in
    let wanted = visitor_own_names (filled_visitor draft f) in
    let (free, _) = submit_visitor-inv existing uid f vs vs' h in
    let apart : Disjoint wanted (visitors_taken draft.uid vs) =
      subst (λ ns. Disjoint ns (visitors_taken draft.uid vs)) (sym (filled_visitor-names draft f))
        (free-Disjoint draft.uid f vs free) in
    let taken : (n : Text)
        → has_name n wanted ≡ true
        → All (λ v. v.uid ≢ draft.uid → has_name n (visitor_own_names v) ≡ false) vs =
      λ n e.
        All-without_uid (λ v. v.uid) (λ v. has_name n (visitor_own_names v) ≡ false) draft.uid vs
          (has_name-flat_map visitor_own_names n (without_uid (λ v. v.uid) draft.uid vs)
            (apart n e)) in
    All-map (λ v g d n e. g n e d) vs (All-swap wanted _ vs taken)
