-- ===== src/Panel/Tunnels/Editor/Accepted.antt =====
-- What the dialog of a tunnel accepts.
use frp_manager.Base.{
  ℕ, Bool, true, false, Option, none, some, List, [], ◌∷◌, Text, if◌then◌else◌, is_empty, same, map,
  flat_map, ◌||◌, All, All-map, All-map2, ◌≡◌, ◌≢◌, inl, inr, refl, sym, ap, subst, arith,
  Bool-cases, ◌∙◌,
}
use frp_manager.Toml.Tunnel.{Proxy, tcp_udp, frpc_names}
use frp_manager.Toml.Tunnel.Named.{IsNamed, frpc_names-All, frpc_names_own, frpc_names_pair}
use frp_manager.Panel.Tunnels.Fields.Counts.{IsCounted, port_errors-IsCounted}
use frp_manager.Panel.Tunnels.Fields.{FieldError}
use frp_manager.Panel.Tunnels.Names.{
  OnSome, find-OnSome, has_name-flat_map, All-swap, has_name, has_name-append, first_taken,
  first_taken-none, without_uid, All-without_uid, Disjoint,
}
use frp_manager.Panel.Tunnels.Editor.{
  ProxyForm, Values, values_of, kind_of, taken_by, shape_of, wanted_names, name_error, form_errors,
  FormErrors, no_errors, filled_in, submit, put_draft, draft_of, entry_of, Submitted,
}

-- the name of an entry in the list, and those that frpc gives its tunnels
abbrev pub names_of : Proxy → List Text
names_of p = p.name ∷ frpc_names p

filled_in-names :
    (draft : Proxy) (f : ProxyForm)
    → names_of (filled_in draft f) ≡ wanted_names f.type (values_of f)
unfolding filled_in wanted_names
filled_in-names draft f =
    let v = values_of f in
    ap (λ (ns : List Text). v.name ∷ ns)
      (elim (Bool-cases (same f.type tcp_udp)) [
        | inl b ↦
            frpc_names_pair (filled_in draft f) b ∙ sym (frpc_names_pair (shape_of f.type v) b)
        | inr b ↦ frpc_names_own (filled_in draft f) b ∙ sym (frpc_names_own (shape_of f.type v) b)
      ])

name_error-clash :
    (name : Text) (bad : Bool) (clash : Option Text)
    → name_error name bad clash ≡ none
    → (IsNamed name → OnSome IsNamed clash)
    → IsNamed name × (clash ≡ none)
unfolding name_error
name_error-clash name bad none h k = (ground arith, refl)
name_error-clash name bad (some n) h k =
    let named : IsNamed name = ground arith in let other = k named in absurd (ground arith)

wanted_names-All : (type : Text) (v : Values) → IsNamed v.name → All IsNamed (wanted_names type v)
unfolding wanted_names
wanted_names-All type v h = (h, frpc_names-All (shape_of type v) h)

-- an accepted name is not empty, and none of its names is taken
name_error-none :
    (type : Text) (v : Values) (bad : Bool) (taken : List Text)
    → name_error v.name bad (first_taken taken (wanted_names type v)) ≡ none
    → IsNamed v.name × Disjoint (wanted_names type v) taken
name_error-none type v bad taken h =
    let wanted = wanted_names type v in
    let (named, free) =
      name_error-clash v.name bad (first_taken taken wanted) h
        (λ k. find-OnSome IsNamed (λ n. has_name n taken) wanted (wanted_names-All type v k)) in
    (named, first_taken-none taken wanted free)

has_name-map :
    (n : Text) (ps : List Proxy)
    → has_name n (map (λ (p : Proxy). p.name) ps) ≡ false
    → All (λ p. same n p.name ≡ false) ps
has_name-map n [] h = tt
has_name-map n (p ∷ ps) h = (ground arith, has_name-map n ps (ground arith))

taken_by-All :
    (n : Text) (uid : ℕ) (ps : List Proxy)
    → has_name n (taken_by uid ps) ≡ false
    → All (λ p. p.uid ≢ uid → has_name n (names_of p) ≡ false) ps
unfolding taken_by
taken_by-All n uid ps h =
    let others = without_uid (λ p. p.uid) uid ps in
    let split : (has_name n (map (λ (p : Proxy). p.name) others)
          || has_name n (flat_map frpc_names others))
        ≡ false =
      sym (has_name-append n (map (λ (p : Proxy). p.name) others) (flat_map frpc_names others))
      ∙ h in
    All-without_uid (λ p. p.uid) (λ p. has_name n (names_of p) ≡ false) uid ps
      (All-map2 (λ p. same n p.name ≡ false) (λ p. has_name n (frpc_names p) ≡ false) _
        (λ p a b. ground arith) others (has_name-map n others (ground arith))
        (has_name-flat_map frpc_names n others (ground arith)))

-- What the checks of the dialog establish of an entry, beside its names.
pub record IsSound (p : Proxy) : Type 0 where
  pub named : IsNamed p.name
  pub addressed : is_empty p.local_ip ≡ false
  pub counted : IsCounted (kind_of p.type) p.local_port p.remote_port
  pub of_pair : same p.type tcp_udp ≡ true → is_empty p.remote_port ≡ false

abbrev IsEmpty : FormErrors → Type 0
IsEmpty e =
    (e.name ≡ none)
    × (e.local_ip ≡ none)
    × (e.local_port ≡ none)
    × (e.remote_port ≡ none)
    × (e.domains ≡ none)

no_errors-IsEmpty : (e : FormErrors) → no_errors e ≡ true → IsEmpty e
no_errors-IsEmpty e h = (ground arith, ground arith, ground arith, ground arith, ground arith)

abbrev errors_of : Option Proxy → ℕ → ProxyForm → List Proxy → FormErrors
errors_of existing uid f ps = form_errors existing (draft_of existing uid).uid f ps

submit-inv :
    (existing : Option Proxy) (uid : ℕ) (f : ProxyForm) (ps ps' : List Proxy)
    → submit existing uid f ps ≡ Submitted.accepted ps'
    → IsEmpty (errors_of existing uid f ps)
      × (ps' ≡ put_draft existing (entry_of existing uid f) ps)
unfolding submit
submit-inv existing uid f ps ps' h =
    let errors = errors_of existing uid f ps in
    elim (Bool-cases (no_errors errors)) [
      | inl e ↦ (no_errors-IsEmpty errors e, cc (rw e at h))
      | inr e ↦ absurd (cc (rw e at h))
    ]

passed :
    (b : Bool) (e : FieldError) (o : Option FieldError)
    → (if b then some e else o) ≡ none
    → o ≡ none
passed true e o h = absurd (ground arith)
passed false e o h = h

filled_in-IsSound :
    (draft : Proxy) (existing : Option Proxy) (n : ℕ) (f : ProxyForm) (ps : List Proxy)
    → IsEmpty (form_errors existing n f ps)
    → IsSound (filled_in draft f)
unfolding form_errors filled_in
filled_in-IsSound draft existing n f ps (e1, e2, e3, e4, e5) =
    let v = values_of f in
    record {
      named = (name_error-none f.type v _ (taken_by n ps) e1).0;
      addressed = ground arith;
      counted =
          port_errors-IsCounted (kind_of f.type) v.local_port v.remote_port (e3, passed _ _ _ e4);
      of_pair = λ b. ground arith;
    }

-- A tunnel that the dialog accepts has a name and a local address, ports that portErrors accepts for
-- its type and, where it is a "TCP + UDP" entry, a public port; the new list is the old one with it
-- in its place.
pub submit-IsSound :
    (existing : Option Proxy) (uid : ℕ) (f : ProxyForm) (ps ps' : List Proxy)
    → submit existing uid f ps ≡ Submitted.accepted ps'
    → IsSound (entry_of existing uid f) × (ps' ≡ put_draft existing (entry_of existing uid f) ps)
submit-IsSound existing uid f ps ps' h =
    let (free, put) = submit-inv existing uid f ps ps' h in
    (filled_in-IsSound (draft_of existing uid) existing _ f ps free, put)

free-Disjoint :
    (existing : Option Proxy) (n : ℕ) (f : ProxyForm) (ps : List Proxy)
    → IsEmpty (form_errors existing n f ps)
    → Disjoint (wanted_names f.type (values_of f)) (taken_by n ps)
unfolding form_errors
free-Disjoint existing n f ps free =
    let v = values_of f in (name_error-none f.type v _ (taken_by n ps) free.0).1

-- the names of an accepted entry and those of the other entries
pub submit-Disjoint :
    (existing : Option Proxy) (uid : ℕ) (f : ProxyForm) (ps ps' : List Proxy)
    → submit existing uid f ps ≡ Submitted.accepted ps'
    → All
        (λ p.
          p.uid ≢ (draft_of existing uid).uid
          → Disjoint (names_of (entry_of existing uid f)) (names_of p))
        ps
submit-Disjoint existing uid f ps ps' h =
    let draft = draft_of existing uid in
    let (free, _) = submit-inv existing uid f ps ps' h in
    let apart : Disjoint (names_of (filled_in draft f)) (taken_by draft.uid ps) =
      subst (λ ns. Disjoint ns (taken_by draft.uid ps)) (sym (filled_in-names draft f))
        (free-Disjoint existing draft.uid f ps free) in
    let taken : (n : Text)
        → has_name n (names_of (filled_in draft f)) ≡ true
        → All (λ p. p.uid ≢ draft.uid → has_name n (names_of p) ≡ false) ps =
      λ n e. taken_by-All n draft.uid ps (apart n e) in
    All-map (λ p g d n e. g n e d) ps (All-swap (names_of (filled_in draft f)) _ ps taken)
