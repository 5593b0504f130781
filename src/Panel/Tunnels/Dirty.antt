-- ===== src/Panel/Tunnels/Dirty.antt =====
-- isDirty and stateOf of tunnels.js. The texts that `JSON.stringify` makes are compared field by
-- field: an entry that is edited keeps the order of its fields.
pub mod Clean
use frp_manager.Base.{
  ℕ, Bool, true, false, not, ◌&&◌, ◌||◌, Option, none, some, List, [], ◌∷◌, Text, ◌==◌,
  if◌then◌else◌, find, same,
}
use frp_manager.Base.Dict.{Dict}
use frp_manager.Toml.Block.{Note, Notes}
use frp_manager.Toml.Tunnel.{Proxy, Visitor}
use frp_manager.Toml.Pairs.{same_rest, same_extras}
use frp_manager.Panel.Tunnels.Page.{Page}

abbrev pub same_list {ℓ} : {A : Type ℓ} → (A → A → Bool) → List A → List A → Bool
same_list eq [] [] = true
same_list eq (x ∷ xs) (y ∷ ys) = eq x y && same_list eq xs ys
same_list eq _ _ = false

abbrev pub same_option {ℓ} : {A : Type ℓ} → (A → A → Bool) → Option A → Option A → Bool
same_option eq none none = true
same_option eq (some x) (some y) = eq x y
same_option eq _ _ = false

unfoldable pub same_note : Text × Note → Text × Note → Bool
unfolding same
same_note (k, a) (l, b) = same k l && same_list same a.before b.before && same a.eol b.eol

unfoldable pub same_proxy : Proxy → Proxy → Bool
unfolding same same_rest
same_proxy p q =
    p.uid == q.uid
    && same p.name q.name
    && same p.type q.type
    && same_rest p q
    && same_list same p.comments q.comments
    && same_list same_note p.notes q.notes
    && same_option (same_list same) p.udp_comments q.udp_comments
    && same_option (same_list same_note) p.udp_notes q.udp_notes

unfoldable pub same_visitor : Visitor → Visitor → Bool
unfolding same
same_visitor v w =
    v.uid == w.uid
    && same v.name w.name
    && same v.type w.type
    && same v.server_name w.server_name
    && same v.secret_key w.secret_key
    && same v.bind_addr w.bind_addr
    && same v.bind_port w.bind_port
    && same v.server_ports w.server_ports
    && same_extras v.extras w.extras
    && same_list same v.comments w.comments
    && same_list same_note v.notes w.notes

-- `snapshotOf() === S.snapshot`
unfoldable pub is_snapshot : List Proxy × List Visitor → Page → Bool
unfolding same_proxy same_visitor
is_snapshot (ps, vs) s = same_list same_proxy ps s.proxies && same_list same_visitor vs s.visitors

-- `isDirty`, where `may_write` is the answer of `can`
unfoldable pub is_dirty : Bool → Page → Bool
unfolding is_snapshot
is_dirty may_write s =
    may_write
    && elim s.snapshot [ none ↦ false | some before ↦ s.base_fix || not (is_snapshot before s) ]

-- the mark of an entry
pub data Mark : Type 0 where
  fresh : Mark
  unchanged : Mark
  changed : Mark

abbrev pub mark_of {ℓ} : {A : Type ℓ} → (A → A → Bool) → Option A → A → Mark
mark_of eq none item = Mark.fresh
mark_of eq (some before) item = if eq before item then Mark.unchanged else Mark.changed

-- `stateOf(item, 'proxies')` and `stateOf(item, 'visitors')`
unfoldable pub state_of_proxy : Page → Proxy → Mark
unfolding same_proxy
state_of_proxy s p =
    let original : List Proxy = elim s.snapshot [ none ↦ [] | some before ↦ before.0 ] in
    mark_of same_proxy (find (λ o. o.uid == p.uid) original) p

unfoldable pub state_of_visitor : Page → Visitor → Mark
unfolding same_visitor
state_of_visitor s v =
    let original : List Visitor = elim s.snapshot [ none ↦ [] | some before ↦ before.1 ] in
    mark_of same_visitor (find (λ o. o.uid == v.uid) original) v
