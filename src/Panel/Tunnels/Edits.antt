-- ===== src/Panel/Tunnels/Edits.antt =====
-- What a user does with the two lists of tunnels.js, between a loading of the page and the next:
-- the dialogs of editProxy and editVisitor, and the deletions of removeProxy and removeVisitor.
pub mod Apart
use frp_manager.Base.{ℕ, suc, Option, none, some, List, [], ◌∷◌}
use frp_manager.Toml.Tunnel.{Proxy, Visitor}
use frp_manager.Panel.Tunnels.Names.{without_uid}
use frp_manager.Panel.Tunnels.Editor.{ProxyForm, Submitted, submit}
use frp_manager.Panel.Tunnels.Visitors.{VisitorForm, VisitorSubmitted, submit_visitor}

-- `S.proxies`, `S.visitors`, and `uidSeq` of toml.js
pub record Lists : Type 0 where
  pub proxies : List Proxy
  pub visitors : List Visitor
  pub made : ℕ

-- A click: the button of a dialog that is open for an entry, or for a new one with that `uid`; the
-- opening of a dialog for a new entry; a confirmed deletion.
pub data Click : Type 0 where
  opens_new : Click
  submits_new : ProxyForm → Click
  submits : Proxy → ProxyForm → Click
  removes : Proxy → Click
  submits_new_visitor : VisitorForm → Click
  submits_visitor : Visitor → VisitorForm → Click
  removes_visitor : Visitor → Click

-- the tunnels after `submit`; a refused draft changes none
unfoldable pub submitted : Option Proxy → ℕ → ProxyForm → List Proxy → List Proxy
submitted existing uid f ps = elim (submit existing uid f ps) [
  | Submitted.refused _ ↦ ps
  | Submitted.accepted ps' ↦ ps'
]

unfoldable pub submitted_visitor : Option Visitor → ℕ → VisitorForm → List Visitor → List Visitor
submitted_visitor existing uid f vs = elim (submit_visitor existing uid f vs) [
  | VisitorSubmitted.refused _ ↦ vs
  | VisitorSubmitted.accepted vs' ↦ vs'
]

unfoldable pub click : Click → Lists → Lists
click Click.opens_new s = record s { made = suc s.made }
click (Click.submits_new f) s = record s {
  proxies = submitted none (suc s.made) f s.proxies;
  made = suc s.made;
}
click (Click.submits p f) s = record s { proxies = submitted (some p) p.uid f s.proxies }
click (Click.removes p) s = record s { proxies = without_uid (λ q. q.uid) p.uid s.proxies }
click (Click.submits_new_visitor f) s = record s {
  visitors = submitted_visitor none (suc s.made) f s.visitors;
  made = suc s.made;
}
click (Click.submits_visitor v f) s = record s {
  visitors = submitted_visitor (some v) v.uid f s.visitors;
}
click (Click.removes_visitor v) s = record s {
  visitors = without_uid (λ w. w.uid) v.uid s.visitors;
}

unfoldable pub click_all : List Click → Lists → Lists
unfolding click
click_all [] s = s
click_all (c ∷ cs) s = click_all cs (click c s)
