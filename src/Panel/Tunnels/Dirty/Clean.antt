-- ===== src/Panel/Tunnels/Dirty/Clean.antt =====
-- When the bar that saves the page is hidden.
use frp_manager.Base.{
  ℕ, Bool, true, false, Option, none, some, List, [], ◌∷◌, Text, ◌==◌, same, same_refl, ◌≡◌, refl,
  arith,
}
use frp_manager.Toml.Block.{Note}
use frp_manager.Toml.Tunnel.{Proxy, Visitor}
use frp_manager.Toml.Pairs.{same_rest, same_bit}
use frp_manager.Toml.Pairs.RoundTrip.{same_extras_refl}
use frp_manager.Toml.Parse.{Config}
use frp_manager.Toml.Blocks.Prep.{parse_toml}
use frp_manager.Panel.Tunnels.Page.{
  Page, Answer, take_snapshot, show_config, show_nothing, show_file, load, discard,
}
use frp_manager.Panel.Tunnels.Dirty.{
  same_list, same_option, same_note, same_proxy, same_visitor, is_snapshot, is_dirty,
}

same_list_refl {ℓ} :
    {A : Type ℓ} (eq : A → A → Bool)
    → ((x : A) → eq x x ≡ true)
    → (xs : List A) → same_list eq xs xs ≡ true
same_list_refl eq r [] = refl
same_list_refl eq r (x ∷ xs) = rw (r x, same_list_refl eq r xs) refl

same_option_refl {ℓ} :
    {A : Type ℓ} (eq : A → A → Bool)
    → ((x : A) → eq x x ≡ true)
    → (o : Option A) → same_option eq o o ≡ true
same_option_refl eq r none = refl
same_option_refl eq r (some x) = r x

eq_refl : (n : ℕ) → (n == n) ≡ true
eq_refl n = ground arith

same_bit_refl : (b : Bool) → same_bit b b ≡ true
same_bit_refl true = refl
same_bit_refl false = refl

same_note_refl : (n : Text × Note) → same_note n n ≡ true
unfolding same_note
same_note_refl (k, a) =
    rw (same_refl k, same_list_refl same same_refl a.before, same_refl a.eol) refl

same_proxy_refl : (p : Proxy) → same_proxy p p ≡ true
unfolding same_proxy same_rest
same_proxy_refl p = simp (
  eq_refl,
  same_refl,
  same_bit_refl,
  same_extras_refl,
  same_list_refl same same_refl,
  same_list_refl same_note same_note_refl,
  same_option_refl (same_list same) (same_list_refl same same_refl),
  same_option_refl (same_list same_note) (same_list_refl same_note same_note_refl),
)

same_visitor_refl : (v : Visitor) → same_visitor v v ≡ true
unfolding same_visitor
same_visitor_refl v = simp (
  eq_refl,
  same_refl,
  same_extras_refl,
  same_list_refl same same_refl,
  same_list_refl same_note same_note_refl,
)

is_snapshot_taken : (s : Page) → is_snapshot (s.proxies, s.visitors) s ≡ true
unfolding is_snapshot
is_snapshot_taken s =
    rw (same_list_refl same_proxy same_proxy_refl s.proxies)
      (same_list_refl same_visitor same_visitor_refl s.visitors)

-- a page whose snapshot has just been taken, and whose connection part is as it will be written
taken-clean :
    (may_write : Bool) (s : Page)
    → s.base_fix ≡ false
    → is_dirty may_write (take_snapshot s) ≡ false
unfolding is_dirty
taken-clean may_write s h = rw (h, is_snapshot_taken s) (ground arith)

abbrev IsTaken : Page → Type 0
IsTaken s = (p : Page) × (s ≡ take_snapshot p) × (p.base_fix ≡ false)

show_file-IsTaken :
    (cfg : Option Config) (s : Page) → s.base_fix ≡ false → IsTaken (show_file true cfg s)
unfolding show_file show_config show_nothing
show_file-IsTaken none s h = (record s { proxies = []; visitors = [] }, refl, h)
show_file-IsTaken (some cfg) s h = (show_config true cfg s, refl, refl)

discard-IsTaken : (answer : Option Answer) (s : Page) → IsTaken (discard answer s)
unfolding discard load show_nothing
discard-IsTaken none s = (discard none s, refl, refl)
discard-IsTaken (some a) s = show_file-IsTaken (parse_toml a.content) _ refl

-- After "Discard" there is nothing to save, whatever the file holds and whether it can be read: also
-- where load has taken brackets off its addresses.
pub discard-clean :
    (may_write : Bool) (answer : Option Answer) (s : Page)
    → is_dirty may_write (discard answer s) ≡ false
discard-clean may_write answer s =
    let (p, e, fixed) = discard-IsTaken answer s in rw e (taken-clean may_write p fixed)
