-- ===== src/Address/Switch.antt =====
-- interface-ip.c: the loops of interface_ip_set_enabled over the routes and the neighbors.
use netifd.Prelude.{ℕ, List, [], ◌∷◌, Bool}
use netifd.Address.Log.{Log}
use netifd.Address.Routes.{
  Route, Neighbor, IpState, interface_ip_set_route_enabled, set_neighbor_enabled,
}

-- vlist_for_each_element
abbrev pub each_entry : {A : Type 0} → (A → Log → A × Log) → List A → Log → List A × Log
each_entry f [] l = ([], l)
each_entry f (a ∷ rest) l = let r = f a l in let t = each_entry f rest r.1 in (r.0 ∷ t.0, t.1)

-- The results of system_add_route and system_add_neighbor, by what is added.
pub record Results : Type 0 where
  pub route_fails : ℕ → Bool
  pub neighbor_fails : ℕ → Bool

abbrev pub switch_route : Results → Bool → Bool → Route → Log → Route × Log
switch_route sys no_default on r l =
    let ip : IpState = record { enabled = on; no_defaultroute = no_default } in
    interface_ip_set_route_enabled (sys.route_fails r.route) ip on r l

abbrev pub switch_neighbor : Results → Bool → Neighbor → Log → Neighbor × Log
switch_neighbor sys on x l = set_neighbor_enabled (sys.neighbor_fails x.addr) on x l

-- `routes` are those of the settings, with the host routes of the interface behind them if these
-- are its proto_ip. The interface has a device.
unfoldable pub set_entries_enabled :
    Results
    → (no_default on : Bool) → List Route
    → List Neighbor
    → Log
    → List Route × (List Neighbor × Log)
set_entries_enabled sys no_default on routes neighbors l =
    let r = each_entry (switch_route sys no_default on) routes l in
    let x = each_entry (switch_neighbor sys on) neighbors r.1 in (r.0, (x.0, x.1))
