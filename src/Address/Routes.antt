-- ===== src/Address/Routes.antt =====
-- interface-ip.c: the routes and the neighbors of an interface.
use netifd.Prelude.{
  ℕ, ◌∷◌, Bool, true, false, not, ◌&&◌, ◌||◌, Option, none, some, ◌==◌, if◌then◌else◌,
}
use netifd.Device.Present.{same}
use netifd.Address.Log.{Item, Log}

-- struct device_route. `route` stands for all by which routes are told apart.
pub record Route : Type 0 where
  pub route : ℕ
  pub mask : ℕ
  pub external : Bool
  pub enabled : Bool
  pub failed : Bool
  pub nexthop : ℕ
  pub mtu : ℕ
  pub rt_type : ℕ
  pub proto : ℕ

pub record Neighbor : Type 0 where
  pub addr : ℕ
  pub macaddr : ℕ
  pub proxy : Bool
  pub router : Bool
  pub enabled : Bool
  pub failed : Bool

-- The settings of struct interface_ip_settings that the two ask for.
pub record IpState : Type 0 where
  pub enabled : Bool
  pub no_defaultroute : Bool

abbrev pub route_item : ℕ → Item
route_item k = (5, k)

abbrev pub neighbor_item : ℕ → Item
neighbor_item k = (6, k)

abbrev pub enable_route : IpState → Route → Bool
enable_route ip r = if ip.no_defaultroute && r.mask == 0 then false else ip.enabled

-- `fails` is the result of system_add_route.
unfoldable pub interface_ip_set_route_enabled : Bool → IpState → Bool → Route → Log → Route × Log
interface_ip_set_route_enabled fails ip on r l =
    let on1 = on && enable_route ip r in
    let failed = r.failed || on1 && fails in
    if r.external || same r.enabled on1
    then (r, l)
    else (record r { enabled = on1; failed = failed }, (on1, route_item r.route) ∷ l)

abbrev pub keeps_route : Route → Route → Bool
keeps_route new old =
    old.nexthop == new.nexthop
    && old.mtu == new.mtu
    && old.rt_type == new.rt_type
    && old.proto == new.proto
    && not old.failed

abbrev pub remove_route : Bool → Route → Log → Log
remove_route keep old l =
    if not old.external && old.enabled && not keep then (false, route_item old.route) ∷ l else l

abbrev pub add_route : Bool → IpState → Bool → Route → Log → Route × Log
add_route fails ip keep new l =
    let on = enable_route ip new in
    if not new.external && not keep && on
    then (
      record new { enabled = on; failed = new.failed || fails },
      (true, route_item new.route) ∷ l,
    )
    else (record new { enabled = on }, l)

-- __interface_update_route
unfoldable pub interface_update_route :
    Bool → IpState → Option Route → Option Route → Log → Option Route × Log
interface_update_route fails ip (some new) (some old) l =
    let keep = keeps_route new old in
    let r = add_route fails ip keep new (remove_route keep old l) in (some r.0, r.1)
interface_update_route fails ip (some new) none l =
    let r = add_route fails ip false new l in (some r.0, r.1)
interface_update_route fails ip none (some old) l = (none, remove_route false old l)
interface_update_route fails ip none none l = (none, l)

-- The loop of interface_ip_set_enabled over the neighbors, for one of them.
unfoldable pub set_neighbor_enabled : Bool → Bool → Neighbor → Log → Neighbor × Log
set_neighbor_enabled fails on x l = if same x.enabled on then (x, l) else (
  record x { enabled = on; failed = x.failed || on && fails },
  (on, neighbor_item x.addr) ∷ l,
)

abbrev pub keeps_neighbor : Neighbor → Neighbor → Bool
keeps_neighbor new old =
    old.macaddr == new.macaddr && same old.proxy new.proxy && same old.router new.router

abbrev pub remove_neighbor : Bool → Neighbor → Log → Log
remove_neighbor keep old l =
    if not keep && old.enabled then (false, neighbor_item old.addr) ∷ l else l

abbrev pub add_neighbor : Bool → IpState → Bool → Neighbor → Log → Neighbor × Log
add_neighbor fails ip keep new l =
    if not keep && ip.enabled
    then (
      record new { enabled = true; failed = new.failed || fails },
      (true, neighbor_item new.addr) ∷ l,
    )
    else (record new { enabled = ip.enabled }, l)

unfoldable pub interface_update_proto_neighbor :
    Bool → IpState → Option Neighbor → Option Neighbor → Log → Option Neighbor × Log
interface_update_proto_neighbor fails ip (some new) (some old) l =
    let keep = keeps_neighbor new old in
    let r = add_neighbor fails ip keep new (remove_neighbor keep old l) in (some r.0, r.1)
interface_update_proto_neighbor fails ip (some new) none l =
    let r = add_neighbor fails ip false new l in (some r.0, r.1)
interface_update_proto_neighbor fails ip none (some old) l = (none, remove_neighbor false old l)
interface_update_proto_neighbor fails ip none none l = (none, l)
