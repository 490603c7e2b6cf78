-- ===== src/Address/Entries.antt =====
-- interface-ip.c: routes and neighbors, and whether the kernel has them.
use netifd.Prelude.{◌≡◌, Bool, true, not, ◌&&◌, ◌||◌, some, arith}
use netifd.Device.Present.{same}
use netifd.Address.Log.{Log, installed}
use netifd.Address.Routes.{
  Route, Neighbor, IpState, route_item, neighbor_item, enable_route, interface_ip_set_route_enabled,
  interface_update_route, set_neighbor_enabled, interface_update_proto_neighbor,
}

-- The last request about the route, or the neighbor, added it exactly if it is enabled; external
-- routes are not asked for.
abbrev pub RouteFits : Log → Route → Type 0
RouteFits l r = installed (route_item r.route) l ≡ (r.enabled && not r.external)

abbrev pub NeighborFits : Log → Neighbor → Type 0
NeighborFits l x = installed (neighbor_item x.addr) l ≡ x.enabled

-- A route is switched, which is off afterwards if it is a default route that is not wanted.
pub set_route-RouteFits :
    (fails on : Bool) (ip : IpState) (r : Route) (l : Log)
    → RouteFits l r
    → let t = interface_ip_set_route_enabled fails ip on r l in
      RouteFits t.1 t.0 × ((t.0.external || same t.0.enabled (on && enable_route ip r)) ≡ true)
unfolding interface_ip_set_route_enabled
set_route-RouteFits fails on ip r l fits = (ground arith, ground arith)

-- A route takes the place of another one of the same key, which was enabled as it will be.
pub update_route-RouteFits :
    (fails : Bool) (ip : IpState) (new old : Route) (l : Log)
    → new.route ≡ old.route
    → new.external ≡ old.external
    → old.enabled ≡ enable_route ip new
    → RouteFits l old
    → let t = (interface_update_route fails ip (some new) (some old) l).1 in
      installed (route_item new.route) t ≡ (enable_route ip new && not new.external)
unfolding interface_update_route
update_route-RouteFits fails ip new old l key kind on fits = ground arith

pub set_neighbor-NeighborFits :
    (fails on : Bool) (x : Neighbor) (l : Log)
    → NeighborFits l x
    → let t = set_neighbor_enabled fails on x l in NeighborFits t.1 t.0 × (t.0.enabled ≡ on)
unfolding set_neighbor_enabled
set_neighbor-NeighborFits fails on x l fits = (ground arith, ground arith)

pub update_neighbor-NeighborFits :
    (fails : Bool) (ip : IpState) (new old : Neighbor) (l : Log)
    → new.addr ≡ old.addr
    → old.enabled ≡ ip.enabled
    → NeighborFits l old
    → let t = (interface_update_proto_neighbor fails ip (some new) (some old) l).1 in
      installed (neighbor_item new.addr) t ≡ ip.enabled
unfolding interface_update_proto_neighbor
update_neighbor-NeighborFits fails ip new old l key on fits = ground arith
