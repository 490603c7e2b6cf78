-- ===== src/Examples/Subnets.antt =====
-- interface-ip.c: an IPv4 address and an IPv6 address whose subnet is off-link; routes and neighbors.
use netifd.Prelude.{◌≡◌, refl, List, [], ◌∷◌, true, false, ◌||◌, none, some, All}
use netifd.Device.Present.{same}
use netifd.Address.Log.{Addr, Log, Conf, address, null_route, addr_rules, installed}
use netifd.Address.Update.{set_addrs_enabled, interface_update_proto_addr}
use netifd.Address.Enabling.{Mirrors, set_addrs_enabled-Mirrors}
use netifd.Address.Removing.{removed_addr_left}
use netifd.Address.Routes.{Route, Neighbor}
use netifd.Address.Entries.{RouteFits, NeighborFits}
use netifd.Address.Switch.{Results, set_entries_enabled}
use netifd.Address.Switched.{RouteAsAsked, NeighborAsAsked, set_entries_enabled-Fits}

abbrev four : Addr
four = record {
  addr = 1;
  net = 1;
  mask = 24;
  flags = 0;
  v6 = false;
  offlink = false;
  external = false;
  enabled = false;
  failed = false;
  policy_table = 0;
  subnet_set = false;
  broadcast = 255;
  point_to_point = 0;
  valid_until = 0;
  preferred_until = 0;
}

abbrev six : Addr
six = record four { addr = 2; net = 2; mask = 64; v6 = true; offlink = true }

abbrev metric_only : Conf
metric_only = record { metric = true; ip4table = 0; ip6table = 0 }

abbrev both_on : List Addr × Log
both_on = set_addrs_enabled true metric_only true (four ∷ six ∷ []) []

four_off : Mirrors [] four
four_off = record {
  own = refl;
  nulls = refl;
  rules = refl;
  subnet = refl;
  no_subnet = refl;
  offlink_none = refl;
}

six_off : Mirrors [] six
six_off = record {
  own = refl;
  nulls = refl;
  rules = refl;
  subnet = refl;
  no_subnet = refl;
  offlink_none = refl;
}

set_addrs_enabled-Mirrors_example :
    All (λ (a : Addr). Mirrors both_on.1 a × ((a.external || same a.enabled true) ≡ true)) both_on.0
set_addrs_enabled-Mirrors_example =
    set_addrs_enabled-Mirrors true metric_only true (four ∷ six ∷ []) []
      (((refl, refl), tt), (tt, tt)) (four_off, (six_off, tt))

abbrev six_log : Log
six_log = (true, null_route true 2) ∷ (true, address 2) ∷ []

abbrev six_on : Addr
six_on = record six { enabled = true }

six-Mirrors : Mirrors six_log six_on
six-Mirrors = record {
  own = refl;
  nulls = refl;
  rules = refl;
  subnet = refl;
  no_subnet = refl;
  offlink_none = refl;
}

abbrev six_gone : Log
six_gone = (interface_update_proto_addr true false metric_only none (some six_on) six_log).1

-- The null route stays.
removed_addr_left_example :
    (installed (address 2) six_gone ≡ false)
    × ((installed (addr_rules 2) six_gone ≡ false)
        × (installed (null_route true 2) six_gone ≡ true))
removed_addr_left_example = removed_addr_left true false metric_only six_on six_log six-Mirrors

-- A default route, which is not wanted, and another one, which the kernel refuses.
abbrev default_route : Route
default_route = record {
  route = 0;
  mask = 0;
  external = false;
  enabled = false;
  failed = false;
  nexthop = 1;
  mtu = 1500;
  rt_type = 1;
  proto = 4;
}

abbrev subnet : Route
subnet = record default_route { route = 1; mask = 24 }

abbrev router : Neighbor
router = record {
  addr = 1;
  macaddr = 7;
  proxy = false;
  router = true;
  enabled = false;
  failed = false;
}

abbrev refusing : Results
refusing = record { route_fails = λ r. true; neighbor_fails = λ a. false }

abbrev switched_on : List Route × (List Neighbor × Log)
switched_on = set_entries_enabled refusing true true (default_route ∷ subnet ∷ []) (router ∷ []) []

set_entries_enabled-Fits_example :
    All (λ (r : Route). RouteFits switched_on.1.1 r × RouteAsAsked true true r) switched_on.0
    × All
        (λ (x : Neighbor). NeighborFits switched_on.1.1 x × NeighborAsAsked true x)
        switched_on.1.0
set_entries_enabled-Fits_example =
    set_entries_enabled-Fits refusing true true (default_route ∷ subnet ∷ []) (router ∷ []) []
      ((refl, tt), (tt, tt)) (tt, tt) (refl, (refl, tt)) (refl, tt)
