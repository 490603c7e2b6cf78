-- ===== src/Address/Update.antt =====
-- interface-ip.c: addresses that are added, replaced, removed, enabled and disabled.
use netifd.Prelude.{
  List, [], ◌∷◌, Bool, true, false, not, ◌&&◌, ◌||◌, Option, none, some, ◌==◌, if◌then◌else◌,
}
use netifd.Device.Present.{same}
use netifd.Address.Log.{
  Addr, Log, Conf, address, null_route, addr_rules, table_of, needs_null_route,
  interface_handle_subnet_route, request_if,
}

-- The two cases of the loop of interface_ip_set_enabled over the addresses.
unfoldable pub enable_addr : Bool → Conf → Addr → Log → Addr × Log
unfolding interface_handle_subnet_route
enable_addr resolves c a l =
    let table = table_of c a in
    let a1 = record a { policy_table = table } in
    let l1 = (true, address a.addr) ∷ l in
    let r : Addr × Log =
      if c.metric || not (table == 0)
      then interface_handle_subnet_route resolves true a1 l1
      else (a1, l1) in
    let l2 = request_if (needs_null_route a.v6 a) true (null_route a.v6 a.net) r.1 in
    (record (r.0) { enabled = true }, request_if (not (table == 0)) true (addr_rules a.addr) l2)

unfoldable pub disable_addr : Bool → Addr → Log → Addr × Log
unfolding interface_handle_subnet_route
disable_addr resolves a l =
    let r = interface_handle_subnet_route resolves false a l in
    let l1 = (false, address a.addr) ∷ r.1 in
    let l2 = request_if (needs_null_route a.v6 a) false (null_route a.v6 a.net) l1 in
    (
      record (r.0) { enabled = false },
      request_if (not (a.policy_table == 0)) false (addr_rules a.addr) l2,
    )

unfoldable pub set_addr_enabled : Bool → Conf → Bool → Addr → Log → Addr × Log
unfolding enable_addr disable_addr
set_addr_enabled resolves c on a l =
    if a.external || same a.enabled on
    then (a, l)
    else if on
    then enable_addr resolves c a l
    else disable_addr resolves a l

-- The loop over the addresses of an interface with a layer 3 device.
unfoldable pub set_addrs_enabled : Bool → Conf → Bool → List Addr → Log → List Addr × Log
unfolding set_addr_enabled
set_addrs_enabled resolves c on [] l = ([], l)
set_addrs_enabled resolves c on (a ∷ rest) l =
    let r = set_addr_enabled resolves c on a l in
    let others = set_addrs_enabled resolves c on rest r.1 in (r.0 ∷ others.0, others.1)

-- interface_update_proto_addr, for an address whose broadcast address is filled in. An address that
-- replaces another one is kept in the kernel if nothing but its lifetimes has changed.
abbrev pub keeps_addr : Addr → Addr → Bool
keeps_addr new old =
    old.flags == new.flags
    && same old.v6 new.v6
    && same old.offlink new.offlink
    && same old.external new.external
    && not old.failed
    && (new.v6 || old.broadcast == new.broadcast && old.point_to_point == new.point_to_point)

abbrev pub replaces_addr : Addr → Addr → Bool
replaces_addr new old =
    not (old.valid_until == new.valid_until && old.preferred_until == new.preferred_until)

-- The family is not looked at yet when the old address is removed.
unfoldable pub remove_addr : Bool → Bool → Addr → Log → Log
unfolding interface_handle_subnet_route
remove_addr resolves keep a l =
    let l1 = request_if (not (a.policy_table == 0)) false (addr_rules a.addr) l in
    let l2 = (false, address a.addr) ∷ (interface_handle_subnet_route resolves false a l1).1 in
    if not a.enabled || keep
    then l
    else if a.external
    then l1
    else request_if (needs_null_route false a) false (null_route false a.net) l2

-- `fails` is the result of system_add_address.
unfoldable pub add_addr : Bool → Bool → Conf → Bool → Bool → Addr → Log → Addr × Log
unfolding interface_handle_subnet_route
add_addr resolves fails c keep replace a l =
    let table = table_of c a in
    let a1 = record a { enabled = true; policy_table = table } in
    let a2 = record a1 { failed = a.failed || fails } in
    let l1 = (true, address a.addr) ∷ l in
    let own : Addr × Log =
      if a.external
      then (a1, l)
      else if c.metric || not (table == 0)
      then interface_handle_subnet_route resolves true a2 l1
      else (a2, l1) in
    let l2 =
      request_if (not a.external && needs_null_route a.v6 a) true (null_route a.v6 a.net) own.1 in
    let l3 = request_if (not (table == 0)) true (addr_rules a.addr) l2 in
    if keep && not replace then (a1, l) else if keep then own else (own.0, l3)

unfoldable pub interface_update_proto_addr :
    Bool → Bool → Conf → Option Addr → Option Addr → Log → Option Addr × Log
unfolding remove_addr add_addr
interface_update_proto_addr resolves fails c (some new) (some old) l =
    let keep = keeps_addr new old in
    let r =
      add_addr resolves fails c keep (replaces_addr new old) new
        (remove_addr resolves keep old l) in
    (some r.0, r.1)
interface_update_proto_addr resolves fails c (some new) none l =
    let r = add_addr resolves fails c false false new l in (some r.0, r.1)
interface_update_proto_addr resolves fails c none (some old) l =
    (none, remove_addr resolves false old l)
interface_update_proto_addr resolves fails c none none l = (none, l)
