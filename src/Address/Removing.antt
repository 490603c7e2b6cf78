-- ===== src/Address/Removing.antt =====
-- interface-ip.c: what is left of an address that is removed.
use netifd.Prelude.{◌≡◌, Bool, false, not, ◌&&◌, none, some, arith}
use netifd.Address.Log.{
  Addr, Log, Conf, address, null_route, addr_rules, installed, needs_null_route,
  interface_handle_subnet_route,
}
use netifd.Address.Update.{remove_addr, interface_update_proto_addr}
use netifd.Address.Enabling.{Mirrors}

-- After an address is removed, no request is left that added the address or its rules and was not
-- followed by their deletion, if the requests fitted the address before; an external address, which
-- others have added to the kernel, is not deleted there. The last request about its null route is
-- no addition either if it is an IPv4 address; that of an enabled off-link IPv6 address that is not
-- external and shorter than 128 bits is still added.
pub removed_addr_left :
    (resolves fails : Bool) (c : Conf) (a : Addr) (l : Log)
    → Mirrors l a
    → let k = (interface_update_proto_addr resolves fails c none (some a) l).1 in
      (installed (address a.addr) k ≡ false)
      × ((installed (addr_rules a.addr) k ≡ false)
          × (installed (null_route a.v6 a.net) k
              ≡ (a.v6 && (a.enabled && not a.external && needs_null_route a.v6 a))))
unfolding interface_update_proto_addr remove_addr interface_handle_subnet_route
removed_addr_left resolves fails c a l m = (ground arith, (ground arith, ground arith))
