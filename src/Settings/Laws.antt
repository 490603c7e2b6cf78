-- ===== src/Settings/Laws.antt =====
-- What a configuration leads to: which options are set, and what the device shows for them.
use netifd.Prelude.{◌≡◌, Bool, false, leb, arith}
use netifd.Settings.Defs.{DevOpt, Settings}
use netifd.Settings.Init.{
  Attrs, Libc, is_some, or_old, keep_if, and_then, in_range, routing_header, init_settings,
}
use netifd.Settings.Merge.{merge_settings}

-- Which options a table asks for with a value that the daemon takes.
abbrev pub requested : Libc → Attrs → DevOpt → Bool
requested c tb DevOpt.mtu = is_some (keep_if (leb 68) tb.mtu)
requested c tb DevOpt.macaddr = is_some (and_then tb.macaddr c.ether_aton)
requested c tb DevOpt.txqueuelen = is_some tb.txqueuelen
requested c tb DevOpt.ipv6 = is_some tb.ipv6
requested c tb DevOpt.promisc = is_some tb.promisc
requested c tb DevOpt.rpfilter = is_some (and_then tb.rpfilter c.system_resolve_rpfilter)
requested c tb DevOpt.acceptlocal = is_some tb.acceptlocal
requested c tb DevOpt.igmpversion = is_some (keep_if (in_range 1 3) tb.igmpversion)
requested c tb DevOpt.mldversion = is_some (keep_if (in_range 1 2) tb.mldversion)
requested c tb DevOpt.neighreachabletime = is_some tb.neighreachabletime
requested c tb DevOpt.default_macaddr = false
requested c tb DevOpt.auth = is_some tb.auth
requested c tb DevOpt.mtu6 = is_some (keep_if (leb 1280) tb.mtu6)
requested c tb DevOpt.dadtransmits = is_some tb.dadtransmits
requested c tb DevOpt.multicast_to_unicast = is_some tb.multicast_to_unicast
requested c tb DevOpt.multicast_router = is_some (keep_if (λ n. leb n 2) tb.multicast_router)
requested c tb DevOpt.multicast = is_some tb.multicast
requested c tb DevOpt.learning = is_some tb.learning
requested c tb DevOpt.unicast_flood = is_some tb.unicast_flood
requested c tb DevOpt.neighgcstaletime = is_some tb.neighgcstaletime
requested c tb DevOpt.multicast_fast_leave = is_some tb.multicast_fast_leave
requested c tb DevOpt.sendredirects = is_some tb.sendredirects
requested c tb DevOpt.neighlocktime = is_some tb.neighlocktime
requested c tb DevOpt.isolate = is_some tb.isolate
requested c tb DevOpt.ip6segmentrouting = is_some tb.ip6segmentrouting
requested c tb DevOpt.drop_v4_unicast_in_l2_multicast = is_some tb.drop_v4_unicast_in_l2_multicast
requested c tb DevOpt.drop_v6_unicast_in_l2_multicast = is_some tb.drop_v6_unicast_in_l2_multicast
requested c tb DevOpt.drop_gratuitous_arp = is_some tb.drop_gratuitous_arp
requested c tb DevOpt.drop_unsolicited_na = is_some tb.drop_unsolicited_na
requested c tb DevOpt.arp_accept = is_some tb.arp_accept
requested c tb DevOpt.speed = is_some tb.speed
requested c tb DevOpt.duplex = is_some tb.duplex
requested c tb DevOpt.ip_forwarding = is_some tb.ip_forwarding
requested c tb DevOpt.ip6_forwarding = is_some tb.ip6_forwarding
requested c tb DevOpt.arp = is_some tb.arp
requested c tb DevOpt.ip6_accept_routing_header =
    is_some (and_then tb.ip6_accept_routing_header (routing_header c))
requested c tb DevOpt.ip6_hop_limit = is_some tb.ip6_hop_limit

-- After device_init_settings the flag of an option is set exactly if its attribute is there with a
-- value that the code accepts, whatever was set before; the flag of the default address is always
-- clear.
pub init_settings-flags :
    (c : Libc) (tb : Attrs) (s : Settings) (o : DevOpt)
    → (init_settings c tb s).0.flags o ≡ requested c tb o
unfolding init_settings
init_settings-flags c tb s DevOpt.mtu = ground arith
init_settings-flags c tb s _ = ground arith

-- What a status dump reads from the merged settings `n`: the configured value of each option that
-- was accepted, and for every other option the value that the device had on its own (`os`).
-- Five bridge port options have no value of the device's own and show the daemon's (`s`).
pub record Shows (c : Libc) (tb : Attrs) (s os n : Settings) : Type 0 where
  pub mtu : n.mtu ≡ or_old (keep_if (leb 68) tb.mtu) os.mtu
  pub mtu6 : n.mtu6 ≡ or_old (keep_if (leb 1280) tb.mtu6) os.mtu6
  pub txqueuelen : n.txqueuelen ≡ or_old tb.txqueuelen os.txqueuelen
  pub macaddr : n.macaddr ≡ or_old (and_then tb.macaddr c.ether_aton) os.macaddr
  pub ipv6 : n.ipv6 ≡ or_old tb.ipv6 os.ipv6
  pub promisc : n.promisc ≡ or_old tb.promisc os.promisc
  pub rpfilter : n.rpfilter ≡ or_old (and_then tb.rpfilter c.system_resolve_rpfilter) os.rpfilter
  pub acceptlocal : n.acceptlocal ≡ or_old tb.acceptlocal os.acceptlocal
  pub igmpversion : n.igmpversion ≡ or_old (keep_if (in_range 1 3) tb.igmpversion) os.igmpversion
  pub mldversion : n.mldversion ≡ or_old (keep_if (in_range 1 2) tb.mldversion) os.mldversion
  pub neigh4reachabletime :
      n.neigh4reachabletime ≡ or_old tb.neighreachabletime os.neigh4reachabletime
  pub neigh6reachabletime :
      n.neigh6reachabletime ≡ or_old tb.neighreachabletime os.neigh6reachabletime
  pub neigh4gcstaletime : n.neigh4gcstaletime ≡ or_old tb.neighgcstaletime os.neigh4gcstaletime
  pub neigh6gcstaletime : n.neigh6gcstaletime ≡ or_old tb.neighgcstaletime os.neigh6gcstaletime
  pub neigh4locktime : n.neigh4locktime ≡ or_old tb.neighlocktime os.neigh4locktime
  pub dadtransmits : n.dadtransmits ≡ or_old tb.dadtransmits os.dadtransmits
  pub multicast_to_unicast :
      n.multicast_to_unicast ≡ or_old tb.multicast_to_unicast s.multicast_to_unicast
  pub multicast_router : n.multicast_router ≡ or_old tb.multicast_router s.multicast_router
  pub multicast_fast_leave :
      n.multicast_fast_leave ≡ or_old tb.multicast_fast_leave s.multicast_fast_leave
  pub multicast : n.multicast ≡ or_old tb.multicast os.multicast
  pub learning : n.learning ≡ or_old tb.learning s.learning
  pub unicast_flood : n.unicast_flood ≡ or_old tb.unicast_flood s.unicast_flood
  pub sendredirects : n.sendredirects ≡ or_old tb.sendredirects os.sendredirects
  pub ip6segmentrouting : n.ip6segmentrouting ≡ or_old tb.ip6segmentrouting os.ip6segmentrouting
  pub drop_v4_unicast_in_l2_multicast :
      n.drop_v4_unicast_in_l2_multicast
      ≡ or_old tb.drop_v4_unicast_in_l2_multicast os.drop_v4_unicast_in_l2_multicast
  pub drop_v6_unicast_in_l2_multicast :
      n.drop_v6_unicast_in_l2_multicast
      ≡ or_old tb.drop_v6_unicast_in_l2_multicast os.drop_v6_unicast_in_l2_multicast
  pub drop_gratuitous_arp :
      n.drop_gratuitous_arp ≡ or_old tb.drop_gratuitous_arp os.drop_gratuitous_arp
  pub drop_unsolicited_na :
      n.drop_unsolicited_na ≡ or_old tb.drop_unsolicited_na os.drop_unsolicited_na
  pub arp_accept : n.arp_accept ≡ or_old tb.arp_accept os.arp_accept
  pub auth : n.auth ≡ or_old tb.auth os.auth
  pub speed : n.speed ≡ or_old tb.speed os.speed
  pub duplex : n.duplex ≡ or_old tb.duplex os.duplex
  pub ip_forwarding : n.ip_forwarding ≡ or_old tb.ip_forwarding os.ip_forwarding
  pub ip6_forwarding : n.ip6_forwarding ≡ or_old tb.ip6_forwarding os.ip6_forwarding
  pub arp : n.arp ≡ or_old tb.arp os.arp
  pub accept_routing_header :
      n.accept_routing_header
      ≡ or_old (and_then tb.ip6_accept_routing_header (routing_header c)) os.accept_routing_header
  pub isolate : n.isolate ≡ false
  pub hop_limit : n.hop_limit ≡ or_old tb.ip6_hop_limit os.hop_limit

-- After a device is configured from an attribute table, the merged settings show, for each option
-- but isolate and the five below, the configured value if the attribute is there and accepted, and
-- otherwise the device's own value. isolate is not merged, and they always show it as off. For
-- multicast_to_unicast, multicast_router, multicast_fast_leave, learning and unicast_flood, of
-- which the device has no own value, they show the daemon's.
pub merge_settings-init_settings :
    (c : Libc) (tb : Attrs) (s os : Settings)
    → Shows c tb s os (merge_settings (init_settings c tb s).0 os)
unfolding init_settings merge_settings
merge_settings-init_settings c tb s os = record {
  mtu = ground arith;
  mtu6 = ground arith;
  txqueuelen = ground arith;
  macaddr = ground arith;
  ipv6 = ground arith;
  promisc = ground arith;
  rpfilter = ground arith;
  acceptlocal = ground arith;
  igmpversion = ground arith;
  mldversion = ground arith;
  neigh4reachabletime = ground arith;
  neigh6reachabletime = ground arith;
  neigh4gcstaletime = ground arith;
  neigh6gcstaletime = ground arith;
  neigh4locktime = ground arith;
  dadtransmits = ground arith;
  multicast_to_unicast = ground arith;
  multicast_router = ground arith;
  multicast_fast_leave = ground arith;
  multicast = ground arith;
  learning = ground arith;
  unicast_flood = ground arith;
  sendredirects = ground arith;
  ip6segmentrouting = ground arith;
  drop_v4_unicast_in_l2_multicast = ground arith;
  drop_v6_unicast_in_l2_multicast = ground arith;
  drop_gratuitous_arp = ground arith;
  drop_unsolicited_na = ground arith;
  arp_accept = ground arith;
  auth = ground arith;
  speed = ground arith;
  duplex = ground arith;
  ip_forwarding = ground arith;
  ip6_forwarding = ground arith;
  arp = ground arith;
  accept_routing_header = ground arith;
  isolate = ground arith;
  hop_limit = ground arith;
}
