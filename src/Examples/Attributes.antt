-- ===== src/Examples/Attributes.antt =====
-- An attribute table: its MTU, address and IGMP version are accepted, its IPv6 MTU is too small.
use netifd.Prelude.{◌≡◌, refl, [], ◌∷◌, true, false, none, some}
use netifd.Settings.Defs.{DevOpt}
use netifd.Settings.Init.{Attrs, Libc, init_settings}
use netifd.Settings.Merge.{merge_settings}
use netifd.Settings.Laws.{requested, Shows, init_settings-flags, merge_settings-init_settings}
use netifd.Examples.Stores.{no_settings}

abbrev pub table : Attrs
table = record {
  enabled = none;
  mtu = some 1500;
  mtu6 = some 1000;
  txqueuelen = none;
  macaddr = some "02:00:00:00:00:01";
  ipv6 = none;
  ip6segmentrouting = none;
  promisc = none;
  rpfilter = some "strict";
  acceptlocal = none;
  igmpversion = some 3;
  mldversion = none;
  neighreachabletime = none;
  neighgcstaletime = none;
  neighlocktime = none;
  dadtransmits = none;
  multicast_to_unicast = none;
  multicast_router = none;
  multicast_fast_leave = none;
  multicast = none;
  learning = none;
  unicast_flood = none;
  sendredirects = none;
  isolate = none;
  drop_v4_unicast_in_l2_multicast = none;
  drop_v6_unicast_in_l2_multicast = none;
  drop_gratuitous_arp = none;
  drop_unsolicited_na = none;
  arp_accept = none;
  auth = some true;
  speed = none;
  duplex = none;
  ip_forwarding = none;
  ip6_forwarding = none;
  arp = none;
  ip6_accept_routing_header = none;
  ip6_hop_limit = none;
}

abbrev pub libc : Libc
libc = record {
  ether_aton = λ s. some (2 ∷ 0 ∷ 0 ∷ 0 ∷ 0 ∷ 1 ∷ []);
  strcaseeq = λ a b. false;
  system_resolve_rpfilter = λ s. some 1;
}

mtu_kept : (merge_settings (init_settings libc table no_settings).0 no_settings).mtu ≡ 1500
unfolding init_settings merge_settings
mtu_kept = refl

mtu6_refused : (init_settings libc table no_settings).0.flags DevOpt.mtu6 ≡ false
unfolding init_settings
mtu6_refused = refl

init_settings-flags_example :
    (init_settings libc table no_settings).0.flags DevOpt.rpfilter
    ≡ requested libc table DevOpt.rpfilter
init_settings-flags_example = init_settings-flags libc table no_settings DevOpt.rpfilter

merge_settings-init_settings_example :
    Shows libc table no_settings no_settings
      (merge_settings (init_settings libc table no_settings).0 no_settings)
merge_settings-init_settings_example =
    merge_settings-init_settings libc table no_settings no_settings
