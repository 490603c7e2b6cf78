-- ===== src/System/Setters.antt =====
-- system-linux.c: the setters of single kernel options. A setter is the write that it
-- asks for, a path and a text.
use netifd.Prelude.Int.{ℤ}
use netifd.Utils.Netmask.{Text}
use netifd.System.Text.{print_int}
use netifd.System.Kernel.{
  FilePath, Directory, Owner, File, dev_sysctl_path, dev_sysfs_path, ipv4_conf, ipv6_conf,
  ipv4_neigh, ipv6_neigh, disable_ipv6, seg6_enabled, rp_filter, accept_local, force_igmp_version,
  force_mld_version, base_reachable_time_ms, gc_stale_time, locktime, dad_transmits, send_redirects,
  drop_unicast_in_l2_multicast, drop_gratuitous_arp, drop_unsolicited_na, arp_accept, forwarding,
  hop_limit, accept_source_route, multicast_to_unicast, multicast_fast_leave, hairpin_mode,
  proxyarp_wifi, bpdu_filter, isolated, multicast_router, learning, unicast_flood,
}

pub record Write : Type 0 where
  pub path : FilePath
  pub text : Text

abbrev system_set_dev_sysctl : Directory → File → Owner → Text → Write
system_set_dev_sysctl prefix file ifname val = record {
  path = dev_sysctl_path prefix ifname file;
  text = val;
}

abbrev pub system_set_disable_ipv6 : Owner → Text → Write
system_set_disable_ipv6 dev val = system_set_dev_sysctl ipv6_conf disable_ipv6 dev val

abbrev pub system_set_ip6segmentrouting : Owner → Text → Write
system_set_ip6segmentrouting dev val = system_set_dev_sysctl ipv6_conf seg6_enabled dev val

abbrev pub system_set_rpfilter : Owner → Text → Write
system_set_rpfilter dev val = system_set_dev_sysctl ipv4_conf rp_filter dev val

abbrev pub system_set_acceptlocal : Owner → Text → Write
system_set_acceptlocal dev val = system_set_dev_sysctl ipv4_conf accept_local dev val

abbrev pub system_set_igmpversion : Owner → Text → Write
system_set_igmpversion dev val = system_set_dev_sysctl ipv4_conf force_igmp_version dev val

abbrev pub system_set_mldversion : Owner → Text → Write
system_set_mldversion dev val = system_set_dev_sysctl ipv6_conf force_mld_version dev val

abbrev pub system_set_neigh4reachabletime : Owner → Text → Write
system_set_neigh4reachabletime dev val =
    system_set_dev_sysctl ipv4_neigh base_reachable_time_ms dev val

abbrev pub system_set_neigh6reachabletime : Owner → Text → Write
system_set_neigh6reachabletime dev val =
    system_set_dev_sysctl ipv6_neigh base_reachable_time_ms dev val

abbrev pub system_set_neigh4gcstaletime : Owner → Text → Write
system_set_neigh4gcstaletime dev val = system_set_dev_sysctl ipv4_neigh gc_stale_time dev val

abbrev pub system_set_neigh6gcstaletime : Owner → Text → Write
system_set_neigh6gcstaletime dev val = system_set_dev_sysctl ipv6_neigh gc_stale_time dev val

abbrev pub system_set_neigh4locktime : Owner → Text → Write
system_set_neigh4locktime dev val = system_set_dev_sysctl ipv4_neigh locktime dev val

abbrev pub system_set_dadtransmits : Owner → Text → Write
system_set_dadtransmits dev val = system_set_dev_sysctl ipv6_conf dad_transmits dev val

abbrev pub system_set_sendredirects : Owner → Text → Write
system_set_sendredirects dev val = system_set_dev_sysctl ipv4_conf send_redirects dev val

abbrev pub system_set_drop_v4_unicast_in_l2_multicast : Owner → Text → Write
system_set_drop_v4_unicast_in_l2_multicast dev val =
    system_set_dev_sysctl ipv4_conf drop_unicast_in_l2_multicast dev val

abbrev pub system_set_drop_v6_unicast_in_l2_multicast : Owner → Text → Write
system_set_drop_v6_unicast_in_l2_multicast dev val =
    system_set_dev_sysctl ipv6_conf drop_unicast_in_l2_multicast dev val

abbrev pub system_set_drop_gratuitous_arp : Owner → Text → Write
system_set_drop_gratuitous_arp dev val = system_set_dev_sysctl ipv4_conf drop_gratuitous_arp dev val

abbrev pub system_set_drop_unsolicited_na : Owner → Text → Write
system_set_drop_unsolicited_na dev val = system_set_dev_sysctl ipv6_conf drop_unsolicited_na dev val

abbrev pub system_set_arp_accept : Owner → Text → Write
system_set_arp_accept dev val = system_set_dev_sysctl ipv4_conf arp_accept dev val

abbrev pub system_set_ip_forwarding : Owner → Text → Write
system_set_ip_forwarding dev val = system_set_dev_sysctl ipv4_conf forwarding dev val

abbrev pub system_set_ip6_forwarding : Owner → Text → Write
system_set_ip6_forwarding dev val = system_set_dev_sysctl ipv6_conf forwarding dev val

abbrev pub system_set_ip6_hop_limit : Owner → Text → Write
system_set_ip6_hop_limit dev val = system_set_dev_sysctl ipv6_conf hop_limit dev val

abbrev pub system_set_ip6_accept_source_route : Owner → ℤ → Write
system_set_ip6_accept_source_route dev val =
    system_set_dev_sysctl ipv6_conf accept_source_route dev (print_int val)

abbrev system_set_dev_sysfs : File → Owner → Text → Write
system_set_dev_sysfs file ifname val = record { path = dev_sysfs_path ifname file; text = val }

abbrev pub system_bridge_set_multicast_to_unicast : Owner → Text → Write
system_bridge_set_multicast_to_unicast dev val = system_set_dev_sysfs multicast_to_unicast dev val

abbrev pub system_bridge_set_multicast_fast_leave : Owner → Text → Write
system_bridge_set_multicast_fast_leave dev val = system_set_dev_sysfs multicast_fast_leave dev val

abbrev pub system_bridge_set_hairpin_mode : Owner → Text → Write
system_bridge_set_hairpin_mode dev val = system_set_dev_sysfs hairpin_mode dev val

abbrev pub system_bridge_set_proxyarp_wifi : Owner → Text → Write
system_bridge_set_proxyarp_wifi dev val = system_set_dev_sysfs proxyarp_wifi dev val

abbrev pub system_bridge_set_bpdu_filter : Owner → Text → Write
system_bridge_set_bpdu_filter dev val = system_set_dev_sysfs bpdu_filter dev val

abbrev pub system_bridge_set_isolated : Owner → Text → Write
system_bridge_set_isolated dev val = system_set_dev_sysfs isolated dev val

abbrev pub system_bridge_set_multicast_router : Owner → Text → Write
system_bridge_set_multicast_router dev val = system_set_dev_sysfs multicast_router dev val

abbrev pub system_bridge_set_learning : Owner → Text → Write
system_bridge_set_learning dev val = system_set_dev_sysfs learning dev val

abbrev pub system_bridge_set_unicast_flood : Owner → Text → Write
system_bridge_set_unicast_flood dev val = system_set_dev_sysfs unicast_flood dev val
