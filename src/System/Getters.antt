-- ===== src/System/Getters.antt =====
-- system-linux.c: the getters of single kernel options. A getter is the path that it reads.
use netifd.System.Kernel.{
  FilePath, Directory, Owner, File, dev_sysctl_path, ipv4_conf, ipv6_conf, ipv4_neigh, ipv6_neigh,
  disable_ipv6, seg6_enabled, rp_filter, accept_local, force_igmp_version, force_mld_version,
  base_reachable_time_ms, gc_stale_time, locktime, dad_transmits, send_redirects,
  drop_unicast_in_l2_multicast, drop_gratuitous_arp, drop_unsolicited_na, arp_accept, forwarding,
  hop_limit, accept_source_route,
}

abbrev system_get_dev_sysctl : Directory → File → Owner → FilePath
system_get_dev_sysctl prefix file ifname = dev_sysctl_path prefix ifname file

abbrev pub system_get_disable_ipv6 : Owner → FilePath
system_get_disable_ipv6 dev = system_get_dev_sysctl ipv6_conf disable_ipv6 dev

abbrev pub system_get_ip6segmentrouting : Owner → FilePath
system_get_ip6segmentrouting dev = system_get_dev_sysctl ipv6_conf seg6_enabled dev

abbrev pub system_get_rpfilter : Owner → FilePath
system_get_rpfilter dev = system_get_dev_sysctl ipv4_conf rp_filter dev

abbrev pub system_get_acceptlocal : Owner → FilePath
system_get_acceptlocal dev = system_get_dev_sysctl ipv4_conf accept_local dev

abbrev pub system_get_igmpversion : Owner → FilePath
system_get_igmpversion dev = system_get_dev_sysctl ipv4_conf force_igmp_version dev

abbrev pub system_get_mldversion : Owner → FilePath
system_get_mldversion dev = system_get_dev_sysctl ipv6_conf force_mld_version dev

abbrev pub system_get_neigh4reachabletime : Owner → FilePath
system_get_neigh4reachabletime dev = system_get_dev_sysctl ipv4_neigh base_reachable_time_ms dev

abbrev pub system_get_neigh6reachabletime : Owner → FilePath
system_get_neigh6reachabletime dev = system_get_dev_sysctl ipv6_neigh base_reachable_time_ms dev

abbrev pub system_get_neigh4gcstaletime : Owner → FilePath
system_get_neigh4gcstaletime dev = system_get_dev_sysctl ipv4_neigh gc_stale_time dev

abbrev pub system_get_neigh6gcstaletime : Owner → FilePath
system_get_neigh6gcstaletime dev = system_get_dev_sysctl ipv6_neigh gc_stale_time dev

abbrev pub system_get_neigh4locktime : Owner → FilePath
system_get_neigh4locktime dev = system_get_dev_sysctl ipv4_neigh locktime dev

abbrev pub system_get_dadtransmits : Owner → FilePath
system_get_dadtransmits dev = system_get_dev_sysctl ipv6_conf dad_transmits dev

abbrev pub system_get_sendredirects : Owner → FilePath
system_get_sendredirects dev = system_get_dev_sysctl ipv4_conf send_redirects dev

abbrev pub system_get_drop_v4_unicast_in_l2_multicast : Owner → FilePath
system_get_drop_v4_unicast_in_l2_multicast dev =
    system_get_dev_sysctl ipv4_conf drop_unicast_in_l2_multicast dev

abbrev pub system_get_drop_v6_unicast_in_l2_multicast : Owner → FilePath
system_get_drop_v6_unicast_in_l2_multicast dev =
    system_get_dev_sysctl ipv6_conf drop_unicast_in_l2_multicast dev

abbrev pub system_get_drop_gratuitous_arp : Owner → FilePath
system_get_drop_gratuitous_arp dev = system_get_dev_sysctl ipv4_conf drop_gratuitous_arp dev

abbrev pub system_get_drop_unsolicited_na : Owner → FilePath
system_get_drop_unsolicited_na dev = system_get_dev_sysctl ipv6_conf drop_unsolicited_na dev

abbrev pub system_get_arp_accept : Owner → FilePath
system_get_arp_accept dev = system_get_dev_sysctl ipv4_conf arp_accept dev

abbrev pub system_get_ip_forwarding : Owner → FilePath
system_get_ip_forwarding dev = system_get_dev_sysctl ipv4_conf forwarding dev

abbrev pub system_get_ip6_forwarding : Owner → FilePath
system_get_ip6_forwarding dev = system_get_dev_sysctl ipv6_conf forwarding dev

abbrev pub system_get_accept_source_route : Owner → FilePath
system_get_accept_source_route dev = system_get_dev_sysctl ipv6_conf accept_source_route dev

abbrev pub system_get_ip6_hop_limit : Owner → FilePath
system_get_ip6_hop_limit dev = system_get_dev_sysctl ipv6_conf hop_limit dev
