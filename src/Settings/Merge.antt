-- ===== src/Settings/Merge.antt =====
-- device.c, device_merge_settings: what a device shows, from the configured settings `s` and the
-- ones `os` that it had before they were applied.
use netifd.Prelude.{false, ◌||◌, if◌then◌else◌}
use netifd.Settings.Defs.{DevOpt, Settings, no_flags, ◌∪◌}

-- The `memset` leaves `isolate` and `valid_flags` at zero: no line below writes them.
unfoldable pub merge_settings : Settings → Settings → Settings
merge_settings s os = record {
  flags = s.flags ∪ os.flags ∪ os.valid_flags;
  valid_flags = no_flags;
  mtu = if s.flags DevOpt.mtu then s.mtu else os.mtu;
  mtu6 = if s.flags DevOpt.mtu6 then s.mtu6 else os.mtu6;
  txqueuelen = if s.flags DevOpt.txqueuelen then s.txqueuelen else os.txqueuelen;
  macaddr =
      if s.flags DevOpt.macaddr || s.flags DevOpt.default_macaddr then s.macaddr else os.macaddr;
  ipv6 = if s.flags DevOpt.ipv6 then s.ipv6 else os.ipv6;
  promisc = if s.flags DevOpt.promisc then s.promisc else os.promisc;
  rpfilter = if s.flags DevOpt.rpfilter then s.rpfilter else os.rpfilter;
  acceptlocal = if s.flags DevOpt.acceptlocal then s.acceptlocal else os.acceptlocal;
  igmpversion = if s.flags DevOpt.igmpversion then s.igmpversion else os.igmpversion;
  mldversion = if s.flags DevOpt.mldversion then s.mldversion else os.mldversion;
  neigh4reachabletime =
      if s.flags DevOpt.neighreachabletime then s.neigh4reachabletime else os.neigh4reachabletime;
  neigh6reachabletime =
      if s.flags DevOpt.neighreachabletime then s.neigh6reachabletime else os.neigh6reachabletime;
  neigh4gcstaletime =
      if s.flags DevOpt.neighgcstaletime then s.neigh4gcstaletime else os.neigh4gcstaletime;
  neigh6gcstaletime =
      if s.flags DevOpt.neighgcstaletime then s.neigh6gcstaletime else os.neigh6gcstaletime;
  neigh4locktime = if s.flags DevOpt.neighlocktime then s.neigh4locktime else os.neigh4locktime;
  dadtransmits = if s.flags DevOpt.dadtransmits then s.dadtransmits else os.dadtransmits;
  multicast_to_unicast = s.multicast_to_unicast;
  multicast_router = s.multicast_router;
  multicast_fast_leave = s.multicast_fast_leave;
  multicast = if s.flags DevOpt.multicast then s.multicast else os.multicast;
  learning = s.learning;
  unicast_flood = s.unicast_flood;
  sendredirects = if s.flags DevOpt.sendredirects then s.sendredirects else os.sendredirects;
  ip6segmentrouting =
      if s.flags DevOpt.ip6segmentrouting then s.ip6segmentrouting else os.ip6segmentrouting;
  isolate = false;
  drop_v4_unicast_in_l2_multicast =
      if s.flags DevOpt.drop_v4_unicast_in_l2_multicast
      then s.drop_v4_unicast_in_l2_multicast
      else os.drop_v4_unicast_in_l2_multicast;
  drop_v6_unicast_in_l2_multicast =
      if s.flags DevOpt.drop_v6_unicast_in_l2_multicast
      then s.drop_v6_unicast_in_l2_multicast
      else os.drop_v6_unicast_in_l2_multicast;
  drop_gratuitous_arp =
      if s.flags DevOpt.drop_gratuitous_arp then s.drop_gratuitous_arp else os.drop_gratuitous_arp;
  drop_unsolicited_na =
      if s.flags DevOpt.drop_unsolicited_na then s.drop_unsolicited_na else os.drop_unsolicited_na;
  arp_accept = if s.flags DevOpt.arp_accept then s.arp_accept else os.arp_accept;
  auth = if s.flags DevOpt.auth then s.auth else os.auth;
  speed = if s.flags DevOpt.speed then s.speed else os.speed;
  duplex = if s.flags DevOpt.duplex then s.duplex else os.duplex;
  ip_forwarding = if s.flags DevOpt.ip_forwarding then s.ip_forwarding else os.ip_forwarding;
  ip6_forwarding = if s.flags DevOpt.ip6_forwarding then s.ip6_forwarding else os.ip6_forwarding;
  arp = if s.flags DevOpt.arp then s.arp else os.arp;
  accept_routing_header =
      if s.flags DevOpt.ip6_accept_routing_header
      then s.accept_routing_header
      else os.accept_routing_header;
  hop_limit = if s.flags DevOpt.ip6_hop_limit then s.hop_limit else os.hop_limit;
}
