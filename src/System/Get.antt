-- ===== src/System/Get.antt =====
-- system-linux.c: system_if_get_settings. The texts of the options are read into a buffer of ten
-- bytes. hop_limit and neigh4locktime, which are ints, are kept by their 32 bits; strtol and strtoul
-- read the same bits from a text of nine bytes.
use netifd.Prelude.{ℕ, List, Bool, true, false, not, ◌||◌, Option, none, some, ltb}
use netifd.Prelude.Int.{ℤ, pos}
use netifd.Settings.Defs.{Settings, Flags, DevOpt, ◌∪◌}
use netifd.System.Text.{strtoul, to_uint, to_int, to_bool, int_to_uint}
use netifd.System.Kernel.{
  FilePath, own, Kernel, IfFlags, iff_promisc, iff_multicast, iff_noarp, read_file,
  system_update_ipv6_mtu,
}
use netifd.System.Getters.{
  system_get_accept_source_route, system_get_acceptlocal, system_get_arp_accept,
  system_get_dadtransmits, system_get_disable_ipv6, system_get_drop_gratuitous_arp,
  system_get_drop_unsolicited_na, system_get_drop_v4_unicast_in_l2_multicast,
  system_get_drop_v6_unicast_in_l2_multicast, system_get_igmpversion, system_get_ip6_forwarding,
  system_get_ip6_hop_limit, system_get_ip6segmentrouting, system_get_ip_forwarding,
  system_get_mldversion, system_get_neigh4gcstaletime, system_get_neigh4locktime,
  system_get_neigh4reachabletime, system_get_neigh6gcstaletime, system_get_neigh6reachabletime,
  system_get_rpfilter, system_get_sendredirects,
}

abbrev present : {A : Type 0} → Option A → Bool
present none = false
present (some a) = true

abbrev pub or_else : {A : Type 0} → Option A → A → A
or_else none a = a
or_else (some b) a = b

-- What a text read is taken for, or what there was where it cannot be read.
abbrev pub taken : {A : Type 0} → (List ℕ → A) → A → Option (List ℕ) → A
taken f old none = old
taken f old (some buf) = f buf

abbrev pub taken_flag : (IfFlags → Bool) → Bool → Option IfFlags → Bool
taken_flag f old none = old
taken_flag f old (some fs) = f fs

module _ {K : Type 0} (kern : Kernel K) (k : K) where
  abbrev option_text : FilePath → Option (List ℕ)
  option_text path = read_file kern path 10 k

  abbrev pub uint_of : FilePath → ℕ → ℕ
  uint_of path old = taken (λ buf. to_uint (strtoul buf)) old (option_text path)

  abbrev pub int_of : FilePath → ℤ → ℤ
  int_of path old = taken (λ buf. to_int (strtoul buf)) old (option_text path)

  abbrev pub bool_of : FilePath → Bool → Bool
  bool_of path old = taken (λ buf. to_bool (strtoul buf)) old (option_text path)

  abbrev pub not_of : FilePath → Bool → Bool
  not_of path old = taken (λ buf. not (to_bool (strtoul buf))) old (option_text path)

  -- The flags that are set on reading.
  unfoldable pub found_flags : Flags
  unfolding system_update_ipv6_mtu
  found_flags DevOpt.mtu = present (kern.mtu k)
  found_flags DevOpt.mtu6 = ltb 0 (int_to_uint (system_update_ipv6_mtu kern (pos 0) k).1)
  found_flags DevOpt.txqueuelen = present (kern.txqlen k)
  found_flags DevOpt.macaddr = present (kern.hwaddr k)
  found_flags DevOpt.promisc = present (kern.if_flags k)
  found_flags DevOpt.multicast = present (kern.if_flags k)
  found_flags DevOpt.arp = present (kern.if_flags k)
  found_flags DevOpt.ipv6 = present (option_text (system_get_disable_ipv6 own))
  found_flags DevOpt.ip6segmentrouting = present (option_text (system_get_ip6segmentrouting own))
  found_flags DevOpt.rpfilter = present (option_text (system_get_rpfilter own))
  found_flags DevOpt.acceptlocal = present (option_text (system_get_acceptlocal own))
  found_flags DevOpt.igmpversion = present (option_text (system_get_igmpversion own))
  found_flags DevOpt.mldversion = present (option_text (system_get_mldversion own))
  found_flags DevOpt.neighreachabletime =
      present (option_text (system_get_neigh4reachabletime own))
      || present (option_text (system_get_neigh6reachabletime own))
  found_flags DevOpt.neighlocktime = present (option_text (system_get_neigh4locktime own))
  found_flags DevOpt.neighgcstaletime =
      present (option_text (system_get_neigh4gcstaletime own))
      || present (option_text (system_get_neigh6gcstaletime own))
  found_flags DevOpt.dadtransmits = present (option_text (system_get_dadtransmits own))
  found_flags DevOpt.sendredirects = present (option_text (system_get_sendredirects own))
  found_flags DevOpt.drop_v4_unicast_in_l2_multicast =
      present (option_text (system_get_drop_v4_unicast_in_l2_multicast own))
  found_flags DevOpt.drop_v6_unicast_in_l2_multicast =
      present (option_text (system_get_drop_v6_unicast_in_l2_multicast own))
  found_flags DevOpt.drop_gratuitous_arp =
      present (option_text (system_get_drop_gratuitous_arp own))
  found_flags DevOpt.drop_unsolicited_na =
      present (option_text (system_get_drop_unsolicited_na own))
  found_flags DevOpt.arp_accept = present (option_text (system_get_arp_accept own))
  found_flags DevOpt.ip_forwarding = present (option_text (system_get_ip_forwarding own))
  found_flags DevOpt.ip6_forwarding = present (option_text (system_get_ip6_forwarding own))
  found_flags DevOpt.ip6_accept_routing_header =
      present (option_text (system_get_accept_source_route own))
  found_flags DevOpt.ip6_hop_limit = present (option_text (system_get_ip6_hop_limit own))
  found_flags _ = false

  unfoldable pub system_if_get_settings : Settings → Settings
  unfolding found_flags system_update_ipv6_mtu
  system_if_get_settings s = record s {
    flags = s.flags ∪ found_flags;
    mtu = or_else (kern.mtu k) s.mtu;
    mtu6 = int_to_uint (system_update_ipv6_mtu kern (pos 0) k).1;
    txqueuelen = or_else (kern.txqlen k) s.txqueuelen;
    macaddr = or_else (kern.hwaddr k) s.macaddr;
    promisc = taken_flag (λ f. f iff_promisc) s.promisc (kern.if_flags k);
    multicast = taken_flag (λ f. f iff_multicast) s.multicast (kern.if_flags k);
    arp = taken_flag (λ f. not (f iff_noarp)) s.arp (kern.if_flags k);
    ipv6 = not_of (system_get_disable_ipv6 own) s.ipv6;
    ip6segmentrouting = bool_of (system_get_ip6segmentrouting own) s.ip6segmentrouting;
    rpfilter = uint_of (system_get_rpfilter own) s.rpfilter;
    acceptlocal = bool_of (system_get_acceptlocal own) s.acceptlocal;
    igmpversion = uint_of (system_get_igmpversion own) s.igmpversion;
    mldversion = uint_of (system_get_mldversion own) s.mldversion;
    neigh4reachabletime = uint_of (system_get_neigh4reachabletime own) s.neigh4reachabletime;
    neigh6reachabletime = uint_of (system_get_neigh6reachabletime own) s.neigh6reachabletime;
    neigh4locktime = uint_of (system_get_neigh4locktime own) s.neigh4locktime;
    neigh4gcstaletime = uint_of (system_get_neigh4gcstaletime own) s.neigh4gcstaletime;
    neigh6gcstaletime = uint_of (system_get_neigh6gcstaletime own) s.neigh6gcstaletime;
    dadtransmits = uint_of (system_get_dadtransmits own) s.dadtransmits;
    sendredirects = bool_of (system_get_sendredirects own) s.sendredirects;
    drop_v4_unicast_in_l2_multicast =
        bool_of (system_get_drop_v4_unicast_in_l2_multicast own) s.drop_v4_unicast_in_l2_multicast;
    drop_v6_unicast_in_l2_multicast =
        bool_of (system_get_drop_v6_unicast_in_l2_multicast own) s.drop_v6_unicast_in_l2_multicast;
    drop_gratuitous_arp = bool_of (system_get_drop_gratuitous_arp own) s.drop_gratuitous_arp;
    drop_unsolicited_na = bool_of (system_get_drop_unsolicited_na own) s.drop_unsolicited_na;
    arp_accept = bool_of (system_get_arp_accept own) s.arp_accept;
    ip_forwarding = bool_of (system_get_ip_forwarding own) s.ip_forwarding;
    ip6_forwarding = bool_of (system_get_ip6_forwarding own) s.ip6_forwarding;
    accept_routing_header = int_of (system_get_accept_source_route own) s.accept_routing_header;
    hop_limit = uint_of (system_get_ip6_hop_limit own) s.hop_limit;
  }
