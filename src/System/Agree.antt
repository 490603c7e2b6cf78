-- ===== src/System/Agree.antt =====
-- system-linux.c: when settings that are applied to a device can be read back from it.
use netifd.Prelude.{ℕ, Bool, true, false, not, some, ◌≡◌, ◌<◌, ◌^◌}
use netifd.Prelude.Int.{ℤ, pos}
use netifd.Settings.Defs.{Settings, DevOpt}
use netifd.Utils.Netmask.{Text}
use netifd.System.Text.{print_uint}
use netifd.System.Kernel.{FilePath, own, Kernel}
use netifd.System.Apply.{flag_text}
use netifd.System.Getters.{
  system_get_disable_ipv6, system_get_ip6segmentrouting, system_get_rpfilter,
  system_get_acceptlocal, system_get_igmpversion, system_get_mldversion,
  system_get_neigh4reachabletime, system_get_neigh6reachabletime, system_get_neigh4locktime,
  system_get_neigh4gcstaletime, system_get_neigh6gcstaletime, system_get_dadtransmits,
  system_get_sendredirects, system_get_drop_v4_unicast_in_l2_multicast,
  system_get_drop_v6_unicast_in_l2_multicast, system_get_drop_gratuitous_arp,
  system_get_drop_unsolicited_na, system_get_arp_accept, system_get_ip_forwarding,
  system_get_ip6_forwarding, system_get_accept_source_route, system_get_ip6_hop_limit,
}

-- Two settings have the same value for an option. Left aside are mtu6, which the kernel also changes
-- with the MTU of the link, speed, duplex, auth, default_macaddr and the options of bridge ports.
abbrev pub Agrees : DevOpt → Settings → Settings → Type 0
Agrees DevOpt.mtu a b = a.mtu ≡ b.mtu
Agrees DevOpt.txqueuelen a b = a.txqueuelen ≡ b.txqueuelen
Agrees DevOpt.macaddr a b = a.macaddr ≡ b.macaddr
Agrees DevOpt.promisc a b = a.promisc ≡ b.promisc
Agrees DevOpt.multicast a b = a.multicast ≡ b.multicast
Agrees DevOpt.arp a b = a.arp ≡ b.arp
Agrees DevOpt.ipv6 a b = a.ipv6 ≡ b.ipv6
Agrees DevOpt.ip6segmentrouting a b = a.ip6segmentrouting ≡ b.ip6segmentrouting
Agrees DevOpt.rpfilter a b = a.rpfilter ≡ b.rpfilter
Agrees DevOpt.acceptlocal a b = a.acceptlocal ≡ b.acceptlocal
Agrees DevOpt.igmpversion a b = a.igmpversion ≡ b.igmpversion
Agrees DevOpt.mldversion a b = a.mldversion ≡ b.mldversion
Agrees DevOpt.neighreachabletime a b =
    (a.neigh4reachabletime ≡ b.neigh4reachabletime)
    × (a.neigh6reachabletime ≡ b.neigh6reachabletime)
Agrees DevOpt.neighlocktime a b = a.neigh4locktime ≡ b.neigh4locktime
Agrees DevOpt.neighgcstaletime a b =
    (a.neigh4gcstaletime ≡ b.neigh4gcstaletime) × (a.neigh6gcstaletime ≡ b.neigh6gcstaletime)
Agrees DevOpt.dadtransmits a b = a.dadtransmits ≡ b.dadtransmits
Agrees DevOpt.sendredirects a b = a.sendredirects ≡ b.sendredirects
Agrees DevOpt.drop_v4_unicast_in_l2_multicast a b =
    a.drop_v4_unicast_in_l2_multicast ≡ b.drop_v4_unicast_in_l2_multicast
Agrees DevOpt.drop_v6_unicast_in_l2_multicast a b =
    a.drop_v6_unicast_in_l2_multicast ≡ b.drop_v6_unicast_in_l2_multicast
Agrees DevOpt.drop_gratuitous_arp a b = a.drop_gratuitous_arp ≡ b.drop_gratuitous_arp
Agrees DevOpt.drop_unsolicited_na a b = a.drop_unsolicited_na ≡ b.drop_unsolicited_na
Agrees DevOpt.arp_accept a b = a.arp_accept ≡ b.arp_accept
Agrees DevOpt.ip_forwarding a b = a.ip_forwarding ≡ b.ip_forwarding
Agrees DevOpt.ip6_forwarding a b = a.ip6_forwarding ≡ b.ip6_forwarding
Agrees DevOpt.ip6_accept_routing_header a b = a.accept_routing_header ≡ b.accept_routing_header
Agrees DevOpt.ip6_hop_limit a b = a.hop_limit ≡ b.hop_limit
Agrees _ a b = Unit

module _ {K : Type 0} (kern : Kernel K) (accepts : FilePath → Text → Bool) (k : K) where
  -- The option's file can be read, and the kernel takes the text for it.
  abbrev pub Takes : FilePath → Text → Type 0
  Takes p t = ((u : Text) × (kern.read p k ≡ some u)) × (accepts p t ≡ true)

  -- A number also has to fit into the nine bytes that are read again.
  abbrev pub NumberReady : FilePath → ℕ → Type 0
  NumberReady p n = Takes p (print_uint n) × (n < 10 ^ 9)

  abbrev pub FlagReady : FilePath → Bool → Type 0
  FlagReady p b = Takes p (flag_text b)

  -- An int with a sign is not followed.
  abbrev pub IntReady : FilePath → ℤ → Type 0
  IntReady p z = (n : ℕ) × (z ≡ pos n) × NumberReady p n

  -- The condition on the option of settings that are applied.
  abbrev pub Ready : Bool → Settings → DevOpt → Type 0
  Ready external s DevOpt.macaddr = external ≡ false
  Ready external s DevOpt.ipv6 = FlagReady (system_get_disable_ipv6 own) (not s.ipv6)
  Ready external s DevOpt.ip6segmentrouting =
      FlagReady (system_get_ip6segmentrouting own) s.ip6segmentrouting
  Ready external s DevOpt.rpfilter = NumberReady (system_get_rpfilter own) s.rpfilter
  Ready external s DevOpt.acceptlocal = FlagReady (system_get_acceptlocal own) s.acceptlocal
  Ready external s DevOpt.igmpversion = NumberReady (system_get_igmpversion own) s.igmpversion
  Ready external s DevOpt.mldversion = NumberReady (system_get_mldversion own) s.mldversion
  Ready external s DevOpt.neighreachabletime =
      NumberReady (system_get_neigh4reachabletime own) s.neigh4reachabletime
      × NumberReady (system_get_neigh6reachabletime own) s.neigh6reachabletime
  Ready external s DevOpt.neighlocktime =
      NumberReady (system_get_neigh4locktime own) s.neigh4locktime
  Ready external s DevOpt.neighgcstaletime =
      NumberReady (system_get_neigh4gcstaletime own) s.neigh4gcstaletime
      × NumberReady (system_get_neigh6gcstaletime own) s.neigh6gcstaletime
  Ready external s DevOpt.dadtransmits = NumberReady (system_get_dadtransmits own) s.dadtransmits
  Ready external s DevOpt.sendredirects = FlagReady (system_get_sendredirects own) s.sendredirects
  Ready external s DevOpt.drop_v4_unicast_in_l2_multicast =
      FlagReady (system_get_drop_v4_unicast_in_l2_multicast own) s.drop_v4_unicast_in_l2_multicast
  Ready external s DevOpt.drop_v6_unicast_in_l2_multicast =
      FlagReady (system_get_drop_v6_unicast_in_l2_multicast own) s.drop_v6_unicast_in_l2_multicast
  Ready external s DevOpt.drop_gratuitous_arp =
      FlagReady (system_get_drop_gratuitous_arp own) s.drop_gratuitous_arp
  Ready external s DevOpt.drop_unsolicited_na =
      FlagReady (system_get_drop_unsolicited_na own) s.drop_unsolicited_na
  Ready external s DevOpt.arp_accept = FlagReady (system_get_arp_accept own) s.arp_accept
  Ready external s DevOpt.ip_forwarding = FlagReady (system_get_ip_forwarding own) s.ip_forwarding
  Ready external s DevOpt.ip6_forwarding =
      FlagReady (system_get_ip6_forwarding own) s.ip6_forwarding
  Ready external s DevOpt.ip6_accept_routing_header =
      IntReady (system_get_accept_source_route own) s.accept_routing_header
  Ready external s DevOpt.ip6_hop_limit = NumberReady (system_get_ip6_hop_limit own) s.hop_limit
  Ready external s _ = Unit
