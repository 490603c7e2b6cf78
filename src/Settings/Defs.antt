-- ===== src/Settings/Defs.antt =====
-- device.h: the DEV_OPT_* bits of a settings word, and struct device_settings. The uint64_t flag
-- words are kept by their bits: `flags o` says whether the bit of the option `o` is set.
use netifd.Prelude.{ℕ, List, Bool, true, false, ◌||◌, ◌&&◌, ◌==◌}
use netifd.Prelude.Int.{ℤ}

pub data DevOpt : Type 0 where
  mtu macaddr txqueuelen ipv6 promisc rpfilter acceptlocal igmpversion mldversion : DevOpt
  neighreachabletime default_macaddr auth mtu6 dadtransmits multicast_to_unicast : DevOpt
  multicast_router multicast learning unicast_flood neighgcstaletime : DevOpt
  multicast_fast_leave sendredirects neighlocktime isolate ip6segmentrouting : DevOpt
  drop_v4_unicast_in_l2_multicast drop_v6_unicast_in_l2_multicast drop_gratuitous_arp : DevOpt
  drop_unsolicited_na arp_accept speed duplex ip_forwarding ip6_forwarding arp : DevOpt
  ip6_accept_routing_header ip6_hop_limit : DevOpt

-- The position of an option's bit, as in `1ULL << n`.
abbrev pub bit : DevOpt → ℕ
bit mtu = 0
bit macaddr = 1
bit txqueuelen = 2
bit ipv6 = 3
bit promisc = 4
bit rpfilter = 5
bit acceptlocal = 6
bit igmpversion = 7
bit mldversion = 8
bit neighreachabletime = 9
bit default_macaddr = 10
bit auth = 11
bit mtu6 = 12
bit dadtransmits = 13
bit multicast_to_unicast = 14
bit multicast_router = 15
bit multicast = 16
bit learning = 17
bit unicast_flood = 18
bit neighgcstaletime = 19
bit multicast_fast_leave = 20
bit sendredirects = 21
bit neighlocktime = 22
bit isolate = 23
bit ip6segmentrouting = 24
bit drop_v4_unicast_in_l2_multicast = 25
bit drop_v6_unicast_in_l2_multicast = 26
bit drop_gratuitous_arp = 27
bit drop_unsolicited_na = 28
bit arp_accept = 29
bit speed = 30
bit duplex = 31
bit ip_forwarding = 32
bit ip6_forwarding = 33
bit arp = 34
bit ip6_accept_routing_header = 35
bit ip6_hop_limit = 36

abbrev pub Flags : Type 0
Flags = DevOpt → Bool

abbrev pub no_flags : Flags
no_flags o = false

-- `if (c) flags |= o;`
abbrev pub flag_if : Bool → DevOpt → Flags → Flags
flag_if c o f p = elim (bit o == bit p) [ true ↦ c || f p | false ↦ f p ]

-- The `|` and `&` of two flag words.
infixl 65 ◌∪◌ ◌∩◌
abbrev pub ◌∪◌ : Flags → Flags → Flags
◌∪◌ f g o = f o || g o

abbrev pub ◌∩◌ : Flags → Flags → Flags
◌∩◌ f g o = f o && g o

-- The ints neigh4locktime and hop_limit are kept by their 32 bits.
pub record Settings : Type 0 where
  pub flags : Flags
  pub valid_flags : Flags
  pub mtu : ℕ
  pub mtu6 : ℕ
  pub txqueuelen : ℕ
  pub macaddr : List ℕ
  pub ipv6 : Bool
  pub promisc : Bool
  pub rpfilter : ℕ
  pub acceptlocal : Bool
  pub igmpversion : ℕ
  pub mldversion : ℕ
  pub neigh4reachabletime : ℕ
  pub neigh6reachabletime : ℕ
  pub neigh4gcstaletime : ℕ
  pub neigh6gcstaletime : ℕ
  pub neigh4locktime : ℕ
  pub dadtransmits : ℕ
  pub multicast_to_unicast : Bool
  pub multicast_router : ℕ
  pub multicast_fast_leave : Bool
  pub multicast : Bool
  pub learning : Bool
  pub unicast_flood : Bool
  pub sendredirects : Bool
  pub ip6segmentrouting : Bool
  pub isolate : Bool
  pub drop_v4_unicast_in_l2_multicast : Bool
  pub drop_v6_unicast_in_l2_multicast : Bool
  pub drop_gratuitous_arp : Bool
  pub drop_unsolicited_na : Bool
  pub arp_accept : Bool
  pub auth : Bool
  pub speed : ℕ
  pub duplex : Bool
  pub ip_forwarding : Bool
  pub ip6_forwarding : Bool
  pub arp : Bool
  pub accept_routing_header : ℤ
  pub hop_limit : ℕ
