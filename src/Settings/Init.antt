-- ===== src/Settings/Init.antt =====
-- device.c, device_init_settings: a parsed attribute table becomes the settings of a device.
-- The table is what blobmsg_parse leaves: each attribute is absent or has the type of its policy.
-- The C library's ether_aton and strcasecmp are parameters, and so is system_resolve_rpfilter,
-- a call of the system layer.
use Prim.Native.String.{String}
use netifd.Prelude.{ℕ, List, Bool, true, false, not, ◌&&◌, Option, none, some, leb, if◌then◌else◌}
use netifd.Prelude.Int.{ℤ, pos, negsuc}
use netifd.Settings.Defs.{DevOpt, Settings, flag_if, no_flags}

pub record Attrs : Type 0 where
  pub enabled : Option Bool
  pub mtu : Option ℕ
  pub mtu6 : Option ℕ
  pub txqueuelen : Option ℕ
  pub macaddr : Option String
  pub ipv6 : Option Bool
  pub ip6segmentrouting : Option Bool
  pub promisc : Option Bool
  pub rpfilter : Option String
  pub acceptlocal : Option Bool
  pub igmpversion : Option ℕ
  pub mldversion : Option ℕ
  pub neighreachabletime : Option ℕ
  pub neighgcstaletime : Option ℕ
  pub neighlocktime : Option ℕ
  pub dadtransmits : Option ℕ
  pub multicast_to_unicast : Option Bool
  pub multicast_router : Option ℕ
  pub multicast_fast_leave : Option Bool
  pub multicast : Option Bool
  pub learning : Option Bool
  pub unicast_flood : Option Bool
  pub sendredirects : Option Bool
  pub isolate : Option Bool
  pub drop_v4_unicast_in_l2_multicast : Option Bool
  pub drop_v6_unicast_in_l2_multicast : Option Bool
  pub drop_gratuitous_arp : Option Bool
  pub drop_unsolicited_na : Option Bool
  pub arp_accept : Option Bool
  pub auth : Option Bool
  pub speed : Option ℕ
  pub duplex : Option Bool
  pub ip_forwarding : Option Bool
  pub ip6_forwarding : Option Bool
  pub arp : Option Bool
  pub ip6_accept_routing_header : Option String
  pub ip6_hop_limit : Option ℕ

pub record Libc : Type 0 where
  pub ether_aton : String → Option (List ℕ)
  pub strcaseeq : String → String → Bool
  pub system_resolve_rpfilter : String → Option ℕ

abbrev pub is_some {ℓ} : {A : Type ℓ} → Option A → Bool
is_some none = false
is_some (some a) = true

-- `if ((cur = tb[...])) field = get(cur);`
abbrev pub or_old {ℓ} : {A : Type ℓ} → Option A → A → A
or_old none old = old
or_old (some a) old = a

abbrev pub keep_if {ℓ} : {A : Type ℓ} → (A → Bool) → Option A → Option A
keep_if p none = none
keep_if p (some a) = if p a then some a else none

abbrev pub and_then {ℓ κ} : {A : Type ℓ} {B : Type κ} → Option A → (A → Option B) → Option B
and_then none f = none
and_then (some a) f = f a

abbrev pub in_range : ℕ → ℕ → ℕ → Bool
in_range lo hi n = leb lo n && leb n hi

-- The strings that the routing header option takes.
abbrev pub routing_header : Libc → String → Option ℤ
routing_header c val =
    if c.strcaseeq val "all"
    then some (pos 1)
    else if c.strcaseeq val "rh2"
    then some (pos 0)
    else if c.strcaseeq val "none"
    then some (negsuc 0)
    else none

-- MTU, queue length, address and the first switches. An MTU below the minimum is ignored.
unfoldable pub init_link : Libc → Attrs → Settings → Settings
init_link c tb s = record s {
  mtu = or_old (keep_if (leb 68) tb.mtu) s.mtu;
  mtu6 = or_old (keep_if (leb 1280) tb.mtu6) s.mtu6;
  txqueuelen = or_old tb.txqueuelen s.txqueuelen;
  macaddr = or_old (and_then tb.macaddr c.ether_aton) s.macaddr;
  ipv6 = or_old tb.ipv6 s.ipv6;
  ip6segmentrouting = or_old tb.ip6segmentrouting s.ip6segmentrouting;
  promisc = or_old tb.promisc s.promisc;
  rpfilter = or_old (and_then tb.rpfilter c.system_resolve_rpfilter) s.rpfilter;
  acceptlocal = or_old tb.acceptlocal s.acceptlocal;
  flags = flag_if (is_some tb.acceptlocal) DevOpt.acceptlocal (
      flag_if (is_some (and_then tb.rpfilter c.system_resolve_rpfilter)) DevOpt.rpfilter (
        flag_if (is_some tb.promisc) DevOpt.promisc (
          flag_if (is_some tb.ip6segmentrouting) DevOpt.ip6segmentrouting (
            flag_if (is_some tb.ipv6) DevOpt.ipv6 (
              flag_if (is_some (and_then tb.macaddr c.ether_aton)) DevOpt.macaddr (
                flag_if (is_some tb.txqueuelen) DevOpt.txqueuelen (
                  flag_if (is_some (keep_if (leb 1280) tb.mtu6)) DevOpt.mtu6
                    (flag_if (is_some (keep_if (leb 68) tb.mtu)) DevOpt.mtu no_flags))))))));
}

-- Multicast protocol versions and neighbour timers. A version out of range is stored, and its
-- flag stays clear.
unfoldable pub init_neighbor : Libc → Attrs → Settings → Settings
init_neighbor c tb s = record s {
  igmpversion = or_old tb.igmpversion s.igmpversion;
  mldversion = or_old tb.mldversion s.mldversion;
  neigh6reachabletime = or_old tb.neighreachabletime s.neigh6reachabletime;
  neigh4reachabletime = or_old tb.neighreachabletime s.neigh4reachabletime;
  neigh6gcstaletime = or_old tb.neighgcstaletime s.neigh6gcstaletime;
  neigh4gcstaletime = or_old tb.neighgcstaletime s.neigh4gcstaletime;
  neigh4locktime = or_old tb.neighlocktime s.neigh4locktime;
  dadtransmits = or_old tb.dadtransmits s.dadtransmits;
  flags = flag_if (is_some tb.dadtransmits) DevOpt.dadtransmits (
      flag_if (is_some tb.neighlocktime) DevOpt.neighlocktime (
        flag_if (is_some tb.neighgcstaletime) DevOpt.neighgcstaletime (
          flag_if (is_some tb.neighreachabletime) DevOpt.neighreachabletime (
            flag_if (is_some (keep_if (in_range 1 2) tb.mldversion)) DevOpt.mldversion (
              flag_if (is_some (keep_if (in_range 1 3) tb.igmpversion)) DevOpt.igmpversion
                s.flags)))));
}

-- Multicast forwarding and bridge port options.
unfoldable pub init_bridge_port : Libc → Attrs → Settings → Settings
init_bridge_port c tb s = record s {
  multicast_to_unicast = or_old tb.multicast_to_unicast s.multicast_to_unicast;
  multicast_router = or_old tb.multicast_router s.multicast_router;
  multicast_fast_leave = or_old tb.multicast_fast_leave s.multicast_fast_leave;
  multicast = or_old tb.multicast s.multicast;
  learning = or_old tb.learning s.learning;
  unicast_flood = or_old tb.unicast_flood s.unicast_flood;
  sendredirects = or_old tb.sendredirects s.sendredirects;
  isolate = or_old tb.isolate s.isolate;
  flags = flag_if (is_some tb.isolate) DevOpt.isolate (
      flag_if (is_some tb.sendredirects) DevOpt.sendredirects (
        flag_if (is_some tb.unicast_flood) DevOpt.unicast_flood (
          flag_if (is_some tb.learning) DevOpt.learning (
            flag_if (is_some tb.multicast) DevOpt.multicast (
              flag_if (is_some tb.multicast_fast_leave) DevOpt.multicast_fast_leave (
                flag_if (is_some (keep_if (λ n. leb n 2) tb.multicast_router))
                  DevOpt.multicast_router
                  (flag_if (is_some tb.multicast_to_unicast) DevOpt.multicast_to_unicast
                    s.flags)))))));
}

-- Packet filters, authentication, speed and forwarding.
unfoldable pub init_filter : Libc → Attrs → Settings → Settings
init_filter c tb s = record s {
  drop_v4_unicast_in_l2_multicast =
      or_old tb.drop_v4_unicast_in_l2_multicast s.drop_v4_unicast_in_l2_multicast;
  drop_v6_unicast_in_l2_multicast =
      or_old tb.drop_v6_unicast_in_l2_multicast s.drop_v6_unicast_in_l2_multicast;
  drop_gratuitous_arp = or_old tb.drop_gratuitous_arp s.drop_gratuitous_arp;
  drop_unsolicited_na = or_old tb.drop_unsolicited_na s.drop_unsolicited_na;
  arp_accept = or_old tb.arp_accept s.arp_accept;
  auth = or_old tb.auth s.auth;
  speed = or_old tb.speed s.speed;
  duplex = or_old tb.duplex s.duplex;
  ip_forwarding = or_old tb.ip_forwarding s.ip_forwarding;
  ip6_forwarding = or_old tb.ip6_forwarding s.ip6_forwarding;
  arp = or_old tb.arp s.arp;
  accept_routing_header =
      or_old (and_then tb.ip6_accept_routing_header (routing_header c)) s.accept_routing_header;
  hop_limit = or_old tb.ip6_hop_limit s.hop_limit;
  flags = flag_if (is_some tb.ip6_hop_limit) DevOpt.ip6_hop_limit (
      flag_if (is_some (and_then tb.ip6_accept_routing_header (routing_header c)))
        DevOpt.ip6_accept_routing_header
        (flag_if (is_some tb.arp) DevOpt.arp (
          flag_if (is_some tb.ip6_forwarding) DevOpt.ip6_forwarding (
            flag_if (is_some tb.ip_forwarding) DevOpt.ip_forwarding (
              flag_if (is_some tb.duplex) DevOpt.duplex (
                flag_if (is_some tb.speed) DevOpt.speed (
                  flag_if (is_some tb.auth) DevOpt.auth (
                    flag_if (is_some tb.arp_accept) DevOpt.arp_accept (
                      flag_if (is_some tb.drop_unsolicited_na) DevOpt.drop_unsolicited_na (
                        flag_if (is_some tb.drop_gratuitous_arp) DevOpt.drop_gratuitous_arp (
                          flag_if (is_some tb.drop_v6_unicast_in_l2_multicast)
                            DevOpt.drop_v6_unicast_in_l2_multicast
                            (flag_if (is_some tb.drop_v4_unicast_in_l2_multicast)
                              DevOpt.drop_v4_unicast_in_l2_multicast s.flags))))))))))));
}

-- The settings, and the value of `disabled` that is handed to device_set_disabled at the end.
unfoldable pub init_settings : Libc → Attrs → Settings → Settings × Bool
unfolding init_link init_neighbor init_bridge_port init_filter
init_settings c tb s = (
  init_filter c tb (init_bridge_port c tb (init_neighbor c tb (init_link c tb s))),
  elim tb.enabled [ none ↦ false | some on ↦ not on ],
)
