-- ===== src/System/Apply.antt =====
-- system-linux.c: system_if_apply_settings, as the calls that it makes in their order. A call is made
-- if it is wanted; where it fails, its option's flag is taken off.
use netifd.Prelude.{
  ℕ, ◌-◌, ◌/◌, ◌%◌, ◌^◌, List, [], ◌∷◌, Bool, true, false, not, ◌&&◌, ◌||◌, none, some, ◌==◌,
  if◌then◌else◌,
}
use netifd.Prelude.Int.{ℤ}
use netifd.Settings.Defs.{Settings, Flags, DevOpt, bit, ◌∩◌}
use netifd.Utils.Netmask.{Text}
use netifd.System.Text.{print_uint, print_int, to_int}
use netifd.System.Kernel.{
  own, all, Kernel, IfFlag, IfFlags, iff_promisc, iff_multicast, iff_noarp, flag_no, write_file,
  system_if_flags, system_update_ipv6_mtu,
}
use netifd.System.Setters.{
  Write, system_set_acceptlocal, system_set_arp_accept, system_set_dadtransmits,
  system_set_disable_ipv6, system_set_drop_gratuitous_arp, system_set_drop_unsolicited_na,
  system_set_drop_v4_unicast_in_l2_multicast, system_set_drop_v6_unicast_in_l2_multicast,
  system_set_igmpversion, system_set_ip6_accept_source_route, system_set_ip6_forwarding,
  system_set_ip6_hop_limit, system_set_ip6segmentrouting, system_set_ip_forwarding,
  system_set_mldversion, system_set_neigh4gcstaletime, system_set_neigh4locktime,
  system_set_neigh4reachabletime, system_set_neigh6gcstaletime, system_set_neigh6reachabletime,
  system_set_rpfilter, system_set_sendredirects,
}

-- `change_flag f b` adds the flag where `b` holds, and takes it off where it does not.
pub data Action : Type 0 where
  write_option : Write → Action
  ioctl_mtu : ℕ → Action
  update_mtu6 : ℤ → Action
  ioctl_txqlen : ℕ → Action
  ioctl_hwaddr : List ℕ → Action
  change_flag : IfFlag → Bool → Action

pub record Call : Type 0 where
  pub wanted : Bool
  pub opt : DevOpt
  pub action : Action

abbrev pub flag_text : Bool → Text
flag_text b = if b then b'1' ∷ [] else b'0' ∷ []

abbrev pub only : IfFlag → Bool → IfFlags
only f b i = flag_no f == flag_no i && b

-- device_check_ip6segmentrouting, over the settings of all devices.
unfoldable pub device_check_ip6segmentrouting : List Settings → Bool
device_check_ip6segmentrouting [] = false
device_check_ip6segmentrouting (s ∷ l) = s.ip6segmentrouting || device_check_ip6segmentrouting l

abbrev pub ask : Flags → DevOpt → Action → Call
ask mask o a = record { wanted = mask o; opt = o; action = a }

abbrev pub set_option : Flags → DevOpt → Write → Call
set_option mask o w = ask mask o (write_option w)

-- The calls for the settings, by what of them is applied. `seg6` says that some device has segment
-- routing.
unfoldable pub calls : Bool → Bool → Settings → Flags → List Call
calls external seg6 s mask =
    ask mask DevOpt.mtu (ioctl_mtu s.mtu)
    ∷ ask mask DevOpt.mtu6 (update_mtu6 (to_int s.mtu6))
    ∷ ask mask DevOpt.txqueuelen (ioctl_txqlen s.txqueuelen)
    ∷ record (ask mask DevOpt.macaddr (ioctl_hwaddr s.macaddr)) {
      wanted = (mask DevOpt.macaddr || mask DevOpt.default_macaddr) && not external;
    }
    ∷ set_option mask DevOpt.ipv6 (system_set_disable_ipv6 own (flag_text (not s.ipv6)))
    ∷ set_option mask DevOpt.ip6segmentrouting
        (system_set_ip6segmentrouting own (flag_text s.ip6segmentrouting))
    ∷ set_option mask DevOpt.ip6segmentrouting (system_set_ip6segmentrouting all (flag_text seg6))
    ∷ ask mask DevOpt.promisc (change_flag iff_promisc s.promisc)
    ∷ set_option mask DevOpt.rpfilter (system_set_rpfilter own (print_uint s.rpfilter))
    ∷ set_option mask DevOpt.acceptlocal (system_set_acceptlocal own (flag_text s.acceptlocal))
    ∷ set_option mask DevOpt.igmpversion (system_set_igmpversion own (print_uint s.igmpversion))
    ∷ set_option mask DevOpt.mldversion (system_set_mldversion own (print_uint s.mldversion))
    ∷ set_option mask DevOpt.neighreachabletime
        (system_set_neigh4reachabletime own (print_uint s.neigh4reachabletime))
    ∷ set_option mask DevOpt.neighreachabletime
        (system_set_neigh6reachabletime own (print_uint s.neigh6reachabletime))
    ∷ set_option mask DevOpt.neighlocktime
        (system_set_neigh4locktime own (print_int (to_int s.neigh4locktime)))
    ∷ set_option mask DevOpt.neighgcstaletime
        (system_set_neigh4gcstaletime own (print_uint s.neigh4gcstaletime))
    ∷ set_option mask DevOpt.neighgcstaletime
        (system_set_neigh6gcstaletime own (print_uint s.neigh6gcstaletime))
    ∷ set_option mask DevOpt.dadtransmits (system_set_dadtransmits own (print_uint s.dadtransmits))
    ∷ ask mask DevOpt.multicast (change_flag iff_multicast s.multicast)
    ∷ set_option mask DevOpt.sendredirects
        (system_set_sendredirects own (flag_text s.sendredirects))
    ∷ set_option mask DevOpt.drop_v4_unicast_in_l2_multicast (
        system_set_drop_v4_unicast_in_l2_multicast own
          (flag_text s.drop_v4_unicast_in_l2_multicast))
    ∷ set_option mask DevOpt.drop_v6_unicast_in_l2_multicast (
        system_set_drop_v6_unicast_in_l2_multicast own
          (flag_text s.drop_v6_unicast_in_l2_multicast))
    ∷ set_option mask DevOpt.drop_gratuitous_arp
        (system_set_drop_gratuitous_arp own (flag_text s.drop_gratuitous_arp))
    ∷ set_option mask DevOpt.drop_unsolicited_na
        (system_set_drop_unsolicited_na own (flag_text s.drop_unsolicited_na))
    ∷ set_option mask DevOpt.arp_accept (system_set_arp_accept own (flag_text s.arp_accept))
    ∷ set_option mask DevOpt.ip_forwarding
        (system_set_ip_forwarding own (flag_text s.ip_forwarding))
    ∷ set_option mask DevOpt.ip6_forwarding
        (system_set_ip6_forwarding own (flag_text s.ip6_forwarding))
    ∷ ask mask DevOpt.arp (change_flag iff_noarp (not s.arp))
    ∷ set_option mask DevOpt.ip6_accept_routing_header
        (system_set_ip6_accept_source_route own s.accept_routing_header)
    ∷ set_option mask DevOpt.ip6_hop_limit
        (system_set_ip6_hop_limit own (print_int (to_int s.hop_limit)))
    ∷ []

-- `flags &= ~o`
abbrev pub without : DevOpt → Flags → Flags
without o f p = if bit o == bit p then false else f p

-- adv &= ~(1 << n)
abbrev pub clear_bit : ℕ → ℕ → ℕ
clear_bit n adv = if adv / 2 ^ n % 2 == 1 then adv - 2 ^ n else adv

-- A row of speed_mask: the speed, and its bits at half and at full duplex.
abbrev limit_speed : Settings → ℕ → ℕ → ℕ → ℕ → ℕ
limit_speed s speed half full adv =
    let by_duplex =
      if s.flags DevOpt.duplex then clear_bit (if s.duplex then half else full) adv else adv in
    if not (s.flags DevOpt.speed) || s.speed == speed
    then by_duplex
    else clear_bit half (clear_bit full by_duplex)

-- The link modes to offer, of those supported.
unfoldable pub offered : Settings → ℕ → ℕ
offered s adv = limit_speed s 1000 4 5 (limit_speed s 100 2 3 (limit_speed s 10 0 1 adv))

module _ {K : Type 0} (kern : Kernel K) where
  unfoldable pub perform : Action → K → K × Bool
  unfolding system_update_ipv6_mtu system_if_flags
  perform (write_option w) k = (write_file kern w.path w.text k, true)
  perform (ioctl_mtu n) k = kern.set_mtu n k
  perform (update_mtu6 n) k = ((system_update_ipv6_mtu kern n k).0, true)
  perform (ioctl_txqlen n) k = kern.set_txqlen n k
  perform (ioctl_hwaddr mac) k = kern.set_hwaddr mac k
  perform (change_flag f b) k = system_if_flags kern (only f b) (only f (not b)) k

  -- One call, on the kernel and the flags of the settings.
  unfoldable pub make_call : Call → K × Flags → K × Flags
  make_call c s =
      let (k, ok) = perform c.action s.0 in
      if c.wanted then (k, if ok then s.1 else without c.opt s.1) else s

  abbrev pub make_calls : List Call → K × Flags → K × Flags
  make_calls [] s = s
  make_calls (c ∷ l) s = make_calls l (make_call c s)

  unfoldable pub system_set_ethtool_settings : Settings → K → K
  system_set_ethtool_settings s k = elim (kern.ethtool k) [
    | none ↦ k
    | some ecmd ↦
        let adv = offered s ecmd.supported in
        if ecmd.autoneg && ecmd.advertising == adv
        then k
        else kern.set_ethtool (record ecmd { autoneg = true; advertising = adv }) k
  ]

  -- The kernel and the settings after the calls. `others` are the settings of all devices.
  unfoldable pub system_if_apply_settings :
      Bool → List Settings → Settings → Flags → K → K × Settings
  unfolding calls make_call system_set_ethtool_settings device_check_ip6segmentrouting
  system_if_apply_settings external others s apply_mask k =
      let todo = calls external (device_check_ip6segmentrouting others) s (apply_mask ∩ s.flags) in
      let done = make_calls todo (k, s.flags) in
      let s1 = record s { flags = done.1 } in (system_set_ethtool_settings s1 done.0, s1)
