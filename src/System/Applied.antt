-- ===== src/System/Applied.antt =====
-- system-linux.c: system_if_get_settings gives back what system_if_apply_settings has applied.
use netifd.Prelude.{
  List, [], ◌∷◌, Bool, true, false, not, ◌&&◌, ◌==◌, ◌||◌, some, ◌≡◌, ◌≤◌, refl, ap, ◌∙◌, arith,
  match_keeps, if_keeps,
}
use netifd.Settings.Defs.{Settings, Flags, DevOpt, ◌∩◌}
use netifd.Utils.Netmask.{Text}
use netifd.System.Kernel.{FilePath, own, Kernel, iff_promisc, iff_multicast, iff_noarp}
use netifd.System.Apply.{
  Call, calls, make_calls, system_set_ethtool_settings, device_check_ip6segmentrouting,
  system_if_apply_settings, offered,
}
use netifd.System.Get.{system_if_get_settings, or_else, taken_flag}
use netifd.System.Getters.{
  system_get_disable_ipv6, system_get_ip6segmentrouting, system_get_rpfilter,
  system_get_acceptlocal, system_get_igmpversion, system_get_mldversion,
  system_get_neigh4reachabletime, system_get_neigh6reachabletime, system_get_neigh4locktime,
  system_get_neigh4gcstaletime, system_get_neigh6gcstaletime, system_get_dadtransmits,
  system_get_sendredirects, system_get_drop_v4_unicast_in_l2_multicast,
  system_get_drop_v6_unicast_in_l2_multicast, system_get_drop_gratuitous_arp,
  system_get_drop_unsolicited_na, system_get_arp_accept, system_get_ip_forwarding,
  system_get_ip6_forwarding, system_get_accept_source_route, system_get_ip6_hop_limit,
}
use netifd.System.Cells.{Cell, look, Stays, KernelLaws}
use netifd.System.Sole.{SafeCalls, clear-SafeCalls}
use netifd.System.Readback.{mtu_back, txqlen_back, hwaddr_back, flag_back}
use netifd.System.Roundtrip.{number_back, signed_back, flag_text_back, inverse_back, int_back}
use netifd.System.Agree.{Agrees, Ready}

abbrev behind : List Call → List Call
behind [] = []
behind (c ∷ l) = l

module _ {K : Type 0} {kern : Kernel K} {accepts : FilePath → Text → Bool}
    (laws : KernelLaws kern accepts) where
  ethtool-Stays :
      (s : Settings) (c : Cell) (k : K) → Stays kern c k (system_set_ethtool_settings kern s k)
  unfolding system_set_ethtool_settings
  ethtool-Stays s c k v e =
      match_keeps (λ k'. look kern c k' ≡ some v) (kern.ethtool k) (λ _. e)
        (λ ecmd _.
          if_keeps (λ k'. look kern c k' ≡ some v)
            (ecmd.autoneg && ecmd.advertising == offered s ecmd.supported) (λ _. e)
            (λ _. laws.ethtool_frame c _ k v e))

  pub calls-Safe :
      (external seg6 : Bool) (s : Settings) (mask : Flags)
      → (mask DevOpt.mtu ≡ true → 1280 ≤ s.mtu)
      → SafeCalls (calls external seg6 s mask)
  unfolding calls
  calls-Safe external seg6 s mask h =
      (h, clear-SafeCalls (behind (calls external seg6 s mask)) refl)

  module _ (external : Bool) (others : List Settings) (s : Settings) (apply_mask : Flags) (k : K)
      (old : Settings) (h : (apply_mask ∩ s.flags) DevOpt.mtu ≡ true → 1280 ≤ s.mtu) where
    abbrev mask_in : Flags
    mask_in = apply_mask ∩ s.flags

    abbrev todo : List Call
    todo = calls external (device_check_ip6segmentrouting others) s mask_in

    safe : SafeCalls todo
    safe = calls-Safe external (device_check_ip6segmentrouting others) s mask_in h

    abbrev done : K × Settings
    done = system_if_apply_settings kern external others s apply_mask k

    pub stay : (c : Cell) → Stays kern c (make_calls kern todo (k, s.flags)).0 done.0
    unfolding system_if_apply_settings
    stay c = ethtool-Stays done.1 c (make_calls kern todo (k, s.flags)).0

    to_own : (e : Bool) {b : Bool} → e ≡ false → b ≡ true → (b && not e) ≡ true
    to_own e h g = ground arith

    -- An option that is applied to a device is what the settings read next show: for every option
    -- that is asked for, that the settings have, and whose flag is still set afterwards,
    -- system_if_get_settings gives the applied value. The option's file must be there and the
    -- kernel must take the text that is written; a number must be below 10 ^ 9, since nine bytes
    -- are read; accept_routing_header must not be negative, and the address is only set on a device
    -- that is not external. An MTU that is applied must be at least 1280. Left aside are mtu6,
    -- speed, duplex, auth, default_macaddr and the options of bridge ports: multicast_to_unicast,
    -- multicast_router, multicast_fast_leave, learning, unicast_flood and isolate. The kernel must
    -- satisfy KernelLaws.
    pub settings-Agrees :
        (o : DevOpt)
        → mask_in o ≡ true
        → done.1.flags o ≡ true
        → Ready kern accepts k external s o
        → Agrees o (system_if_get_settings kern done.0 old) s
    unfolding calls system_if_apply_settings system_if_get_settings
    settings-Agrees DevOpt.mtu on kept r =
        ap (λ q. or_else q old.mtu)
          (mtu_back kern laws todo safe mask_in DevOpt.mtu on k s.flags done.0 stay s.mtu refl kept)
    settings-Agrees DevOpt.txqueuelen on kept r =
        ap (λ q. or_else q old.txqueuelen)
          (txqlen_back kern laws todo safe mask_in DevOpt.txqueuelen on k s.flags done.0 stay
            s.txqueuelen refl kept)
    settings-Agrees DevOpt.macaddr on kept r =
        ap (λ q. or_else q old.macaddr)
          (hwaddr_back kern laws todo safe mask_in DevOpt.macaddr on k s.flags done.0 stay s.macaddr
            _ (to_own external r (ap (λ b. b || mask_in DevOpt.default_macaddr) on)) refl refl kept)
    settings-Agrees DevOpt.promisc on kept r =
        let (g, e, same) =
          flag_back kern laws todo safe mask_in DevOpt.promisc on k s.flags done.0 stay iff_promisc
            s.promisc refl kept in
        ap (taken_flag (λ f. f iff_promisc) old.promisc) e ∙ same
    settings-Agrees DevOpt.multicast on kept r =
        let (g, e, same) =
          flag_back kern laws todo safe mask_in DevOpt.multicast on k s.flags done.0 stay
            iff_multicast s.multicast refl kept in
        ap (taken_flag (λ f. f iff_multicast) old.multicast) e ∙ same
    settings-Agrees DevOpt.arp on kept r =
        let (g, e, same) =
          flag_back kern laws todo safe mask_in DevOpt.arp on k s.flags done.0 stay iff_noarp
            (not s.arp) refl kept in
        ap (taken_flag (λ f. not (f iff_noarp)) old.arp) e ∙ ap not same ∙ ground arith
    settings-Agrees DevOpt.ipv6 on kept r =
        inverse_back laws todo safe mask_in DevOpt.ipv6 on k s.flags done.0 stay
          (system_get_disable_ipv6 own) s.ipv6 old.ipv6 refl r
    settings-Agrees DevOpt.ip6segmentrouting on kept r =
        flag_text_back laws todo safe mask_in DevOpt.ip6segmentrouting on k s.flags done.0 stay
          (system_get_ip6segmentrouting own) s.ip6segmentrouting old.ip6segmentrouting refl r
    settings-Agrees DevOpt.rpfilter on kept r =
        number_back laws todo safe mask_in DevOpt.rpfilter on k s.flags done.0 stay
          (system_get_rpfilter own) s.rpfilter old.rpfilter refl r
    settings-Agrees DevOpt.acceptlocal on kept r =
        flag_text_back laws todo safe mask_in DevOpt.acceptlocal on k s.flags done.0 stay
          (system_get_acceptlocal own) s.acceptlocal old.acceptlocal refl r
    settings-Agrees DevOpt.igmpversion on kept r =
        number_back laws todo safe mask_in DevOpt.igmpversion on k s.flags done.0 stay
          (system_get_igmpversion own) s.igmpversion old.igmpversion refl r
    settings-Agrees DevOpt.mldversion on kept r =
        number_back laws todo safe mask_in DevOpt.mldversion on k s.flags done.0 stay
          (system_get_mldversion own) s.mldversion old.mldversion refl r
    settings-Agrees DevOpt.neighreachabletime on kept r = (
      number_back laws todo safe mask_in DevOpt.neighreachabletime on k s.flags done.0 stay
          (system_get_neigh4reachabletime own) s.neigh4reachabletime old.neigh4reachabletime refl
          r.0,
      number_back laws todo safe mask_in DevOpt.neighreachabletime on k s.flags done.0 stay
          (system_get_neigh6reachabletime own) s.neigh6reachabletime old.neigh6reachabletime refl
          r.1,
    )
    settings-Agrees DevOpt.neighlocktime on kept r =
        signed_back laws todo safe mask_in DevOpt.neighlocktime on k s.flags done.0 stay
          (system_get_neigh4locktime own) s.neigh4locktime old.neigh4locktime refl r
    settings-Agrees DevOpt.neighgcstaletime on kept r = (
      number_back laws todo safe mask_in DevOpt.neighgcstaletime on k s.flags done.0 stay
          (system_get_neigh4gcstaletime own) s.neigh4gcstaletime old.neigh4gcstaletime refl r.0,
      number_back laws todo safe mask_in DevOpt.neighgcstaletime on k s.flags done.0 stay
          (system_get_neigh6gcstaletime own) s.neigh6gcstaletime old.neigh6gcstaletime refl r.1,
    )
    settings-Agrees DevOpt.dadtransmits on kept r =
        number_back laws todo safe mask_in DevOpt.dadtransmits on k s.flags done.0 stay
          (system_get_dadtransmits own) s.dadtransmits old.dadtransmits refl r
    settings-Agrees DevOpt.sendredirects on kept r =
        flag_text_back laws todo safe mask_in DevOpt.sendredirects on k s.flags done.0 stay
          (system_get_sendredirects own) s.sendredirects old.sendredirects refl r
    settings-Agrees DevOpt.drop_v4_unicast_in_l2_multicast on kept r =
        flag_text_back laws todo safe mask_in DevOpt.drop_v4_unicast_in_l2_multicast on k s.flags
          done.0 stay (system_get_drop_v4_unicast_in_l2_multicast own)
          s.drop_v4_unicast_in_l2_multicast old.drop_v4_unicast_in_l2_multicast refl r
    settings-Agrees DevOpt.drop_v6_unicast_in_l2_multicast on kept r =
        flag_text_back laws todo safe mask_in DevOpt.drop_v6_unicast_in_l2_multicast on k s.flags
          done.0 stay (system_get_drop_v6_unicast_in_l2_multicast own)
          s.drop_v6_unicast_in_l2_multicast old.drop_v6_unicast_in_l2_multicast refl r
    settings-Agrees DevOpt.drop_gratuitous_arp on kept r =
        flag_text_back laws todo safe mask_in DevOpt.drop_gratuitous_arp on k s.flags done.0 stay
          (system_get_drop_gratuitous_arp own) s.drop_gratuitous_arp old.drop_gratuitous_arp refl r
    settings-Agrees DevOpt.drop_unsolicited_na on kept r =
        flag_text_back laws todo safe mask_in DevOpt.drop_unsolicited_na on k s.flags done.0 stay
          (system_get_drop_unsolicited_na own) s.drop_unsolicited_na old.drop_unsolicited_na refl r
    settings-Agrees DevOpt.arp_accept on kept r =
        flag_text_back laws todo safe mask_in DevOpt.arp_accept on k s.flags done.0 stay
          (system_get_arp_accept own) s.arp_accept old.arp_accept refl r
    settings-Agrees DevOpt.ip_forwarding on kept r =
        flag_text_back laws todo safe mask_in DevOpt.ip_forwarding on k s.flags done.0 stay
          (system_get_ip_forwarding own) s.ip_forwarding old.ip_forwarding refl r
    settings-Agrees DevOpt.ip6_forwarding on kept r =
        flag_text_back laws todo safe mask_in DevOpt.ip6_forwarding on k s.flags done.0 stay
          (system_get_ip6_forwarding own) s.ip6_forwarding old.ip6_forwarding refl r
    settings-Agrees DevOpt.ip6_accept_routing_header on kept r =
        int_back laws todo safe mask_in DevOpt.ip6_accept_routing_header on k s.flags done.0 stay
          (system_get_accept_source_route own) s.accept_routing_header old.accept_routing_header
          refl r
    settings-Agrees DevOpt.ip6_hop_limit on kept r =
        signed_back laws todo safe mask_in DevOpt.ip6_hop_limit on k s.flags done.0 stay
          (system_get_ip6_hop_limit own) s.hop_limit old.hop_limit refl r
    settings-Agrees DevOpt.default_macaddr on kept r = tt
    settings-Agrees DevOpt.auth on kept r = tt
    settings-Agrees DevOpt.mtu6 on kept r = tt
    settings-Agrees DevOpt.multicast_to_unicast on kept r = tt
    settings-Agrees DevOpt.multicast_router on kept r = tt
    settings-Agrees DevOpt.learning on kept r = tt
    settings-Agrees DevOpt.unicast_flood on kept r = tt
    settings-Agrees DevOpt.multicast_fast_leave on kept r = tt
    settings-Agrees DevOpt.isolate on kept r = tt
    settings-Agrees DevOpt.speed on kept r = tt
    settings-Agrees DevOpt.duplex on kept r = tt
