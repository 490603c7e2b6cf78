-- ===== src/System/Unasked.antt =====
-- system-linux.c: what system_if_apply_settings leaves alone.
use netifd.Prelude.{
  ℕ, List, [], ◌∷◌, Bool, true, false, not, ◌&&◌, ◌||◌, some, ◌≡◌, ◌≤◌, refl, ap, sym, ◌∙◌, arith,
}
use netifd.Settings.Defs.{Settings, Flags, DevOpt, ◌∩◌}
use netifd.Utils.Netmask.{Text}
use netifd.System.Text.{strtoul, to_uint, to_int, to_bool}
use netifd.System.Kernel.{
  FilePath, own, Kernel, IfFlag, fitting, iff_promisc, iff_multicast, iff_noarp,
}
use netifd.System.Apply.{Call, calls, device_check_ip6segmentrouting, system_if_apply_settings}
use netifd.System.Get.{system_if_get_settings, or_else, taken, taken_flag}
use netifd.System.Getters.{
  system_get_disable_ipv6, system_get_ip6segmentrouting, system_get_rpfilter,
  system_get_acceptlocal, system_get_igmpversion, system_get_mldversion,
  system_get_neigh4reachabletime, system_get_neigh6reachabletime, system_get_neigh4locktime,
  system_get_neigh4gcstaletime, system_get_neigh6gcstaletime, system_get_dadtransmits,
  system_get_sendredirects, system_get_drop_v4_unicast_in_l2_multicast,
  system_get_drop_v6_unicast_in_l2_multicast, system_get_drop_gratuitous_arp,
  system_get_drop_unsolicited_na, system_get_arp_accept, system_get_ip_forwarding,
  system_get_ip6_forwarding, system_get_accept_source_route, system_get_ip6_hop_limit,
}
use netifd.System.Cells.{
  Cell, file, link_mtu, link_txqlen, link_hwaddr, link_flag, look, Stays, KernelLaws, flag_value,
}
use netifd.System.Sole.{sole, sole-Stays}
use netifd.System.Readback.{seen-some, flag_value-inj}
use netifd.System.Applied.{calls-Safe, stay}
use netifd.System.Agree.{Agrees}

-- Whether an option is asked for, among those to apply.
abbrev pub asked : Bool → Flags → DevOpt → Bool
asked external mask DevOpt.macaddr =
    (mask DevOpt.macaddr || mask DevOpt.default_macaddr) && not external
asked external mask o = mask o

head-inj : (m n : ℕ) → (m ∷ []) ≡ (n ∷ []) → m ≡ n
head-inj m n h = ground arith

module _ {K : Type 0} (kern : Kernel K) (k : K) where
  abbrev Found : Cell → Type 0
  Found c = (v : List ℕ) × (look kern c k ≡ some v)

  -- The kernel shows the option.
  abbrev pub Shown : DevOpt → Type 0
  Shown DevOpt.mtu = Found link_mtu
  Shown DevOpt.txqueuelen = Found link_txqlen
  Shown DevOpt.macaddr = Found link_hwaddr
  Shown DevOpt.promisc = Found (link_flag iff_promisc)
  Shown DevOpt.multicast = Found (link_flag iff_multicast)
  Shown DevOpt.arp = Found (link_flag iff_noarp)
  Shown DevOpt.ipv6 = Found (file (system_get_disable_ipv6 own))
  Shown DevOpt.ip6segmentrouting = Found (file (system_get_ip6segmentrouting own))
  Shown DevOpt.rpfilter = Found (file (system_get_rpfilter own))
  Shown DevOpt.acceptlocal = Found (file (system_get_acceptlocal own))
  Shown DevOpt.igmpversion = Found (file (system_get_igmpversion own))
  Shown DevOpt.mldversion = Found (file (system_get_mldversion own))
  Shown DevOpt.neighreachabletime =
      Found (file (system_get_neigh4reachabletime own))
      × Found (file (system_get_neigh6reachabletime own))
  Shown DevOpt.neighlocktime = Found (file (system_get_neigh4locktime own))
  Shown DevOpt.neighgcstaletime =
      Found (file (system_get_neigh4gcstaletime own))
      × Found (file (system_get_neigh6gcstaletime own))
  Shown DevOpt.dadtransmits = Found (file (system_get_dadtransmits own))
  Shown DevOpt.sendredirects = Found (file (system_get_sendredirects own))
  Shown DevOpt.drop_v4_unicast_in_l2_multicast =
      Found (file (system_get_drop_v4_unicast_in_l2_multicast own))
  Shown DevOpt.drop_v6_unicast_in_l2_multicast =
      Found (file (system_get_drop_v6_unicast_in_l2_multicast own))
  Shown DevOpt.drop_gratuitous_arp = Found (file (system_get_drop_gratuitous_arp own))
  Shown DevOpt.drop_unsolicited_na = Found (file (system_get_drop_unsolicited_na own))
  Shown DevOpt.arp_accept = Found (file (system_get_arp_accept own))
  Shown DevOpt.ip_forwarding = Found (file (system_get_ip_forwarding own))
  Shown DevOpt.ip6_forwarding = Found (file (system_get_ip6_forwarding own))
  Shown DevOpt.ip6_accept_routing_header = Found (file (system_get_accept_source_route own))
  Shown DevOpt.ip6_hop_limit = Found (file (system_get_ip6_hop_limit own))
  Shown _ = Unit

module _ {K : Type 0} {kern : Kernel K} {accepts : FilePath → Text → Bool}
    (laws : KernelLaws kern accepts) where
  module _ (external : Bool) (others : List Settings) (s : Settings) (apply_mask : Flags) (k : K)
      (old : Settings) (h : (apply_mask ∩ s.flags) DevOpt.mtu ≡ true → 1280 ≤ s.mtu) where
    abbrev mask_in : Flags
    mask_in = apply_mask ∩ s.flags

    abbrev todo : List Call
    todo = calls external (device_check_ip6segmentrouting others) s mask_in

    abbrev k2 : K
    k2 = (system_if_apply_settings kern external others s apply_mask k).0

    same_cell_value :
        (c : Cell) (x : Call) → sole c todo ≡ some x → x.wanted ≡ false → Stays kern c k k2
    same_cell_value c x e off v r = stay laws external others s apply_mask k old h c v (
        sole-Stays kern laws c x todo (k, s.flags) e
          (calls-Safe laws external (device_check_ip6segmentrouting others) s mask_in h) off v r)

    same_text :
        {A : Type 0} (p : FilePath) (f : List ℕ → A) (a : A) (x : Call)
        → sole (file p) todo ≡ some x
        → x.wanted ≡ false
        → Found kern k (file p)
        → taken f a (fitting 9 (kern.read p k2)) ≡ taken f a (fitting 9 (kern.read p k))
    same_text p f a x e off (v, r) =
        ap (λ q. taken f a (fitting 9 q)) (same_cell_value (file p) x e off v r ∙ sym r)

    same_mtu :
        (a : ℕ) (x : Call)
        → sole link_mtu todo ≡ some x
        → x.wanted ≡ false
        → Found kern k link_mtu
        → or_else (kern.mtu k2) a ≡ or_else (kern.mtu k) a
    same_mtu a x e off (v, r) =
        let (m, at_end, end_value) =
          seen-some (λ n. n ∷ []) (kern.mtu k2) v (same_cell_value link_mtu x e off v r) in
        let (n, at_start, start_value) = seen-some (λ n. n ∷ []) (kern.mtu k) v r in
        ap (λ q. or_else q a) at_end
        ∙ head-inj m n (end_value ∙ sym start_value)
        ∙ sym (ap (λ q. or_else q a) at_start)

    same_txqlen :
        (a : ℕ) (x : Call)
        → sole link_txqlen todo ≡ some x
        → x.wanted ≡ false
        → Found kern k link_txqlen
        → or_else (kern.txqlen k2) a ≡ or_else (kern.txqlen k) a
    same_txqlen a x e off (v, r) =
        let (m, at_end, end_value) =
          seen-some (λ n. n ∷ []) (kern.txqlen k2) v (same_cell_value link_txqlen x e off v r) in
        let (n, at_start, start_value) = seen-some (λ n. n ∷ []) (kern.txqlen k) v r in
        ap (λ q. or_else q a) at_end
        ∙ head-inj m n (end_value ∙ sym start_value)
        ∙ sym (ap (λ q. or_else q a) at_start)

    same_flag :
        (f : IfFlag) (g : Bool → Bool) (a : Bool) (x : Call)
        → sole (link_flag f) todo ≡ some x
        → x.wanted ≡ false
        → Found kern k (link_flag f)
        → taken_flag (λ i. g (i f)) a (kern.if_flags k2)
          ≡ taken_flag (λ i. g (i f)) a (kern.if_flags k)
    same_flag f g a x e off (v, r) =
        let (i, at_end, end_value) =
          seen-some (λ q. flag_value (q f)) (kern.if_flags k2) v
            (same_cell_value (link_flag f) x e off v r) in
        let (j, at_start, start_value) = seen-some (λ q. flag_value (q f)) (kern.if_flags k) v r in
        ap (taken_flag (λ i. g (i f)) a) at_end
        ∙ ap g (flag_value-inj (i f) (j f) (end_value ∙ sym start_value))
        ∙ sym (ap (taken_flag (λ i. g (i f)) a) at_start)

    -- An option that is not applied, since it is not asked for or the settings do not have it, is
    -- read from the kernel afterwards as it was read before, whatever other options were applied
    -- with success or not. The kernel must show the option before, and satisfy KernelLaws; an MTU
    -- that is applied must be at least 1280. Left aside are mtu6, speed, duplex, auth,
    -- default_macaddr and the options of bridge ports: multicast_to_unicast, multicast_router,
    -- multicast_fast_leave, learning, unicast_flood and isolate.
    pub unasked-Agrees :
        (o : DevOpt)
        → asked external mask_in o ≡ false
        → Shown kern k o
        → Agrees o (system_if_get_settings kern k2 old) (system_if_get_settings kern k old)
    unfolding calls system_if_get_settings
    unasked-Agrees DevOpt.mtu off r = same_mtu old.mtu _ refl off r
    unasked-Agrees DevOpt.txqueuelen off r = same_txqlen old.txqueuelen _ refl off r
    unasked-Agrees DevOpt.macaddr off (v, r) =
        ap (λ q. or_else q old.macaddr) (same_cell_value link_hwaddr _ refl off v r ∙ sym r)
    unasked-Agrees DevOpt.promisc off r = same_flag iff_promisc (λ b. b) old.promisc _ refl off r
    unasked-Agrees DevOpt.multicast off r =
        same_flag iff_multicast (λ b. b) old.multicast _ refl off r
    unasked-Agrees DevOpt.arp off r = same_flag iff_noarp not old.arp _ refl off r
    unasked-Agrees DevOpt.ipv6 off r =
        same_text (system_get_disable_ipv6 own) (λ buf. not (to_bool (strtoul buf))) old.ipv6 _ refl
          off r
    unasked-Agrees DevOpt.ip6segmentrouting off r =
        same_text (system_get_ip6segmentrouting own) (λ buf. to_bool (strtoul buf))
          old.ip6segmentrouting _ refl off r
    unasked-Agrees DevOpt.rpfilter off r =
        same_text (system_get_rpfilter own) (λ buf. to_uint (strtoul buf)) old.rpfilter _ refl off r
    unasked-Agrees DevOpt.acceptlocal off r =
        same_text (system_get_acceptlocal own) (λ buf. to_bool (strtoul buf)) old.acceptlocal _ refl
          off r
    unasked-Agrees DevOpt.igmpversion off r =
        same_text (system_get_igmpversion own) (λ buf. to_uint (strtoul buf)) old.igmpversion _ refl
          off r
    unasked-Agrees DevOpt.mldversion off r =
        same_text (system_get_mldversion own) (λ buf. to_uint (strtoul buf)) old.mldversion _ refl
          off r
    unasked-Agrees DevOpt.neighreachabletime off r = (
      same_text (system_get_neigh4reachabletime own) (λ buf. to_uint (strtoul buf))
          old.neigh4reachabletime _ refl off r.0,
      same_text (system_get_neigh6reachabletime own) (λ buf. to_uint (strtoul buf))
          old.neigh6reachabletime _ refl off r.1,
    )
    unasked-Agrees DevOpt.neighlocktime off r =
        same_text (system_get_neigh4locktime own) (λ buf. to_uint (strtoul buf)) old.neigh4locktime
          _ refl off r
    unasked-Agrees DevOpt.neighgcstaletime off r = (
      same_text (system_get_neigh4gcstaletime own) (λ buf. to_uint (strtoul buf))
          old.neigh4gcstaletime _ refl off r.0,
      same_text (system_get_neigh6gcstaletime own) (λ buf. to_uint (strtoul buf))
          old.neigh6gcstaletime _ refl off r.1,
    )
    unasked-Agrees DevOpt.dadtransmits off r =
        same_text (system_get_dadtransmits own) (λ buf. to_uint (strtoul buf)) old.dadtransmits _
          refl off r
    unasked-Agrees DevOpt.sendredirects off r =
        same_text (system_get_sendredirects own) (λ buf. to_bool (strtoul buf)) old.sendredirects _
          refl off r
    unasked-Agrees DevOpt.drop_v4_unicast_in_l2_multicast off r =
        same_text (system_get_drop_v4_unicast_in_l2_multicast own) (λ buf. to_bool (strtoul buf))
          old.drop_v4_unicast_in_l2_multicast _ refl off r
    unasked-Agrees DevOpt.drop_v6_unicast_in_l2_multicast off r =
        same_text (system_get_drop_v6_unicast_in_l2_multicast own) (λ buf. to_bool (strtoul buf))
          old.drop_v6_unicast_in_l2_multicast _ refl off r
    unasked-Agrees DevOpt.drop_gratuitous_arp off r =
        same_text (system_get_drop_gratuitous_arp own) (λ buf. to_bool (strtoul buf))
          old.drop_gratuitous_arp _ refl off r
    unasked-Agrees DevOpt.drop_unsolicited_na off r =
        same_text (system_get_drop_unsolicited_na own) (λ buf. to_bool (strtoul buf))
          old.drop_unsolicited_na _ refl off r
    unasked-Agrees DevOpt.arp_accept off r =
        same_text (system_get_arp_accept own) (λ buf. to_bool (strtoul buf)) old.arp_accept _ refl
          off r
    unasked-Agrees DevOpt.ip_forwarding off r =
        same_text (system_get_ip_forwarding own) (λ buf. to_bool (strtoul buf)) old.ip_forwarding _
          refl off r
    unasked-Agrees DevOpt.ip6_forwarding off r =
        same_text (system_get_ip6_forwarding own) (λ buf. to_bool (strtoul buf)) old.ip6_forwarding
          _ refl off r
    unasked-Agrees DevOpt.ip6_accept_routing_header off r =
        same_text (system_get_accept_source_route own) (λ buf. to_int (strtoul buf))
          old.accept_routing_header _ refl off r
    unasked-Agrees DevOpt.ip6_hop_limit off r =
        same_text (system_get_ip6_hop_limit own) (λ buf. to_uint (strtoul buf)) old.hop_limit _ refl
          off r
    unasked-Agrees DevOpt.default_macaddr off r = tt
    unasked-Agrees DevOpt.auth off r = tt
    unasked-Agrees DevOpt.mtu6 off r = tt
    unasked-Agrees DevOpt.multicast_to_unicast off r = tt
    unasked-Agrees DevOpt.multicast_router off r = tt
    unasked-Agrees DevOpt.learning off r = tt
    unasked-Agrees DevOpt.unicast_flood off r = tt
    unasked-Agrees DevOpt.multicast_fast_leave off r = tt
    unasked-Agrees DevOpt.isolate off r = tt
    unasked-Agrees DevOpt.speed off r = tt
    unasked-Agrees DevOpt.duplex off r = tt
