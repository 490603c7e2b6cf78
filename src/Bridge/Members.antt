-- ===== src/Bridge/Members.antt =====
-- bridge.c: the members of a bridge, and the bridge going up and down.
use netifd.Prelude.{
  ℕ, suc, List, [], ◌∷◌, Bool, true, false, not, ◌&&◌, ◌||◌, Option, none, some, ◌==◌, ltb,
  if◌then◌else◌,
}
use netifd.Prelude.Int.{ℤ, pos, negsuc, neg_part, ◌-ℤ◌}
use netifd.Settings.Defs.{DevOpt, Flags, bit, flag_if}
use netifd.Device.Store.{Hooks, topo_change, put_dev}
use netifd.Device.Claim.{device_broadcast_event, device_claim, device_release, is_zero}
use netifd.Device.Present.{device_set_present}
use netifd.Bridge.Types.{
  Member, Bridge, World, put_br, put_member, emit, bridge_vlan, delif, delbr, stp_init, each,
}
use netifd.Bridge.Vlans.{bridge_set_member_vlan, bridge_set_local_vlans}

abbrev pub clear_flag : DevOpt → Flags → Flags
clear_flag o f p = if bit o == bit p then false else f p

abbrev pub is_none : {A : Type 0} → Option A → Bool
is_none none = true
is_none (some x) = false

abbrev pub is_negative : ℤ → Bool
is_negative z = ltb 0 (neg_part z)

abbrev pub first_present : (ℕ → Member) → List ℕ → Option ℕ
first_present f [] = none
first_present f (m ∷ l) = let rest = first_present f l in if (f m).present then some m else rest

-- The bridge takes the address of a device.
abbrev pub copy_macaddr : ℕ → World → World
copy_macaddr d s =
    let dev = s.devs s.env.dev in
    let from = s.devs d in
    let ea =
      if from.settings.flags DevOpt.macaddr
      then from.settings.macaddr
      else from.orig_settings.macaddr in
    put_dev s.env.dev
      (record dev {
        settings = record (dev.settings) {
          macaddr = ea;
          flags = flag_if true DevOpt.macaddr dev.settings.flags;
        };
      })
      s

unfoldable pub bridge_reset_primary : World → World
bridge_reset_primary s =
    let b = s.env in
    let dev = s.devs b.dev in
    let cleared = record dev {
      settings = record (dev.settings) { flags = clear_flag DevOpt.macaddr dev.settings.flags };
    } in
    let primary = first_present b.member b.members in
    let s1 = put_br (record b { primary_port = primary }) (put_dev b.dev cleared s) in
    if is_none b.primary_port && dev.settings.flags DevOpt.macaddr then s else elim primary [
      | none ↦ s1
      | some m ↦ elim (s.usrs m).dev [
        | none ↦ record s1 { faulted = true }
        | some d ↦ copy_macaddr d s1
      ]
    ]

unfoldable pub bridge_stp_notify : World → World
bridge_stp_notify s = if s.env.stp then emit stp_init s else s

unfoldable pub bridge_check_retry : World → World
bridge_check_retry s = if s.env.n_failed == 0 then s else put_br (record (s.env) { retry = true }) s

unfoldable pub bridge_disable_interface : World → World
bridge_disable_interface s =
    if not s.env.active then s else put_br (record (s.env) { active = false }) (emit delbr s)

-- The device of a member, by its number; IPv6 is switched off on it if nothing is configured.
abbrev pub disable_ipv6 : ℕ → World → World
disable_ipv6 d s =
    let dev = s.devs d in
    let set = record (dev.settings) {
      ipv6 = false;
      flags = flag_if true DevOpt.ipv6 dev.settings.flags;
    } in
    if dev.settings.flags DevOpt.ipv6 then s else put_dev d (record dev { settings = set }) s

abbrev pub uncount_member : ℕ → World → World
uncount_member m s =
    let s1 = put_member m (record (s.env.member m) { present = false }) s in
    put_br (record (s1.env) { n_present = s.env.n_present -ℤ pos 1 }) s1

-- The member has failed: it counts as absent until it is tried again.
abbrev pub drop_member : ℕ → World → World
drop_member m s =
    let s1 = uncount_member m s in put_br (record (s1.env) { n_failed = suc s.env.n_failed }) s1

abbrev pub is_primary : ℕ → Option ℕ → Bool
is_primary m none = false
is_primary m (some p) = m == p

abbrev pub reset_if_primary : ℕ → World → World
reset_if_primary m s = if is_primary m s.env.primary_port then bridge_reset_primary s else s

-- `addbr` and `addif` are the results of system_bridge_addbr and system_bridge_addif.
module _ (h : Hooks Bridge) (addbr : World → ℤ) (addif : ℕ → World → ℤ) where
  unfoldable pub bridge_enable_interface : World → World × ℤ
  unfolding bridge_stp_notify bridge_set_local_vlans
  bridge_enable_interface s =
      let s1 = bridge_stp_notify s in
      let s2 = emit (bridge_vlan s.env.dev 1 false true false false) s1 in
      let s3 = if s1.env.has_vlans then bridge_set_local_vlans true s2 else s1 in
      if s.env.active
      then (s, pos 0)
      else if is_negative (addbr s1)
      then (s1, addbr s1)
      else (put_br (record (s3.env) { active = true }) s3, pos 0)

  unfoldable pub bridge_disable_member : ℕ → Bool → World → World
  unfolding bridge_set_member_vlan
  bridge_disable_member m keep_dev s =
      let bm = s.env.member m in
      let s1 = put_member m (record bm { active = false }) s in
      let s2 = emit (delif m) (each (bridge_set_member_vlan m false) s.env.vlans s1) in
      let s3 = if keep_dev then s2 else device_release h m s2 in
      if not bm.present || not bm.active
      then s
      else device_broadcast_event h s3.env.dev topo_change s3

  -- The device of a member has been claimed, and is added to the bridge.
  unfoldable pub add_port : ℕ → ℕ → World → World
  unfolding bridge_set_member_vlan
  add_port m d s =
      let s1 = put_member m (record (s.env.member m) { active = true }) s in
      let s2 = emit (bridge_vlan d 1 false false false false) s1 in
      let s3 =
        if s1.env.has_vlans then each (bridge_set_member_vlan m true) s2.env.vlans s2 else s1 in
      let s4 = device_set_present h s3.env.dev true s3 in
      device_broadcast_event h s4.env.dev topo_change s4

  abbrev pub fail_member : ℕ → ℤ → World → World × ℤ
  fail_member m ret s = (device_release h m (drop_member m s), ret)

  -- What follows the claim of the member's device, with its result.
  unfoldable pub after_claim : ℕ → ℕ → World × ℤ → World × ℤ
  unfolding add_port
  after_claim m d (s, ret) =
      let dev = s.devs d in
      if is_negative ret
      then fail_member m ret s
      else if dev.settings.auth && not dev.auth_status
      then (s, negsuc 0)
      else if (s.env.member m).active
      then (s, pos 0)
      else if is_negative (addif m s)
      then fail_member m (addif m s) s
      else (add_port m d s, pos 0)

  abbrev pub claim_member : ℕ → World × ℤ → World × ℤ
  claim_member m (s, ret) = if not (is_zero ret) then fail_member m ret s else elim (s.usrs m).dev [
    | none ↦ (record s { faulted = true }, negsuc 0)
    | some d ↦ after_claim m d (device_claim h m (disable_ipv6 d s))
  ]

  unfoldable pub bridge_enable_member : ℕ → World → World × ℤ
  unfolding bridge_enable_interface after_claim
  bridge_enable_member m s =
      if not (s.env.member m).present
      then (s, pos 0)
      else claim_member m (bridge_enable_interface s)

  -- A bridge that may not be empty is gone with its last member.
  abbrev pub after_removal : World → World
  after_removal s =
      let s1 = put_br (record (s.env) { force_active = false }) s in
      if s.env.bridge_empty
      then s
      else if is_zero s.env.n_present
      then device_set_present h s1.env.dev false s1
      else s1

  -- `bst->dev.active` is the number of claims on the bridge's own device.
  abbrev pub disable_if_active : ℕ → World → World
  disable_if_active m s =
      if (s.devs s.env.dev).active == 0 then s else bridge_disable_member m false s

  unfoldable pub bridge_remove_member : ℕ → World → World
  unfolding bridge_disable_member bridge_reset_primary
  bridge_remove_member m s =
      if not (s.env.member m).present
      then s
      else after_removal (reset_if_primary m (uncount_member m (disable_if_active m s)))
