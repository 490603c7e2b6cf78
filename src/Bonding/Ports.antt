-- ===== src/Bonding/Ports.antt =====
-- bonding.c: one port of a bond, and the bond itself in the kernel.
use netifd.Prelude.{ℕ, suc, Bool, true, false, not, ◌&&◌, ◌||◌, none, some, ◌==◌, if◌then◌else◌}
use netifd.Prelude.Int.{ℤ, pos, negsuc, ◌-ℤ◌}
use netifd.Settings.Defs.{DevOpt, flag_if}
use netifd.Device.Store.{Hooks, put_dev}
use netifd.Device.Claim.{device_claim, device_release, is_zero}
use netifd.Device.Present.{device_set_present, same}
use netifd.Bridge.Members.{clear_flag, is_none, is_negative, is_primary}
use netifd.Bonding.Types.{Bond, World, put_bond, put_port, emit, set_port, set_device, each}

-- The bond takes the address of a device.
abbrev pub copy_macaddr : ℕ → World → World
copy_macaddr d s =
    let dev = s.devs s.env.dev in
    let from = s.devs d in
    let macaddr =
      if from.settings.flags DevOpt.macaddr
      then from.settings.macaddr
      else from.orig_settings.macaddr in
    let set = record (dev.settings) {
      macaddr = macaddr;
      flags = flag_if true DevOpt.macaddr dev.settings.flags;
    } in
    put_dev s.env.dev (record dev { settings = set }) s

-- A port in the loop over the ports, which the first present one wins, or one that is set to be.
abbrev pub consider : ℕ → World → World
consider m s =
    let s1 = put_bond (record (s.env) { primary_port = some m }) s in
    let bp = s.env.port m in
    if not bp.present
    then s
    else if not (is_none s.env.primary_port) && not bp.set_primary
    then s
    else if s.env.has_macaddr
    then s1
    else elim (s.usrs m).dev [ none ↦ record s1 { faulted = true } | some d ↦ copy_macaddr d s1 ]

unfoldable pub bonding_reset_primary : World → World
bonding_reset_primary s =
    let dev = s.devs s.env.dev in
    let set = record (dev.settings) { flags = clear_flag DevOpt.macaddr dev.settings.flags } in
    let s1 = put_bond (record (s.env) { primary_port = none }) s in
    let s2 =
      if s.env.has_macaddr then s1 else put_dev s.env.dev (record dev { settings = set }) s1 in
    each consider s.env.ports s2

abbrev pub uncount_port : ℕ → World → World
uncount_port m s =
    let s1 = put_port m (record (s.env.port m) { present = false }) s in
    put_bond (record (s1.env) { n_present = s.env.n_present -ℤ pos 1 }) s1

-- The port has failed: it counts as absent until it is tried again.
abbrev pub drop_port : ℕ → World → World
drop_port m s =
    let s1 = uncount_port m s in put_bond (record (s1.env) { n_failed = suc s.env.n_failed }) s1

abbrev pub reset_if_primary : ℕ → World → World
reset_if_primary m s = if is_primary m s.env.primary_port then bonding_reset_primary s else s

-- IPv6 is switched off on a port if nothing is configured.
abbrev pub disable_ipv6 : ℕ → World → World
disable_ipv6 d s =
    let dev = s.devs d in
    let set = record (dev.settings) {
      ipv6 = false;
      flags = flag_if true DevOpt.ipv6 dev.settings.flags;
    } in
    if dev.settings.flags DevOpt.ipv6 then s else put_dev d (record dev { settings = set }) s

-- `setdev` and `addport` are the results of system_bonding_set_device and system_bonding_set_port.
module _ (h : Hooks Bond) (setdev : Bool → World → ℤ) (addport : ℕ → World → ℤ) where
  unfoldable pub bonding_disable_port : ℕ → Bool → World → World
  bonding_disable_port m keep_dev s =
      let bp = s.env.port m in
      let s1 = put_port m (record bp { active = false }) s in
      let s2 = emit (set_port m false bp.set_primary) s1 in
      if not bp.present || not bp.active then s else if keep_dev then s2 else device_release h m s2

  -- `bdev->dev.active` is the number of claims on the bond's own device.
  abbrev pub disable_if_active : ℕ → World → World
  disable_if_active m s =
      if (s.devs s.env.dev).active == 0 then s else bonding_disable_port m false s

  abbrev pub after_removal : World → World
  after_removal s =
      let s1 = put_bond (record (s.env) { force_active = false }) s in
      if is_zero s1.env.n_present then device_set_present h s1.env.dev false s1 else s1

  unfoldable pub bonding_remove_port : ℕ → World → World
  unfolding bonding_disable_port bonding_reset_primary
  bonding_remove_port m s =
      if not (s.env.port m).present
      then s
      else after_removal (reset_if_primary m (uncount_port m (disable_if_active m s)))

  unfoldable pub bonding_set_active : Bool → World → World × ℤ
  bonding_set_active active s =
      let s1 = emit (set_device active) s in
      if same s.env.active active
      then (s, pos 0)
      else if is_negative (setdev active s)
      then (s1, setdev active s)
      else (put_bond (record (s1.env) { active = active }) s1, pos 0)

  -- The port's device is claimed and the bond is set up.
  abbrev pub join_bond : ℕ → ℕ → World → World × ℤ
  join_bond m d s =
      let dev = s.devs d in
      let bp = s.env.port m in
      let s1 = emit (set_port m true bp.set_primary) s in
      let s2 = put_port m (record bp { active = true }) s1 in
      if dev.settings.auth && not dev.auth_status
      then (s, negsuc 0)
      else if bp.active
      then (s, pos 0)
      else if is_negative (addport m s)
      then (device_release h m (drop_port m s1), addport m s)
      else (device_set_present h s2.env.dev true s2, pos 0)

  -- A bond that is not set up gives the claim back; the port still counts as present.
  abbrev pub with_bond : ℕ → ℕ → World × ℤ → World × ℤ
  with_bond m d (s, ret) = if is_zero ret then join_bond m d s else (device_release h m s, ret)

  abbrev pub claim_port : ℕ → ℕ → World → World × ℤ
  claim_port m d s =
      let r = device_claim h m s in
      if is_negative r.1 then r else with_bond m d (bonding_set_active true r.0)

  unfoldable pub bonding_enable_port : ℕ → World → World × ℤ
  unfolding bonding_set_active
  bonding_enable_port m s = if not (s.env.port m).present then (s, pos 0) else elim (s.usrs m).dev [
    | none ↦ (record s { faulted = true }, negsuc 0)
    | some d ↦ claim_port m d (disable_ipv6 d s)
  ]
