-- ===== src/Bonding/Run.antt =====
-- bonding.c: the events of the ports, and the state callback of the bond.
use netifd.Prelude.{ℕ, Bool, true, false, not, ◌&&◌, none, some, ◌==◌, if◌then◌else◌}
use netifd.Prelude.Int.{ℤ, pos, negsuc, ◌+ℤ◌}
use netifd.Settings.Defs.{DevOpt, no_flags, flag_if, ◌∩◌}
use netifd.Device.Store.{Hooks, DeviceEvent, ev_add, ev_remove, auth_up, link_down}
use netifd.Device.Claim.{is_zero}
use netifd.Device.Present.{device_set_present}
use netifd.Device.Users.{set_device_state, device_remove_user, remove_id}
use netifd.Bridge.Members.{is_negative}
use netifd.Bridge.Run.{enoent}
use netifd.Bonding.Types.{Bond, World, put_bond, put_port, each}
use netifd.Bonding.Ports.{
  bonding_reset_primary, bonding_disable_port, bonding_remove_port, bonding_set_active,
  bonding_enable_port,
}

module _ (h : Hooks Bond) (setdev : Bool → World → ℤ) (addport : ℕ → World → ℤ) where
  abbrev pub enable : ℕ → World → World
  enable m s = (bonding_enable_port h setdev addport m s).0

  -- A present device is shown as gone and as there again, so that another master can claim it.
  abbrev pub toggle_present : ℕ → World → World
  toggle_present d s =
      if (s.devs d).present then device_set_present h d true (device_set_present h d false s) else s

  unfoldable pub bonding_free_port : ℕ → World → World
  unfolding bonding_remove_port
  bonding_free_port m s =
      let s1 = bonding_remove_port h setdev addport m s in
      elim (s.usrs m).dev [
        | none ↦ record s1 { faulted = true }
        | some d ↦ toggle_present d (device_remove_user h m s1)
      ]

  -- vlist_delete of a port
  unfoldable pub delete_port : ℕ → World → World
  unfolding bonding_free_port
  delete_port m s =
      bonding_free_port m (put_bond (record (s.env) { ports = remove_id m s.env.ports }) s)

  -- The MTU is set again, which a new port may have changed in the kernel.
  abbrev pub apply_mtu : World → World
  apply_mtu s =
      let set = (s.devs s.env.dev).settings in
      let mtus = flag_if true DevOpt.mtu (flag_if true DevOpt.mtu6 no_flags) in
      h.system_if_apply_settings s.env.dev (record set { flags = set.flags ∩ mtus }) s

  unfoldable pub port_ready : ℕ → World → World
  unfolding bonding_enable_port
  port_ready m s =
      let (s1, ret) = bonding_enable_port h setdev addport m s in
      if (s.devs s.env.dev).active == 0 then s else if not (is_zero ret) then s1 else apply_mtu s1

  abbrev pub count_port : ℕ → World → World
  count_port m s =
      let s1 = put_port m (record (s.env.port m) { present = true }) s in
      put_bond (record (s1.env) { n_present = s.env.n_present +ℤ pos 1 }) s1

  unfoldable pub port_added : ℕ → World → World
  unfolding port_ready
  port_added m s =
      let s1 = count_port m s in
      if (s.env.port m).present
      then s
      else port_ready m (
          if is_zero (s1.env.n_present +ℤ negsuc 0)
          then device_set_present h s1.env.dev true s1
          else s1)

  unfoldable pub bonding_port_cb : ℕ → DeviceEvent → World → World
  unfolding port_added port_ready bonding_disable_port bonding_remove_port delete_port
  bonding_port_cb m ev_add s = port_added m s
  bonding_port_cb m auth_up s = port_ready m s
  bonding_port_cb m link_down s = elim (s.usrs m).dev [
    | none ↦ record s { faulted = true }
    | some d ↦
        if not (s.devs d).settings.auth then s else bonding_disable_port h setdev addport m true s
  ]
  bonding_port_cb m ev_remove s =
      if (s.usrs m).hotplug then delete_port m s else bonding_remove_port h setdev addport m s
  bonding_port_cb m _ s = s

  unfoldable pub bonding_set_down : World → World × ℤ
  unfolding set_device_state bonding_disable_port bonding_set_active
  bonding_set_down s =
      let s1 = (set_device_state h s.env.dev false s).0 in
      let s2 = each (λ m. bonding_disable_port h setdev addport m false) s1.env.ports s1 in
      ((bonding_set_active h setdev addport false s2).0, pos 0)

  -- A failed port is tried again by a timer.
  abbrev pub check_retry : World → World
  check_retry s = if s.env.n_failed == 0 then s else put_bond (record (s.env) { retry = true }) s

  unfoldable pub enable_ports : World → World × ℤ
  unfolding bonding_enable_port bonding_reset_primary set_device_state bonding_set_down
      bonding_set_active
  enable_ports s =
      let s1 = put_bond (record (s.env) { n_failed = 0 }) s in
      let s2 = check_retry (each enable s1.env.ports s1) in
      let s3 = (bonding_set_active h setdev addport false s2).0 in
      let (s4, ret) = set_device_state h s2.env.dev true (bonding_reset_primary s2) in
      if not s2.env.force_active && is_zero s2.env.n_present
      then (device_set_present h s3.env.dev false s3, enoent)
      else if is_negative ret
      then ((bonding_set_down s4).0, ret)
      else (s4, ret)

  abbrev pub try_ports : World × ℤ → World × ℤ
  try_ports (s, ret) = if is_zero ret then enable_ports s else (s, ret)

  unfoldable pub bonding_set_up : World → World × ℤ
  unfolding bonding_set_active enable_ports
  bonding_set_up s =
      if not (is_zero s.env.n_present)
      then enable_ports s
      else if not s.env.force_active
      then (s, enoent)
      else try_ports (bonding_set_active h setdev addport true s)

  unfoldable pub bonding_set_state : Bool → World → World × ℤ
  unfolding bonding_set_up bonding_set_down
  bonding_set_state true s = bonding_set_up s
  bonding_set_state false s = bonding_set_down s

  abbrev pub retry_port : ℕ → World → World
  retry_port m s = if (s.env.port m).present then s else elim (s.usrs m).dev [
    | none ↦ record s { faulted = true }
    | some d ↦ if not (s.devs d).present then s else enable m (count_port m s)
  ]

  unfoldable pub bonding_retry_ports : World → World
  unfolding bonding_enable_port
  bonding_retry_ports s =
      let s1 = put_bond (record (s.env) { n_failed = 0; retry = false }) s in
      each retry_port s1.env.ports s1

  unfoldable pub bonding_hotplug_prepare : World → World
  bonding_hotplug_prepare s =
      device_set_present h s.env.dev true (put_bond (record (s.env) { force_active = true }) s)
