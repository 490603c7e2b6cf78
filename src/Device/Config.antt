-- ===== src/Device/Config.antt =====
-- device.c: a configuration is applied to a device, and users move to the device that replaces it.
use netifd.Prelude.{
  ℕ, List, [], ◌∷◌, Bool, true, false, not, Option, none, some, ◌==◌, if◌then◌else◌,
}
use netifd.Prelude.Int.{ℤ, pos}
use netifd.Settings.Init.{Attrs, Libc, init_settings}
use netifd.Device.Store.{Store, Hooks, put_dev}
use netifd.Device.Claim.{is_zero, device_release}
use netifd.Device.Present.{device_set_present, device_set_disabled}
use netifd.Device.Users.{join_device, remove_id}

-- enum dev_change_type
pub data DevChange : Type 0 where
  no_change applied restart recreate : DevChange

-- What device_set_config asks of a device type and a configuration: whether the type is the
-- device's own, the type's `reload`, whether uci_blob_check_equal finds the configurations equal,
-- whether the type takes the attributes of simple devices, and the table that they parse to.
pub record Request (E : Type 0) : Type 0 where
  pub same_type : Bool
  pub reload : Option (ℕ → Store E → Store E × DevChange)
  pub is_equal : Bool
  pub device_attrs : Bool
  pub table : Attrs

module _ {E : Type 0} (h : Hooks E) where
  -- A running device is taken down and up again under the new settings.
  abbrev pub cycle : ℕ → Store E → Store E × ℤ
  cycle d s =
      let (s1, down_ret) = h.set_state d false s in
      if (s.devs d).active == 0
      then (s, pos 0)
      else if (s.devs d).external
      then (s, pos 0)
      else if is_zero down_ret
      then h.set_state d true s1
      else (s1, down_ret)

  unfoldable pub restart_device : ℕ → Store E → Store E
  restart_device d s =
      let s1 = device_set_present h d false s in
      let (s2, ret) = cycle d s1 in if is_zero ret then device_set_present h d true s2 else s2

  unfoldable pub finish_config : ℕ → DevChange → Store E → Store E
  unfolding restart_device
  finish_config d restart s = if (s.devs d).present then restart_device d s else s
  finish_config d _ s = s

  -- One round of the loop of device_replace: the claim is dropped, the list entry moves.
  unfoldable pub move_user : ℕ → ℕ → ℕ → Store E → Store E
  unfolding join_device
  move_user dev odev u s =
      let s1 = device_release h u s in
      let old = s1.devs odev in
      join_device h u dev (put_dev odev (record old { users = remove_id u old.users }) s1)

  unfoldable pub move_users : ℕ → ℕ → List ℕ → Store E → Store E
  move_users dev odev [] s = s
  move_users dev odev (u ∷ us) s = move_users dev odev us (move_user dev odev u s)

module _ {E : Type 0} (h : Hooks E) (c : Libc) where
  unfoldable pub device_init_settings : ℕ → Attrs → Store E → Store E
  device_init_settings d tb s =
      let (settings, disabled) = init_settings c tb (s.devs d).settings in
      device_set_disabled h d disabled (put_dev d (record (s.devs d) { settings = settings }) s)

  unfoldable pub device_set_config : ℕ → Request E → Store E → Store E × DevChange
  unfolding device_init_settings
  device_set_config d r s =
      let simple =
        if r.is_equal
        then (s, no_change)
        else if r.device_attrs
        then (device_init_settings d r.table s, restart)
        else (s, recreate) in
      if not r.same_type then (s, recreate) else elim r.reload [ none ↦ simple | some f ↦ f d s ]

  unfoldable pub device_apply_config : ℕ → Request E → Store E → Store E × DevChange
  unfolding device_set_config finish_config
  device_apply_config d r s =
      let (s1, change) = device_set_config d r s in
      if (s1.devs d).external
      then (h.system_if_apply_settings d (s1.devs d).settings s1, applied)
      else (finish_config h d change s1, change)
