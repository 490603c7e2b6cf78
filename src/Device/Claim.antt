-- ===== src/Device/Claim.antt =====
-- device.c: broadcasts, and the claims that bring a device up and down.
use netifd.Prelude.{ℕ, suc, ◌-◌, Bool, true, false, not, ◌||◌, none, some, ◌==◌, if◌then◌else◌}
use netifd.Prelude.Int.{ℤ, pos, negsuc}
use netifd.Settings.Defs.{DevOpt, flag_if}
use netifd.Device.Store.{
  Store, Hooks, DeviceEvent, setup, teardown, up, down, update_ifindex, put_dev, put_usr,
}

-- `ret == 0`
abbrev pub is_zero : ℤ → Bool
is_zero (pos n) = n == 0
is_zero (negsuc n) = false

module _ {E : Type 0} where
  abbrev pub take_claim : ℕ → ℕ → Store E → Store E
  take_claim u d s =
      put_dev d (record (s.devs d) { active = suc (s.devs d).active })
        (put_usr u (record (s.usrs u) { claimed = true }) s)

  -- The claim of a user whose device could not be brought up.
  abbrev pub void_claim : ℕ → ℕ → Store E → Store E
  void_claim u d s =
      put_usr u (record (s.usrs u) { claimed = false })
        (put_dev d (record (s.devs d) { active = 0 }) s)

  -- The assert fails if the count was 0 already.
  abbrev pub drop_claim : ℕ → ℕ → Store E → Store E
  drop_claim u d s =
      let s1 = put_usr u (record (s.usrs u) { claimed = false }) s in
      let s2 = put_dev d (record (s.devs d) { active = (s.devs d).active - 1 }) s1 in
      record s2 { faulted = s.faulted || (s.devs d).active == 0 }

module _ {E : Type 0} (h : Hooks E) where
  -- A user that an earlier callback took off its device is passed over.
  unfoldable pub device_broadcast_cb : DeviceEvent → ℕ → Store E → Store E
  device_broadcast_cb ev u s = elim (s.usrs u).dev [ none ↦ s | some d ↦ h.cb u ev s ]

  unfoldable pub device_broadcast_event : ℕ → DeviceEvent → Store E → Store E
  device_broadcast_event d ev s =
      let s1 = h.walk (λ t. (t.devs d).aliases) (device_broadcast_cb ev) s in
      h.walk (λ t. (t.devs d).users) (device_broadcast_cb ev) s1

  unfoldable pub device_set_ifindex : ℕ → ℕ → Store E → Store E
  device_set_ifindex d ifindex s =
      if (s.devs d).ifindex == ifindex
      then s
      else device_broadcast_event d update_ifindex
          (put_dev d (record (s.devs d) { ifindex = ifindex }) s)

  unfoldable pub device_fill_default_settings : ℕ → Store E → Store E
  device_fill_default_settings d s =
      let dev = s.devs d in
      let set = dev.settings in
      if set.flags DevOpt.macaddr then s else elim (h.config_get_default_macaddr dev.ifname) [
        | none ↦ s
        | some ea ↦
            put_dev d
              (record dev {
                settings = record set {
                  macaddr = ea;
                  flags = flag_if true DevOpt.default_macaddr set.flags;
                };
              })
              s
      ]

  -- The branch of device_claim for an external device.
  unfoldable pub claim_external : ℕ → Store E → Store E × ℤ
  claim_external d s =
      let s1 = device_set_ifindex d (h.system_if_resolve d s) s in
      let ret : ℤ = if (s1.devs d).ifindex == 0 then negsuc 0 else pos 0 in
      (put_dev d (record (s1.devs d) { orig_settings = h.system_if_get_settings d s1 }) s1, ret)

  unfoldable pub bring_up : ℕ → Store E → Store E × ℤ
  bring_up d s =
      let s1 = device_broadcast_event d setup s in
      let s2 = device_fill_default_settings d s1 in
      if (s2.devs d).external then claim_external d s2 else h.set_state d true s2

  -- What device_claim does with the result `ret` of bringing the device up.
  unfoldable pub claim_result : ℕ → ℕ → Store E → ℤ → Store E × ℤ
  claim_result u d s ret =
      if is_zero ret then (device_broadcast_event d up s, ret) else (void_claim u d s, ret)

  unfoldable pub claim_device : ℕ → ℕ → Store E → Store E × ℤ
  claim_device u d s =
      let s1 = take_claim u d s in
      if not ((s1.devs d).active == 1)
      then (s1, pos 0)
      else let (s2, ret) = bring_up d s1 in claim_result u d s2 ret

  unfoldable pub device_claim : ℕ → Store E → Store E × ℤ
  device_claim u s =
      if (s.usrs u).claimed
      then (s, pos 0)
      else elim (s.usrs u).dev [ none ↦ (s, negsuc 0) | some d ↦ claim_device u d s ]

  -- An external device is left as it is.
  unfoldable pub switch_off : ℕ → Store E → Store E
  switch_off d s = if (s.devs d).external then s else (h.set_state d false s).0

  -- The last claim is gone: the device goes down, unless a callback claims it again meanwhile.
  unfoldable pub bring_down : ℕ → Store E → Store E
  bring_down d s =
      let s2 = switch_off d (device_broadcast_event d teardown s) in
      if not ((s2.devs d).active == 0) then s2 else device_broadcast_event d down s2

  unfoldable pub device_release : ℕ → Store E → Store E
  device_release u s = if not (s.usrs u).claimed then s else elim (s.usrs u).dev [
    | none ↦ record s { faulted = true }
    | some d ↦
        let s1 = drop_claim u d s in if not ((s1.devs d).active == 0) then s1 else bring_down d s1
  ]
