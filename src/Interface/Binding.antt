-- ===== src/Interface/Binding.antt =====
-- interface.c: bringing an interface up and down, and the devices that it is bound to.
use netifd.Prelude.{ℕ, Bool, true, false, not, ◌&&◌, Option, none, some, ltb, if◌then◌else◌}
use netifd.Prelude.Int.{neg_part}
use netifd.Device.Store.{Hooks}
use netifd.Device.Claim.{is_zero, device_claim}
use netifd.Device.Present.{same}
use netifd.Device.Users.{same_dev, device_add_user}
use netifd.Interface.Types.{
  ifev_link_up, ErrorCode, device_claim_failed, setup_failed, no_device, Env, World, iface_of,
  put_if, IfHooks,
}
use netifd.Interface.State.{
  is_up, is_down, has_some, main_dev_of, l3_dev_of, interface_force_link, interface_clear_errors,
  interface_add_error, interface_event, take_down, start_setup, interface_check_state,
  ips_set_enabled,
}

module _ {R : Type 0} (h : Hooks (Env R)) (k : IfHooks R) where
  unfoldable pub interface_set_enabled : ℕ → Bool → World R → World R
  interface_set_enabled i on s =
      if same (iface_of i s).enabled on
      then s
      else interface_check_state h k i (put_if i (record (iface_of i s) { enabled = on }) s)

  -- A link that comes up under a forced link is announced once while the interface is up.
  abbrev pub announce_link : ℕ → Bool → World R → World R
  announce_link i on s =
      let x = iface_of i s in
      let s1 = interface_event k i ifev_link_up s in
      if on && (interface_force_link k i s && (is_up x.state && not x.link_up_event))
      then put_if i (record (iface_of i s1) { link_up_event = true }) s1
      else s

  unfoldable pub interface_set_link_state : ℕ → Bool → World R → World R
  interface_set_link_state i on s =
      let s1 =
        interface_check_state h k i (put_if i (record (iface_of i s) { link_state = on }) s) in
      if same (iface_of i s).link_state on
      then s
      else interface_event k i ifev_link_up (announce_link i on s1)

  -- The error that interface_set_up records, if there is one.
  abbrev pub with_error : ℕ → Option ErrorCode → World R → World R
  with_error i none s = s
  with_error i (some e) s = interface_add_error i e s

  abbrev claim_main : ℕ → World R → World R
  claim_main i s =
      let (s1, ret) = device_claim h (k.main_dev i) s in
      if is_zero ret
      then interface_check_state h k i s1
      else with_error i (some device_claim_failed) s1

  abbrev setup_without_device : ℕ → World R → World R
  setup_without_device i s =
      let (s1, ret) = start_setup h k i s in
      if is_zero ret then s1 else with_error i (some setup_failed) s1

  unfoldable pub set_up_available : ℕ → World R → World R
  set_up_available i s =
      if has_some (main_dev_of k i s) then claim_main i s else setup_without_device i s

  unfoldable pub interface_set_up : ℕ → World R → World R
  unfolding set_up_available
  interface_set_up i s =
      let s1 = put_if i (record (iface_of i s) { autostart = true }) s in
      let s2 = interface_clear_errors i s1 in
      if not (is_down (iface_of i s).state)
      then s1
      else if (iface_of i s2).available
      then set_up_available i s2
      else with_error i (some no_device) s2

  -- The call with one interface: it does not start by itself again.
  unfoldable pub interface_set_down : ℕ → World R → World R
  interface_set_down i s =
      take_down h k i false (put_if i (record (iface_of i s) { autostart = false }) s)

  unfoldable pub interface_set_available : ℕ → Bool → World R → World R
  unfolding interface_set_up
  interface_set_available i on s =
      let s1 = put_if i (record (iface_of i s) { available = on }) s in
      if same (iface_of i s).available on
      then s
      else if not on
      then take_down h k i true s1
      else if (iface_of i s1).autostart && not s1.env.config_init
      then interface_set_up i s1
      else s1

  -- The addresses are put back on the new device as they were enabled on the old one.
  abbrev pub restore_ips : ℕ → Bool → Bool → World R → World R
  restore_ips i on claimed s =
      let (s1, ret) = device_claim h (k.l3_dev i) s in
      if not claimed
      then ips_set_enabled k i on s
      else if ltb 0 (neg_part ret)
      then s1
      else ips_set_enabled k i on s1

  unfoldable pub interface_set_l3_dev : ℕ → Option ℕ → World R → World R
  interface_set_l3_dev i dev s =
      let x = iface_of i s in
      let claimed = (s.usrs (k.l3_dev i)).claimed in
      let s1 = k.proto_ip_flush i (ips_set_enabled k i false s) in
      let s2 = device_add_user h (k.l3_dev i) dev s1 in
      if same_dev (l3_dev_of k i s) dev
      then s
      else elim dev [ none ↦ s2 | some d ↦ restore_ips i x.config_ip_enabled claimed s2 ]

  abbrev pub bind_l3 : ℕ → ℕ → World R → World R
  bind_l3 i d s = if has_some (l3_dev_of k i s) then s else interface_set_l3_dev i (some d) s

  abbrev pub follow_l3 : ℕ → ℕ → Bool → World R → World R
  follow_l3 i d claimed s =
      let (s1, ret) = device_claim h (k.l3_dev i) s in
      if not claimed then bind_l3 i d s else if ltb 0 (neg_part ret) then s1 else bind_l3 i d s1

  unfoldable pub interface_set_main_dev : ℕ → Option ℕ → World R → World R
  unfolding interface_set_available interface_set_l3_dev interface_set_link_state
  interface_set_main_dev i dev s =
      let claimed = (s.usrs (k.l3_dev i)).claimed in
      let s1 = interface_set_available i false s in
      let s2 = device_add_user h (k.main_dev i) dev s1 in
      if same_dev (main_dev_of k i s) dev then s else elim dev [
        | none ↦ interface_set_link_state i false s2
        | some d ↦ follow_l3 i d claimed s2
      ]
