-- ===== src/Interface/Events.antt =====
-- interface.c: what an interface does when its devices, its parent, its protocol or its
-- configuration change.
use netifd.Prelude.{ℕ, Bool, true, false, Option, none, some, if◌then◌else◌}
use netifd.Prelude.Int.{ℤ, negsuc}
use netifd.ProtoShell.State.{
  cmd_teardown, cmd_renew, ProtoEvent, ifpev_up, ifpev_down, ifpev_link_lost, ifpev_renew,
}
use netifd.Device.Store.{
  Hooks, DeviceEvent, ev_add, ev_remove, up, down, auth_up, link_up, link_down, topo_change,
}
use netifd.Device.Claim.{device_release}
use netifd.Device.Present.{device_link_active}
use netifd.Device.Users.{same_dev, device_remove_user}
use netifd.Interface.Types.{
  IfaceEvent, ifev_down, ifev_up, ifev_up_failed, ifev_update, ifev_free, ifev_reload, IfaceState,
  ifs_setup, ifs_up, ifs_teardown, ifs_down, ConfigState, ifc_normal, ifc_reload, ifc_remove,
  ProtoFlags, Env, World, iface_of, put_if, IfHooks,
}
use netifd.Interface.State.{
  is_up, is_down, has_some, main_dev_of, l3_dev_of, interface_clear_errors, interface_event,
  interface_flush_state, interface_proto_event, mark_interface_down, take_down, ips_set_enabled,
}
use netifd.Interface.Binding.{
  interface_set_enabled, interface_set_link_state, interface_set_up, interface_set_available,
  interface_set_l3_dev, interface_set_main_dev,
}

module _ {R : Type 0} (k : IfHooks R) where
  abbrev pub free_proto : ℕ → World R → World R
  free_proto i s =
      let s1 = k.proto_free i s in
      if has_some (iface_of i s).proto
      then put_if i (record (iface_of i s1) { proto = none }) s1
      else s

  unfoldable pub interface_set_proto_state : ℕ → Option ProtoFlags → World R → World R
  interface_set_proto_state i p s =
      let s1 = free_proto i s in
      put_if i (record (iface_of i s1) { state = ifs_down; proto = p }) s1

module _ {R : Type 0} (h : Hooks (Env R)) (k : IfHooks R) where
  unfoldable pub interface_ext_dev_cb : ℕ → DeviceEvent → World R → World R
  interface_ext_dev_cb i ev_remove s = device_remove_user h (k.ext_dev i) s
  interface_ext_dev_cb i _ s = s

  -- A device that is not ours goes away for good.
  abbrev pub main_dev_gone : ℕ → World R → World R
  main_dev_gone i s =
      let s1 = interface_set_available h k i false s in
      elim (main_dev_of k i s1) [
        | none ↦ s1
        | some d ↦ if (s1.devs d).external then interface_set_main_dev h k i none s1 else s1
      ]

  -- The link of the device is read through the user's pointer.
  abbrev pub follow_link : ℕ → World R → World R
  follow_link i s = elim (main_dev_of k i s) [
    | none ↦ record s { faulted = true }
    | some d ↦ interface_set_link_state h k i (device_link_active (s.devs d)) s
  ]

  unfoldable pub interface_main_dev_cb : ℕ → DeviceEvent → World R → World R
  unfolding interface_proto_event
  interface_main_dev_cb i ev_add s = interface_set_available h k i true s
  interface_main_dev_cb i ev_remove s = main_dev_gone i s
  interface_main_dev_cb i up s = interface_set_enabled h k i true s
  interface_main_dev_cb i down s = interface_set_enabled h k i false s
  interface_main_dev_cb i auth_up s = follow_link i s
  interface_main_dev_cb i link_up s = follow_link i s
  interface_main_dev_cb i link_down s = follow_link i s
  interface_main_dev_cb i topo_change s = (interface_proto_event k i cmd_renew false s).0
  interface_main_dev_cb i _ s = s

  unfoldable pub interface_l3_dev_cb : ℕ → DeviceEvent → World R → World R
  unfolding interface_proto_event
  interface_l3_dev_cb i link_down s =
      if same_dev (l3_dev_of k i s) (main_dev_of k i s)
      then s
      else if (iface_of i s).handler.teardown_on_l3_link_down
      then (interface_proto_event k i cmd_teardown false s).0
      else s
  interface_l3_dev_cb i _ s = s

  -- The parent is taken as the interface whose event this is.
  abbrev alias_onto : ℕ → Option ℕ → World R → World R
  alias_onto i none s = s
  alias_onto i (some d) s =
      interface_set_available h k i true (interface_set_main_dev h k i (some d) s)

  abbrev alias_off : ℕ → World R → World R
  alias_off i s = interface_set_main_dev h k i none (interface_set_available h k i false s)

  unfoldable pub interface_alias_cb : ℕ → ℕ → IfaceEvent → World R → World R
  interface_alias_cb i parent ifev_up s = alias_onto i (l3_dev_of k parent s) s
  interface_alias_cb i parent ifev_down s = alias_off i s
  interface_alias_cb i parent ifev_up_failed s = alias_off i s
  interface_alias_cb i parent ifev_free s = put_if i (record (iface_of i s) { parent = none }) s
  interface_alias_cb i parent _ s = s

  abbrev pub flushed : ℕ → World R → World R
  flushed i s =
      let s1 = interface_flush_state h k i (interface_set_available h k i false s) in
      interface_set_proto_state k i none (interface_clear_errors i s1)

  unfoldable pub interface_cleanup_state : ℕ → World R → World R
  unfolding interface_set_proto_state
  interface_cleanup_state i s =
      interface_set_l3_dev h k i none (interface_set_main_dev h k i none (flushed i s))

  -- proto_init_interface attaches the handler's new protocol state.
  abbrev pub reinit : ℕ → World R → World R
  reinit i s =
      let (s1, p) = k.proto_attach i (interface_cleanup_state i s) in
      k.claim_device i (interface_set_proto_state k i p s1)

  unfoldable pub interface_do_reload : ℕ → World R → World R
  interface_do_reload i s = reinit i (interface_event k i ifev_reload s)

  abbrev pub normal : ℕ → World R → World R
  normal i s = put_if i (record (iface_of i s) { config_state = ifc_normal }) s

  abbrev pub autostart_again : ℕ → World R → World R
  autostart_again i s = if (iface_of i s).autostart then interface_set_up h k i s else s

  unfoldable pub change_config : ConfigState → ℕ → World R → World R
  unfolding interface_do_reload
  change_config ifc_normal i s = autostart_again i s
  change_config ifc_reload i s = autostart_again i (interface_do_reload i s)
  change_config ifc_remove i s = k.do_free i s

  unfoldable pub interface_handle_config_change : ℕ → World R → World R
  unfolding change_config
  interface_handle_config_change i s = change_config (iface_of i s).config_state i (normal i s)

  unfoldable pub set_config_state : ℕ → ConfigState → World R → World R
  unfolding interface_handle_config_change
  set_config_state i c s =
      let s1 = put_if i (record (iface_of i s) { config_state = c }) s in
      if is_down (iface_of i s).state
      then interface_handle_config_change i s1
      else take_down h k i false s1

  abbrev pub bound_l3 : ℕ → World R → World R
  bound_l3 i s =
      if has_some (l3_dev_of k i s) then s else interface_set_l3_dev h k i (main_dev_of k i s) s

  abbrev pub proto_is_up : ℕ → World R → World R
  proto_is_up i s =
      let s1 = k.system_flush_routes (ips_set_enabled k i true (bound_l3 i s)) in
      let s2 = put_if i (record (iface_of i s1) { state = ifs_up }) s1 in
      k.write_resolv_conf i (interface_event k i ifev_up s2)

  abbrev pub taken_down : ℕ → World R → World R
  taken_down i s =
      let s1 = mark_interface_down h k i s in
      let s2 = if has_some (main_dev_of k i s1) then device_release h (k.main_dev i) s1 else s1 in
      if has_some (l3_dev_of k i s2) then device_remove_user h (k.l3_dev i) s2 else s2

  abbrev pub proto_is_down : ℕ → World R → World R
  proto_is_down i s = k.write_resolv_conf i (interface_handle_config_change i (taken_down i s))

  abbrev pub link_is_lost : ℕ → World R → World R
  link_is_lost i s =
      let s1 = mark_interface_down h k i s in
      k.write_resolv_conf i (put_if i (record (iface_of i s1) { state = ifs_setup }) s1)

  -- interface_proto_event_cb, by the state that it finds.
  unfoldable pub proto_up_in : IfaceState → ℕ → World R → World R
  unfolding interface_event
  proto_up_in ifs_setup i s = proto_is_up i s
  proto_up_in ifs_up i s = if (iface_of i s).updated then interface_event k i ifev_update s else s
  proto_up_in ifs_teardown i s = s
  proto_up_in ifs_down i s = s

  unfoldable pub interface_proto_event_cb : ℕ → ProtoEvent → World R → World R
  unfolding proto_up_in
  interface_proto_event_cb i ifpev_up s = proto_up_in (iface_of i s).state i s
  interface_proto_event_cb i ifpev_down s =
      if is_down (iface_of i s).state then s else proto_is_down i s
  interface_proto_event_cb i ifpev_link_lost s =
      if is_up (iface_of i s).state then link_is_lost i s else s
  interface_proto_event_cb i ifpev_renew s = s

  abbrev is_running : IfaceState → Bool
  is_running ifs_setup = true
  is_running ifs_up = true
  is_running _ = false

  unfoldable pub interface_renew : ℕ → World R → World R × ℤ
  interface_renew i s =
      if is_running (iface_of i s).state
      then interface_proto_event k i cmd_renew false s
      else (s, negsuc 0)
