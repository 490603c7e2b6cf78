-- ===== src/Interface/Followed.antt =====
-- interface.c, the callbacks of an interface: their calls of device.c and the store of devices.
use netifd.Prelude.{ℕ, ◌≢◌, Bool, true, false, Option, none, if_keeps, match_keeps, if◌then◌else◌}
use netifd.ProtoShell.State.{
  cmd_renew, ProtoEvent, ifpev_up, ifpev_down, ifpev_link_lost, ifpev_renew,
}
use netifd.Device.Store.{
  Hooks, DeviceEvent, ev_add, ev_remove, update_ifname, update_ifindex, setup, teardown, up, down,
  auth_up, link_up, link_down, topo_change,
}
use netifd.Device.Users.{device_remove_user}
use netifd.Device.Laws.{Inv, HookLaws}
use netifd.Device.Membership.{device_remove_user-Inv}
use netifd.Interface.Types.{
  put_if, ifev_up, ifev_update, ifev_reload, IfaceState, ifs_setup, ifs_up, ifs_teardown, ifs_down,
  ConfigState, ifc_normal, ifc_reload, ifc_remove, ProtoFlags, Env, World, iface_of, IfHooks,
}
use netifd.Interface.State.{has_some, is_up, is_down, main_dev_of, l3_dev_of, interface_event}
use netifd.Interface.Binding.{interface_set_available}
use netifd.Interface.Leaves.{
  MainLeaves, ChangeLeaves, HandleLeaves, ConfigLeaves, EventLeaves, ProtoLeaves,
}
use netifd.Interface.Kept.{
  IfLaws, put_if-Inv, clear_errors-Inv, event-Inv, release_if-Inv, flush-Inv, ips-Inv,
  mark_down-Inv, proto_event-Inv, take_down-Inv,
}
use netifd.Interface.Bound.{
  set_enabled-Inv, set_link_state-Inv, interface_set_up-Inv, set_available-Inv, set_l3_dev-Inv,
  interface_set_main_dev-Inv,
}
use netifd.Interface.Events.{
  normal, flushed, taken_down, free_proto, interface_set_proto_state, main_dev_gone, follow_link,
  interface_main_dev_cb, interface_cleanup_state, interface_do_reload, autostart_again,
  change_config, interface_handle_config_change, set_config_state, bound_l3, proto_is_up,
  proto_is_down, link_is_lost, proto_up_in, interface_proto_event_cb,
}

module _ {R : Type 0} (n : ℕ) (h : Hooks (Env R)) (k : IfHooks R) (laws : HookLaws n h)
    (asks : IfLaws n h k) where
  gone-Inv :
      (i : ℕ) (s : World R)
      → MainLeaves h k i none (interface_set_available h k i false s)
      → Inv n s
      → Inv n (main_dev_gone h k i s)
  gone-Inv i s leaves j =
      let a = set_available-Inv n h k laws asks i false s j in
      let s1 = interface_set_available h k i false s in
      match_keeps (Inv n) (main_dev_of k i s1) (λ e. a)
        (λ d e.
          if_keeps (Inv n) (s1.devs d).external
            (λ e. interface_set_main_dev-Inv n h k laws asks i none s1 leaves a) (λ e. a))

  follow_link-Inv :
      (i : ℕ) (s : World R) → main_dev_of k i s ≢ none → Inv n s → Inv n (follow_link h k i s)
  follow_link-Inv i s on j =
      match_keeps (Inv n) (main_dev_of k i s) (λ e. absurd (on e))
        (λ d e. set_link_state-Inv n h k laws asks i _ s j)

  -- Whatever its main device tells an interface, the answer of the interface keeps the invariant of
  -- the device store, and no missing device is followed. The interface must be bound to a main
  -- device, and no callback may claim that again while it is given up.
  pub interface_main_dev_cb-Inv :
      (i : ℕ) (ev : DeviceEvent) (s : World R)
      → main_dev_of k i s ≢ none
      → EventLeaves h k i ev s
      → Inv n s
      → Inv n (interface_main_dev_cb h k i ev s)
  unfolding interface_main_dev_cb
  interface_main_dev_cb-Inv i ev_add s on leaves j = set_available-Inv n h k laws asks i true s j
  interface_main_dev_cb-Inv i ev_remove s on leaves j = gone-Inv i s leaves j
  interface_main_dev_cb-Inv i up s on leaves j = set_enabled-Inv n h k laws asks i true s j
  interface_main_dev_cb-Inv i down s on leaves j = set_enabled-Inv n h k laws asks i false s j
  interface_main_dev_cb-Inv i auth_up s on leaves j = follow_link-Inv i s on j
  interface_main_dev_cb-Inv i link_up s on leaves j = follow_link-Inv i s on j
  interface_main_dev_cb-Inv i link_down s on leaves j = follow_link-Inv i s on j
  interface_main_dev_cb-Inv i topo_change s on leaves j =
      proto_event-Inv n h k laws asks i cmd_renew false s j
  interface_main_dev_cb-Inv i update_ifname s on leaves j = j
  interface_main_dev_cb-Inv i update_ifindex s on leaves j = j
  interface_main_dev_cb-Inv i setup s on leaves j = j
  interface_main_dev_cb-Inv i teardown s on leaves j = j

  set_proto-Inv :
      (i : ℕ) (p : Option ProtoFlags) (s : World R)
      → Inv n s
      → Inv n (interface_set_proto_state k i p s)
  unfolding interface_set_proto_state
  set_proto-Inv i p s j = put_if-Inv n i (free_proto k i s) _ freed
    where
      freed : Inv n (free_proto k i s)
      freed =
          if_keeps (Inv n) (has_some (iface_of i s).proto)
            (λ e. put_if-Inv n i _ _ (asks.proto_free_keeps i s j)) (λ e. j)

  cleanup-Inv :
      (i : ℕ) (s : World R)
      → MainLeaves h k i none (flushed h k i s)
      → Inv n s
      → Inv n (interface_cleanup_state h k i s)
  unfolding interface_cleanup_state
  cleanup-Inv i s leaves j =
      let a = flush-Inv n h k laws asks i _ (set_available-Inv n h k laws asks i false s j) in
      let b = set_proto-Inv i none _ (clear_errors-Inv n i _ a) in
      set_l3_dev-Inv n h k laws asks i none _
        (interface_set_main_dev-Inv n h k laws asks i none (flushed h k i s) leaves b)

  reload-Inv :
      (i : ℕ) (s : World R)
      → ChangeLeaves h k ifc_reload i s
      → Inv n s
      → Inv n (interface_do_reload h k i s)
  unfolding interface_do_reload
  reload-Inv i s leaves j =
      let a =
        cleanup-Inv i (interface_event k i ifev_reload s) leaves
          (event-Inv n h k laws asks i ifev_reload s j) in
      asks.claim_device_keeps i _ (set_proto-Inv i _ _ (asks.proto_attach_keeps i _ a))

  again-Inv : (i : ℕ) (s : World R) → Inv n s → Inv n (autostart_again h k i s)
  again-Inv i s j =
      if_keeps (Inv n) (iface_of i s).autostart (λ e. interface_set_up-Inv n h k laws asks i s j)
        (λ e. j)

  change-Inv :
      (c : ConfigState) (i : ℕ) (s : World R)
      → ChangeLeaves h k c i s
      → Inv n s
      → Inv n (change_config h k c i s)
  unfolding change_config
  change-Inv ifc_normal i s leaves j = again-Inv i s j
  change-Inv ifc_reload i s leaves j = again-Inv i _ (reload-Inv i s leaves j)
  change-Inv ifc_remove i s leaves j = asks.do_free_keeps i s j

  handle_change-Inv :
      (i : ℕ) (s : World R)
      → HandleLeaves h k i s
      → Inv n s
      → Inv n (interface_handle_config_change h k i s)
  unfolding interface_handle_config_change
  handle_change-Inv i s leaves j =
      change-Inv (iface_of i s).config_state i (normal h k i s) leaves (put_if-Inv n i s _ j)

  -- Marking an interface for a reload, a removal or neither keeps the invariant of the device
  -- store, whatever state the interface is in, if no callback claims the main device again while
  -- it is given up.
  pub set_config_state-Inv :
      (i : ℕ) (c : ConfigState) (s : World R)
      → ConfigLeaves h k i c s
      → Inv n s
      → Inv n (set_config_state h k i c s)
  unfolding set_config_state
  set_config_state-Inv i c s leaves j =
      let a = put_if-Inv n i s (record (iface_of i s) { config_state = c }) j in
      if_keeps (Inv n) (is_down (iface_of i s).state)
        (λ e.
          handle_change-Inv i (put_if i (record (iface_of i s) { config_state = c }) s) (leaves e)
            a)
        (λ e. take_down-Inv n h k laws asks i false _ a)

  is_up-Inv : (i : ℕ) (s : World R) → Inv n s → Inv n (proto_is_up h k i s)
  is_up-Inv i s j = asks.resolv_keeps i _ (
      event-Inv n h k laws asks i ifev_up _ (
        put_if-Inv n i _ _
          (asks.routes_keeps _ (ips-Inv n h k laws asks i true (bound_l3 h k i s) bound))))
    where
      bound : Inv n (bound_l3 h k i s)
      bound =
          if_keeps (Inv n) (has_some (l3_dev_of k i s)) (λ e. j)
            (λ e. set_l3_dev-Inv n h k laws asks i _ s j)

  remove_l3-Inv :
      (i : ℕ) (b : Bool) (s : World R)
      → Inv n s
      → Inv n (if b then device_remove_user h (k.l3_dev i) s else s)
  remove_l3-Inv i b s j =
      if_keeps (Inv n) b
        (λ e.
          (device_remove_user-Inv n h laws (k.l3_dev i) s (asks.l3_lt i) (asks.l3_leaves i s j)
            j).0)
        (λ e. j)

  is_down-Inv :
      (i : ℕ) (s : World R)
      → HandleLeaves h k i (taken_down h k i s)
      → Inv n s
      → Inv n (proto_is_down h k i s)
  is_down-Inv i s leaves j =
      let a = mark_down-Inv n h k laws asks i s j in
      let b = release_if-Inv n h k laws asks (k.main_dev i) _ _ (asks.main_lt i) a in
      let c = remove_l3-Inv i _ _ b in
      asks.resolv_keeps i _ (handle_change-Inv i (taken_down h k i s) leaves c)

  is_lost-Inv : (i : ℕ) (s : World R) → Inv n s → Inv n (link_is_lost h k i s)
  is_lost-Inv i s j =
      let a = mark_down-Inv n h k laws asks i s j in asks.resolv_keeps i _ (put_if-Inv n i _ _ a)

  up_in-Inv : (st : IfaceState) (i : ℕ) (s : World R) → Inv n s → Inv n (proto_up_in h k st i s)
  unfolding proto_up_in
  up_in-Inv ifs_setup i s j = is_up-Inv i s j
  up_in-Inv ifs_up i s j =
      if_keeps (Inv n) (iface_of i s).updated (λ e. event-Inv n h k laws asks i ifev_update s j)
        (λ e. j)
  up_in-Inv ifs_teardown i s j = j
  up_in-Inv ifs_down i s j = j

  -- Whatever a protocol handler reports, and in whatever state the interface is, the answer of the
  -- interface keeps the invariant of the device store, if no callback claims the main device again
  -- while it is given up.
  pub interface_proto_event_cb-Inv :
      (i : ℕ) (ev : ProtoEvent) (s : World R)
      → ProtoLeaves h k i ev s
      → Inv n s
      → Inv n (interface_proto_event_cb h k i ev s)
  unfolding interface_proto_event_cb
  interface_proto_event_cb-Inv i ifpev_up s leaves j = up_in-Inv (iface_of i s).state i s j
  interface_proto_event_cb-Inv i ifpev_down s leaves j =
      if_keeps (Inv n) (is_down (iface_of i s).state) (λ e. j) (λ e. is_down-Inv i s (leaves e) j)
  interface_proto_event_cb-Inv i ifpev_link_lost s leaves j =
      if_keeps (Inv n) (is_up (iface_of i s).state) (λ e. is_lost-Inv i s j) (λ e. j)
  interface_proto_event_cb-Inv i ifpev_renew s leaves j = j
