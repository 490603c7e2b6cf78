-- ===== src/Interface/Kept.antt =====
-- interface.c, taking an interface up and down: its calls of device.c and the store of devices.
use netifd.Prelude.{
  ℕ, ◌<◌, ◌≡◌, Bool, false, not, ◌&&◌, ◌||◌, Option, none, if_keeps, match_keeps, if◌then◌else◌,
}
use netifd.Prelude.Int.{ℤ}
use netifd.ProtoShell.State.{ProtoCmd, cmd_setup, cmd_teardown, ProtoEvent}
use netifd.Device.Store.{Hooks}
use netifd.Device.Claim.{is_zero, device_release}
use netifd.Device.Users.{released}
use netifd.Device.Laws.{Inv, HookLaws}
use netifd.Device.Refcount.{device_release-Inv}
use netifd.Interface.Types.{
  IfaceEvent, ifev_down, ifev_up, ifev_up_failed, ifev_update, ifev_free, ifev_reload, ifev_link_up,
  ifev_create, IfaceState, ifs_setup, ifs_up, ifs_teardown, ifs_down, ErrorCode, Iface, Env, World,
  iface_of, put_if, IfHooks,
}
use netifd.Interface.State.{
  is_down, interface_clear_errors, interface_add_error, after_event, interface_event,
  interface_flush_state, down_event, ips_set_enabled, completes, mark_interface_down,
  interface_proto_event, set_down_in, take_down, start_setup, check_in, interface_check_state,
}

-- What is asked of the calls that an interface makes: they keep the invariant of the device
-- store, and no callback of a release claims a layer 3 device again that is being released.
pub record IfLaws {R : Type 0} (n : ℕ) (h : Hooks (Env R)) (k : IfHooks R) : Type 0 where
  pub main_lt : (i : ℕ) → k.main_dev i < n
  pub l3_lt : (i : ℕ) → k.l3_dev i < n
  pub ext_lt : (i : ℕ) → k.ext_dev i < n
  pub proto_cb_keeps :
      (i : ℕ) (c : ProtoCmd) (f : Bool) (s : World R) → Inv n s → Inv n (k.proto_cb i c f s).0
  pub proto_event_keeps :
      (i : ℕ) (ev : ProtoEvent) (s : World R) → Inv n s → Inv n (k.proto_event i ev s)
  pub user_event_keeps :
      (i : ℕ) (ev : IfaceEvent) (s : World R) → Inv n s → Inv n (k.user_event i ev s)
  pub alias_keeps :
      (i : ℕ) (d : Option ℕ) (s : World R) → Inv n s → Inv n (k.alias_notify_device i d s)
  pub ip_set_keeps : (i : ℕ) (b : Bool) (s : World R) → Inv n s → Inv n (k.ip_set_enabled i b s)
  pub ip_flush_keeps : (i : ℕ) (s : World R) → Inv n s → Inv n (k.proto_ip_flush i s)
  pub data_flush_keeps : (i : ℕ) (s : World R) → Inv n s → Inv n (k.data_flush i s)
  pub routes_keeps : (s : World R) → Inv n s → Inv n (k.system_flush_routes s)
  pub resolv_keeps : (i : ℕ) (s : World R) → Inv n s → Inv n (k.write_resolv_conf i s)
  pub proto_free_keeps : (i : ℕ) (s : World R) → Inv n s → Inv n (k.proto_free i s)
  pub proto_attach_keeps : (i : ℕ) (s : World R) → Inv n s → Inv n (k.proto_attach i s).0
  pub claim_device_keeps : (i : ℕ) (s : World R) → Inv n s → Inv n (k.claim_device i s)
  pub do_free_keeps : (i : ℕ) (s : World R) → Inv n s → Inv n (k.do_free i s)
  pub l3_leaves :
      (i : ℕ) (s : World R)
      → Inv n s
      → ((released h (k.l3_dev i) s).usrs (k.l3_dev i)).claimed ≡ false

module _ {R : Type 0} (n i : ℕ) (s : World R) where
  pub put_if-Inv : (x : Iface) → Inv n s → Inv n (put_if i x s)
  put_if-Inv x j = record { counted = j.counted; bound = j.bound; sound = j.sound; shown = j.shown }

  pub clear_errors-Inv : Inv n s → Inv n (interface_clear_errors i s)
  unfolding interface_clear_errors
  clear_errors-Inv j =
      match_keeps (Inv n) (iface_of i s).proto (λ e. put_if-Inv _ j)
        (λ p e.
          if_keeps (Inv n) (p.lasterror && (iface_of i s).same_handler) (λ e. j)
            (λ e. put_if-Inv _ j))

  pub add_error-Inv : (c : ErrorCode) → Inv n s → Inv n (interface_add_error i c s)
  unfolding interface_add_error
  add_error-Inv c j =
      match_keeps (Inv n) (iface_of i s).proto (λ e. put_if-Inv _ j)
        (λ p e.
          if_keeps (Inv n) (p.lasterror && not (iface_of i s).same_handler) (λ e. j)
            (λ e. put_if-Inv _ j))

module _ {R : Type 0} (n : ℕ) (h : Hooks (Env R)) (k : IfHooks R) (laws : HookLaws n h)
    (asks : IfLaws n h k) where
  pub event-Inv :
      (i : ℕ) (ev : IfaceEvent) (s : World R) → Inv n s → Inv n (interface_event k i ev s)
  unfolding interface_event after_event
  event-Inv i ev s j = after ev _ (asks.user_event_keeps i ev s j)
    where
      after : (ev : IfaceEvent) (t : World R) → Inv n t → Inv n (after_event k i ev t)
      after ifev_up t m = asks.alias_keeps i _ _ (put_if-Inv n i t _ m)
      after ifev_down t m = asks.alias_keeps i none t m
      after ifev_up_failed t m = asks.alias_keeps i none t m
      after ifev_update t m = m
      after ifev_free t m = m
      after ifev_reload t m = m
      after ifev_link_up t m = m
      after ifev_create t m = m

  pub release_if-Inv :
      (u : ℕ) (b : Bool) (s : World R)
      → u < n
      → Inv n s
      → Inv n (if b then device_release h u s else s)
  release_if-Inv u b s lt j =
      if_keeps (Inv n) b (λ e. device_release-Inv n h laws u s lt j) (λ e. j)

  pub flush-Inv : (i : ℕ) (s : World R) → Inv n s → Inv n (interface_flush_state h k i s)
  unfolding interface_flush_state
  flush-Inv i s j = asks.data_flush_keeps i _ (release_if-Inv (k.l3_dev i) _ s (asks.l3_lt i) j)

  pub ips-Inv : (i : ℕ) (b : Bool) (s : World R) → Inv n s → Inv n (ips_set_enabled k i b s)
  ips-Inv i b s j = asks.ip_set_keeps i b _ (put_if-Inv n i s _ j)

  down_event-Inv : (st : IfaceState) (i : ℕ) (s : World R) → Inv n s → Inv n (down_event k st i s)
  unfolding down_event
  down_event-Inv ifs_up i s j = event-Inv i ifev_down s j
  down_event-Inv ifs_teardown i s j = event-Inv i ifev_down s j
  down_event-Inv ifs_setup i s j = event-Inv i ifev_up_failed s j
  down_event-Inv ifs_down i s j = j

  pub mark_down-Inv : (i : ℕ) (s : World R) → Inv n s → Inv n (mark_interface_down h k i s)
  unfolding mark_interface_down
  mark_down-Inv i s j =
      let a = down_event-Inv (iface_of i s).state i _ (put_if-Inv n i s _ j) in
      let b = flush-Inv i _ (asks.ip_flush_keeps i _ (ips-Inv i false _ a)) in
      if_keeps (Inv n) (is_down (iface_of i s).state) (λ e. j) (λ e. asks.routes_keeps _ b)

  pub proto_event-Inv :
      (i : ℕ) (c : ProtoCmd) (f : Bool) (s : World R)
      → Inv n s
      → Inv n (interface_proto_event k i c f s).0
  unfolding interface_proto_event
  proto_event-Inv i c f s j =
      let a = asks.proto_cb_keeps i c f s j in
      let (s1, ret) = k.proto_cb i c f s in
      match_keeps P (iface_of i s).proto (λ e. env-Inv j)
        (λ p e.
          if_keeps P (not (is_zero ret) || not p.immediate) {x = (s1, ret)}
            {y = (k.proto_event i (completes c) s1, ret)} (λ e. a)
            (λ e. asks.proto_event_keeps i (completes c) s1 a))
    where
      P : World R × ℤ → Type 0
      P r = Inv n r.0

      env-Inv : {e : Env R} → Inv n s → Inv n (record s { env = e })
      env-Inv m = record { counted = m.counted; bound = m.bound; sound = m.sound; shown = m.shown }

  tear_down-Inv :
      (i : ℕ) (f : Bool) (s : World R)
      → Inv n s
      → Inv n (
          if f
          then interface_flush_state h k i (interface_proto_event k i cmd_teardown f s).0
          else (interface_proto_event k i cmd_teardown f s).0)
  tear_down-Inv i f s j =
      let a = proto_event-Inv i cmd_teardown f s j in
      if_keeps (Inv n) f (λ e. flush-Inv i _ a) (λ e. a)

  -- __interface_set_down keeps the invariant of the device store from every state.
  pub take_down-Inv : (i : ℕ) (f : Bool) (s : World R) → Inv n s → Inv n (take_down h k i f s)
  unfolding take_down set_down_in
  take_down-Inv i f s j = from (iface_of i s).state
    where
      from : (st : IfaceState) → Inv n (set_down_in h k st i f s)
      from ifs_up = tear_down-Inv i f _ (event-Inv i ifev_down _ (put_if-Inv n i s _ j))
      from ifs_setup = tear_down-Inv i f _ (put_if-Inv n i s _ j)
      from ifs_down = release_if-Inv (k.main_dev i) _ s (asks.main_lt i) j
      from ifs_teardown = j

  pub start_setup-Inv : (i : ℕ) (s : World R) → Inv n s → Inv n (start_setup h k i s).0
  unfolding start_setup
  start_setup-Inv i s j =
      let a = proto_event-Inv i cmd_setup false _ (put_if-Inv n i s _ j) in
      if_keeps (λ (r : World R × ℤ). Inv n r.0) _ (λ e. a) (λ e. mark_down-Inv i _ a)

  running-Inv :
      (i : ℕ) (b : Bool) (s : World R) (x : Iface)
      → Inv n s
      → Inv n (if b then (interface_proto_event k i cmd_teardown false (put_if i x s)).0 else s)
  running-Inv i b s x j =
      if_keeps (Inv n) b (λ e. proto_event-Inv i _ false _ (put_if-Inv n i s x j)) (λ e. j)

  pub check_state-Inv : (i : ℕ) (s : World R) → Inv n s → Inv n (interface_check_state h k i s)
  unfolding interface_check_state check_in
  check_state-Inv i s j = from (iface_of i s).state _
    where
      from : (st : IfaceState) (link : Bool) → Inv n (check_in h k st i link s)
      from ifs_up link = running-Inv i _ s _ j
      from ifs_setup link = running-Inv i _ s _ j
      from ifs_down link =
          if_keeps (Inv n) (not (iface_of i s).available) (λ e. j)
            (λ e. if_keeps (Inv n) _ (λ e. start_setup-Inv i s j) (λ e. j))
      from ifs_teardown link = j
