-- ===== src/Interface/State.antt =====
-- interface.c: errors, events, and the changes of an interface's state.
use netifd.Prelude.{
  ℕ, [], ◌∷◌, ◌++◌, Bool, true, false, not, ◌&&◌, ◌||◌, Option, none, some, if◌then◌else◌,
}
use netifd.Prelude.Int.{ℤ, pos}
use netifd.ProtoShell.State.{
  ProtoCmd, cmd_setup, cmd_teardown, cmd_renew, ProtoEvent, ifpev_up, ifpev_down, ifpev_renew,
}
use netifd.Device.Store.{Hooks}
use netifd.Device.Claim.{is_zero, device_release}
use netifd.Interface.Types.{
  IfaceEvent, ifev_down, ifev_up, ifev_up_failed, IfaceState, ifs_setup, ifs_up, ifs_teardown,
  ifs_down, ifc_remove, ErrorCode, Iface, Env, World, iface_of, put_if, IfHooks,
}

abbrev pub is_up : IfaceState → Bool
is_up ifs_up = true
is_up _ = false

abbrev pub is_down : IfaceState → Bool
is_down ifs_down = true
is_down _ = false

abbrev pub has_some {ℓ} : {A : Type ℓ} → Option A → Bool
has_some none = false
has_some (some a) = true

module _ {R : Type 0} where
  abbrev pub interface_error_flush : ℕ → World R → World R
  interface_error_flush i s = put_if i (record (iface_of i s) { errors = [] }) s

  -- The errors stay if the running handler is the configured one and keeps its last error.
  unfoldable pub interface_clear_errors : ℕ → World R → World R
  interface_clear_errors i s = elim (iface_of i s).proto [
    | none ↦ interface_error_flush i s
    | some p ↦ if p.lasterror && (iface_of i s).same_handler then s else interface_error_flush i s
  ]

  abbrev append_error : ℕ → ErrorCode → World R → World R
  append_error i e s =
      let x = iface_of i s in
      let old = if x.handler.lasterror then [] else x.errors in
      put_if i (record x { errors = old ++ e ∷ [] }) s

  -- A running handler that keeps its last error takes none while it is not the configured one.
  unfoldable pub interface_add_error : ℕ → ErrorCode → World R → World R
  interface_add_error i e s = elim (iface_of i s).proto [
    | none ↦ append_error i e s
    | some p ↦ if p.lasterror && not (iface_of i s).same_handler then s else append_error i e s
  ]

-- proto.c: the event that completes a command of an immediate handler.
abbrev pub completes : ProtoCmd → ProtoEvent
completes cmd_setup = ifpev_up
completes cmd_teardown = ifpev_down
completes cmd_renew = ifpev_renew

-- A dynamic interface is removed once it is down.
abbrev to_teardown : Iface → Iface
to_teardown x = record x {
  state = ifs_teardown;
  config_state = if x.dynamic then ifc_remove else x.config_state;
}

module _ {R : Type 0} (k : IfHooks R) where
  abbrev pub main_dev_of : ℕ → World R → Option ℕ
  main_dev_of i s = (s.usrs (k.main_dev i)).dev

  abbrev pub l3_dev_of : ℕ → World R → Option ℕ
  l3_dev_of i s = (s.usrs (k.l3_dev i)).dev

  -- A device that asks for authentication overrides the option.
  unfoldable pub interface_force_link : ℕ → World R → Bool
  interface_force_link i s = elim (main_dev_of i s) [
    | none ↦ (iface_of i s).force_link
    | some d ↦ if (s.devs d).settings.auth then false else (iface_of i s).force_link
  ]

  -- What interface_event does after the users were told.
  unfoldable pub after_event : ℕ → IfaceEvent → World R → World R
  after_event i ifev_up s =
      let s1 = interface_error_flush i s in k.alias_notify_device i (l3_dev_of i s1) s1
  after_event i ifev_down s = k.alias_notify_device i none s
  after_event i ifev_up_failed s = k.alias_notify_device i none s
  after_event i _ s = s

  unfoldable pub interface_event : ℕ → IfaceEvent → World R → World R
  unfolding after_event
  interface_event i ev s = after_event i ev (k.user_event i ev s)

  -- The event that says how the interface went down.
  unfoldable pub down_event : IfaceState → ℕ → World R → World R
  unfolding interface_event
  down_event ifs_up i s = interface_event i ifev_down s
  down_event ifs_teardown i s = interface_event i ifev_down s
  down_event ifs_setup i s = interface_event i ifev_up_failed s
  down_event ifs_down i s = s

  -- interface_ip_set_enabled on the configured addresses and on the protocol's.
  abbrev pub ips_set_enabled : ℕ → Bool → World R → World R
  ips_set_enabled i on s =
      let s1 =
        put_if i (record (iface_of i s) { config_ip_enabled = on; proto_ip_enabled = on }) s in
      k.ip_set_enabled i on s1

  -- proto.c. An interface with no protocol state would be a NULL pointer here.
  unfoldable pub interface_proto_event : ℕ → ProtoCmd → Bool → World R → World R × ℤ
  interface_proto_event i cmd force s = elim (iface_of i s).proto [
    | none ↦ (record s { env = record (s.env) { null_proto = true } }, pos 0)
    | some p ↦
        let (s1, ret) = k.proto_cb i cmd force s in
        if not (is_zero ret) || not p.immediate
        then (s1, ret)
        else (k.proto_event i (completes cmd) s1, ret)
  ]

module _ {R : Type 0} (h : Hooks (Env R)) (k : IfHooks R) where
  unfoldable pub interface_flush_state : ℕ → World R → World R
  interface_flush_state i s =
      k.data_flush i (if has_some (l3_dev_of k i s) then device_release h (k.l3_dev i) s else s)

  unfoldable pub mark_interface_down : ℕ → World R → World R
  unfolding down_event interface_flush_state
  mark_interface_down i s =
      let x = iface_of i s in
      let s1 = put_if i (record x { link_up_event = false; state = ifs_down }) s in
      let s2 = ips_set_enabled k i false (down_event k x.state i s1) in
      let s3 = interface_flush_state i (k.proto_ip_flush i s2) in
      if is_down x.state then s else k.system_flush_routes s3

  abbrev tear_down : ℕ → Bool → World R → World R
  tear_down i force s =
      let s1 = (interface_proto_event k i cmd_teardown force s).0 in
      if force then interface_flush_state i s1 else s1

  -- __interface_set_down, by the state that it finds.
  unfoldable pub set_down_in : IfaceState → ℕ → Bool → World R → World R
  unfolding interface_event interface_proto_event interface_flush_state
  set_down_in ifs_up i force s =
      tear_down i force (interface_event k i ifev_down (put_if i (to_teardown (iface_of i s)) s))
  set_down_in ifs_setup i force s = tear_down i force (put_if i (to_teardown (iface_of i s)) s)
  set_down_in ifs_down i force s =
      if has_some (main_dev_of k i s) then device_release h (k.main_dev i) s else s
  set_down_in ifs_teardown i force s = s

  unfoldable pub take_down : ℕ → Bool → World R → World R
  unfolding set_down_in
  take_down i force s = set_down_in (iface_of i s).state i force s

  -- __interface_set_up
  unfoldable pub start_setup : ℕ → World R → World R × ℤ
  unfolding interface_proto_event mark_interface_down
  start_setup i s =
      let s1 = put_if i (record (iface_of i s) { state = ifs_setup }) s in
      let (s2, ret) = interface_proto_event k i cmd_setup false s1 in
      if is_zero ret then (s2, ret) else (mark_interface_down i s2, ret)

  -- interface_check_state, by the state that it finds.
  abbrev check_running : ℕ → Bool → World R → World R
  check_running i link s =
      if not (iface_of i s).enabled || not link
      then (interface_proto_event k i cmd_teardown false
          (put_if i (to_teardown (iface_of i s)) s)).0
      else s

  unfoldable pub check_in : IfaceState → ℕ → Bool → World R → World R
  unfolding start_setup
  check_in ifs_up i link s = check_running i link s
  check_in ifs_setup i link s = check_running i link s
  check_in ifs_down i link s =
      let x = iface_of i s in
      if not x.available
      then s
      else if x.autostart && (x.enabled && (link && not s.env.config_init))
      then (start_setup i s).0
      else s
  check_in ifs_teardown i link s = s

  unfoldable pub interface_check_state : ℕ → World R → World R
  unfolding check_in
  interface_check_state i s =
      check_in (iface_of i s).state i ((iface_of i s).link_state || interface_force_link k i s) s
