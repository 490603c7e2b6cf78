-- ===== src/Wireless/Turns.antt =====
-- wireless.c: every operation on wireless devices, and the turn of the scripts that are serialized.
use netifd.Prelude.{ℕ, ◌≡◌, refl, Bool, true, false, not, ◌&&◌, ◌||◌, if_keeps, if◌then◌else◌}
use netifd.ProtoShell.State.{sigterm}
use netifd.Interface.Types.{
  IfaceState, ifs_setup, ifs_up, ifs_teardown, ifs_down, ConfigState, ifc_normal, ifc_reload,
  ifc_remove,
}
use netifd.Interface.State.{is_up, is_down}
use netifd.Device.Present.{same}
use netifd.Wireless.Types.{Wdev, Wireless, put, emit, links}
use netifd.Wireless.Handlers.{process_kill_all, handler_stop}
use netifd.Wireless.Machine.{
  setup_retry, is_normal, run_handler, start_setup, device_free, change_config, mark_down,
  setup_cancel, stop_in, stop_device, retry_in, retry_setup, script_ended_in,
  wireless_device_set_up, wireless_device_reconf, wireless_device_set_down, mark_up,
  wdev_set_config_state, wdev_change_config,
}
use netifd.Wireless.Serial.{
  Stops, put-Stops, emit-Stops, kill_all-Stops, handler_stop-Stops, free_state-Stops,
}

module _ (can_pipe can_start : Wireless → Bool) where
  -- What all operations keep that stop or run handlers.
  pub record Closed (P : Wireless → Type 0) : Type 0 where
    pub stops : (w v : Wireless) → Stops w v → P w → P v
    pub runs : (d : ℕ) (up : Bool) (w : Wireless) → P w → P (run_handler can_pipe can_start d up w)

  module _ (P : Wireless → Type 0) (c : Closed P) where
    pub put_keeps :
        (d : ℕ) (x : Wdev) (w : Wireless)
        → x.running ≡ (w.devs d).running
        → x.serialize ≡ (w.devs d).serialize
        → P w
        → P (put d x w)
    put_keeps d x w a b p = c.stops w (put d x w) (put-Stops d x w a b) p

    pub start_setup_keeps :
        (d : ℕ) (force : Bool) (w : Wireless) → P w → P (start_setup can_pipe can_start d force w)
    unfolding start_setup
    start_setup_keeps d force w p =
        let x = w.devs d in
        if_keeps P (x.disabled || (x.retry_setup_failed || not x.autostart)) (λ e. p)
          (λ e.
            if_keeps P (not force && (not (is_down x.state) || w.config_init)) (λ e. p)
              (λ e.
                c.runs d true _ (
                  put_keeps d (record x { prev_config = false; state = ifs_setup }) w refl refl p)))

    device_free_keeps : (d : ℕ) (w : Wireless) → P w → P (device_free can_pipe can_start d w)
    unfolding device_free
    device_free_keeps d w p =
        put_keeps d _ (handler_stop d w) refl refl (c.stops w _ (handler_stop-Stops d w) p)

    change_config_keeps :
        (s : ConfigState) (d : ℕ) (w : Wireless) → P w → P (change_config can_pipe can_start s d w)
    unfolding change_config
    change_config_keeps ifc_remove d w p = device_free_keeps d w p
    change_config_keeps ifc_normal d w p =
        put_keeps d _ (start_setup can_pipe can_start d false w) refl refl
          (start_setup_keeps d false w p)
    change_config_keeps ifc_reload d w p =
        let fresh = record (w.devs d) { retry = setup_retry; retry_setup_failed = false } in
        put_keeps d _ (start_setup can_pipe can_start d false (put d fresh w)) refl refl
          (start_setup_keeps d false _ (put_keeps d fresh w refl refl p))

    pub mark_down_keeps : (d : ℕ) (w : Wireless) → P w → P (mark_down can_pipe can_start d w)
    unfolding mark_down
    mark_down_keeps d w p =
        let w0 = emit (links d false) w in
        let w1 = process_kill_all d sigterm true w0 in
        let x = record (w1.devs d) { cancel = false; state = ifs_down } in
        let a =
          c.stops w0 w1 (kill_all-Stops d sigterm true w0) (c.stops w w0 (emit-Stops _ w) p) in
        let b =
          c.stops (put d x w1) _ (free_state-Stops d (put d x w1)) (put_keeps d x w1 refl refl a) in
        change_config_keeps _ d _ b

    cancel_keeps : (d : ℕ) (w : Wireless) → P w → P (setup_cancel can_pipe can_start d w)
    unfolding setup_cancel
    cancel_keeps d w p =
        if_keeps P (w.devs d).cancel (λ e. p)
          (λ e. put_keeps d _ (handler_stop d w) refl refl (c.stops w _ (handler_stop-Stops d w) p))

    stop_running_keeps :
        (d : ℕ) (w : Wireless)
        → P w
        → P (
            if (w.devs d).running
            then setup_cancel can_pipe can_start d w
            else run_handler can_pipe can_start d false
                (put d (record (w.devs d) { state = ifs_teardown }) w))
    stop_running_keeps d w p =
        if_keeps P (w.devs d).running (λ e. cancel_keeps d w p)
          (λ e.
            c.runs d false _
              (put_keeps d (record (w.devs d) { state = ifs_teardown }) w refl refl p))

    stop_keeps : (d : ℕ) (w : Wireless) → P w → P (stop_device can_pipe can_start d w)
    unfolding stop_device stop_in
    stop_keeps d w p = from (w.devs d).state
      where
        from : (s : IfaceState) → P (stop_in can_pipe can_start s d w)
        from ifs_teardown = p
        from ifs_down = p
        from ifs_setup = stop_running_keeps d w p
        from ifs_up = stop_running_keeps d w p

    spend_keeps :
        (d : ℕ) (w : Wireless)
        → P w
        → (x : Wdev) → x.running ≡ (w.devs d).running
        → x.serialize ≡ (w.devs d).serialize
        → P (if (w.devs d).cancel then w else stop_device can_pipe can_start d (put d x w))
    spend_keeps d w p x a b =
        if_keeps P (w.devs d).cancel (λ e. p)
          (λ e. stop_keeps d (put d x w) (put_keeps d x w a b p))

    pub retry_keeps : (d : ℕ) (w : Wireless) → P w → P (retry_setup can_pipe can_start d w)
    unfolding retry_setup retry_in
    retry_keeps d w p = from (w.devs d).state
      where
        from : (s : IfaceState) → P (retry_in can_pipe can_start s d w)
        from ifs_teardown = p
        from ifs_down = p
        from ifs_setup = spend_keeps d w p _ refl refl
        from ifs_up = spend_keeps d w p _ refl refl

    pub script_ended_keeps :
        (s : IfaceState) (d : ℕ) (w : Wireless) → P w → P (script_ended_in can_pipe can_start s d w)
    unfolding script_ended_in
    script_ended_keeps ifs_setup d w p = retry_keeps d w p
    script_ended_keeps ifs_teardown d w p = mark_down_keeps d w p
    script_ended_keeps ifs_up d w p = p
    script_ended_keeps ifs_down d w p = p

    pub set_up_keeps :
        (d : ℕ) (w : Wireless) → P w → P (wireless_device_set_up can_pipe can_start d w)
    unfolding wireless_device_set_up
    set_up_keeps d w p = start_setup_keeps d false _ (put_keeps d _ w refl refl p)

    pub reconf_keeps :
        (d : ℕ) (w : Wireless) → P w → P (wireless_device_reconf can_pipe can_start d w)
    unfolding wireless_device_reconf
    reconf_keeps d w p = start_setup_keeps d _ _ (put_keeps d _ w refl refl p)

    pub set_down_keeps :
        (d : ℕ) (w : Wireless) → P w → P (wireless_device_set_down can_pipe can_start d w)
    unfolding wireless_device_set_down
    set_down_keeps d w p = stop_keeps d _ (put_keeps d _ w refl refl p)

    pub mark_up_keeps : (d : ℕ) (w : Wireless) → P w → P (mark_up can_pipe can_start d w)
    unfolding mark_up
    mark_up_keeps d w p =
        let x = w.devs d in
        let up = record x { retry = setup_retry; state = ifs_up } in
        if_keeps P x.cancel
          (λ e. stop_keeps d _ (put_keeps d (record x { cancel = false }) w refl refl p))
          (λ e.
            c.stops (put d up w) _ (emit-Stops (links d true) (put d up w))
              (put_keeps d up w refl refl p))

    pub config_state_keeps :
        (s : ConfigState) (d : ℕ) (w : Wireless)
        → P w
        → P (wdev_set_config_state can_pipe can_start s d w)
    unfolding wdev_set_config_state
    config_state_keeps s d w p =
        let x = w.devs d in
        let a = put_keeps d (record x { config_state = s }) w refl refl p in
        if_keeps P (not (is_normal x.config_state)) (λ e. p)
          (λ e.
            if_keeps P (is_down x.state) (λ e. change_config_keeps s d _ a)
              (λ e.
                if_keeps P (not x.reconf || not (is_up x.state)) (λ e. stop_keeps d _ a) (λ e. a)))

    pub new_config_keeps :
        (equal disabled : Bool) (d : ℕ) (w : Wireless)
        → P w
        → P (wdev_change_config can_pipe can_start equal disabled d w)
    unfolding wdev_change_config
    new_config_keeps equal disabled d w p =
        let x1 = record (w.devs d) { prev_config = true } in
        let w1 = put d x1 w in
        let a = put_keeps d x1 w refl refl p in
        let b = put_keeps d (record (w1.devs d) { disabled = disabled }) w1 refl refl a in
        if_keeps P (equal && same disabled (w.devs d).disabled) (λ e. a)
          (λ e. config_state_keeps ifc_reload d _ b)
