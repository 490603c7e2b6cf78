-- ===== src/Wireless/Machine.antt =====
-- wireless.c: the states of a wireless device, from a setup to the retry after a failure.
use netifd.Prelude.{ℕ, List, [], ◌∷◌, ◌++◌, Bool, true, false, not, ◌&&◌, ◌||◌, ltb, if◌then◌else◌}
use netifd.Prelude.Int.{ℤ, pos, neg_part, ◌-ℤ◌}
use netifd.Interface.Types.{
  IfaceState, ifs_setup, ifs_up, ifs_teardown, ifs_down, ConfigState, ifc_normal, ifc_reload,
  ifc_remove,
}
use netifd.Device.Present.{same}
use netifd.Interface.State.{is_up, is_down}
use netifd.ProtoShell.State.{sigterm}
use netifd.Wireless.Types.{Wireless, put, emit, run_script, links, kill_script}
use netifd.Wireless.Handlers.{process_kill_all, handler_stop, free_state}

abbrev pub setup_retry : ℤ
setup_retry = pos 3

abbrev pub kill_script_task : ℕ → Wireless → Wireless
kill_script_task d w =
    if (w.devs d).running
    then put d (record (w.devs d) { running = false }) (emit (kill_script d) w)
    else w

abbrev pub is_normal : ConfigState → Bool
is_normal ifc_normal = true
is_normal _ = false

-- Whether pipe and fork succeed.
module _ (can_pipe can_start : Wireless → Bool) where
  -- The script of a device, which gets no turn if another one is being served.
  unfoldable pub start_script : ℕ → Bool → Wireless → Wireless
  start_script d up w =
      let x = w.devs d in
      let w1 = put d (record x { script_proc_fd = x.script_proc_fd || up && can_pipe w }) w in
      let w2 = kill_script_task d w1 in
      if can_start w2
      then put d (record (w2.devs d) { running = true }) (emit (run_script d up) w2)
      else w2

  -- A device that is serialized takes the turn. A teardown uses up the old configuration.
  unfoldable pub take_turn : ℕ → Bool → Wireless → Wireless
  take_turn d up w =
      let x = w.devs d in
      record (put d (record x { prev_config = x.prev_config && up }) w) {
        busy = w.busy || x.serialize;
      }

  unfoldable pub wait_turn : ℕ → Bool → Wireless → Wireless
  wait_turn d up w =
      record (put d (record (w.devs d) { handler_action = up; handler_pending = true }) w) {
        handlers = w.handlers ++ d ∷ [];
      }

  unfoldable pub run_handler : ℕ → Bool → Wireless → Wireless
  unfolding start_script take_turn wait_turn
  run_handler d up w =
      let w1 = handler_stop d w in
      if w1.busy && (w1.devs d).serialize
      then wait_turn d up w1
      else start_script d up (take_turn d up w1)

  unfoldable pub next_in : List ℕ → Wireless → Wireless
  unfolding run_handler
  next_in [] w = w
  next_in (d ∷ l) w =
      let w1 = record (put d (record (w.devs d) { handler_pending = false }) w) { handlers = l } in
      run_handler d (w.devs d).handler_action w1

  unfoldable pub handler_next : Wireless → Wireless
  unfolding next_in
  handler_next w = if w.busy then w else next_in w.handlers w

  -- __wireless_device_set_up
  unfoldable pub start_setup : ℕ → Bool → Wireless → Wireless
  unfolding run_handler
  start_setup d force w =
      let x = w.devs d in
      let w1 = put d (record x { prev_config = false; state = ifs_setup }) w in
      if x.disabled || (x.retry_setup_failed || not x.autostart)
      then w
      else if not force && (not (is_down x.state) || w.config_init)
      then w
      else run_handler d true w1

  unfoldable pub device_free : ℕ → Wireless → Wireless
  unfolding handler_stop
  device_free d w =
      let w1 = handler_stop d w in
      put d (record (w1.devs d) { prev_config = false; freed = true }) w1

  unfoldable pub change_config : ConfigState → ℕ → Wireless → Wireless
  unfolding start_setup device_free
  change_config ifc_remove d w = device_free d w
  change_config ifc_normal d w =
      let w1 = start_setup d false w in put d (record (w1.devs d) { config_state = ifc_normal }) w1
  change_config ifc_reload d w =
      let fresh = record (w.devs d) { retry = setup_retry; retry_setup_failed = false } in
      let w1 = start_setup d false (put d fresh w) in
      put d (record (w1.devs d) { config_state = ifc_normal }) w1

  unfoldable pub mark_down : ℕ → Wireless → Wireless
  unfolding change_config process_kill_all free_state
  mark_down d w =
      let w1 = process_kill_all d sigterm true (emit (links d false) w) in
      let w2 = put d (record (w1.devs d) { cancel = false; state = ifs_down }) w1 in
      let w3 = free_state d w2 in change_config (w3.devs d).config_state d w3

  unfoldable pub setup_cancel : ℕ → Wireless → Wireless
  unfolding handler_stop
  setup_cancel d w =
      let w1 = handler_stop d w in
      if (w.devs d).cancel
      then w
      else put d (record (w1.devs d) { cancel = true; timeout = true }) w1

  -- __wireless_device_set_down, by the state that it finds.
  unfoldable pub stop_in : IfaceState → ℕ → Wireless → Wireless
  unfolding setup_cancel run_handler
  stop_in ifs_teardown d w = w
  stop_in ifs_down d w = w
  stop_in _ d w =
      if (w.devs d).running
      then setup_cancel d w
      else run_handler d false (put d (record (w.devs d) { state = ifs_teardown }) w)

  unfoldable pub stop_device : ℕ → Wireless → Wireless
  unfolding stop_in
  stop_device d w = stop_in (w.devs d).state d w

  unfoldable pub retry_in : IfaceState → ℕ → Wireless → Wireless
  unfolding stop_device
  retry_in ifs_teardown d w = w
  retry_in ifs_down d w = w
  retry_in _ d w =
      let x = w.devs d in
      let left = x.retry -ℤ pos 1 in
      let spent = record x {
        retry = left;
        retry_setup_failed = x.retry_setup_failed || ltb 0 (neg_part left);
      } in
      if x.cancel then w else stop_device d (put d spent w)

  unfoldable pub retry_setup : ℕ → Wireless → Wireless
  unfolding retry_in
  retry_setup d w = retry_in (w.devs d).state d w

  unfoldable pub script_ended_in : IfaceState → ℕ → Wireless → Wireless
  unfolding retry_setup mark_down
  script_ended_in ifs_setup d w = retry_setup d w
  script_ended_in ifs_teardown d w = mark_down d w
  script_ended_in _ d w = w

  -- The turn goes to the next device. The device is read once more, also if it was freed.
  unfoldable pub give_turn : ℕ → Wireless → Wireless
  unfolding handler_next
  give_turn d w =
      let w1 = record w { faulted = w.faulted || (w.devs d).freed } in
      if (w.devs d).serialize then handler_next (record w1 { busy = false }) else w1

  unfoldable pub script_task_cb : ℕ → Wireless → Wireless
  unfolding script_ended_in give_turn
  script_task_cb d w = give_turn d (script_ended_in (w.devs d).state d w)

  -- The process has ended before its callback.
  unfoldable pub script_ends : ℕ → Wireless → Wireless
  unfolding script_task_cb
  script_ends d w = script_task_cb d (put d (record (w.devs d) { running = false }) w)

  unfoldable pub setup_timeout : ℕ → Wireless → Wireless
  unfolding script_task_cb mark_down handler_stop
  setup_timeout d w =
      let w1 = handler_stop d (put d (record (w.devs d) { timeout = false }) w) in
      mark_down d (script_task_cb d (kill_script_task d w1))

  unfoldable pub wireless_device_set_up : ℕ → Wireless → Wireless
  unfolding start_setup
  wireless_device_set_up d w =
      start_setup d false (put d (record (w.devs d) { retry = setup_retry; autostart = true }) w)

  unfoldable pub wireless_device_reconf : ℕ → Wireless → Wireless
  unfolding start_setup
  wireless_device_reconf d w =
      let x = w.devs d in
      start_setup d (x.reconf && is_up x.state)
        (put d (record x { retry = setup_retry; autostart = true }) w)

  unfoldable pub wireless_device_set_down : ℕ → Wireless → Wireless
  unfolding stop_device
  wireless_device_set_down d w =
      stop_device d (put d (record (w.devs d) { retry_setup_failed = false; autostart = false }) w)

  -- The script has reported that the device is up.
  unfoldable pub mark_up : ℕ → Wireless → Wireless
  unfolding stop_device
  mark_up d w =
      let x = w.devs d in
      let w1 = put d (record x { retry = setup_retry; state = ifs_up }) w in
      if x.cancel
      then stop_device d (put d (record x { cancel = false }) w)
      else emit (links d true) w1

  unfoldable pub wdev_set_config_state : ConfigState → ℕ → Wireless → Wireless
  unfolding change_config stop_device
  wdev_set_config_state c d w =
      let x = w.devs d in
      let w1 = put d (record x { config_state = c }) w in
      if not (is_normal x.config_state)
      then w
      else if is_down x.state
      then change_config c d w1
      else if not x.reconf || not (is_up x.state)
      then stop_device d w1
      else w1

  -- `equal` says that the new configuration equals the old one.
  unfoldable pub wdev_change_config : Bool → Bool → ℕ → Wireless → Wireless
  unfolding wdev_set_config_state
  wdev_change_config equal disabled d w =
      let w1 = put d (record (w.devs d) { prev_config = true }) w in
      let w2 = put d (record (w1.devs d) { disabled = disabled }) w1 in
      if equal && same disabled (w.devs d).disabled
      then w1
      else wdev_set_config_state ifc_reload d w2
