-- ===== src/ProtoShell/Machine.antt =====
-- proto-shell.c: commands to a script handler, the end of its processes, and its timeouts.
use netifd.Prelude.{ℕ, ◌*◌, Bool, true, false, not, ◌&&◌, ◌||◌, none, some, ltb, if◌then◌else◌}
use netifd.Prelude.Int.{ℤ, pos, negsuc, pos_part}
use netifd.ProtoShell.State.{
  Sm, s_idle, s_setup, s_setup_abort, s_teardown, ProtoCmd, cmd_setup, cmd_teardown, cmd_renew,
  ifpev_down, ifpev_link_lost, Task, script_task, proto_task, no_task, signal, Config, State, Hooks,
  sigterm, emit, kill_process, start_script,
}

abbrev pub is_setup : Sm → Bool
is_setup s_setup = true
is_setup _ = false

module _ {E : Type 0} (h : Hooks E) (c : Config) where
  -- The part of proto_shell_handler that runs the script.
  unfoldable pub run_action : ProtoCmd → State E → State E × ℤ
  unfolding start_script
  run_action action s = if h.has_json s then start_script h action s else (s, negsuc 0)

  unfoldable pub handle_setup : Sm → State E → State E × ℤ
  unfolding run_action
  handle_setup s_idle s =
      run_action cmd_setup (record s { last_error = negsuc 0; deps = 0; sm = s_setup })
  handle_setup _ s = (s, negsuc 0)

  unfoldable pub handle_renew : State E → State E × ℤ
  unfolding run_action
  handle_renew s =
      if not c.renew_available
      then (s, pos 0)
      else if s.script_pending
      then (record s { renew_pending = true }, pos 0)
      else run_action cmd_renew (record s { renew_pending = false })

  abbrev start_teardown : State E → State E × ℤ
  start_teardown s =
      run_action cmd_teardown
        (record s { renew_pending = false; sm = s_teardown; teardown_timeout = some 5000 })

  -- A setup script that still runs is told to stop, and the daemon's own command too.
  abbrev abort_setup : State E → State E
  abort_setup s =
      let s1 = emit (signal script_task sigterm) s in
      let s2 = if s.proto_pending then emit (signal proto_task sigterm) s1 else s1 in
      record s2 { renew_pending = false; sm = s_setup_abort; teardown_timeout = some 1000 }

  unfoldable pub handle_teardown : Sm → State E → State E × ℤ
  unfolding run_action
  handle_teardown s_setup s = if s.script_pending then (abort_setup s, pos 0) else start_teardown s
  handle_teardown s_idle s = start_teardown s
  handle_teardown s_teardown s = (s, pos 0)
  handle_teardown s_setup_abort s = (s, negsuc 0)

  unfoldable pub proto_shell_handler : ProtoCmd → State E → State E × ℤ
  unfolding handle_setup handle_renew handle_teardown
  proto_shell_handler cmd_setup s = handle_setup s.sm s
  proto_shell_handler cmd_renew s = handle_renew s
  proto_shell_handler cmd_teardown s = handle_teardown s.sm s

  -- The checkup timer is set once a setup script has ended with the setup still open.
  abbrev arm_checkup : State E → State E
  arm_checkup s =
      if is_setup s.sm && ltb 0 (pos_part c.checkup_interval)
      then record s { checkup_timeout = some (pos_part c.checkup_interval * 1000) }
      else s

  -- The case of S_SETUP in proto_shell_task_finish, which that of S_IDLE falls into.
  unfoldable pub finish_running : Task → State E → State E
  unfolding proto_shell_handler
  finish_running proto_task s = (proto_shell_handler cmd_teardown s).0
  finish_running script_task s = arm_checkup (
      if s.renew_pending
      then (proto_shell_handler cmd_renew s).0
      else if not c.runs_no_task && (not s.proto_pending && is_setup s.sm)
      then (proto_shell_handler cmd_teardown s).0
      else s)
  finish_running no_task s = s

  abbrev pub quiesce : State E → State E
  quiesce s = record s { teardown_timeout = none; checkup_timeout = none; sm = s_idle }

  abbrev finish_teardown : State E → State E
  finish_teardown s =
      if s.script_pending
      then s
      else if s.proto_pending
      then (if s.proto_task_killed then s else emit (signal proto_task sigterm) s)
      else h.proto_event ifpev_down (quiesce s)

  abbrev finish_abort : State E → State E
  finish_abort s =
      if s.script_pending || s.proto_pending
      then s
      else (proto_shell_handler cmd_teardown (quiesce s)).0

  unfoldable pub finish_in : Sm → Task → State E → State E
  unfolding finish_running proto_shell_handler
  finish_in s_idle proto_task s = finish_running proto_task (h.proto_event ifpev_link_lost s)
  finish_in s_idle t s = finish_running t s
  finish_in s_setup t s = finish_running t s
  finish_in s_setup_abort t s = finish_abort s
  finish_in s_teardown t s = finish_teardown s

  unfoldable pub proto_shell_task_finish : Task → State E → State E
  unfolding finish_in
  proto_shell_task_finish t s = finish_in s.sm t s

  unfoldable pub proto_shell_teardown_timeout_cb : State E → State E
  unfolding proto_shell_task_finish kill_process
  proto_shell_teardown_timeout_cb s =
      proto_shell_task_finish no_task
        (kill_process proto_task (kill_process script_task (record s { teardown_timeout = none })))

  -- The process has ended, so its slot is free before the callback.
  unfoldable pub proto_shell_script_cb : State E → State E
  unfolding proto_shell_task_finish
  proto_shell_script_cb s =
      proto_shell_task_finish script_task (record s { script_pending = false })

  abbrev keeps_error : Sm → Bool
  keeps_error s_idle = true
  keeps_error s_setup = true
  keeps_error _ = false

  unfoldable pub proto_shell_task_cb : ℕ → State E → State E
  unfolding proto_shell_task_finish
  proto_shell_task_cb status s = proto_shell_task_finish proto_task (record s {
    proto_pending = false;
    last_error = if keeps_error s.sm then pos status else s.last_error;
  })

  -- `autostart` and `is_up` are the interface's.
  unfoldable pub proto_shell_checkup_timeout_cb : Bool → Bool → State E → State E
  unfolding proto_shell_handler
  proto_shell_checkup_timeout_cb autostart is_up s =
      let s1 = record s { checkup_timeout = none } in
      if not autostart then s1 else if is_up then s1 else (proto_shell_handler cmd_teardown s1).0
