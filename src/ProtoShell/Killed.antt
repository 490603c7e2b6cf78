-- ===== src/ProtoShell/Killed.antt =====
-- proto-shell.c: the mark that the script's command was killed on request.
use netifd.Prelude.{◌≡◌, Bool, true, Option, none, arith}
use netifd.ProtoShell.State.{
  Sm, s_idle, s_setup, s_setup_abort, s_teardown, ProtoCmd, cmd_setup, cmd_teardown, cmd_renew,
  ProtoEvent, ifpev_down, ifpev_up, ifpev_link_lost, Task, script_task, proto_task, no_task, State,
  Config, Hooks, kill_process,
}
use netifd.ProtoShell.Machine.{
  proto_shell_handler, proto_shell_teardown_timeout_cb, proto_shell_script_cb, proto_shell_task_cb,
  proto_shell_checkup_timeout_cb, finish_running, finish_in, quiesce,
}
use netifd.ProtoShell.Notify.{
  Status, proto_shell_update_link, proto_shell_run_command, proto_shell_kill_command,
  proto_shell_setup_failed, setup_failed_in,
}
use netifd.ProtoShell.Runs.{
  Step, Reach, here, next, command, script_ends, task_ends, teardown_fires, checkup_fires,
  update_link, run_command, kill_command, setup_failed,
}

abbrev pub IsKilled : {E : Type 0} → State E → Type 0
IsKilled s = s.proto_task_killed ≡ true

module _ {E : Type 0} (h : Hooks E) (c : Config) (apply_link : State E → State E × Status)
    (event_keeps : (ev : ProtoEvent) (s : State E) → IsKilled s → IsKilled (h.proto_event ev s))
    (link_keeps : (s : State E) → IsKilled s → IsKilled (apply_link s).0) where
  handler-IsKilled :
      (cmd : ProtoCmd) (s : State E) → IsKilled s → IsKilled (proto_shell_handler h c cmd s).0
  unfolding proto_shell_handler
  handler-IsKilled cmd_setup s k = ground arith
  handler-IsKilled cmd_teardown s k = ground arith
  handler-IsKilled cmd_renew s k = ground arith

  running-IsKilled : (t : Task) (s : State E) → IsKilled s → IsKilled (finish_running h c t s)
  unfolding finish_running
  running-IsKilled proto_task s k = handler-IsKilled cmd_teardown s k
  running-IsKilled no_task s k = k
  running-IsKilled script_task s k =
      ground (arith, handler-IsKilled cmd_teardown s, handler-IsKilled cmd_renew s)

  finish-IsKilled : (m : Sm) (t : Task) (s : State E) → IsKilled s → IsKilled (finish_in h c m t s)
  unfolding finish_in
  finish-IsKilled s_idle proto_task s k =
      running-IsKilled proto_task _ (event_keeps ifpev_link_lost s k)
  finish-IsKilled s_idle script_task s k = running-IsKilled script_task s k
  finish-IsKilled s_idle no_task s k = running-IsKilled no_task s k
  finish-IsKilled s_setup t s k = running-IsKilled t s k
  finish-IsKilled s_setup_abort t s k =
      ground (arith, handler-IsKilled cmd_teardown (quiesce h c s))
  finish-IsKilled s_teardown t s k = ground (arith, event_keeps ifpev_down (quiesce h c s))

  timeout-IsKilled : (s : State E) → IsKilled s → IsKilled (proto_shell_teardown_timeout_cb h c s)
  unfolding proto_shell_teardown_timeout_cb
  timeout-IsKilled s k =
      let t =
        kill_process proto_task (kill_process script_task (record s { teardown_timeout = none })) in
      finish-IsKilled t.sm no_task t (ground arith)

  link-IsKilled :
      (up : Option Bool) (s : State E)
      → IsKilled s
      → IsKilled (proto_shell_update_link h apply_link up s).0
  unfolding proto_shell_update_link
  link-IsKilled up s k =
      ground
        (arith, link_keeps s, event_keeps ifpev_link_lost s, event_keeps ifpev_up (apply_link s).0)

  failed-IsKilled : (m : Sm) (s : State E) → IsKilled s → IsKilled (setup_failed_in h c m s).0
  unfolding setup_failed_in
  failed-IsKilled s_idle s k = handler-IsKilled cmd_teardown _ (event_keeps ifpev_link_lost s k)
  failed-IsKilled s_setup s k = handler-IsKilled cmd_teardown s k
  failed-IsKilled _ s k = k

  Step-IsKilled : {s t : State E} → Step h c apply_link s t → IsKilled s → IsKilled t
  unfolding proto_shell_script_cb proto_shell_task_cb proto_shell_setup_failed
      proto_shell_checkup_timeout_cb
  Step-IsKilled (command cmd s) k = handler-IsKilled cmd s k
  Step-IsKilled (script_ends s p) k = finish-IsKilled s.sm script_task _ k
  Step-IsKilled (task_ends status s p) k = finish-IsKilled s.sm proto_task _ k
  Step-IsKilled (teardown_fires s p) k = timeout-IsKilled s k
  Step-IsKilled (checkup_fires a u s) k =
      ground (arith, handler-IsKilled cmd_teardown (record s { checkup_timeout = none }))
  Step-IsKilled (update_link up s) k = link-IsKilled up s k
  Step-IsKilled (run_command argv env s) k = unfold proto_shell_run_command in (ground arith)
  Step-IsKilled (kill_command sig s) k = unfold proto_shell_kill_command in (ground arith)
  Step-IsKilled (setup_failed s) k = failed-IsKilled s.sm s k

  -- Once the flag is set that the script's command was killed on request, it stays set through
  -- every sequence of events, a new setup and a new command among them, if the interface does not
  -- change it.
  pub Reach-IsKilled : {s t : State E} → IsKilled s → Reach h c apply_link s t → IsKilled t
  Reach-IsKilled k here = k
  Reach-IsKilled k (next r st) = Step-IsKilled st (Reach-IsKilled k r)
