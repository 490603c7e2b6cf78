-- ===== src/ProtoShell/Liveness.antt =====
-- proto-shell.c: how the stops of a script handler end, and what can get in their way.
use netifd.Prelude.{◌≡◌, ◌≢◌, refl, ◌⊎◌, inl, inr, true, false, none, arith}
use netifd.Prelude.Int.{negsuc}
use netifd.ProtoShell.State.{
  Sm, s_idle, s_setup, s_setup_abort, s_teardown, cmd_setup, cmd_teardown, ifpev_down, script_task,
  proto_task, State, Config, Hooks, kill_process,
}
use netifd.ProtoShell.Machine.{proto_shell_handler, proto_shell_teardown_timeout_cb, quiesce}
use netifd.ProtoShell.Notify.{is_stopping}

module _ {E : Type 0} (h : Hooks E) (c : Config) where
  -- The interface is told that the protocol is down; at that moment nothing runs and no timer is
  -- set, so that a setup can start anew.
  pub record ToldDown (r : State E) : Type 0 where
    pub told : State E
    pub is_result : r ≡ h.proto_event ifpev_down told
    pub idle : told.sm ≡ s_idle
    pub script_over : told.script_pending ≡ false
    pub task_over : told.proto_pending ≡ false
    pub timer_off : told.teardown_timeout ≡ none

  timeout_in_teardown :
      (s : State E) → s.sm ≡ s_teardown → ToldDown (proto_shell_teardown_timeout_cb h c s)
  unfolding proto_shell_teardown_timeout_cb
  timeout_in_teardown s e = record {
    told =
        quiesce h c (
          kill_process proto_task
            (kill_process script_task (record s { teardown_timeout = none })));
    is_result = ground arith;
    idle = refl;
    script_over = ground arith;
    task_over = ground arith;
    timer_off = refl;
  }

  timeout_in_abort :
      (s : State E) → s.sm ≡ s_setup_abort → (proto_shell_teardown_timeout_cb h c s).sm ≡ s_teardown
  unfolding proto_shell_teardown_timeout_cb
  timeout_in_abort s e = ground arith

  -- A handler that stops needs no process to end by itself: its first timeout, or the timeout after
  -- that one, tells the interface that the protocol is down, in a state in which the handler is
  -- idle, no process runs and the teardown timer is off.
  pub stopping_ends :
      (s : State E)
      → is_stopping s.sm ≡ true
      → ToldDown (proto_shell_teardown_timeout_cb h c s)
        ⊎ ToldDown (proto_shell_teardown_timeout_cb h c (proto_shell_teardown_timeout_cb h c s))
  stopping_ends s e = go s.sm refl e
    where
      go :
          (m : Sm)
          → s.sm ≡ m
          → is_stopping m ≡ true
          → ToldDown (proto_shell_teardown_timeout_cb h c s)
            ⊎ ToldDown (proto_shell_teardown_timeout_cb h c (proto_shell_teardown_timeout_cb h c s))
      go s_idle q b = cc
      go s_setup q b = cc
      go s_setup_abort q b = inr (timeout_in_teardown _ (timeout_in_abort s q))
      go s_teardown q b = inl (timeout_in_teardown s q)

  -- A teardown command to a handler that is idle or in a setup leaves the handler stopping with its
  -- timer set, whether or not the script can be started.
  pub teardown_stops :
      (s : State E)
      → is_stopping s.sm ≡ false
      → let r = (proto_shell_handler h c cmd_teardown s).0 in
        (is_stopping r.sm ≡ true) × (r.teardown_timeout ≢ none)
  unfolding proto_shell_handler
  teardown_stops s e = (ground arith, ground arith)

  -- If no process can be started, a setup command to an idle handler fails with -1, and a second
  -- setup command fails with -1 too and leaves the state as the first one left it.
  pub setup_failure_sticks :
      (s : State E)
      → s.sm ≡ s_idle
      → ((t : State E) → h.can_start t ≡ false)
      → let r = proto_shell_handler h c cmd_setup s in
        (r.1 ≡ negsuc 0) × (proto_shell_handler h c cmd_setup r.0 ≡ (r.0, negsuc 0))
  unfolding proto_shell_handler
  setup_failure_sticks s e broken =
      let started = record s { last_error = negsuc 0; deps = 0; sm = s_setup } in
      (
        ground (arith, broken (kill_process script_task started)),
        ground (arith, broken (kill_process script_task started)),
      )
