-- ===== src/ProtoShell/Invariant.antt =====
-- proto-shell.c: the teardown timer of a script handler and the state that it is in.
use netifd.Prelude.{
  ℕ, ◌≡◌, refl, Bool, true, false, not, ◌||◌, Option, none, some, arith, if_keeps, subst,
}
use netifd.ProtoShell.State.{
  Sm, s_idle, s_setup, s_setup_abort, s_teardown, ProtoCmd, cmd_setup, cmd_teardown, cmd_renew,
  ProtoEvent, ifpev_down, ifpev_link_lost, Task, script_task, proto_task, no_task, State, Config,
  Hooks, kill_process,
}
use netifd.ProtoShell.Machine.{
  proto_shell_handler, proto_shell_teardown_timeout_cb, proto_shell_script_cb, proto_shell_task_cb,
  proto_shell_checkup_timeout_cb, finish_in, finish_running, quiesce,
}
use netifd.ProtoShell.Notify.{is_stopping}

abbrev pub is_set : Option ℕ → Bool
is_set none = false
is_set (some k) = true

-- The teardown timer runs exactly while the handler stops, and an aborted setup waits for a process.
pub record Inv {E : Type 0} (s : State E) : Type 0 where
  pub armed : is_set s.teardown_timeout ≡ is_stopping s.sm
  pub waits : s.sm ≡ s_setup_abort → (s.script_pending || s.proto_pending) ≡ true

module _ {E : Type 0} (h : Hooks E) (c : Config) where
  -- A command keeps it, in every state and whether or not the script can be started.
  pub proto_shell_handler-Inv :
      (cmd : ProtoCmd) (s : State E) → Inv s → Inv (proto_shell_handler h c cmd s).0
  unfolding proto_shell_handler
  proto_shell_handler-Inv cmd_setup s i = ground arith
  proto_shell_handler-Inv cmd_teardown s i = ground arith
  proto_shell_handler-Inv cmd_renew s i = ground arith

  -- The interface's callback may send commands back; it is asked to keep the invariant.
  abbrev pub EventKeeps : Type 0
  EventKeeps = (ev : ProtoEvent) (s : State E) → Inv s → Inv (h.proto_event ev s)

  finish_running-Inv : (t : Task) (s : State E) → Inv s → Inv (finish_running h c t s)
  unfolding finish_running
  finish_running-Inv proto_task s i = proto_shell_handler-Inv cmd_teardown s i
  finish_running-Inv no_task s i = i
  finish_running-Inv script_task s i =
      ground (arith, proto_shell_handler-Inv cmd_teardown s, proto_shell_handler-Inv cmd_renew s)

  -- At the end of a process the wait of an aborted setup may be over.
  finish_in-Inv :
      EventKeeps
      → (m : Sm) (t : Task) (s : State E) → s.sm ≡ m
      → is_set s.teardown_timeout ≡ is_stopping m
      → Inv (finish_in h c m t s)
  unfolding finish_in
  finish_in-Inv keeps s_idle proto_task s e a =
      finish_running-Inv proto_task _ (keeps ifpev_link_lost s (ground arith))
  finish_in-Inv keeps s_idle script_task s e a = finish_running-Inv script_task s (ground arith)
  finish_in-Inv keeps s_idle no_task s e a = finish_running-Inv no_task s (ground arith)
  finish_in-Inv keeps s_setup t s e a = finish_running-Inv t s (ground arith)
  finish_in-Inv keeps s_setup_abort t s e a =
      if_keeps Inv (s.script_pending || s.proto_pending) (λ p. ground arith)
        (λ p. proto_shell_handler-Inv cmd_teardown (quiesce h c s) (ground arith))
  finish_in-Inv keeps s_teardown t s e a =
      if_keeps Inv s.script_pending (λ p. ground arith)
        (λ p.
          if_keeps Inv s.proto_pending
            (λ q. if_keeps Inv s.proto_task_killed (λ r. ground arith) (λ r. ground arith))
            (λ q. keeps ifpev_down (quiesce h c s) (ground arith)))

  -- The end of the script's process keeps the invariant.
  pub proto_shell_script_cb-Inv :
      EventKeeps → (s : State E) → Inv s → Inv (proto_shell_script_cb h c s)
  unfolding proto_shell_script_cb
  proto_shell_script_cb-Inv keeps s i = finish_in-Inv keeps s.sm script_task _ refl i.armed

  -- So does the end of the script's command.
  pub proto_shell_task_cb-Inv :
      EventKeeps → (status : ℕ) (s : State E) → Inv s → Inv (proto_shell_task_cb h c status s)
  unfolding proto_shell_task_cb
  proto_shell_task_cb-Inv keeps status s i = finish_in-Inv keeps s.sm proto_task _ refl i.armed

  pub proto_shell_checkup_timeout_cb-Inv :
      (autostart is_up : Bool) (s : State E)
      → Inv s
      → Inv (proto_shell_checkup_timeout_cb h c autostart is_up s)
  unfolding proto_shell_checkup_timeout_cb
  proto_shell_checkup_timeout_cb-Inv autostart is_up s i =
      if_keeps Inv (not autostart) (λ e. j)
        (λ e. if_keeps Inv is_up (λ e. j) (λ e. proto_shell_handler-Inv cmd_teardown _ j))
    where
      j : Inv (record s { checkup_timeout = none })
      j = record { armed = i.armed; waits = i.waits }

  -- A timer that fires was set, so the handler was stopping.
  pub proto_shell_teardown_timeout_cb-Inv :
      EventKeeps
      → (s : State E) → is_set s.teardown_timeout ≡ true
      → Inv s
      → Inv (proto_shell_teardown_timeout_cb h c s)
  unfolding proto_shell_teardown_timeout_cb kill_process
  proto_shell_teardown_timeout_cb-Inv keeps s fired i = go s.sm refl (ground (arith, i.armed))
    where
      killed : State E
      killed =
          kill_process proto_task (kill_process script_task (record s { teardown_timeout = none }))

      go : (m : Sm) → s.sm ≡ m → is_stopping m ≡ true → Inv (finish_in h c killed.sm no_task killed)
      go s_idle e b = cc
      go s_setup e b = cc
      go s_setup_abort e b =
          let j = proto_shell_handler-Inv cmd_teardown (quiesce h c killed) (ground arith) in
          subst Inv (ground arith) j
      go s_teardown e b =
          let j = keeps ifpev_down (quiesce h c killed) (ground arith) in subst Inv (ground arith) j
