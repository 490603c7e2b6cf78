-- ===== src/ProtoShell/State.antt =====
-- proto-shell.c: struct proto_shell_state, and the processes and timers that it owns.
use netifd.Prelude.{ℕ, List, ◌∷◌, Bool, true, false, Option, if◌then◌else◌}
use netifd.Prelude.Int.{ℤ, pos, negsuc}

-- enum proto_shell_sm
pub data Sm : Type 0 where
  s_idle s_setup s_setup_abort s_teardown : Sm

-- enum interface_proto_cmd and enum interface_proto_event of proto.h
pub data ProtoCmd : Type 0 where
  cmd_setup cmd_teardown cmd_renew : ProtoCmd

pub data ProtoEvent : Type 0 where
  ifpev_up ifpev_down ifpev_link_lost ifpev_renew : ProtoEvent

-- The two processes; `no_task` is the NULL of the timeout.
pub data Task : Type 0 where
  script_task proto_task no_task : Task

-- What the handler does to its surroundings.
pub data Effect : Type 0 where
  run_script : ProtoCmd → Effect
  run_command : Effect
  signal : Task → ℕ → Effect
  sends : ProtoEvent → Effect

-- The handler's flags and the configured interval do not change.
pub record Config : Type 0 where
  pub renew_available : Bool
  pub runs_no_task : Bool
  pub checkup_interval : ℤ

-- A task's flag says that its process runs; a timer is the milliseconds that it was set to. `deps`
-- counts the host dependencies. `effects` is the newest first, and `env` the rest of the daemon.
pub record State (E : Type 0) : Type 0 where
  pub sm : Sm
  pub script_pending : Bool
  pub proto_pending : Bool
  pub proto_task_killed : Bool
  pub renew_pending : Bool
  pub last_error : ℤ
  pub teardown_timeout : Option ℕ
  pub checkup_timeout : Option ℕ
  pub deps : ℕ
  pub effects : List Effect
  pub env : E

-- `proto_event` is the callback into the interface, which may call back; `has_json` and `can_start`
-- tell whether the configuration can be formatted and a process be started.
pub record Hooks (E : Type 0) : Type 0 where
  pub proto_event : ProtoEvent → State E → State E
  pub has_json : State E → Bool
  pub can_start : State E → Bool

abbrev pub sigterm : ℕ
sigterm = 15

abbrev pub sigkill : ℕ
sigkill = 9

module _ {E : Type 0} where
  abbrev pub emit : Effect → State E → State E
  emit e s = record s { effects = e ∷ s.effects }

  -- main.c, netifd_kill_process
  unfoldable pub kill_process : Task → State E → State E
  kill_process script_task s =
      if s.script_pending
      then record s { script_pending = false; effects = signal script_task sigkill ∷ s.effects }
      else s
  kill_process proto_task s =
      if s.proto_pending
      then record s { proto_pending = false; effects = signal proto_task sigkill ∷ s.effects }
      else s
  kill_process no_task s = s

  -- main.c, netifd_start_process: what still runs in the slot is killed first.
  unfoldable pub start_script : Hooks E → ProtoCmd → State E → State E × ℤ
  unfolding kill_process
  start_script h action s =
      let s1 = kill_process script_task s in
      if h.can_start s1
      then (record s1 { script_pending = true; effects = run_script action ∷ s1.effects }, pos 0)
      else (s1, negsuc 0)

  unfoldable pub start_command : Hooks E → State E → State E
  unfolding kill_process
  start_command h s =
      let s1 = kill_process proto_task s in
      if h.can_start s1
      then record s1 { proto_pending = true; effects = run_command ∷ s1.effects }
      else s1
