-- ===== src/Examples/Scripts.antt =====
-- A script handler whose script can be run, under an interface that only takes note of the events.
use netifd.Prelude.{
  ℕ, ◌≡◌, ◌≢◌, ◌⊎◌, refl, List, [], ◌∷◌, true, false, none, some, arith, length, map, ◌+◌, ◌<◌, ◌↔◌,
}
use netifd.Prelude.Int.{pos, negsuc}
use netifd.ProtoShell.State.{
  s_idle, s_setup_abort, cmd_setup, cmd_teardown, sends, State, Config, Hooks, emit,
}
use netifd.ProtoShell.Machine.{proto_shell_handler, proto_shell_teardown_timeout_cb}
use netifd.ProtoShell.Notify.{Status, ok, str, fill_string_list, is_stopping}
use netifd.ProtoShell.Invariant.{Inv}
use netifd.ProtoShell.Liveness.{ToldDown, stopping_ends, teardown_stops, setup_failure_sticks}
use netifd.ProtoShell.Requests.{fill_string_list_iff}
use netifd.ProtoShell.Runs.{Reach, here, next, command, Laws, Reach-Inv}
use netifd.ProtoShell.Killed.{IsKilled, Reach-IsKilled}

abbrev config : Config
config = record { renew_available = true; runs_no_task = false; checkup_interval = pos 0 }

abbrev hooks : Hooks Unit
hooks = record {
  proto_event = λ ev s. emit (sends ev) s;
  has_json = λ s. true;
  can_start = λ s. true;
}

-- A system on which no process can be started.
abbrev broken : Hooks Unit
broken = record hooks { can_start = λ s. false }

abbrev apply_link : State Unit → State Unit × Status
apply_link s = (s, ok)

abbrev idle : State Unit
idle = record {
  sm = s_idle;
  script_pending = false;
  proto_pending = false;
  proto_task_killed = false;
  renew_pending = false;
  last_error = pos 0;
  teardown_timeout = none;
  checkup_timeout = none;
  deps = 0;
  effects = [];
  env = tt;
}

-- A teardown command reached the handler during its setup script, while its command runs.
abbrev aborting : State Unit
aborting = record idle {
  sm = s_setup_abort;
  script_pending = true;
  proto_pending = true;
  teardown_timeout = some 1000;
}

idle-Inv : Inv idle
idle-Inv = record { armed = refl; waits = λ e. cc }

hooks-Laws : Laws hooks config apply_link
hooks-Laws = record {
  event_keeps = λ ev s i. record { armed = i.armed; waits = i.waits };
  link_keeps = λ s i. i;
  up_quiet = λ s. (refl, refl);
}

-- Set up, torn down at once.
abbrev after_setup : State Unit
after_setup = (proto_shell_handler hooks config cmd_setup idle).0

abbrev after_both : State Unit
after_both = (proto_shell_handler hooks config cmd_teardown after_setup).0

abbrev run : Reach hooks config apply_link idle after_both
run = next (next here (command cmd_setup idle)) (command cmd_teardown after_setup)

Reach-Inv_example : Inv after_both
Reach-Inv_example = Reach-Inv hooks config apply_link hooks-Laws idle-Inv run

stopping_ends_example :
    ToldDown hooks config (proto_shell_teardown_timeout_cb hooks config aborting)
    ⊎ ToldDown hooks config (
        proto_shell_teardown_timeout_cb hooks config
          (proto_shell_teardown_timeout_cb hooks config aborting))
stopping_ends_example = stopping_ends hooks config aborting refl

teardown_stops_example :
    let r = (proto_shell_handler hooks config cmd_teardown idle).0 in
    (is_stopping r.sm ≡ true) × (r.teardown_timeout ≢ none)
teardown_stops_example = teardown_stops hooks config idle refl

setup_failure_sticks_example :
    let r = proto_shell_handler broken config cmd_setup idle in
    (r.1 ≡ negsuc 0) × (proto_shell_handler broken config cmd_setup r.0 ≡ (r.0, negsuc 0))
setup_failure_sticks_example = setup_failure_sticks broken config idle refl (λ t. refl)

-- The mark is set, and the handler is set up anew.
abbrev marked : State Unit
marked = record idle { proto_task_killed = true }

abbrev marked_run :
    Reach hooks config apply_link marked (proto_shell_handler hooks config cmd_setup marked).0
marked_run = next here (command cmd_setup marked)

Reach-IsKilled_example : IsKilled (proto_shell_handler hooks config cmd_setup marked).0
Reach-IsKilled_example =
    Reach-IsKilled hooks config apply_link (λ ev s k. k) (λ s k. k) refl marked_run

abbrev two_args : List ℕ
two_args = 7 ∷ 8 ∷ []

fill_string_list_iff_example :
    (fill_string_list 16 (some (map str two_args)) ≡ some two_args)
    ↔ ((map str two_args ≡ map str two_args) × (length two_args + 1 < 16))
fill_string_list_iff_example = fill_string_list_iff 16 (map str two_args) two_args (omega arith)
