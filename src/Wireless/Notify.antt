-- ===== src/Wireless/Notify.antt =====
-- wireless.c: what a driver's script tells the daemon over ubus, and the watchdog of its processes.
-- Notifications are taken as parsed; those for an interface or a VLAN of the device are left out.
use netifd.Prelude.{
  ℕ, List, [], ◌∷◌, Bool, true, false, not, ◌&&◌, ◌||◌, Option, none, some, ltb, leb, if◌then◌else◌,
}
use netifd.Prelude.Int.{ℤ}
use netifd.Interface.Types.{IfaceState, ifs_setup, ifs_teardown}
use netifd.ProtoShell.Notify.{Status, ok, invalid_argument, permission_denied, not_found}
use netifd.ProtoShell.State.{sigterm}
use netifd.Wireless.Types.{Process, Wireless, put}
use netifd.Wireless.Handlers.{kept, is_empty, put_procs, process_kill_all}
use netifd.Wireless.Machine.{start_setup, retry_setup, mark_up}

abbrev pub is_setup : IfaceState → Bool
is_setup ifs_setup = true
is_setup _ = false

abbrev pub is_teardown : IfaceState → Bool
is_teardown ifs_teardown = true
is_teardown _ = false

-- The attributes of a process are there or not; a missing flag is false.
unfoldable pub add_process : Option ℕ → Bool → Bool → Bool → ℕ → Wireless → Wireless × Status
add_process none exe required keep d w = (w, invalid_argument)
add_process (some pid) exe required keep d w =
    let p : Process = record { pid = pid; required = required; keep = keep } in
    let x = w.devs d in
    let added = record x { script_proc = p ∷ x.script_proc; script_check = true } in
    if not exe || (ltb pid 2 || leb 0x80000000 pid)
    then (w, invalid_argument)
    else (put d added w, ok)

abbrev pub signal_of : Option ℕ → ℕ
signal_of none = sigterm
signal_of (some s) = s

unfoldable pub request_kill_all : Option ℕ → Bool → ℕ → Wireless → Wireless × Status
unfolding process_kill_all
request_kill_all signal immediate d w =
    let w1 = process_kill_all d (signal_of signal) immediate w in
    if not (is_teardown (w.devs d).state) || (w.devs d).kill_request
    then (w, permission_denied)
    else if is_empty (w1.devs d).script_proc
    then (w1, ok)
    else (put d (record (w1.devs d) { kill_request = true }) w1, ok)

unfoldable pub set_retry : Option ℤ → ℕ → Wireless → Wireless × Status
set_retry none d w = (w, invalid_argument)
set_retry (some n) d w = (put d (record (w.devs d) { retry = n }) w, ok)

unfoldable pub set_data : ℕ → Wireless → Wireless × Status
set_data d w =
    if (w.devs d).data_set
    then (w, invalid_argument)
    else (put d (record (w.devs d) { data_set = true }) w, ok)

-- The commands, with the attributes of their data.
pub data Command : Type 0 where
  cmd_up : Command
  cmd_set_data : Command
  cmd_process_add : Option ℕ → Bool → Bool → Bool → Command
  cmd_process_kill_all : Option ℕ → Bool → Command
  cmd_set_retry : Option ℤ → Command
  cmd_unknown : Command

module _ (can_pipe can_start : Wireless → Bool) where
  unfoldable pub notify_up : ℕ → Wireless → Wireless × Status
  unfolding mark_up
  notify_up d w =
      if is_setup (w.devs d).state
      then (mark_up can_pipe can_start d w, ok)
      else (w, permission_denied)

  abbrev pub any_required : (ℕ → Bool) → List Process → Bool
  any_required alive [] = false
  any_required alive (p ∷ ps) = not (alive p.pid) && p.required || any_required alive ps

  -- Processes that have ended are taken off the list; a required one among them asks for a retry.
  unfoldable pub check_script_tasks : ℕ → Wireless → Wireless
  unfolding kept retry_setup
  check_script_tasks d w =
      let ps = (w.devs d).script_proc in
      let w0 = put d (record (w.devs d) { script_check = false }) w in
      let w1 = put_procs d (kept w.alive false ps) w0 in
      let w2 = put d (record (w1.devs d) { script_check = true }) w1 in
      if any_required w.alive ps then retry_setup can_pipe can_start d w1 else w2

  unfoldable pub wireless_start_pending : List ℕ → Wireless → Wireless
  wireless_start_pending [] w = w
  wireless_start_pending (d ∷ ds) w =
      wireless_start_pending ds (start_setup can_pipe can_start d false w)

  abbrev pub run_command : Command → ℕ → Wireless → Wireless × Status
  run_command cmd_up d w = notify_up d w
  run_command cmd_set_data d w = set_data d w
  run_command (cmd_process_add pid exe required keep) d w = add_process pid exe required keep d w
  run_command (cmd_process_kill_all signal immediate) d w = request_kill_all signal immediate d w
  run_command (cmd_set_retry n) d w = set_retry n d w
  run_command cmd_unknown d w = (w, invalid_argument)

  -- `missing` says that an interface or a VLAN is named that the device does not have.
  unfoldable pub wireless_device_notify :
      Option Command → (missing with_data : Bool) → ℕ → Wireless → Wireless × Status
  wireless_device_notify none missing with_data d w = (w, invalid_argument)
  wireless_device_notify (some c) missing with_data d w =
      if missing
      then (w, not_found)
      else if not with_data
      then (w, invalid_argument)
      else run_command c d w
