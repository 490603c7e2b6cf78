-- ===== src/Examples/Radios.antt =====
-- wireless.c: radios whose scripts take turns.
use netifd.Prelude.{◌≡◌, refl, [], ◌∷◌, Bool, true, false}
use netifd.Interface.Types.{ifs_down, ifs_teardown, ifc_normal, ifc_remove}
use netifd.Wireless.Types.{Wdev, Wireless, put, run_script}
use netifd.Wireless.Handlers.{handler_stop}
use netifd.Wireless.Machine.{
  setup_retry, wireless_device_set_up, wireless_device_set_down, script_ends, setup_timeout,
}
use netifd.Wireless.Serial.{Served, Serial}
use netifd.Wireless.Reach.{here, next, set_up, ends, Reach-Serial}

-- A radio whose scripts are serialized.
abbrev radio : Wdev
radio = record {
  handler_action = false;
  handler_pending = false;
  serialize = true;
  running = false;
  timeout = false;
  script_check = false;
  script_proc_fd = false;
  script_proc = [];
  kill_request = false;
  prev_config = false;
  data_set = false;
  autostart = true;
  disabled = false;
  retry_setup_failed = false;
  state = ifs_down;
  config_state = ifc_normal;
  reconf = false;
  cancel = false;
  retry = setup_retry;
  freed = false;
}

abbrev radios : Wireless
radios = record {
  devs = λ d. radio;
  handlers = [];
  busy = false;
  config_init = false;
  alive = λ pid. true;
  effects = [];
  faulted = false;
}

abbrev always : Wireless → Bool
always w = true

abbrev two_set_up : Wireless
two_set_up = wireless_device_set_up always always 1 (wireless_device_set_up always always 0 radios)

-- The second radio waits for the first one.
second_waits : two_set_up.handlers ≡ 1 ∷ []
unfolding wireless_device_set_up handler_stop
second_waits = refl

only_first_runs : two_set_up.effects ≡ run_script 0 true ∷ []
unfolding wireless_device_set_up handler_stop
only_first_runs = refl

-- The script of the first one fails, and its teardown goes to the end of the queue.
second_is_next :
    (script_ends always always 0 two_set_up).effects ≡ run_script 1 true ∷ run_script 0 true ∷ []
unfolding wireless_device_set_up handler_stop script_ends
second_is_next = refl

radios-Serial : Serial radios
radios-Serial = record { one = λ d e p q. absurd cc; held = λ d p. absurd cc }

first_runs : (two_set_up.devs 0).running ≡ true
unfolding wireless_device_set_up handler_stop
first_runs = refl

Reach-Serial_example : Serial (script_ends always always 0 two_set_up)
Reach-Serial_example =
    Reach-Serial always always radios-Serial
      (next (next (next here (set_up 0 radios)) (set_up 1 _)) (ends 0 two_set_up first_runs))

-- The setup of the first radio is cancelled, its script ends, and the second one's script starts.
abbrev cancelled : Wireless
cancelled =
    script_ends always always 0
      (wireless_device_set_down always always 0 (wireless_device_set_up always always 2 two_set_up))

-- The timer of the first radio then gives the turn of the second one to the third one.
abbrev timed_out : Wireless
timed_out = setup_timeout always always 0 cancelled

second_runs : Served 1 cancelled
unfolding wireless_device_set_up wireless_device_set_down script_ends handler_stop
second_runs = refl

both_run : Served 1 timed_out × Served 2 timed_out
unfolding wireless_device_set_up wireless_device_set_down script_ends setup_timeout handler_stop
both_run = (refl, refl)

-- A radio is removed while it runs: its memory is freed by mark_down, and then read.
abbrev removed : Wireless
removed =
    put 0 (record radio { running = true; state = ifs_teardown; config_state = ifc_remove })
      (record radios { busy = true })

removal_reads_freed : (script_ends always always 0 removed).faulted ≡ true
unfolding script_ends handler_stop
removal_reads_freed = refl
