-- ===== src/Wireless/Types.antt =====
-- wireless.h: struct wireless_device. Configurations and data are kept by whether they are there;
-- the interfaces, VLANs and stations of a device are left out.
use netifd.Prelude.{ℕ, List, ◌∷◌, Bool, update}
use netifd.Prelude.Int.{ℤ}
use netifd.Interface.Types.{IfaceState, ConfigState}

pub record Process : Type 0 where
  pub pid : ℕ
  pub required : Bool
  pub keep : Bool

-- What a device does to its surroundings: its script is started for a setup or a teardown, its
-- links are reported up or down, a process is sent a signal, a kill request is completed, and the
-- script is killed.
pub data Effect : Type 0 where
  run_script : ℕ → Bool → Effect
  links : ℕ → Bool → Effect
  kill : ℕ → ℕ → Effect
  complete : ℕ → Effect
  kill_script : ℕ → Effect

-- `running` is script_task.uloop.pending; `timeout`, `script_check` and `script_proc_fd` say that
-- the timer or descriptor is set; `prev_config`, `data` and `kill_request` that they are not NULL.
pub record Wdev : Type 0 where
  pub handler_action : Bool
  pub handler_pending : Bool
  pub serialize : Bool
  pub running : Bool
  pub timeout : Bool
  pub script_check : Bool
  pub script_proc_fd : Bool
  pub script_proc : List Process
  pub kill_request : Bool
  pub prev_config : Bool
  pub data_set : Bool
  pub autostart : Bool
  pub disabled : Bool
  pub retry_setup_failed : Bool
  pub state : IfaceState
  pub config_state : ConfigState
  pub reconf : Bool
  pub cancel : Bool
  pub retry : ℤ
  pub freed : Bool

-- `handlers` are the devices whose scripts wait, and `busy` is the global handler_pending. `alive`
-- is what wireless_process_check finds for a pid. `faulted` is set where freed memory is read.
-- `effects` is the newest first.
pub record Wireless : Type 0 where
  pub devs : ℕ → Wdev
  pub handlers : List ℕ
  pub busy : Bool
  pub config_init : Bool
  pub alive : ℕ → Bool
  pub effects : List Effect
  pub faulted : Bool

abbrev pub put : ℕ → Wdev → Wireless → Wireless
put d x w = record w { devs = update w.devs d x }

abbrev pub emit : Effect → Wireless → Wireless
emit e w = record w { effects = e ∷ w.effects }
