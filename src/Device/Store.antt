-- ===== src/Device/Store.antt =====
-- device.h: struct device, struct device_user and the device events. Pointers are numbers: a
-- device and a user are cells of the store, and `env` is the state of the rest of the daemon.
-- What is reached through a function pointer or in the system layer is a hook.
use Prim.Native.String.{String}
use netifd.Prelude.{ℕ, List, Bool, Option, update}
use netifd.Prelude.Int.{ℤ}
use netifd.Settings.Defs.{Settings}

pub data DeviceEvent : Type 0 where
  ev_add ev_remove update_ifname update_ifindex setup teardown up down : DeviceEvent
  auth_up link_up link_down topo_change : DeviceEvent

-- struct device_user. `dev` is the device that it is bound to.
pub record User : Type 0 where
  pub claimed : Bool
  pub hotplug : Bool
  pub alias : Bool
  pub dev : Option ℕ

-- struct device; `parent` is the cell of the user that is embedded in it.
pub record Device : Type 0 where
  pub ifname : String
  pub ifindex : ℕ
  pub users : List ℕ
  pub aliases : List ℕ
  pub sys_present : Bool
  pub present : Bool
  pub active : ℕ
  pub link_active : Bool
  pub auth_status : Bool
  pub external : Bool
  pub disabled : Bool
  pub deferred : Bool
  pub current_config : Bool
  pub default_config : Bool
  pub parent : ℕ
  pub orig_settings : Settings
  pub settings : Settings

-- `freeing` says that the timer of device_free_unused is set. `faulted` is
-- set where the code would stop: a failed assert, or a NULL device that is followed.
pub record Store (E : Type 0) : Type 0 where
  pub devs : ℕ → Device
  pub usrs : ℕ → User
  pub freeing : Bool
  pub faulted : Bool
  pub env : E

-- `cb` is dep->cb (a user without one has the identity), `set_state` is dev->set_state. `walk` is
-- safe_list_for_each of libubox over a list of users, which may change on the way.
pub record Hooks (E : Type 0) : Type 0 where
  pub cb : ℕ → DeviceEvent → Store E → Store E
  pub set_state : ℕ → Bool → Store E → Store E × ℤ
  pub walk : (Store E → List ℕ) → (ℕ → Store E → Store E) → Store E → Store E
  pub system_if_resolve : ℕ → Store E → ℕ
  pub system_if_get_settings : ℕ → Store E → Settings
  pub system_if_apply_settings : ℕ → Settings → Store E → Store E
  pub system_if_up : ℕ → Store E → Store E
  pub system_if_down : ℕ → Store E → Store E
  pub system_if_get_parent : ℕ → Store E → Option ℕ
  pub config_get_default_macaddr : String → Option (List ℕ)

module _ {E : Type 0} where
  abbrev pub put_dev : ℕ → Device → Store E → Store E
  put_dev d x s = record s { devs = update s.devs d x }

  abbrev pub put_usr : ℕ → User → Store E → Store E
  put_usr u x s = record s { usrs = update s.usrs u x }
