-- ===== src/Interface/Types.antt =====
-- interface.h and proto.h: struct interface, its states and events, and what it calls through
-- function pointers or in other parts of the daemon.
use netifd.Prelude.{ℕ, List, Bool, Option, update}
use netifd.Prelude.Int.{ℤ}
use netifd.ProtoShell.State.{ProtoCmd, ProtoEvent}
use netifd.Device.Store.{Store}

pub data IfaceEvent : Type 0 where
  ifev_down ifev_up ifev_up_failed ifev_update ifev_free ifev_reload ifev_link_up : IfaceEvent
  ifev_create : IfaceEvent

pub data IfaceState : Type 0 where
  ifs_setup ifs_up ifs_teardown ifs_down : IfaceState

pub data ConfigState : Type 0 where
  ifc_normal ifc_reload ifc_remove : ConfigState

-- The error codes that interface.c adds itself, and those of others.
pub data ErrorCode : Type 0 where
  device_claim_failed setup_failed no_device other_error : ErrorCode

-- The PROTO_FLAG_* bits that interface.c and proto.c test.
pub record ProtoFlags : Type 0 where
  pub immediate : Bool
  pub nodev : Bool
  pub init_available : Bool
  pub lasterror : Bool
  pub teardown_on_l3_link_down : Bool

-- `handler` has the flags of the configured protocol handler, `proto` those of the
-- running one; `same_handler` says that the two have one name. `parent` is the interface that an
-- alias interface is a user of.
pub record Iface : Type 0 where
  pub available : Bool
  pub autostart : Bool
  pub enabled : Bool
  pub link_state : Bool
  pub force_link : Bool
  pub dynamic : Bool
  pub link_up_event : Bool
  pub updated : Bool
  pub freed : Bool
  pub state : IfaceState
  pub config_state : ConfigState
  pub handler : ProtoFlags
  pub proto : Option ProtoFlags
  pub same_handler : Bool
  pub config_ip_enabled : Bool
  pub proto_ip_enabled : Bool
  pub errors : List ErrorCode
  pub parent : Option ℕ

-- `config_init` is the global of that name; `null_proto` is set where the code would call through
-- an interface that has no protocol state. `rest` is the state of the other parts.
pub record Env (R : Type 0) : Type 0 where
  pub ifaces : ℕ → Iface
  pub config_init : Bool
  pub null_proto : Bool
  pub rest : R

abbrev pub World : Type 0 → Type 0
World R = Store (Env R)

module _ {R : Type 0} where
  abbrev pub iface_of : ℕ → World R → Iface
  iface_of i s = s.env.ifaces i

  abbrev pub put_if : ℕ → Iface → World R → World R
  put_if i x s = record s { env = record (s.env) { ifaces = update s.env.ifaces i x } }

-- `main_dev`, `l3_dev` and `ext_dev` are the cells of the device users that are embedded in an
-- interface. `proto_cb` is proto->cb, `proto_event` proto->proto_event, `user_event` the callbacks of the
-- users of one interface and of all. The rest are calls of interface-ip.c, alias.c, proto.c and
-- the system layer.
pub record IfHooks (R : Type 0) : Type 0 where
  pub main_dev : ℕ → ℕ
  pub l3_dev : ℕ → ℕ
  pub ext_dev : ℕ → ℕ
  pub proto_cb : ℕ → ProtoCmd → Bool → World R → World R × ℤ
  pub proto_event : ℕ → ProtoEvent → World R → World R
  pub user_event : ℕ → IfaceEvent → World R → World R
  pub alias_notify_device : ℕ → Option ℕ → World R → World R
  pub ip_set_enabled : ℕ → Bool → World R → World R
  pub proto_ip_flush : ℕ → World R → World R
  pub data_flush : ℕ → World R → World R
  pub system_flush_routes : World R → World R
  pub write_resolv_conf : ℕ → World R → World R
  pub proto_free : ℕ → World R → World R
  pub proto_attach : ℕ → World R → World R × Option ProtoFlags
  pub claim_device : ℕ → World R → World R
  pub do_free : ℕ → World R → World R
