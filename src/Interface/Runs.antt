-- ===== src/Interface/Runs.antt =====
-- interface.c: all that moves an interface between devices and states, one event after the other.
use netifd.Prelude.{ℕ, ◌≢◌, Option, none, Bool}
use netifd.ProtoShell.State.{ProtoEvent}
use netifd.Device.Store.{Hooks, DeviceEvent}
use netifd.Interface.Types.{ConfigState, Env, World, IfHooks}
use netifd.Interface.State.{main_dev_of}
use netifd.Interface.Binding.{
  interface_set_up, interface_set_down, interface_set_available, interface_set_l3_dev,
  interface_set_main_dev, interface_set_enabled, interface_set_link_state,
}
use netifd.Interface.Events.{interface_main_dev_cb, set_config_state, interface_proto_event_cb}
use netifd.Interface.Leaves.{MainLeaves, ConfigLeaves, EventLeaves, ProtoLeaves}

module _ {R : Type 0} (n : ℕ) (h : Hooks (Env R)) (k : IfHooks R) where
  -- Any interface `i` of the daemon. The events of a main device come while there is one. Where an
  -- interface gives up its main device, no callback claims that again meanwhile.
  pub data Move : World R → World R → Type 0 where
    goes_up : (i : ℕ) (s : World R) → Move s (interface_set_up h k i s)
    goes_down : (i : ℕ) (s : World R) → Move s (interface_set_down h k i s)
    available : (i : ℕ) (b : Bool) (s : World R) → Move s (interface_set_available h k i b s)
    enabled : (i : ℕ) (b : Bool) (s : World R) → Move s (interface_set_enabled h k i b s)
    linked : (i : ℕ) (b : Bool) (s : World R) → Move s (interface_set_link_state h k i b s)
    main_dev :
        (i : ℕ) (dev : Option ℕ) (s : World R)
        → MainLeaves h k i dev s
        → Move s (interface_set_main_dev h k i dev s)
    l3_dev : (i : ℕ) (dev : Option ℕ) (s : World R) → Move s (interface_set_l3_dev h k i dev s)
    device_event :
        (i : ℕ) (ev : DeviceEvent) (s : World R)
        → main_dev_of k i s ≢ none
        → EventLeaves h k i ev s
        → Move s (interface_main_dev_cb h k i ev s)
    proto_event :
        (i : ℕ) (ev : ProtoEvent) (s : World R)
        → ProtoLeaves h k i ev s
        → Move s (interface_proto_event_cb h k i ev s)
    config :
        (i : ℕ) (c : ConfigState) (s : World R)
        → ConfigLeaves h k i c s
        → Move s (set_config_state h k i c s)

  pub data Moves (s : World R) : World R → Type 0 where
    nothing : Moves s s
    more : {t v : World R} → Moves s t → Move t v → Moves s v
