-- ===== src/Interface/Leaves.antt =====
-- interface.c: where an interface gives up its main device, and that no callback claims it again.
use netifd.Prelude.{ℕ, ◌≡◌, true, false, Option, none}
use netifd.ProtoShell.State.{ProtoEvent, ifpev_down}
use netifd.Device.Store.{Hooks, DeviceEvent, ev_remove}
use netifd.Device.Users.{same_dev, released}
use netifd.Interface.Types.{
  ifev_reload, ConfigState, ifc_reload, Env, World, iface_of, put_if, IfHooks,
}
use netifd.Interface.State.{is_down, main_dev_of, interface_event}
use netifd.Interface.Binding.{interface_set_available}
use netifd.Interface.Events.{flushed, normal, taken_down}

module _ {R : Type 0} (h : Hooks (Env R)) (k : IfHooks R) where
  -- interface_set_main_dev takes the user off its device after the interface is made unavailable.
  abbrev pub MainLeaves : ℕ → Option ℕ → World R → Type 0
  MainLeaves i dev s =
      same_dev (main_dev_of k i s) dev ≡ false
      → ((released h (k.main_dev i) (interface_set_available h k i false s)).usrs
          (k.main_dev i)).claimed
        ≡ false

  abbrev pub ChangeLeaves : ConfigState → ℕ → World R → Type 0
  ChangeLeaves ifc_reload i s =
      MainLeaves i none (flushed h k i (interface_event k i ifev_reload s))
  ChangeLeaves _ i s = Unit

  abbrev pub HandleLeaves : ℕ → World R → Type 0
  HandleLeaves i s = ChangeLeaves (iface_of i s).config_state i (normal h k i s)

  abbrev pub ConfigLeaves : ℕ → ConfigState → World R → Type 0
  ConfigLeaves i c s =
      is_down (iface_of i s).state ≡ true
      → HandleLeaves i (put_if i (record (iface_of i s) { config_state = c }) s)

  abbrev pub EventLeaves : ℕ → DeviceEvent → World R → Type 0
  EventLeaves i ev_remove s = MainLeaves i none (interface_set_available h k i false s)
  EventLeaves i _ s = Unit

  abbrev pub ProtoLeaves : ℕ → ProtoEvent → World R → Type 0
  ProtoLeaves i ifpev_down s =
      is_down (iface_of i s).state ≡ false → HandleLeaves i (taken_down h k i s)
  ProtoLeaves i _ s = Unit
