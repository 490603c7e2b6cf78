-- ===== src/Bonding/Types.antt =====
-- bonding.c: struct bonding_device and struct bonding_port, over the store of devices. A port is the
-- number of the device user that is embedded in it.
use netifd.Prelude.{ℕ, List, [], ◌∷◌, Bool, Option, update, if◌then◌else◌}
use netifd.Prelude.Int.{ℤ}
use netifd.Device.Listed.{has_id}
use netifd.Device.Store.{Store}

pub record Port : Type 0 where
  pub set_primary : Bool
  pub present : Bool
  pub active : Bool

-- What the system layer is asked for: system_bonding_set_port, to add a port or to take it off, and
-- system_bonding_set_device, with the configuration or without.
pub data Effect : Type 0 where
  set_port : ℕ → (add primary : Bool) → Effect
  set_device : Bool → Effect

-- `dev` is the device of the bond itself, and `retry` says that the timer is set. `effects` is the
-- newest first. The configuration that the system layer is given is not followed.
pub record Bond : Type 0 where
  pub dev : ℕ
  pub ports : List ℕ
  pub port : ℕ → Port
  pub n_present : ℤ
  pub n_failed : ℕ
  pub primary_port : Option ℕ
  pub retry : Bool
  pub has_macaddr : Bool
  pub force_active : Bool
  pub active : Bool
  pub effects : List Effect

abbrev pub World : Type 0
World = Store Bond

abbrev pub put_bond : Bond → World → World
put_bond b s = record s { env = b }

abbrev pub put_port : ℕ → Port → World → World
put_port m x s = put_bond (record (s.env) { port = update s.env.port m x }) s

abbrev pub emit : Effect → World → World
emit e s = put_bond (record (s.env) { effects = e ∷ s.env.effects }) s

-- vlist_for_each_element: a port that has left the tree meanwhile is not visited.
abbrev pub each : (ℕ → World → World) → List ℕ → World → World
each f [] s = s
each f (m ∷ l) s = each f l (if has_id m s.env.ports then f m s else s)
