-- ===== src/Bridge/Types.antt =====
-- bridge.c: struct bridge_state and struct bridge_member, over the store of devices. A member is the
-- number of the device user that is embedded in it. The timers are set or not.
use netifd.Prelude.{ℕ, List, [], ◌∷◌, Bool, Option, update, if◌then◌else◌}
use netifd.Prelude.Int.{ℤ}
use netifd.Device.Listed.{has_id}
use netifd.Device.Store.{Store}

-- struct bridge_vlan_port and struct bridge_vlan. `hotplug` says that the VLAN is not configured,
-- by its version -1. The interface name of a port is the device that has it.
pub record Port : Type 0 where
  pub ifname : ℕ
  pub untagged : Bool
  pub pvid : Bool

pub record Vlan : Type 0 where
  pub vid : ℕ
  pub local : Bool
  pub hotplug : Bool
  pub ports : List Port
  pub hotplug_ports : List Port

-- A pvid of 0 is none.
pub record Member : Type 0 where
  pub present : Bool
  pub active : Bool
  pub pvid : ℕ
  pub check_timer : Bool

-- What the system layer is asked for: system_bridge_vlan with the flags SELF, PVID and UNTAGGED,
-- system_bridge_delif and system_bridge_delbr, and the notification of the STP daemon.
pub data Effect : Type 0 where
  bridge_vlan : ℕ → ℕ → Bool → (self pvid untagged : Bool) → Effect
  delif : ℕ → Effect
  delbr : Effect
  stp_init : Effect

-- `dev` is the bridge's own device. `stp` says that STP is on and not run by the kernel. `effects`
-- is the newest first.
pub record Bridge : Type 0 where
  pub dev : ℕ
  pub bridge_empty : Bool
  pub stp : Bool
  pub active : Bool
  pub force_active : Bool
  pub has_vlans : Bool
  pub retry : Bool
  pub primary_port : Option ℕ
  pub members : List ℕ
  pub member : ℕ → Member
  pub vlans : List Vlan
  pub n_present : ℤ
  pub n_failed : ℕ
  pub effects : List Effect

abbrev pub World : Type 0
World = Store Bridge

abbrev pub put_br : Bridge → World → World
put_br b s = record s { env = b }

abbrev pub put_member : ℕ → Member → World → World
put_member m x s = put_br (record (s.env) { member = update s.env.member m x }) s

abbrev pub emit : Effect → World → World
emit e s = put_br (record (s.env) { effects = e ∷ s.env.effects }) s

-- vlist_for_each_element, over VLANs that stay in the tree meanwhile.
abbrev pub each : {A : Type 0} → (A → World → World) → List A → World → World
each f [] s = s
each f (x ∷ l) s = each f l (f x s)

-- vlist_for_each_element over members: one that has left the tree meanwhile is not visited.
abbrev pub each_member : (ℕ → World → World) → List ℕ → World → World
each_member f [] s = s
each_member f (m ∷ l) s = each_member f l (if has_id m s.env.members then f m s else s)
