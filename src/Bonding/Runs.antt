-- ===== src/Bonding/Runs.antt =====
-- bonding.c: all that can happen to a bond, one event after the other.
use netifd.Prelude.{ℕ, ◌<◌, ◌≡◌, Bool, true}
use netifd.Prelude.Int.{ℤ}
use netifd.Device.Listed.{has_id, nobody}
use netifd.Device.Store.{Hooks, DeviceEvent}
use netifd.Bonding.Types.{Bond, World, put_bond}
use netifd.Bonding.Run.{
  bonding_port_cb, bonding_set_state, bonding_retry_ports, delete_port, bonding_hotplug_prepare,
}
use netifd.Bonding.Counted.{Counted, BondLaws}
use netifd.Bonding.Keeps.{set_present_keeps}
use netifd.Bonding.State.{
  delete_keeps, bonding_port_cb-Counted, bonding_set_state-Counted, bonding_retry_ports-Counted,
}

module _ (n : ℕ) (h : Hooks Bond) (setdev : Bool → World → ℤ) (addport : ℕ → World → ℤ) where
  -- One event. A port hears events while it is in the tree. The timer fires while it is set.
  pub data Change : World → World → Type 0 where
    event :
        (m : ℕ) (ev : DeviceEvent) (s : World)
        → m < n
        → has_id m s.env.ports ≡ true
        → Change s (bonding_port_cb h setdev addport m ev s)
    state : (b : Bool) (s : World) → Change s (bonding_set_state h setdev addport b s).0
    retries : (s : World) → s.env.retry ≡ true → Change s (bonding_retry_ports h setdev addport s)
    hotplug_prepare : (s : World) → Change s (bonding_hotplug_prepare h setdev addport s)
    deleted : (m : ℕ) (s : World) → m < n → Change s (delete_port h setdev addport m s)

  pub data Course (s : World) : World → Type 0 where
    here : Course s s
    next : {u v : World} → Course s u → Change u v → Course s v

  module _ (laws : BondLaws n h) where
    Change-Counted : {s v : World} → Change s v → Counted n nobody s.env → Counted n nobody v.env
    unfolding bonding_hotplug_prepare
    Change-Counted (event m ev s lt listed) c =
        bonding_port_cb-Counted n nobody h laws setdev addport m ev s lt listed c
    Change-Counted (state b s) c = bonding_set_state-Counted n nobody h laws setdev addport b s c
    Change-Counted (retries s set) c =
        bonding_retry_ports-Counted n nobody h laws setdev addport s c
    Change-Counted (hotplug_prepare s) c =
        set_present_keeps n nobody h laws setdev addport s.env.dev true
          (put_bond (record (s.env) { force_active = true }) s)
          (record { counted = c.counted; bounded = c.bounded; listed = c.listed })
    Change-Counted (deleted m s lt) c = delete_keeps n nobody h laws setdev addport m s lt c

    -- n_present of a bond is the number of the present ports, and every present port is in its
    -- tree, after any sequence of events that starts where it is so: events of the devices of ports
    -- in the tree, the bond going up or down with ports that fail, retries, a hotplug request, and
    -- ports that are deleted. The hooks must keep this, also while ports are out of the tree that
    -- are being freed, and no claim or release of a port's device may take that port away
    -- meanwhile.
    pub Course-Counted :
        {s v : World} → Counted n nobody s.env → Course s v → Counted n nobody v.env
    Course-Counted c here = c
    Course-Counted c (next r st) = Change-Counted st (Course-Counted c r)
