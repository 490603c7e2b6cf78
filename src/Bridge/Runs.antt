-- ===== src/Bridge/Runs.antt =====
-- bridge.c: all that can happen to a bridge, one event after the other.
use netifd.Prelude.{ℕ, ◌<◌, ◌≡◌, Bool, true, false}
use netifd.Prelude.Int.{ℤ}
use netifd.Device.Listed.{has_id, nobody}
use netifd.Device.Store.{Hooks, DeviceEvent, ev_add}
use netifd.Bridge.Types.{Bridge, World, put_br}
use netifd.Bridge.Run.{
  bridge_member_cb, bridge_member_check_cb, bridge_set_state, bridge_retry_members, delete_member,
  bridge_hotplug_prepare,
}
use netifd.Bridge.Present.{Counted, BridgeLaws}
use netifd.Bridge.Enable.{set_present_keeps}
use netifd.Bridge.Events.{bridge_member_cb-Counted, delete_keeps}
use netifd.Bridge.State.{bridge_set_state-Counted, bridge_retry_members-Counted, check_cb-Counted}

module _ (n : ℕ) (h : Hooks Bridge) (addbr : World → ℤ) (addif : ℕ → World → ℤ) where
  -- One event. A member hears events while it is in the tree. A device is added while it is absent, and a timer fires while it is set.
  pub data Step : World → World → Type 0 where
    event :
        (m : ℕ) (ev : DeviceEvent) (s : World)
        → m < n
        → has_id m s.env.members ≡ true
        → (ev ≡ ev_add → (s.env.member m).present ≡ false)
        → Step s (bridge_member_cb h addbr addif m ev s)
    state : (b : Bool) (s : World) → Step s (bridge_set_state h addbr addif b s).0
    checks :
        (check : ℤ) (m : ℕ) (s : World)
        → m < n
        → (s.env.member m).check_timer ≡ true
        → Step s (bridge_member_check_cb h addbr addif check m s)
    retries : (s : World) → s.env.retry ≡ true → Step s (bridge_retry_members h addbr addif s)
    hotplug_prepare : (s : World) → Step s (bridge_hotplug_prepare h addbr addif s)
    deleted : (m : ℕ) (s : World) → m < n → Step s (delete_member h addbr addif m s)

  pub data Reach (s : World) : World → Type 0 where
    here : Reach s s
    next : {u v : World} → Reach s u → Step u v → Reach s v

  module _ (laws : BridgeLaws n h) where
    Step-Counted : {s v : World} → Step s v → Counted n nobody s.env → Counted n nobody v.env
    unfolding bridge_hotplug_prepare
    Step-Counted (event m ev s lt listed off) c =
        bridge_member_cb-Counted n nobody h laws addbr addif m ev s lt listed off c
    Step-Counted (state b s) c = bridge_set_state-Counted n nobody h laws addbr addif b s c
    Step-Counted (checks check m s lt set) c =
        check_cb-Counted n nobody h laws addbr addif check m s lt c
    Step-Counted (retries s set) c = bridge_retry_members-Counted n nobody h laws addbr addif s c
    Step-Counted (hotplug_prepare s) c =
        set_present_keeps n nobody h laws addbr addif s.env.dev true
          (put_br (record (s.env) { force_active = true }) s)
          (record { counted = c.counted; bounded = c.bounded; listed = c.listed })
    Step-Counted (deleted m s lt) c = delete_keeps n nobody h laws addbr addif m s lt c

    -- n_present of a bridge is the number of the present members, and every present member is in
    -- its tree, after any sequence of events that starts where it is so: events of the devices of
    -- members in the tree (a device is added only while it is absent), the bridge going up or down
    -- with members that fail, checks, retries, and members that are deleted. The hooks must keep
    -- this, also while members are out of the tree that are being freed, and no claim or release of
    -- a member's device, and no topology event, may take that member away meanwhile.
    pub Reach-Counted : {s v : World} → Counted n nobody s.env → Reach s v → Counted n nobody v.env
    Reach-Counted c here = c
    Reach-Counted c (next r st) = Step-Counted st (Reach-Counted c r)
