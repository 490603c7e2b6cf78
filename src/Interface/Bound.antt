-- ===== src/Interface/Bound.antt =====
-- interface.c, binding an interface to devices: its calls of device.c and the store of devices.
use netifd.Prelude.{
  ℕ, ◌<◌, Bool, true, false, not, ◌&&◌, Option, none, some, ltb, if_keeps, match_keeps,
}
use netifd.Prelude.Int.{neg_part}
use netifd.Device.Store.{Hooks}
use netifd.Device.Claim.{is_zero, device_claim}
use netifd.Device.Present.{same}
use netifd.Device.Users.{same_dev}
use netifd.Device.Laws.{Inv, HookLaws}
use netifd.Device.Refcount.{device_claim-Inv}
use netifd.Device.Membership.{device_add_user-Inv}
use netifd.Interface.Types.{
  ifev_link_up, ErrorCode, device_claim_failed, setup_failed, no_device, Env, World, iface_of,
  put_if, IfHooks,
}
use netifd.Interface.State.{
  has_some, is_up, is_down, main_dev_of, l3_dev_of, interface_clear_errors, interface_force_link,
  start_setup,
}
use netifd.Interface.Binding.{
  interface_set_enabled, announce_link, interface_set_link_state, with_error, set_up_available,
  interface_set_up, interface_set_down, interface_set_available, restore_ips, interface_set_l3_dev,
  bind_l3, follow_l3, interface_set_main_dev,
}
use netifd.Interface.Leaves.{MainLeaves}
use netifd.Interface.Kept.{
  IfLaws, put_if-Inv, clear_errors-Inv, add_error-Inv, event-Inv, ips-Inv, take_down-Inv,
  start_setup-Inv, check_state-Inv,
}

module _ {R : Type 0} (n : ℕ) (h : Hooks (Env R)) (k : IfHooks R) (laws : HookLaws n h)
    (asks : IfLaws n h k) where
  abbrev claim-Inv : (u : ℕ) (s : World R) → u < n → Inv n s → Inv n (device_claim h u s).0
  claim-Inv u s lt j = device_claim-Inv n h laws u s lt j

  pub set_enabled-Inv :
      (i : ℕ) (on : Bool) (s : World R) → Inv n s → Inv n (interface_set_enabled h k i on s)
  unfolding interface_set_enabled
  set_enabled-Inv i on s j =
      if_keeps (Inv n) (same (iface_of i s).enabled on) (λ e. j)
        (λ e. check_state-Inv n h k laws asks i _ (put_if-Inv n i s _ j))

  announce-Inv : (i : ℕ) (on : Bool) (s : World R) → Inv n s → Inv n (announce_link h k i on s)
  announce-Inv i on s j =
      let x = iface_of i s in
      if_keeps (Inv n)
        (on && (interface_force_link k i s && (is_up x.state && not x.link_up_event)))
        (λ e. put_if-Inv n i _ _ (event-Inv n h k laws asks i ifev_link_up s j)) (λ e. j)

  pub set_link_state-Inv :
      (i : ℕ) (on : Bool) (s : World R) → Inv n s → Inv n (interface_set_link_state h k i on s)
  unfolding interface_set_link_state
  set_link_state-Inv i on s j =
      let a = check_state-Inv n h k laws asks i _ (put_if-Inv n i s _ j) in
      if_keeps (Inv n) (same (iface_of i s).link_state on) (λ e. j)
        (λ e. event-Inv n h k laws asks i ifev_link_up _ (announce-Inv i on _ a))

  failed-Inv : (i : ℕ) (c : Option ErrorCode) (s : World R) → Inv n s → Inv n (with_error h k i c s)
  failed-Inv i none s j = j
  failed-Inv i (some c) s j = add_error-Inv n i s c j

  set_up_available-Inv : (i : ℕ) (s : World R) → Inv n s → Inv n (set_up_available h k i s)
  unfolding set_up_available
  set_up_available-Inv i s j =
      let a = claim-Inv (k.main_dev i) s (asks.main_lt i) j in
      let b = start_setup-Inv n h k laws asks i s j in
      if_keeps (Inv n) (has_some (main_dev_of k i s))
        (λ e.
          if_keeps (Inv n) (is_zero (device_claim h (k.main_dev i) s).1)
            (λ e. check_state-Inv n h k laws asks i _ a)
            (λ e. failed-Inv i (some device_claim_failed) _ a))
        (λ e.
          if_keeps (Inv n) (is_zero (start_setup h k i s).1) (λ e. b)
            (λ e. failed-Inv i (some setup_failed) _ b))

  -- Bringing an interface up keeps the invariant of the device store, whether the interface is
  -- available or not, and whether its device and its protocol start or fail. The calls into other
  -- parts must keep it, and no callback of a release may claim again for a user that is being
  -- removed.
  pub interface_set_up-Inv : (i : ℕ) (s : World R) → Inv n s → Inv n (interface_set_up h k i s)
  unfolding interface_set_up
  interface_set_up-Inv i s j =
      let a = put_if-Inv n i s (record (iface_of i s) { autostart = true }) j in
      let s1 = put_if i (record (iface_of i s) { autostart = true }) s in
      let s2 = interface_clear_errors i s1 in
      let b = clear_errors-Inv n i s1 a in
      if_keeps (Inv n) (not (is_down (iface_of i s).state)) (λ e. a)
        (λ e.
          if_keeps (Inv n) (iface_of i s2).available (λ e. set_up_available-Inv i s2 b)
            (λ e. failed-Inv i (some no_device) s2 b))

  pub set_down-Inv : (i : ℕ) (s : World R) → Inv n s → Inv n (interface_set_down h k i s)
  unfolding interface_set_down
  set_down-Inv i s j = take_down-Inv n h k laws asks i false _ (put_if-Inv n i s _ j)

  pub set_available-Inv :
      (i : ℕ) (on : Bool) (s : World R) → Inv n s → Inv n (interface_set_available h k i on s)
  unfolding interface_set_available
  set_available-Inv i on s j =
      let a = put_if-Inv n i s (record (iface_of i s) { available = on }) j in
      let s1 = put_if i (record (iface_of i s) { available = on }) s in
      if_keeps (Inv n) (same (iface_of i s).available on) (λ e. j)
        (λ e.
          if_keeps (Inv n) (not on) (λ e. take_down-Inv n h k laws asks i true s1 a)
            (λ e.
              if_keeps (Inv n) ((iface_of i s1).autostart && not s1.env.config_init)
                (λ e. interface_set_up-Inv i s1 a) (λ e. a)))

  restore-Inv :
      (i : ℕ) (on claimed : Bool) (s : World R) → Inv n s → Inv n (restore_ips h k i on claimed s)
  restore-Inv i on claimed s j =
      let a = claim-Inv (k.l3_dev i) s (asks.l3_lt i) j in
      if_keeps (Inv n) (not claimed) (λ e. ips-Inv n h k laws asks i on s j)
        (λ e.
          if_keeps (Inv n) (ltb 0 (neg_part (device_claim h (k.l3_dev i) s).1)) (λ e. a)
            (λ e. ips-Inv n h k laws asks i on _ a))

  pub set_l3_dev-Inv :
      (i : ℕ) (dev : Option ℕ) (s : World R) → Inv n s → Inv n (interface_set_l3_dev h k i dev s)
  unfolding interface_set_l3_dev
  set_l3_dev-Inv i dev s j =
      let a = asks.ip_flush_keeps i _ (ips-Inv n h k laws asks i false s j) in
      let b =
        device_add_user-Inv n h laws (k.l3_dev i) dev _ (asks.l3_lt i) (asks.l3_leaves i _ a) a in
      if_keeps (Inv n) (same_dev (l3_dev_of k i s) dev) (λ e. j)
        (λ e. match_keeps (Inv n) dev (λ e. b) (λ d e. restore-Inv i _ _ _ b))

  bind-Inv : (i d : ℕ) (s : World R) → Inv n s → Inv n (bind_l3 h k i d s)
  bind-Inv i d s j =
      if_keeps (Inv n) (has_some (l3_dev_of k i s)) (λ e. j) (λ e. set_l3_dev-Inv i (some d) s j)

  follow-Inv :
      (i d : ℕ) (claimed : Bool) (s : World R) → Inv n s → Inv n (follow_l3 h k i d claimed s)
  follow-Inv i d claimed s j =
      let a = claim-Inv (k.l3_dev i) s (asks.l3_lt i) j in
      if_keeps (Inv n) (not claimed) (λ e. bind-Inv i d s j)
        (λ e.
          if_keeps (Inv n) (ltb 0 (neg_part (device_claim h (k.l3_dev i) s).1)) (λ e. a)
            (λ e. bind-Inv i d _ a))

  -- Moving an interface to another main device, or off its device, keeps the invariant of the
  -- device store, if no callback claims the main device again while it is given up.
  pub interface_set_main_dev-Inv :
      (i : ℕ) (dev : Option ℕ) (s : World R)
      → MainLeaves h k i dev s
      → Inv n s
      → Inv n (interface_set_main_dev h k i dev s)
  unfolding interface_set_main_dev
  interface_set_main_dev-Inv i dev s leaves j =
      let a = set_available-Inv i false s j in
      if_keeps (Inv n) (same_dev (main_dev_of k i s) dev) (λ e. j)
        (λ e.
          let b = device_add_user-Inv n h laws (k.main_dev i) dev _ (asks.main_lt i) (leaves e) a in
          match_keeps (Inv n) dev (λ e. set_link_state-Inv i false _ b)
            (λ d e. follow-Inv i d _ _ b))
