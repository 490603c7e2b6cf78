-- ===== src/Device/Frame.antt =====
-- device.c: its operations and the state of the rest of the daemon.
use netifd.Prelude.{
  ℕ, List, Bool, true, false, not, ◌&&◌, ◌||◌, Option, ◌==◌, if_keeps, match_keeps, if◌then◌else◌,
}
use netifd.Prelude.Int.{ℤ}
use netifd.Settings.Defs.{DevOpt}
use netifd.Device.Store.{
  Store, Hooks, DeviceEvent, ev_add, setup, teardown, up, down, link_up, update_ifindex, put_dev,
}
use netifd.Device.Claim.{
  device_broadcast_cb, device_broadcast_event, device_set_ifindex, device_fill_default_settings,
  claim_external, bring_up, claim_result, take_claim, claim_device, device_claim, switch_off,
  bring_down, drop_claim, device_release, is_zero,
}
use netifd.Device.Present.{same, announce_present, device_refresh_present, device_set_present}
use netifd.Device.Users.{attach, greet, join_device, device_remove_user, device_add_user, same_dev}

-- The hooks keep a property of the rest of the daemon.
pub record EnvLaws {E : Type 0} (Q : E → Type 0) (h : Hooks E) : Type 1 where
  pub walk_keeps :
      (P : Store E → Type 0) (l : Store E → List ℕ) (f : ℕ → Store E → Store E) (s : Store E)
      → ((u : ℕ) (t : Store E) → P t → P (f u t))
      → P s
      → P (h.walk l f s)
  pub cb_keeps : (u : ℕ) (ev : DeviceEvent) (s : Store E) → Q s.env → Q (h.cb u ev s).env
  pub set_state_keeps : (d : ℕ) (b : Bool) (s : Store E) → Q s.env → Q (h.set_state d b s).0.env

module _ {E : Type 0} (Q : E → Type 0) (h : Hooks E) (laws : EnvLaws Q h) where
  abbrev P : Store E → Type 0
  P s = Q s.env

  abbrev Result : Store E × ℤ → Type 0
  Result r = Q r.0.env

  pub broadcast_frame :
      (d : ℕ) (ev : DeviceEvent) (s : Store E) → P s → P (device_broadcast_event h d ev s)
  unfolding device_broadcast_event device_broadcast_cb
  broadcast_frame d ev s q = laws.walk_keeps P _ _ _ one (laws.walk_keeps P _ _ s one q)
    where
      one : (u : ℕ) (t : Store E) → P t → P (device_broadcast_cb h ev u t)
      one u t q = match_keeps P (t.usrs u).dev (λ e. q) (λ d e. laws.cb_keeps u ev t q)

  pub ifindex_frame : (d k : ℕ) (s : Store E) → P s → P (device_set_ifindex h d k s)
  unfolding device_set_ifindex
  ifindex_frame d k s q =
      if_keeps P ((s.devs d).ifindex == k) (λ e. q) (λ e. broadcast_frame d update_ifindex _ q)

  fill_frame : (d : ℕ) (s : Store E) → P s → P (device_fill_default_settings h d s)
  unfolding device_fill_default_settings
  fill_frame d s q =
      if_keeps P ((s.devs d).settings.flags DevOpt.macaddr) (λ e. q)
        (λ e. match_keeps P (h.config_get_default_macaddr (s.devs d).ifname) (λ e. q) (λ ea e. q))

  bring_up_frame : (d : ℕ) (s : Store E) → P s → P (bring_up h d s).0
  unfolding bring_up claim_external
  bring_up_frame d s q =
      let r = fill_frame d _ (broadcast_frame d setup s q) in
      let s2 = device_fill_default_settings h d (device_broadcast_event h d setup s) in
      if_keeps Result (s2.devs d).external {x = claim_external h d s2} {y = h.set_state d true s2}
        (λ e. ifindex_frame d (h.system_if_resolve d s2) s2 r)
        (λ e. laws.set_state_keeps d true s2 r)

  claim_device_frame : (u d : ℕ) (s : Store E) → P s → P (claim_device h u d s).0
  unfolding claim_device claim_result
  claim_device_frame u d s q =
      let r = bring_up_frame d (take_claim u d s) q in
      let (s2, ret) = bring_up h d (take_claim u d s) in
      if_keeps Result (not (((take_claim u d s).devs d).active == 1)) (λ e. q)
        (λ e. if_keeps Result (is_zero ret) (λ e. broadcast_frame d up s2 r) (λ e. r))

  -- A claim keeps what the hooks keep.
  pub device_claim_frame : (u : ℕ) (s : Store E) → P s → P (device_claim h u s).0
  unfolding device_claim
  device_claim_frame u s q =
      if_keeps Result (s.usrs u).claimed (λ e. q)
        (λ e. match_keeps Result (s.usrs u).dev (λ e. q) (λ d e. claim_device_frame u d s q))

  bring_down_frame : (d : ℕ) (s : Store E) → P s → P (bring_down h d s)
  unfolding bring_down switch_off
  bring_down_frame d s q =
      let a = broadcast_frame d teardown s q in
      let s1 = device_broadcast_event h d teardown s in
      let b =
        if_keeps P (s1.devs d).external {x = s1} {y = (h.set_state d false s1).0} (λ e. a)
          (λ e. laws.set_state_keeps d false s1 a) in
      if_keeps P (not (((switch_off h d s1).devs d).active == 0)) (λ e. b)
        (λ e. broadcast_frame d down _ b)

  -- So does a release.
  pub device_release_frame : (u : ℕ) (s : Store E) → P s → P (device_release h u s)
  unfolding device_release
  device_release_frame u s q =
      if_keeps P (not (s.usrs u).claimed) (λ e. q)
        (λ e.
          match_keeps P (s.usrs u).dev (λ e. q)
            (λ d e.
              if_keeps P (not (((drop_claim u d s).devs d).active == 0)) (λ e. q)
                (λ e. bring_down_frame d _ q)))

  pub device_remove_user_frame : (u : ℕ) (s : Store E) → P s → P (device_remove_user h u s)
  unfolding device_remove_user
  device_remove_user_frame u s q =
      match_keeps P (s.usrs u).dev (λ e. q) (λ d e. device_release_frame u _ q)

  greet_frame : (u d : ℕ) (s : Store E) → P s → P (greet h u d s)
  unfolding greet
  greet_frame u d s q =
      let a = laws.cb_keeps u ev_add s q in
      let s1 = h.cb u ev_add s in
      let b = if_keeps P ((s1.devs d).active == 0) (λ e. a) (λ e. laws.cb_keeps u up s1 a) in
      let s2 : Store E = if (s1.devs d).active == 0 then s1 else h.cb u up s1 in
      let c = if_keeps P (s2.devs d).link_active (λ e. laws.cb_keeps u link_up s2 b) (λ e. b) in
      if_keeps P (s.devs d).present (λ e. c) (λ e. q)

  pub device_add_user_frame :
      (u : ℕ) (dev : Option ℕ) (s : Store E) → P s → P (device_add_user h u dev s)
  unfolding device_add_user join_device
  device_add_user_frame u dev s q =
      let a = device_remove_user_frame u s q in
      if_keeps P (same_dev (s.usrs u).dev dev) (λ e. q)
        (λ e.
          match_keeps P dev (λ e. a)
            (λ d e. greet_frame u d (attach u d (device_remove_user h u s)) a))

  -- So does a change of what is known of the presence of a device.
  pub device_set_present_frame :
      (d : ℕ) (b : Bool) (s : Store E) → P s → P (device_set_present h d b s)
  unfolding device_set_present device_refresh_present announce_present
  device_set_present_frame d b s q =
      let s1 = put_dev d (record (s.devs d) { sys_present = b }) s in
      if_keeps P (same (s.devs d).sys_present b) (λ e. q)
        (λ e.
          if_keeps P
            (same (s1.devs d).present
              ((s1.devs d).sys_present && not ((s1.devs d).disabled || (s1.devs d).deferred)))
            (λ e. q) (λ e. broadcast_frame d _ _ q))
