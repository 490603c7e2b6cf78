-- ===== src/Bridge/Events.antt =====
-- bridge.c: the events of the members, and the count of the present ones.
use netifd.Prelude.{
  Bool, ℕ, ◌<◌, ◌≡◌, refl, true, false, not, ◌||◌, ◌==◌, if_keeps, match_keeps, if◌then◌else◌,
}
use netifd.Prelude.Int.{ℤ, negsuc, ◌+ℤ◌}
use netifd.Device.Listed.{has_id, also, remove_id-All, remove_id-has}
use netifd.Device.Store.{
  Hooks, DeviceEvent, ev_add, ev_remove, update_ifname, update_ifindex, setup, teardown, up, down,
  auth_up, link_up, link_down, topo_change,
}
use netifd.Device.Claim.{is_zero}
use netifd.Device.Present.{device_set_present}
use netifd.Device.Users.{remove_id, device_remove_user}
use netifd.Device.Frame.{device_remove_user_frame}
use netifd.Bridge.Types.{Bridge, World, put_br}
use netifd.Bridge.Members.{bridge_enable_member, bridge_remove_member}
use netifd.Bridge.Run.{
  stop_timer, toggle_present, bridge_free_member, delete_member, member_ready, count_member,
  member_added, bridge_member_cb, forget_ports,
}
use netifd.Bridge.Quiet.{put_member-Quiet, forget_ports-Quiet}
use netifd.Bridge.Present.{Counted, BridgeLaws, Quiet-Counted, widen-Counted, add-Counted}
use netifd.Bridge.Enable.{set_present_keeps, disable_keeps, enable_keeps, remove_keeps}

module _ (n : ℕ) (out : ℕ → Bool) (h : Hooks Bridge) (laws : BridgeLaws n h) (addbr : World → ℤ)
    (addif : ℕ → World → ℤ) where
  abbrev P : World → Type 0
  P s = Counted n out s.env

  pub stop_timer_keeps : (m : ℕ) (s : World) → P s → P (stop_timer h addbr addif m s)
  stop_timer_keeps m s c =
      Quiet-Counted n out s _
        (put_member-Quiet m (record (s.env.member m) { check_timer = false }) s refl) c

  toggle_keeps : (d : ℕ) (s : World) → P s → P (toggle_present h addbr addif d s)
  toggle_keeps d s c =
      if_keeps P (s.devs d).present
        (λ e.
          set_present_keeps n out h laws addbr addif d true _
            (set_present_keeps n out h laws addbr addif d false s c))
        (λ e. c)

  free_keeps :
      (m : ℕ) (s : World)
      → m < n
      → Counted n (also m out) s.env
      → P (bridge_free_member h addbr addif m s)
  unfolding bridge_free_member
  free_keeps m s lt c =
      let s1 = bridge_remove_member h addbr addif m s in
      let c1 = remove_keeps n out h laws addbr addif m s lt c in
      match_keeps P (s.usrs m).dev (λ e. c1)
        (λ d e.
          let s2 = forget_ports d s1 in
          let c2 = Quiet-Counted n out s1 s2 (forget_ports-Quiet d s1) c1 in
          let s3 = device_remove_user h m s2 in
          let c3 = device_remove_user_frame (Counted n out) h (laws.env_laws out) m s2 c2 in
          toggle_keeps d (stop_timer h addbr addif m s3) (stop_timer_keeps m s3 c3))

  pub delete_keeps : (m : ℕ) (s : World) → m < n → P s → P (delete_member h addbr addif m s)
  unfolding delete_member
  delete_keeps m s lt c =
      free_keeps m (put_br (record (s.env) { members = remove_id m s.env.members }) s) lt (record {
        counted = c.counted;
        bounded = remove_id-All n m s.env.members c.bounded;
        listed = λ k p. remove_id-has m k (out k) s.env.members (c.listed k p);
      })

  ready_keeps : (m : ℕ) (s : World) → m < n → P s → P (member_ready h addbr addif m s)
  unfolding member_ready
  ready_keeps m s lt c =
      let r = bridge_enable_member h addbr addif m s in
      let c1 = enable_keeps n out h laws addbr addif m s lt c in
      if_keeps P ((s.devs s.env.dev).active == 0) (λ e. c)
        (λ e. if_keeps P (not (is_zero r.1)) (λ e. c1) (λ e. laws.apply_keeps out _ _ r.0 c1))

  pub count_keeps :
      (m : ℕ) (s : World)
      → m < n
      → has_id m s.env.members ≡ true
      → (s.env.member m).present ≡ false
      → P s
      → P (count_member h addbr addif m s)
  count_keeps m s lt here off c =
      let d =
        add-Counted n out m (record (s.env.member m) { present = true }) s.env lt here off refl c in
      record { counted = d.counted; bounded = d.bounded; listed = d.listed }

  added_keeps :
      (m : ℕ) (s : World)
      → m < n
      → has_id m s.env.members ≡ true
      → (s.env.member m).present ≡ false
      → P s
      → P (member_added h addbr addif m s)
  unfolding member_added
  added_keeps m s lt here off c =
      let c1 = count_keeps m s lt here off c in
      let s1 = record (count_member h addbr addif m s) {
        faulted = s.faulted || (s.env.member m).present;
      } in
      let s2 : World =
        if is_zero (s1.env.n_present +ℤ negsuc 0)
        then device_set_present h s1.env.dev true s1
        else s1 in
      ready_keeps m s2 lt (
        if_keeps P (is_zero (s1.env.n_present +ℤ negsuc 0))
          (λ e. set_present_keeps n out h laws addbr addif s1.env.dev true s1 c1) (λ e. c1))

  pub bridge_member_cb-Counted :
      (m : ℕ) (ev : DeviceEvent) (s : World)
      → m < n
      → has_id m s.env.members ≡ true
      → (ev ≡ ev_add → (s.env.member m).present ≡ false)
      → Counted n out s.env
      → Counted n out (bridge_member_cb h addbr addif m ev s).env
  unfolding bridge_member_cb
  bridge_member_cb-Counted m ev_add s lt here off c = added_keeps m s lt here (off refl) c
  bridge_member_cb-Counted m auth_up s lt here off c = ready_keeps m s lt c
  bridge_member_cb-Counted m link_up s lt here off c =
      if_keeps P s.env.has_vlans
        (λ e.
          Quiet-Counted n out s _
            (put_member-Quiet m (record (s.env.member m) { check_timer = true }) s refl) c)
        (λ e. c)
  bridge_member_cb-Counted m link_down s lt here off c =
      match_keeps P (s.usrs m).dev (λ e. c)
        (λ d e.
          if_keeps P (not (s.devs d).settings.auth) (λ e. c)
            (λ e. disable_keeps n out h laws addbr addif m true s c))
  bridge_member_cb-Counted m ev_remove s lt here off c =
      if_keeps P (s.usrs m).hotplug (λ e. delete_keeps m s lt c)
        (λ e. remove_keeps n out h laws addbr addif m s lt (widen-Counted n out m s.env c))
  bridge_member_cb-Counted m update_ifname s lt here off c = c
  bridge_member_cb-Counted m update_ifindex s lt here off c = c
  bridge_member_cb-Counted m setup s lt here off c = c
  bridge_member_cb-Counted m teardown s lt here off c = c
  bridge_member_cb-Counted m up s lt here off c = c
  bridge_member_cb-Counted m down s lt here off c = c
  bridge_member_cb-Counted m topo_change s lt here off c = c
