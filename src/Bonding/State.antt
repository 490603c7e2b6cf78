-- ===== src/Bonding/State.antt =====
-- bonding.c: the events of the ports, the bond going up and down, and the count of the present ports.
use netifd.Prelude.{
  ℕ, ◌<◌, ◌≡◌, refl, Bool, true, false, not, ◌&&◌, ◌==◌, if_keeps, match_keeps, if◌then◌else◌,
}
use netifd.Prelude.Int.{ℤ, negsuc, ◌+ℤ◌}
use netifd.Device.Listed.{has_id, also, remove_id-All, remove_id-has}
use netifd.Device.Store.{
  Hooks, DeviceEvent, ev_add, ev_remove, update_ifname, update_ifindex, setup, teardown, up, down,
  auth_up, link_up, link_down, topo_change,
}
use netifd.Device.Claim.{is_zero, device_set_ifindex}
use netifd.Device.Users.{remove_id, set_device_state, keep_orig, device_remove_user}
use netifd.Device.Present.{device_set_present}
use netifd.Device.Frame.{ifindex_frame, device_remove_user_frame}
use netifd.Bridge.Members.{is_negative}
use netifd.Bonding.Types.{Bond, World, put_bond, each}
use netifd.Bonding.Ports.{
  bonding_reset_primary, bonding_disable_port, bonding_remove_port, bonding_set_active,
  bonding_enable_port,
}
use netifd.Bonding.Run.{
  enable, toggle_present, bonding_free_port, delete_port, port_ready, count_port, port_added,
  bonding_port_cb, bonding_set_down, check_retry, enable_ports, bonding_set_up, bonding_set_state,
  retry_port, bonding_retry_ports,
}
use netifd.Bonding.Counted.{
  Counted, BondLaws, widen-Counted, add-Counted, each_keeps, reset_primary_keeps,
}
use netifd.Bonding.Keeps.{
  set_present_keeps, set_active_keeps, disable_keeps, remove_keeps, enable_keeps,
}

module _ (n : ℕ) (out : ℕ → Bool) (h : Hooks Bond) (laws : BondLaws n h) (setdev : Bool → World → ℤ)
    (addport : ℕ → World → ℤ) where
  abbrev P : World → Type 0
  P s = Counted n out s.env

  abbrev Result : World × ℤ → Type 0
  Result r = Counted n out r.0.env

  toggle_keeps : (d : ℕ) (s : World) → P s → P (toggle_present h setdev addport d s)
  toggle_keeps d s c =
      if_keeps P (s.devs d).present
        (λ e.
          set_present_keeps n out h laws setdev addport d true (device_set_present h d false s)
            (set_present_keeps n out h laws setdev addport d false s c))
        (λ e. c)

  free_keeps :
      (m : ℕ) (s : World)
      → m < n
      → Counted n (also m out) s.env
      → P (bonding_free_port h setdev addport m s)
  unfolding bonding_free_port
  free_keeps m s lt c =
      let s1 = bonding_remove_port h setdev addport m s in
      let c1 = remove_keeps n out h laws setdev addport m s lt c in
      match_keeps P (s.usrs m).dev (λ e. c1)
        (λ d e.
          toggle_keeps d (device_remove_user h m s1)
            (device_remove_user_frame (Counted n out) h (laws.env_laws out) m s1 c1))

  pub delete_keeps : (m : ℕ) (s : World) → m < n → P s → P (delete_port h setdev addport m s)
  unfolding delete_port
  delete_keeps m s lt c =
      free_keeps m (put_bond (record (s.env) { ports = remove_id m s.env.ports }) s) lt (record {
        counted = c.counted;
        bounded = remove_id-All n m s.env.ports c.bounded;
        listed = λ k p. remove_id-has m k (out k) s.env.ports (c.listed k p);
      })

  ready_keeps : (m : ℕ) (s : World) → m < n → P s → P (port_ready h setdev addport m s)
  unfolding port_ready
  ready_keeps m s lt c =
      let c1 = enable_keeps n out h laws setdev addport m s lt c in
      let r = bonding_enable_port h setdev addport m s in
      if_keeps P ((s.devs s.env.dev).active == 0) (λ e. c)
        (λ e. if_keeps P (not (is_zero r.1)) (λ e. c1) (λ e. laws.apply_keeps out _ _ r.0 c1))

  count_keeps :
      (m : ℕ) (s : World)
      → m < n
      → has_id m s.env.ports ≡ true
      → (s.env.port m).present ≡ false
      → P s
      → P (count_port h setdev addport m s)
  count_keeps m s lt here off c =
      let d =
        add-Counted n out m (record (s.env.port m) { present = true }) s.env lt here off refl c in
      record { counted = d.counted; bounded = d.bounded; listed = d.listed }

  added_keeps :
      (m : ℕ) (s : World)
      → m < n
      → has_id m s.env.ports ≡ true
      → P s
      → P (port_added h setdev addport m s)
  unfolding port_added
  added_keeps m s lt here c =
      if_keeps P (s.env.port m).present (λ e. c)
        (λ off.
          let s1 = count_port h setdev addport m s in
          let c1 = count_keeps m s lt here off c in
          let s2 =
            if is_zero (s1.env.n_present +ℤ negsuc 0)
            then device_set_present h s1.env.dev true s1
            else s1 in
          let c2 : P s2 =
            if_keeps P (is_zero (s1.env.n_present +ℤ negsuc 0))
              (λ e. set_present_keeps n out h laws setdev addport s1.env.dev true s1 c1)
              (λ e. c1) in
          ready_keeps m s2 lt c2)

  pub bonding_port_cb-Counted :
      (m : ℕ) (ev : DeviceEvent) (s : World)
      → m < n
      → has_id m s.env.ports ≡ true
      → Counted n out s.env
      → Counted n out (bonding_port_cb h setdev addport m ev s).env
  unfolding bonding_port_cb
  bonding_port_cb-Counted m ev_add s lt here c = added_keeps m s lt here c
  bonding_port_cb-Counted m auth_up s lt here c = ready_keeps m s lt c
  bonding_port_cb-Counted m link_down s lt here c =
      match_keeps P (s.usrs m).dev (λ e. c)
        (λ d e.
          if_keeps P (not (s.devs d).settings.auth) (λ e. c)
            (λ e. disable_keeps n out h laws setdev addport m true s lt c))
  bonding_port_cb-Counted m ev_remove s lt here c =
      if_keeps P (s.usrs m).hotplug (λ e. delete_keeps m s lt c)
        (λ e. remove_keeps n out h laws setdev addport m s lt (widen-Counted n out m s.env c))
  bonding_port_cb-Counted m update_ifname s lt here c = c
  bonding_port_cb-Counted m update_ifindex s lt here c = c
  bonding_port_cb-Counted m setup s lt here c = c
  bonding_port_cb-Counted m teardown s lt here c = c
  bonding_port_cb-Counted m up s lt here c = c
  bonding_port_cb-Counted m down s lt here c = c
  bonding_port_cb-Counted m link_up s lt here c = c
  bonding_port_cb-Counted m topo_change s lt here c = c

  device_state_keeps : (d : ℕ) (b : Bool) (s : World) → P s → Result (set_device_state h d b s)
  unfolding set_device_state
  device_state_keeps d true s c =
      let s1 = device_set_ifindex h d (h.system_if_resolve d s) s in
      let c1 =
        ifindex_frame (Counted n out) h (laws.env_laws out) d (h.system_if_resolve d s) s c in
      if_keeps Result ((s1.devs d).ifindex == 0) (λ e. c1)
        (λ e. laws.up_keeps out d _ (laws.apply_keeps out d _ (keep_orig h d s1) c1))
  device_state_keeps d false s c =
      laws.apply_keeps out d _ (h.system_if_down d s) (laws.down_keeps out d s c)

  set_down_keeps : (s : World) → P s → Result (bonding_set_down h setdev addport s)
  unfolding bonding_set_down
  set_down_keeps s c =
      let s1 = (set_device_state h s.env.dev false s).0 in
      let c1 = device_state_keeps s.env.dev false s c in
      set_active_keeps n out h laws setdev addport false _ (
        each_keeps n out (λ m. bonding_disable_port h setdev addport m false)
          (λ m t lt here d. disable_keeps n out h laws setdev addport m false t lt d) s1.env.ports
          s1 c1.bounded c1)

  ports_keep : (s : World) → P s → Result (enable_ports h setdev addport s)
  unfolding enable_ports
  ports_keep s c =
      let s1 = put_bond (record (s.env) { n_failed = 0 }) s in
      let s1e = each (enable h setdev addport) s1.env.ports s1 in
      let c1e =
        each_keeps n out (enable h setdev addport)
          (λ m t lt here d. enable_keeps n out h laws setdev addport m t lt d) s1.env.ports s1
          c.bounded (record { counted = c.counted; bounded = c.bounded; listed = c.listed }) in
      let s2 = check_retry h setdev addport s1e in
      let c2 : P s2 =
        if_keeps P (s1e.env.n_failed == 0) (λ e. c1e)
          (λ e. record { counted = c1e.counted; bounded = c1e.bounded; listed = c1e.listed }) in
      let s3 = (bonding_set_active h setdev addport false s2).0 in
      let c3 = set_active_keeps n out h laws setdev addport false s2 c2 in
      let r = set_device_state h s2.env.dev true (bonding_reset_primary s2) in
      let c4 =
        device_state_keeps s2.env.dev true (bonding_reset_primary s2)
          (reset_primary_keeps n out s2 c2) in
      if_keeps Result (not s2.env.force_active && is_zero s2.env.n_present)
        (λ e. set_present_keeps n out h laws setdev addport s3.env.dev false s3 c3)
        (λ e. if_keeps Result (is_negative r.1) (λ e. set_down_keeps r.0 c4) (λ e. c4))

  set_up_keeps : (s : World) → P s → Result (bonding_set_up h setdev addport s)
  unfolding bonding_set_up
  set_up_keeps s c =
      let r = bonding_set_active h setdev addport true s in
      let c1 = set_active_keeps n out h laws setdev addport true s c in
      if_keeps Result (not (is_zero s.env.n_present)) (λ e. ports_keep s c)
        (λ e.
          if_keeps Result (not s.env.force_active) (λ e. c)
            (λ e. if_keeps Result (is_zero r.1) (λ e. ports_keep r.0 c1) (λ e. c1)))

  pub bonding_set_state-Counted :
      (b : Bool) (s : World)
      → Counted n out s.env
      → Counted n out (bonding_set_state h setdev addport b s).0.env
  unfolding bonding_set_state
  bonding_set_state-Counted true s c = set_up_keeps s c
  bonding_set_state-Counted false s c = set_down_keeps s c

  retry_port_keeps :
      (m : ℕ) (s : World)
      → m < n
      → has_id m s.env.ports ≡ true
      → P s
      → P (retry_port h setdev addport m s)
  retry_port_keeps m s lt here c =
      if_keeps P (s.env.port m).present (λ e. c)
        (λ off.
          match_keeps P (s.usrs m).dev (λ e. c)
            (λ d e.
              if_keeps P (not (s.devs d).present) (λ e. c)
                (λ e.
                  enable_keeps n out h laws setdev addport m (count_port h setdev addport m s) lt
                    (count_keeps m s lt here off c))))

  pub bonding_retry_ports-Counted :
      (s : World) → Counted n out s.env → Counted n out (bonding_retry_ports h setdev addport s).env
  unfolding bonding_retry_ports
  bonding_retry_ports-Counted s c =
      each_keeps n out (retry_port h setdev addport) retry_port_keeps s.env.ports _ c.bounded
        (record { counted = c.counted; bounded = c.bounded; listed = c.listed })
