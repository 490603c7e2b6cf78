-- ===== src/Bridge/State.antt =====
-- bridge.c: the bridge going up and down, its timers, and the count of the present members.
use netifd.Prelude.{
  ◌≡◌, if◌then◌else◌, ℕ, ◌<◌, List, [], ◌∷◌, Bool, true, false, not, ◌&&◌, ◌||◌, ◌==◌, All,
  if_keeps, match_keeps,
}
use netifd.Prelude.Int.{ℤ}
use netifd.Device.Listed.{has_id}
use netifd.Device.Store.{Hooks}
use netifd.Device.Claim.{is_zero, device_set_ifindex}
use netifd.Device.Users.{set_device_state, keep_orig}
use netifd.Device.Frame.{ifindex_frame}
use netifd.Bridge.Types.{Bridge, World, put_br, each_member}
use netifd.Bridge.Members.{
  bridge_reset_primary, bridge_check_retry, bridge_disable_interface, bridge_enable_interface,
  bridge_disable_member, is_negative,
}
use netifd.Bridge.Run.{
  enable, stop_timer, count_member, bridge_member_check_cb, bridge_set_down, enable_members,
  bridge_set_up, bridge_set_state, retry_member, bridge_retry_members, no_items,
}
use netifd.Bridge.Quiet.{
  reset_primary-Quiet, check_retry-Quiet, disable_interface-Quiet, enable_interface-Quiet,
}
use netifd.Bridge.Present.{Counted, BridgeLaws, Quiet-Counted}
use netifd.Bridge.Enable.{set_present_keeps, disable_keeps, enable_keeps}
use netifd.Bridge.Events.{count_keeps, stop_timer_keeps}

module _ (n : ℕ) (out : ℕ → Bool) (h : Hooks Bridge) (laws : BridgeLaws n h) (addbr : World → ℤ)
    (addif : ℕ → World → ℤ) where
  abbrev P : World → Type 0
  P s = Counted n out s.env

  abbrev Result : World × ℤ → Type 0
  Result r = Counted n out r.0.env

  each_member_keeps :
      (f : ℕ → World → World)
      → ((m : ℕ) (s : World) → m < n → has_id m s.env.members ≡ true → P s → P (f m s))
      → (l : List ℕ) (s : World) → All (λ m. m < n) l
      → P s
      → P (each_member f l s)
  each_member_keeps f k [] s a c = c
  each_member_keeps f k (m ∷ l) s (lt, a) c =
      each_member_keeps f k l (if has_id m s.env.members then f m s else s) a
        (if_keeps P (has_id m s.env.members) (λ e. k m s lt e c) (λ e. c))

  device_state_keeps : (d : ℕ) (b : Bool) (s : World) → P s → Result (set_device_state h d b s)
  unfolding set_device_state
  device_state_keeps d true s c =
      let s1 = device_set_ifindex h d (h.system_if_resolve d s) s in
      let c1 =
        ifindex_frame (Counted n out) h (laws.env_laws out) d (h.system_if_resolve d s) s c in
      if_keeps Result ((s1.devs d).ifindex == 0) (λ e. c1)
        (λ e. laws.up_keeps out d _ (laws.apply_keeps out d _ (keep_orig h d s1) c1))
  device_state_keeps d false s c =
      laws.apply_keeps out d _ (h.system_if_down d s) (laws.down_keeps out d s c)

  set_down_keeps : (s : World) → P s → Result (bridge_set_down h addbr addif s)
  unfolding bridge_set_down
  set_down_keeps s c =
      let s1 = (set_device_state h s.env.dev false s).0 in
      let c1 = device_state_keeps s.env.dev false s c in
      let s2 = each_member (λ m. bridge_disable_member h addbr addif m false) s1.env.members s1 in
      Quiet-Counted n out s2 _ (disable_interface-Quiet s2) (
        each_member_keeps (λ m. bridge_disable_member h addbr addif m false)
          (λ m t lt here d. disable_keeps n out h laws addbr addif m false t d) s1.env.members s1
          c1.bounded c1)

  members_keep : (s : World) → P s → Result (enable_members h addbr addif s)
  unfolding enable_members
  members_keep s c =
      let s1 = put_br (record (s.env) { n_failed = 0 }) s in
      let c1 : P s1 = record { counted = c.counted; bounded = c.bounded; listed = c.listed } in
      let s1e = each_member (enable h addbr addif) s1.env.members s1 in
      let c1e =
        each_member_keeps (enable h addbr addif)
          (λ m t lt here d. enable_keeps n out h laws addbr addif m t lt d) s1.env.members s1
          c1.bounded c1 in
      let s2 = bridge_check_retry s1e in
      let c2 = Quiet-Counted n out s1e s2 (check_retry-Quiet s1e) c1e in
      let s3 = bridge_disable_interface s2 in
      let c3 = Quiet-Counted n out s2 s3 (disable_interface-Quiet s2) c2 in
      let r = set_device_state h s2.env.dev true (bridge_reset_primary s2) in
      let c4 =
        device_state_keeps s2.env.dev true (bridge_reset_primary s2)
          (Quiet-Counted n out s2 _ (reset_primary-Quiet s2) c2) in
      if_keeps Result (not s2.env.force_active && is_zero s2.env.n_present)
        (λ e. set_present_keeps n out h laws addbr addif s3.env.dev false s3 c3)
        (λ e. if_keeps Result (is_negative r.1) (λ e. set_down_keeps r.0 c4) (λ e. c4))

  set_up_keeps : (s : World) → P s → Result (bridge_set_up h addbr addif s)
  unfolding bridge_set_up
  set_up_keeps s c =
      let s1 = put_br (record (s.env) { has_vlans = not (no_items s.env.vlans) }) s in
      let c1 : P s1 = record { counted = c.counted; bounded = c.bounded; listed = c.listed } in
      let r = bridge_enable_interface h addbr addif s1 in
      let c2 = Quiet-Counted n out s1 r.0 (enable_interface-Quiet h addbr addif s1) c1 in
      if_keeps Result (not (is_zero s1.env.n_present)) (λ e. members_keep s1 c1)
        (λ e.
          if_keeps Result (not s1.env.force_active) (λ e. c1)
            (λ e. if_keeps Result (is_zero r.1) (λ e. members_keep r.0 c2) (λ e. c2)))

  pub bridge_set_state-Counted :
      (b : Bool) (s : World)
      → Counted n out s.env
      → Counted n out (bridge_set_state h addbr addif b s).0.env
  unfolding bridge_set_state
  bridge_set_state-Counted true s c = set_up_keeps s c
  bridge_set_state-Counted false s c = set_down_keeps s c

  retry_member_keeps :
      (m : ℕ) (s : World)
      → m < n
      → has_id m s.env.members ≡ true
      → P s
      → P (retry_member h addbr addif m s)
  retry_member_keeps m s lt here c =
      if_keeps P (s.env.member m).present (λ e. c)
        (λ off.
          match_keeps P (s.usrs m).dev (λ e. c)
            (λ d e.
              if_keeps P (not (s.devs d).present) (λ e. c)
                (λ e.
                  enable_keeps n out h laws addbr addif m (count_member h addbr addif m s) lt
                    (count_keeps n out h laws addbr addif m s lt here off c))))

  pub bridge_retry_members-Counted :
      (s : World) → Counted n out s.env → Counted n out (bridge_retry_members h addbr addif s).env
  unfolding bridge_retry_members
  bridge_retry_members-Counted s c =
      let s1 = put_br (record (s.env) { n_failed = 0; retry = false }) s in
      each_member_keeps (retry_member h addbr addif) retry_member_keeps s1.env.members s1 c.bounded
        (record { counted = c.counted; bounded = c.bounded; listed = c.listed })

  pub check_cb-Counted :
      (check : ℤ) (m : ℕ) (s : World)
      → m < n
      → Counted n out s.env
      → Counted n out (bridge_member_check_cb h addbr addif check m s).env
  unfolding bridge_member_check_cb
  check_cb-Counted check m s lt c =
      let s0 = stop_timer h addbr addif m s in
      let c0 = stop_timer_keeps n out h laws addbr addif m s c in
      if_keeps P (is_zero check || is_negative check) (λ e. c0)
        (λ e.
          enable_keeps n out h laws addbr addif m _ lt
            (disable_keeps n out h laws addbr addif m true s0 c0))
