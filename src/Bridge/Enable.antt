-- ===== src/Bridge/Enable.antt =====
-- bridge.c: the operations on one member, and the count of the present ones.
use netifd.Prelude.{
  ℕ, ◌<◌, refl, Bool, true, false, not, ◌&&◌, ◌||◌, ◌==◌, arith, if_keeps, match_keeps,
}
use netifd.Prelude.Int.{ℤ}
use netifd.Settings.Defs.{DevOpt}
use netifd.Device.Listed.{also}
use netifd.Device.Store.{Hooks, DeviceEvent, topo_change}
use netifd.Device.Claim.{device_broadcast_event, device_claim, is_zero}
use netifd.Device.Present.{device_set_present}
use netifd.Device.Frame.{
  broadcast_frame, device_claim_frame, device_release_frame, device_set_present_frame,
}
use netifd.Bridge.Types.{Bridge, World, put_br, put_member, emit, delif, bridge_vlan, each}
use netifd.Bridge.Vlans.{bridge_set_member_vlan}
use netifd.Bridge.Members.{
  uncount_member, reset_if_primary, disable_if_active, after_removal, drop_member, disable_ipv6,
  is_negative, bridge_enable_interface, bridge_disable_member, add_port, fail_member, after_claim,
  claim_member, bridge_enable_member, bridge_remove_member, is_primary,
}
use netifd.Bridge.Quiet.{
  Quiet, Quiet-trans, put_member-Quiet, each-Quiet, member_vlan-Quiet, enable_interface-Quiet,
  reset_primary-Quiet,
}
use netifd.Bridge.Present.{
  Counted, Present, BridgeLaws, Quiet-Counted, Quiet-Present, widen-Counted, narrow-Counted,
  drop-Counted,
}

module _ (n : ℕ) (out : ℕ → Bool) (h : Hooks Bridge) (laws : BridgeLaws n h) (addbr : World → ℤ)
    (addif : ℕ → World → ℤ) where
  abbrev P : World → Type 0
  P s = Counted n out s.env

  abbrev Result : World × ℤ → Type 0
  Result r = Counted n out r.0.env

  abbrev Both : ℕ → World → Type 0
  Both m s = P s × Present m s

  pub event_keeps :
      (d : ℕ) (ev : DeviceEvent) (s : World) → P s → P (device_broadcast_event h d ev s)
  event_keeps = broadcast_frame (Counted n out) h (laws.env_laws out)

  pub set_present_keeps : (d : ℕ) (b : Bool) (s : World) → P s → P (device_set_present h d b s)
  set_present_keeps = device_set_present_frame (Counted n out) h (laws.env_laws out)

  detached : ℕ → World → World
  detached m s = emit (delif m) (
      each (bridge_set_member_vlan m false) s.env.vlans
        (put_member m (record (s.env.member m) { active = false }) s))

  detached-Quiet : (m : ℕ) (s : World) → Quiet s (detached m s)
  unfolding detached
  detached-Quiet m s =
      let s1 = put_member m (record (s.env.member m) { active = false }) s in
      let q =
        Quiet-trans s s1 _ (put_member-Quiet m (record (s.env.member m) { active = false }) s refl)
          (each-Quiet (bridge_set_member_vlan m false) (member_vlan-Quiet m false) s.env.vlans
            s1) in
      record {
        same_present = q.same_present;
        same_members = q.same_members;
        same_count = q.same_count;
      }

  pub disable_keeps :
      (m : ℕ) (keep : Bool) (s : World) → P s → P (bridge_disable_member h addbr addif m keep s)
  unfolding bridge_disable_member detached
  disable_keeps m keep s c =
      let a = Quiet-Counted n out s (detached m s) (detached-Quiet m s) c in
      if_keeps P (not (s.env.member m).present || not (s.env.member m).active) (λ e. c)
        (λ e. event_keeps _ topo_change _ (
          if_keeps P keep (λ e. a)
            (λ e. device_release_frame (Counted n out) h (laws.env_laws out) m (detached m s) a)))

  -- A present member stays present.
  disable_leaves :
      (m : ℕ) (keep : Bool) (s : World)
      → Present m s
      → Present m (bridge_disable_member h addbr addif m keep s)
  unfolding bridge_disable_member detached
  disable_leaves m keep s p =
      let a = Quiet-Present m s (detached m s) (detached-Quiet m s) p in
      if_keeps (Present m) (not (s.env.member m).present || not (s.env.member m).active) (λ e. p)
        (λ e.
          laws.event_leaves m _ _
            (if_keeps (Present m) keep (λ e. a) (λ e. laws.release_leaves m (detached m s) a)))

  uncount_keeps :
      (m : ℕ) (s : World)
      → m < n
      → Counted n (also m out) s.env
      → Present m s
      → P (uncount_member m s)
  uncount_keeps m s lt c p =
      let d =
        drop-Counted n out m (record (s.env.member m) { present = false }) s.env lt p refl c in
      record { counted = d.counted; bounded = d.bounded; listed = d.listed }

  fail_keeps :
      (m : ℕ) (ret : ℤ) (s : World) → m < n → Both m s → Result (fail_member h addbr addif m ret s)
  fail_keeps m ret s lt (c, p) =
      device_release_frame (Counted n out) h (laws.env_laws out) m (drop_member m s) (
        let d = uncount_keeps m s lt (widen-Counted n out m s.env c) p in
        record { counted = d.counted; bounded = d.bounded; listed = d.listed })

  ports_keep : (m d : ℕ) (s : World) → P s → P (add_port h addbr addif m d s)
  unfolding add_port
  ports_keep m d s c =
      let s1 = put_member m (record (s.env.member m) { active = true }) s in
      let s2 = emit (bridge_vlan d 1 false false false false) s1 in
      let q1 = put_member-Quiet m (record (s.env.member m) { active = true }) s refl in
      let q2 : Quiet s s2 = record {
        same_present = q1.same_present;
        same_members = q1.same_members;
        same_count = q1.same_count;
      } in
      let vlans =
        each-Quiet (bridge_set_member_vlan m true) (member_vlan-Quiet m true) s2.env.vlans s2 in
      event_keeps _ topo_change _ (
        set_present_keeps _ true _ (
          if_keeps P s1.env.has_vlans (λ e. Quiet-Counted n out s _ (Quiet-trans s s2 _ q2 vlans) c)
            (λ e. Quiet-Counted n out s s1 q1 c)))

  after_claim_keeps :
      (m d : ℕ) (ret : ℤ) (s : World)
      → m < n
      → Both m s
      → Result (after_claim h addbr addif m d (s, ret))
  unfolding after_claim
  after_claim_keeps m d ret s lt (c, p) =
      if_keeps Result (is_negative ret) (λ e. fail_keeps m ret s lt (c, p))
        (λ e.
          if_keeps Result ((s.devs d).settings.auth && not (s.devs d).auth_status) (λ e. c)
            (λ e.
              if_keeps Result (s.env.member m).active (λ e. c)
                (λ e.
                  if_keeps Result (is_negative (addif m s))
                    (λ e. fail_keeps m (addif m s) s lt (c, p)) (λ e. ports_keep m d s c))))

  ipv6-Both : (m d : ℕ) (s : World) → Both m s → Both m (disable_ipv6 d s)
  ipv6-Both m d s b = if_keeps (Both m) ((s.devs d).settings.flags DevOpt.ipv6) (λ e. b) (λ e. b)

  claim_member_keeps :
      (m : ℕ) (ret : ℤ) (s : World)
      → m < n
      → Both m s
      → Result (claim_member h addbr addif m (s, ret))
  claim_member_keeps m ret s lt (c, p) =
      if_keeps Result (not (is_zero ret)) (λ e. fail_keeps m ret s lt (c, p))
        (λ e.
          match_keeps Result (s.usrs m).dev (λ e. c)
            (λ d e.
              let (c1, p1) = ipv6-Both m d s (c, p) in
              let s1 = disable_ipv6 d s in
              let r = device_claim h m s1 in
              after_claim_keeps m d r.1 r.0 lt (
                device_claim_frame (Counted n out) h (laws.env_laws out) m s1 c1,
                laws.claim_leaves m s1 p1,
              )))

  pub enable_keeps :
      (m : ℕ) (s : World) → m < n → P s → P (bridge_enable_member h addbr addif m s).0
  unfolding bridge_enable_member
  enable_keeps m s lt c =
      let r = bridge_enable_interface h addbr addif s in
      let q = enable_interface-Quiet h addbr addif s in
      if_keeps Result (not (s.env.member m).present) (λ e. c)
        (λ e.
          claim_member_keeps m r.1 r.0 lt
            (Quiet-Counted n out s r.0 q c, Quiet-Present m s r.0 q (ground (arith, e))))

  disable_if_active-Both :
      (m : ℕ) (s : World) → Both m s → Both m (disable_if_active h addbr addif m s)
  disable_if_active-Both m s (c, p) =
      if_keeps (Both m) ((s.devs s.env.dev).active == 0) (λ e. (c, p))
        (λ e. (disable_keeps m false s c, disable_leaves m false s p))

  reset_keeps : (m : ℕ) (s : World) → P s → P (reset_if_primary m s)
  reset_keeps m s c =
      if_keeps P (is_primary m s.env.primary_port)
        (λ e. Quiet-Counted n out s _ (reset_primary-Quiet s) c) (λ e. c)

  after_removal_keeps : (s : World) → P s → P (after_removal h addbr addif s)
  after_removal_keeps s c =
      let c1 : P (put_br (record (s.env) { force_active = false }) s) = record {
        counted = c.counted;
        bounded = c.bounded;
        listed = c.listed;
      } in
      if_keeps P s.env.bridge_empty (λ e. c)
        (λ e. if_keeps P (is_zero s.env.n_present) (λ e. set_present_keeps _ false _ c1) (λ e. c1))

module _ (n : ℕ) (out : ℕ → Bool) (h : Hooks Bridge) (laws : BridgeLaws n h) (addbr : World → ℤ)
    (addif : ℕ → World → ℤ) where
  -- A member that is removed may be out of the tree already; it is no longer present.
  pub remove_keeps :
      (m : ℕ) (s : World)
      → m < n
      → Counted n (also m out) s.env
      → Counted n out (bridge_remove_member h addbr addif m s).env
  unfolding bridge_remove_member
  remove_keeps m s lt c =
      let Kept : World → Type 0 = λ t. Counted n out t.env in
      if_keeps Kept (not (s.env.member m).present)
        (λ e. narrow-Counted n out m s.env (ground (arith, e)) c)
        (λ e.
          let s1 = disable_if_active h addbr addif m s in
          let s2 = uncount_member m s1 in
          let (c1, p1) =
            disable_if_active-Both n (also m out) h laws addbr addif m s (c, ground (arith, e)) in
          after_removal_keeps n out h laws addbr addif (reset_if_primary m s2) (
            reset_keeps n out h laws addbr addif m s2
              (uncount_keeps n out h laws addbr addif m s1 lt c1 p1)))
