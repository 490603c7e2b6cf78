-- ===== src/Bonding/Keeps.antt =====
-- bonding.c: the operations on one port, and the count of the present ones.
use netifd.Prelude.{
  sym, ◌∙◌, Bool-cases, inl, inr, ℕ, ◌<◌, ◌≡◌, refl, Bool, true, false, not, ◌&&◌, ◌||◌, ◌==◌,
  arith, if_keeps, match_keeps,
}
use netifd.Prelude.Int.{ℤ}
use netifd.Settings.Defs.{DevOpt}
use netifd.Device.Listed.{also}
use netifd.Device.Store.{Hooks}
use netifd.Device.Claim.{device_claim, device_release, is_zero}
use netifd.Device.Present.{device_set_present, same}
use netifd.Device.Frame.{device_claim_frame, device_release_frame, device_set_present_frame}
use netifd.Bridge.Members.{is_negative, is_primary}
use netifd.Bonding.Types.{Bond, World, Port, Effect, put_bond, put_port, emit, set_port}
use netifd.Bonding.Ports.{
  uncount_port, drop_port, reset_if_primary, disable_ipv6, bonding_disable_port, disable_if_active,
  after_removal, bonding_remove_port, bonding_set_active, join_bond, claim_port,
  bonding_enable_port,
}
use netifd.Bonding.Counted.{
  Counted, Present, BondLaws, widen-Counted, narrow-Counted, drop-Counted, same-Counted,
  reset_primary_keeps,
}

module _ (n : ℕ) (out : ℕ → Bool) (h : Hooks Bond) (laws : BondLaws n h) (setdev : Bool → World → ℤ)
    (addport : ℕ → World → ℤ) where
  abbrev P : World → Type 0
  P s = Counted n out s.env

  abbrev Result : World × ℤ → Type 0
  Result r = Counted n out r.0.env

  abbrev Both : ℕ → World → Type 0
  Both m s = P s × Present m s

  pub set_present_keeps : (d : ℕ) (b : Bool) (s : World) → P s → P (device_set_present h d b s)
  set_present_keeps = device_set_present_frame (Counted n out) h (laws.env_laws out)

  release_keeps : (m : ℕ) (s : World) → P s → P (device_release h m s)
  release_keeps = device_release_frame (Counted n out) h (laws.env_laws out)

  -- The bond in the kernel is changed, and no port.
  pub set_active_keeps :
      (b : Bool) (s : World) → P s → P (bonding_set_active h setdev addport b s).0
  unfolding bonding_set_active
  set_active_keeps b s c =
      if_keeps Result (same s.env.active b) (λ e. c)
        (λ e.
          if_keeps Result (is_negative (setdev b s))
            (λ e. record { counted = c.counted; bounded = c.bounded; listed = c.listed })
            (λ e. record { counted = c.counted; bounded = c.bounded; listed = c.listed }))

  set_active_leaves :
      (m : ℕ) (b : Bool) (s : World)
      → Present m s
      → Present m (bonding_set_active h setdev addport b s).0
  unfolding bonding_set_active
  set_active_leaves m b s p =
      let Left : World × ℤ → Type 0 = λ r. Present m r.0 in
      if_keeps Left (same s.env.active b) (λ e. p)
        (λ e. if_keeps Left (is_negative (setdev b s)) (λ e. p) (λ e. p))

  -- A port changes, but for being present.
  put_port-Both :
      (m : ℕ) (x : Port) (s : World) → m < n → x.present ≡ true → Both m s → Both m (put_port m x s)
  put_port-Both m x s lt on (c, p) =
      let d = same-Counted n out m x s.env lt (on ∙ sym p) c in
      (record { counted = d.counted; bounded = d.bounded; listed = d.listed }, ground arith)

  emit-Both : (m : ℕ) (e : Effect) (s : World) → Both m s → Both m (emit e s)
  emit-Both m e s (c, p) =
      (record { counted = c.counted; bounded = c.bounded; listed = c.listed }, p)

  disable-Both :
      (m : ℕ) (keep : Bool) (s : World)
      → m < n
      → Both m s
      → Both m (bonding_disable_port h setdev addport m keep s)
  unfolding bonding_disable_port
  disable-Both m keep s lt (c, p) =
      let bp = s.env.port m in
      let s1 = put_port m (record bp { active = false }) s in
      let s2 = emit (set_port m false bp.set_primary) s1 in
      let (c2, p2) =
        emit-Both m (set_port m false bp.set_primary) s1
          (put_port-Both m (record bp { active = false }) s lt p (c, p)) in
      if_keeps (Both m) (not bp.present || not bp.active) (λ e. (c, p))
        (λ e.
          if_keeps (Both m) keep (λ e. (c2, p2))
            (λ e. (release_keeps m s2 c2, laws.release_leaves m s2 p2)))

  pub disable_keeps :
      (m : ℕ) (keep : Bool) (s : World)
      → m < n
      → P s
      → P (bonding_disable_port h setdev addport m keep s)
  unfolding bonding_disable_port
  disable_keeps m keep s lt c = elim (Bool-cases (s.env.port m).present) [
    | inl p ↦ (disable-Both m keep s lt (c, p)).0
    | inr off ↦
        if_keeps P (not (s.env.port m).present || not (s.env.port m).active) (λ e. c)
          (λ e. ground (arith, e, off))
  ]

  uncount_keeps :
      (m : ℕ) (s : World)
      → m < n
      → Counted n (also m out) s.env
      → Present m s
      → P (uncount_port m s)
  uncount_keeps m s lt c p =
      let d = drop-Counted n out m (record (s.env.port m) { present = false }) s.env lt p refl c in
      record { counted = d.counted; bounded = d.bounded; listed = d.listed }

  drop_keeps : (m : ℕ) (s : World) → m < n → Both m s → P (drop_port m s)
  drop_keeps m s lt (c, p) =
      let d = uncount_keeps m s lt (widen-Counted n out m s.env c) p in
      record { counted = d.counted; bounded = d.bounded; listed = d.listed }

  after_removal_keeps : (s : World) → P s → P (after_removal h setdev addport s)
  after_removal_keeps s c =
      let c1 : P (put_bond (record (s.env) { force_active = false }) s) = record {
        counted = c.counted;
        bounded = c.bounded;
        listed = c.listed;
      } in
      if_keeps P (is_zero s.env.n_present) (λ e. set_present_keeps _ false _ c1) (λ e. c1)

  join_keeps : (m d : ℕ) (s : World) → m < n → Both m s → Result (join_bond h setdev addport m d s)
  join_keeps m d s lt (c, p) =
      let bp = s.env.port m in
      let s1 = emit (set_port m true bp.set_primary) s in
      let b1 = emit-Both m (set_port m true bp.set_primary) s (c, p) in
      let b2 = put_port-Both m (record bp { active = true }) s1 lt p b1 in
      if_keeps Result ((s.devs d).settings.auth && not (s.devs d).auth_status) (λ e. c)
        (λ e.
          if_keeps Result bp.active (λ e. c)
            (λ e.
              if_keeps Result (is_negative (addport m s))
                (λ e. release_keeps m (drop_port m s1) (drop_keeps m s1 lt b1))
                (λ e. set_present_keeps _ true _ b2.0)))

  claim_keeps :
      (m d : ℕ) (s : World) → m < n → Both m s → Result (claim_port h setdev addport m d s)
  claim_keeps m d s lt (c, p) =
      let r = device_claim h m s in
      let c1 = device_claim_frame (Counted n out) h (laws.env_laws out) m s c in
      let p1 = laws.claim_leaves m s p in
      let r2 = bonding_set_active h setdev addport true r.0 in
      let c2 = set_active_keeps true r.0 c1 in
      if_keeps Result (is_negative r.1) (λ e. c1)
        (λ e.
          if_keeps Result (is_zero r2.1)
            (λ e. join_keeps m d r2.0 lt (c2, set_active_leaves m true r.0 p1))
            (λ e. release_keeps m r2.0 c2))

  pub enable_keeps :
      (m : ℕ) (s : World) → m < n → P s → Result (bonding_enable_port h setdev addport m s)
  unfolding bonding_enable_port
  enable_keeps m s lt c =
      if_keeps Result (not (s.env.port m).present) (λ e. c)
        (λ e.
          match_keeps Result (s.usrs m).dev (λ e. c)
            (λ d _.
              let p : Present m s = ground (arith, e) in
              claim_keeps m d (disable_ipv6 d s) lt (
                if_keeps (Both m) ((s.devs d).settings.flags DevOpt.ipv6) (λ e. (c, p))
                  (λ e. (c, p)))))

module _ (n : ℕ) (out : ℕ → Bool) (h : Hooks Bond) (laws : BondLaws n h) (setdev : Bool → World → ℤ)
    (addport : ℕ → World → ℤ) where
  -- A port that is removed may be out of the tree already; it is no longer present.
  pub remove_keeps :
      (m : ℕ) (s : World)
      → m < n
      → Counted n (also m out) s.env
      → Counted n out (bonding_remove_port h setdev addport m s).env
  unfolding bonding_remove_port
  remove_keeps m s lt c =
      let Kept : World → Type 0 = λ t. Counted n out t.env in
      let Left : World → Type 0 = λ t. Counted n (also m out) t.env × Present m t in
      if_keeps Kept (not (s.env.port m).present)
        (λ e. narrow-Counted n out m s.env (ground (arith, e)) c)
        (λ e.
          let p : Present m s = ground (arith, e) in
          let s1 = disable_if_active h setdev addport m s in
          let b1 =
            if_keeps Left ((s.devs s.env.dev).active == 0) (λ e. (c, p))
              (λ e. disable-Both n (also m out) h laws setdev addport m false s lt (c, p)) in
          let s2 = uncount_port m s1 in
          let c2 = uncount_keeps n out h laws setdev addport m s1 lt b1.0 b1.1 in
          after_removal_keeps n out h laws setdev addport (reset_if_primary m s2) (
            if_keeps Kept (is_primary m s2.env.primary_port) (λ e. reset_primary_keeps n out s2 c2)
              (λ e. c2)))
