-- ===== src/Device/Refcount.antt =====
-- device.c, device_claim and device_release: the count of a device and the claims of its users.
use netifd.Prelude.{
  ℕ, ◌<◌, ◌≡◌, refl, ◌⊎◌, inl, inr, true, false, not, some, ◌==◌, arith, if_keeps, match_keeps,
}
use netifd.Prelude.Int.{ℤ}
use netifd.Settings.Defs.{DevOpt}
use netifd.Device.Store.{
  Store, Device, Hooks, DeviceEvent, setup, update_ifindex, up, down, teardown, put_dev,
}
use netifd.Device.Claim.{
  take_claim, device_broadcast_cb, device_broadcast_event, device_set_ifindex,
  device_fill_default_settings, claim_external, bring_up, claim_result, claim_device, device_claim,
  bring_down, device_release, is_zero, switch_off,
}
use netifd.Device.Laws.{
  Inv, SoleHolder, HookLaws, put_dev-Inv, take_claim-Inv, drop_claim-Inv, void_claim-Inv,
}

module _ {E : Type 0} (n : ℕ) (h : Hooks E) (laws : HookLaws n h) where
  pub broadcast_keeps :
      (P : Store E → Type 0) (d : ℕ) (ev : DeviceEvent) (s : Store E)
      → ((u : ℕ) (t : Store E) → P t → P (h.cb u ev t))
      → P s
      → P (device_broadcast_event h d ev s)
  unfolding device_broadcast_event device_broadcast_cb
  broadcast_keeps P d ev s keep p = laws.walk_keeps P _ _ _ one (laws.walk_keeps P _ _ s one p)
    where
      one : (u : ℕ) (t : Store E) → P t → P (device_broadcast_cb h ev u t)
      one u t q = match_keeps P (t.usrs u).dev (λ e. q) (λ d e. keep u t q)

  pub broadcast-Inv :
      (d : ℕ) (ev : DeviceEvent) (s : Store E) → Inv n s → Inv n (device_broadcast_event h d ev s)
  broadcast-Inv d ev s i = broadcast_keeps (Inv n) d ev s (λ u t j. laws.cb_keeps u ev t j) i

  pub device_set_ifindex-Inv :
      (d k : ℕ) (s : Store E) → Inv n s → Inv n (device_set_ifindex h d k s)
  unfolding device_set_ifindex
  device_set_ifindex-Inv d k s i =
      if_keeps (Inv n) ((s.devs d).ifindex == k) (λ e. i)
        (λ e. broadcast-Inv d update_ifindex _ (put_dev-Inv n d _ s refl (i.shown d) i))

  fill-Inv : (d : ℕ) (s : Store E) → Inv n s → Inv n (device_fill_default_settings h d s)
  unfolding device_fill_default_settings
  fill-Inv d s i =
      if_keeps (Inv n) ((s.devs d).settings.flags DevOpt.macaddr) (λ e. i)
        (λ e.
          match_keeps (Inv n) (h.config_get_default_macaddr (s.devs d).ifname) (λ e. i)
            (λ ea e. put_dev-Inv n d _ s refl (i.shown d) i))

  claim_external-Inv : (d : ℕ) (s : Store E) → Inv n s → Inv n (claim_external h d s).0
  unfolding claim_external
  claim_external-Inv d s i =
      let j = device_set_ifindex-Inv d (h.system_if_resolve d s) s i in
      put_dev-Inv n d _ _ refl (j.shown d) j

  bring_up-Inv : (d : ℕ) (s : Store E) → Inv n s → Inv n (bring_up h d s).0
  unfolding bring_up
  bring_up-Inv d s i =
      let j = fill-Inv d _ (broadcast-Inv d setup s i) in
      if_keeps (λ (r : Store E × ℤ). Inv n r.0) _ (λ e. claim_external-Inv d _ j)
        (λ e. laws.set_state_keeps d true _ j)

  put_dev-Sole :
      (u d : ℕ) (x : Device) (s : Store E)
      → x.active ≡ (s.devs d).active
      → SoleHolder u d s
      → SoleHolder u d (put_dev d x s)
  put_dev-Sole u d x s e p = record {
    claims = p.claims;
    bound_to = p.bound_to;
    only = ground (arith, p.only);
  }

  broadcast-Sole :
      (u d e : ℕ) (ev : DeviceEvent) (s : Store E)
      → (ev ≡ setup) ⊎ (ev ≡ update_ifindex)
      → SoleHolder u d s
      → SoleHolder u d (device_broadcast_event h e ev s)
  broadcast-Sole u d e ev s quiet p =
      broadcast_keeps (SoleHolder u d) e ev s (λ v t. laws.cb_quiet v u d ev t quiet) p

  fill-Sole :
      (u d : ℕ) (s : Store E)
      → SoleHolder u d s
      → SoleHolder u d (device_fill_default_settings h d s)
  unfolding device_fill_default_settings
  fill-Sole u d s p =
      if_keeps (SoleHolder u d) ((s.devs d).settings.flags DevOpt.macaddr) (λ e. p)
        (λ e.
          match_keeps (SoleHolder u d) (h.config_get_default_macaddr (s.devs d).ifname) (λ e. p)
            (λ ea e. put_dev-Sole u d _ s refl p))

  claim_external-Sole :
      (u d : ℕ) (s : Store E) → SoleHolder u d s → SoleHolder u d (claim_external h d s).0
  unfolding claim_external device_set_ifindex
  claim_external-Sole u d s p = put_dev-Sole u d _ _ refl (
      if_keeps (SoleHolder u d) ((s.devs d).ifindex == h.system_if_resolve d s) (λ e. p)
        (λ e. broadcast-Sole u d d update_ifindex _ (inr refl) (put_dev-Sole u d _ s refl p)))

  bring_up-Sole : (u d : ℕ) (s : Store E) → SoleHolder u d s → SoleHolder u d (bring_up h d s).0
  unfolding bring_up
  bring_up-Sole u d s p =
      let q = fill-Sole u d _ (broadcast-Sole u d d setup s (inl refl) p) in
      if_keeps (λ (r : Store E × ℤ). SoleHolder u d r.0) _ (λ e. claim_external-Sole u d _ q)
        (λ e. laws.set_state_quiet u d _ q)

  claim_result-Inv :
      (u d : ℕ) (s : Store E) (ret : ℤ)
      → u < n
      → SoleHolder u d s
      → Inv n s
      → Inv n (claim_result h u d s ret).0
  unfolding claim_result
  claim_result-Inv u d s ret lt sole i =
      if_keeps (λ (r : Store E × ℤ). Inv n r.0) (is_zero ret) (λ e. broadcast-Inv d up s i)
        (λ e. void_claim-Inv n u d s lt sole i)

  take_claim-Sole :
      (u d : ℕ) (s : Store E)
      → (s.usrs u).dev ≡ some d
      → (s.devs d).active ≡ 0
      → SoleHolder u d (take_claim u d s)
  take_claim-Sole u d s at none_yet = record {
    claims = ground arith;
    bound_to = ground arith;
    only = ground arith;
  }

  claim_device-Inv :
      (u d : ℕ) (s : Store E)
      → u < n
      → (s.usrs u).claimed ≡ false
      → (s.usrs u).dev ≡ some d
      → Inv n s
      → Inv n (claim_device h u d s).0
  unfolding claim_device
  claim_device-Inv u d s lt free at i =
      let j = take_claim-Inv n u d s lt free at i in
      if_keeps (λ (r : Store E × ℤ). Inv n r.0) (not (((take_claim u d s).devs d).active == 1))
        (λ e. j)
        (λ first.
          claim_result-Inv u d _ _ lt
            (bring_up-Sole u d _ (take_claim-Sole u d s at (ground arith))) (bring_up-Inv d _ j))

  -- Claiming a device keeps the store in order: the count of every device is the number of claims
  -- on it, every claim is of a user with a device, no assert has failed, and every device is shown
  -- as present exactly if it is there, not disabled and not deferred. This holds if the device
  -- comes up, fails to, was up before, or is missing. The hooks must keep the invariant, and leave
  -- the sole claim on a device alone while it is set up.
  pub device_claim-Inv : (u : ℕ) (s : Store E) → u < n → Inv n s → Inv n (device_claim h u s).0
  unfolding device_claim
  device_claim-Inv u s lt i =
      if_keeps (λ (r : Store E × ℤ). Inv n r.0) (s.usrs u).claimed (λ e. i)
        (λ free.
          match_keeps (λ (r : Store E × ℤ). Inv n r.0) (s.usrs u).dev (λ e. i)
            (λ d at. claim_device-Inv u d s lt free at i))

  switch_off-Inv : (d : ℕ) (s : Store E) → Inv n s → Inv n (switch_off h d s)
  unfolding switch_off
  switch_off-Inv d s i =
      if_keeps (Inv n) (s.devs d).external (λ e. i) (λ e. laws.set_state_keeps d false s i)

  bring_down-Inv : (d : ℕ) (s : Store E) → Inv n s → Inv n (bring_down h d s)
  unfolding bring_down
  bring_down-Inv d s i =
      let j = switch_off-Inv d _ (broadcast-Inv d teardown s i) in
      if_keeps (Inv n) _ (λ e. j) (λ e. broadcast-Inv d down _ j)

  -- Releasing a device keeps the same invariant, so the count that is decremented was not zero, and
  -- the assert on it does not fail. The hooks must keep the invariant.
  pub device_release-Inv : (u : ℕ) (s : Store E) → u < n → Inv n s → Inv n (device_release h u s)
  unfolding device_release
  device_release-Inv u s lt i =
      if_keeps (Inv n) (not (s.usrs u).claimed) (λ e. i)
        (λ held.
          match_keeps (Inv n) (s.usrs u).dev (λ e. absurd (i.bound u (ground arith) e))
            (λ d at.
              let j = drop_claim-Inv n u d s lt (ground arith) at i in
              if_keeps (Inv n) _ (λ e. j) (λ e. bring_down-Inv d _ j)))
