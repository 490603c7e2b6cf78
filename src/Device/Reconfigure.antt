-- ===== src/Device/Reconfigure.antt =====
-- device.c, device_apply_config: the invariant of the device store.
use netifd.Prelude.{ℕ, ◌≡◌, refl, true, false, not, some, ◌==◌, if_keeps, match_keeps}
use netifd.Prelude.Int.{ℤ}
use netifd.Settings.Init.{Attrs, Libc}
use netifd.Device.Store.{Store, Hooks}
use netifd.Device.Claim.{is_zero}
use netifd.Device.Present.{device_set_present}
use netifd.Device.Config.{
  Request, DevChange, applied, restart, device_init_settings, device_set_config, cycle,
  restart_device, finish_config, device_apply_config,
}
use netifd.Device.Laws.{Inv, HookLaws, put_dev-Inv}
use netifd.Device.Membership.{device_set_present-Inv, device_set_disabled-Inv}

module _ {E : Type 0} (n : ℕ) (h : Hooks E) (laws : HookLaws n h) where
  init_settings-Inv :
      (c : Libc) (d : ℕ) (tb : Attrs) (s : Store E)
      → Inv n s
      → Inv n (device_init_settings h c d tb s)
  unfolding device_init_settings
  init_settings-Inv c d tb s i =
      device_set_disabled-Inv n h laws d _ _ (put_dev-Inv n d _ s refl (i.shown d) i)

  -- What a type's own reload is asked to keep.
  abbrev pub ReloadKeeps : Request E → Type 0
  ReloadKeeps r =
      (d : ℕ) (f : ℕ → Store E → Store E × DevChange) (s : Store E)
      → r.reload ≡ some f
      → Inv n s
      → Inv n (f d s).0

  set_config-Inv :
      (c : Libc) (d : ℕ) (r : Request E) (s : Store E)
      → ReloadKeeps r
      → Inv n s
      → Inv n (device_set_config h c d r s).0
  unfolding device_set_config
  set_config-Inv c d r s keep i =
      if_keeps P (not r.same_type) (λ e. i)
        (λ e.
          match_keeps P r.reload
            (λ e.
              if_keeps P r.is_equal (λ e. i)
                (λ e. if_keeps P r.device_attrs (λ e. init_settings-Inv c d r.table s i) (λ e. i)))
            (λ f e. keep d f s e i))
    where
      P : Store E × DevChange → Type 0
      P p = Inv n p.0

  cycle-Inv : (d : ℕ) (s : Store E) → Inv n s → Inv n (cycle h d s).0
  cycle-Inv d s i =
      let j = laws.set_state_keeps d false s i in
      if_keeps P ((s.devs d).active == 0) (λ e. i)
        (λ e.
          if_keeps P (s.devs d).external (λ e. i)
            (λ e.
              if_keeps P (is_zero (h.set_state d false s).1) (λ e. laws.set_state_keeps d true _ j)
                (λ e. j)))
    where
      P : Store E × ℤ → Type 0
      P p = Inv n p.0

  restart-Inv : (d : ℕ) (s : Store E) → Inv n s → Inv n (restart_device h d s)
  unfolding restart_device
  restart-Inv d s i =
      let j = cycle-Inv d _ (device_set_present-Inv n h laws d false s i) in
      if_keeps (Inv n) (is_zero (cycle h d (device_set_present h d false s)).1)
        (λ e. device_set_present-Inv n h laws d true _ j) (λ e. j)

  finish-Inv : (d : ℕ) (ch : DevChange) (s : Store E) → Inv n s → Inv n (finish_config h d ch s)
  unfolding finish_config
  finish-Inv d restart s i = if_keeps (Inv n) (s.devs d).present (λ e. restart-Inv d s i) (λ e. i)
  finish-Inv d _ s i = i

  -- Applying a configuration to a device keeps the invariant of the device store, whether the
  -- device is restarted, left alone, only given new settings, or to be recreated. The hooks and the
  -- reload function of the device's type must keep the invariant.
  pub device_apply_config-Inv :
      (c : Libc) (d : ℕ) (r : Request E) (s : Store E)
      → ReloadKeeps r
      → Inv n s
      → Inv n (device_apply_config h c d r s).0
  unfolding device_apply_config
  device_apply_config-Inv c d r s keep i =
      let j = set_config-Inv c d r s keep i in
      let (s1, change) = device_set_config h c d r s in
      if_keeps (λ (p : Store E × DevChange). Inv n p.0) (s1.devs d).external
        {x = (h.system_if_apply_settings d (s1.devs d).settings s1, applied)}
        {y = (finish_config h d change s1, change)} (λ e. laws.apply_keeps d s1 j)
        (λ e. finish-Inv d change s1 j)
