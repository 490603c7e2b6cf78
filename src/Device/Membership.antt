-- ===== src/Device/Membership.antt =====
-- device.c: presence, link changes, joining and leaving, and the invariant of the device store.
use netifd.Prelude.{
  ℕ, ◌<◌, ◌≡◌, ◌≢◌, if◌then◌else◌, refl, Bool, true, false, not, Option, none, ◌==◌, arith,
  if_keeps, match_keeps, Bool-cases, subst, inl, inr,
}
use netifd.Device.Store.{Store, Device, Hooks, ev_add, up, link_up, link_down, auth_up, put_dev}
use netifd.Device.Present.{
  same, device_refresh_present, device_set_present, device_set_deferred, device_set_disabled,
  device_set_auth_status, device_set_link, announce_auth, announce_auth_loss,
}
use netifd.Device.Users.{
  greet, join_device, device_remove_user, device_add_user, same_dev, released,
}
use netifd.Device.Laws.{
  Inv, HookLaws, put_dev-Inv, put_usr-Inv, attach-Inv, detach-Inv, unbound-claimed, shown_state,
  holds,
}
use netifd.Device.Counting.{count}
use netifd.Device.Refcount.{broadcast-Inv, device_release-Inv}

-- The invariant, but for the presence of one device.
record Almost {E : Type 0} (n d : ℕ) (s : Store E) : Type 0 where
  counted : (e : ℕ) → (s.devs e).active ≡ count (holds e) n s.usrs
  bound : (u : ℕ) → (s.usrs u).claimed ≡ true → (s.usrs u).dev ≢ none
  sound : s.faulted ≡ false
  others : (e : ℕ) → (d == e) ≡ false → (s.devs e).present ≡ shown_state (s.devs e)

module _ {E : Type 0} (n d : ℕ) (s : Store E) where
  put_dev-Almost :
      (x : Device) → x.active ≡ (s.devs d).active → Inv n s → Almost n d (put_dev d x s)
  put_dev-Almost x a i = record {
    counted = λ e. ground (arith, i.counted e, i.counted d);
    bound = i.bound;
    sound = i.sound;
    others = λ e ne. ground (arith, i.shown e);
  }

  Almost-settled : Almost n d s → (s.devs d).present ≡ shown_state (s.devs d) → Inv n s
  Almost-settled i p = record {
    counted = i.counted;
    bound = i.bound;
    sound = i.sound;
    shown = λ e. elim (Bool-cases (d == e)) [
      | inl same ↦
          let eq : d ≡ e = ground arith in
          subst (λ k. (s.devs k).present ≡ shown_state (s.devs k)) eq p
      | inr ne ↦ i.others e ne
    ];
  }

  Almost-shown :
      Almost n d s → Inv n (put_dev d (record (s.devs d) { present = shown_state (s.devs d) }) s)
  Almost-shown i = record {
    counted = λ e. ground (arith, i.counted e, i.counted d);
    bound = i.bound;
    sound = i.sound;
    shown = λ e. ground (arith, i.others e);
  }

module _ {E : Type 0} (n : ℕ) (h : Hooks E) (laws : HookLaws n h) where
  device_refresh_present-Inv :
      (d : ℕ) (s : Store E) → Almost n d s → Inv n (device_refresh_present h d s)
  unfolding device_refresh_present
  device_refresh_present-Inv d s i =
      if_keeps (Inv n) (same (s.devs d).present (shown_state (s.devs d)))
        (λ e. Almost-settled n d s i (ground arith))
        (λ e. broadcast-Inv n h laws d _ _ (Almost-shown n d s i))

  -- A change of what the system says about a device's presence keeps the invariant of the device
  -- store: the device is shown as present exactly if it is there, not disabled and not deferred.
  -- The hooks must keep the invariant.
  pub device_set_present-Inv :
      (d : ℕ) (b : Bool) (s : Store E) → Inv n s → Inv n (device_set_present h d b s)
  unfolding device_set_present
  device_set_present-Inv d b s i =
      if_keeps (Inv n) (same (s.devs d).sys_present b) (λ e. i)
        (λ e. device_refresh_present-Inv d _ (put_dev-Almost n d s _ refl i))

  pub device_set_disabled-Inv :
      (d : ℕ) (b : Bool) (s : Store E) → Inv n s → Inv n (device_set_disabled h d b s)
  unfolding device_set_disabled
  device_set_disabled-Inv d b s i = device_refresh_present-Inv d _ (put_dev-Almost n d s _ refl i)

  pub device_set_deferred-Inv :
      (d : ℕ) (b : Bool) (s : Store E) → Inv n s → Inv n (device_set_deferred h d b s)
  unfolding device_set_deferred
  device_set_deferred-Inv d b s i = device_refresh_present-Inv d _ (put_dev-Almost n d s _ refl i)

  pub device_set_link-Inv :
      (d : ℕ) (b : Bool) (s : Store E) → Inv n s → Inv n (device_set_link h d b s)
  unfolding device_set_link
  device_set_link-Inv d b s i =
      if_keeps (Inv n) (same (s.devs d).link_active b) (λ e. i)
        (λ e. broadcast-Inv n h laws d _ _ (put_dev-Inv n d _ s refl (i.shown d) i))

  announce_auth-Inv : (d : ℕ) (s : Store E) → Inv n s → Inv n (announce_auth h d s)
  unfolding announce_auth announce_auth_loss
  announce_auth-Inv d s i =
      let lost = broadcast-Inv n h laws d link_down s i in
      if_keeps (Inv n) (s.devs d).auth_status (λ e. broadcast-Inv n h laws d auth_up s i)
        (λ e. if_keeps (Inv n) _ (λ e. lost) (λ e. broadcast-Inv n h laws d link_up _ lost))

  -- A change of the authentication status of a device, with the link events that it sends, keeps
  -- the invariant of the device store, if the hooks keep it.
  pub device_set_auth_status-Inv :
      (d : ℕ) (b : Bool) (s : Store E) → Inv n s → Inv n (device_set_auth_status h d b s)
  unfolding device_set_auth_status
  device_set_auth_status-Inv d b s i =
      let j = put_dev-Inv n d (record (s.devs d) { auth_status = b }) s refl (i.shown d) i in
      if_keeps (Inv n) (same (s.devs d).auth_status b) (λ e. i)
        (λ e. if_keeps (Inv n) (not (s.devs d).present) (λ e. j) (λ e. announce_auth-Inv d _ j))

  greet-Inv : (u d : ℕ) (s : Store E) → Inv n s → Inv n (greet h u d s)
  unfolding greet
  greet-Inv u d s i =
      let a = laws.cb_keeps u ev_add s i in
      let P = Inv {E = E} n in
      let s1 = h.cb u ev_add s in
      let b = if_keeps P ((s1.devs d).active == 0) (λ e. a) (λ e. laws.cb_keeps u up s1 a) in
      let s2 : Store E = if (s1.devs d).active == 0 then s1 else h.cb u up s1 in
      let c = if_keeps P (s2.devs d).link_active (λ e. laws.cb_keeps u link_up s2 b) (λ e. b) in
      if_keeps P (s.devs d).present (λ e. c) (λ e. i)

  -- Taking a user off its device keeps the invariant of the device store, and leaves the user with
  -- no device. The hooks must keep the invariant, and the user must hold no claim after its
  -- release.
  pub device_remove_user-Inv :
      (u : ℕ) (s : Store E)
      → u < n
      → ((released h u s).usrs u).claimed ≡ false
      → Inv n s
      → Inv n (device_remove_user h u s) × (((device_remove_user h u s).usrs u).dev ≡ none)
  unfolding device_remove_user
  device_remove_user-Inv u s lt gone i =
      match_keeps (λ (t : Store E). Inv n t × ((t.usrs u).dev ≡ none)) (s.usrs u).dev (λ e. (i, e))
        (λ d e. (
          detach-Inv n u d (released h u s) lt gone
              (device_release-Inv n h laws u _ lt (put_usr-Inv n u _ s lt refl (λ c. refl) i)),
          ground arith,
        ))

  -- A user that joins a device, leaves the one that it was on, or both, keeps the invariant of the
  -- device store. The hooks must keep it, and the user must hold no claim after its release.
  pub device_add_user-Inv :
      (u : ℕ) (dev : Option ℕ) (s : Store E)
      → u < n
      → ((released h u s).usrs u).claimed ≡ false
      → Inv n s
      → Inv n (device_add_user h u dev s)
  unfolding device_add_user join_device
  device_add_user-Inv u dev s lt gone i =
      let (j, off) = device_remove_user-Inv u s lt gone i in
      if_keeps (Inv n) (same_dev (s.usrs u).dev dev) (λ e. i)
        (λ e.
          match_keeps (Inv n) dev (λ e. j)
            (λ d e.
              greet-Inv u d _
                (attach-Inv n u d (device_remove_user h u s) lt (unbound-claimed n u _ j off) j)))
