-- ===== src/Device/Laws.antt =====
-- What holds between two calls, and what each write to the store does to it. `n` bounds the cells
-- of the users that ever exist.
use netifd.Prelude.{
  ℕ, ◌<◌, ◌≡◌, ◌≢◌, refl, ◌⊎◌, inl, inr, Bool, true, false, not, ◌&&◌, ◌||◌, none, some, arith,
  List, Bool-cases,
}
use netifd.Device.Store.{
  Store, Device, User, Hooks, DeviceEvent, setup, update_ifindex, put_dev, put_usr,
}
use netifd.Device.Claim.{take_claim, drop_claim, void_claim}
use netifd.Device.Users.{same_dev, attach, detach, remove_id}
use netifd.Device.Counting.{count, count-update, count_pos}

-- The user holds a claim on the device.
abbrev pub holds : ℕ → User → Bool
holds d x = x.claimed && same_dev x.dev (some d)

abbrev pub shown_state : Device → Bool
shown_state x = x.sys_present && not (x.disabled || x.deferred)

module _ {E : Type 0} where
  -- The count of a device is the number of users with a claim on it, a claim is on a device, no
  -- assert has failed, and a device is present exactly if it should be.
  pub record Inv (n : ℕ) (s : Store E) : Type 0 where
    pub counted : (d : ℕ) → (s.devs d).active ≡ count (holds d) n s.usrs
    pub bound : (u : ℕ) → (s.usrs u).claimed ≡ true → (s.usrs u).dev ≢ none
    pub sound : s.faulted ≡ false
    pub shown : (d : ℕ) → (s.devs d).present ≡ shown_state (s.devs d)

  -- The user holds the only claim on the device.
  pub record SoleHolder (u d : ℕ) (s : Store E) : Type 0 where
    pub claims : (s.usrs u).claimed ≡ true
    pub bound_to : (s.usrs u).dev ≡ some d
    pub only : (s.devs d).active ≡ 1

  -- What is asked of the hooks. A walk over a list changes the store by the calls that it makes
  -- only. Callbacks and state changes of the rest of the daemon keep the invariant, as its own
  -- calls of device.c do. While a device is set up, its own claims are left alone.
  pub record HookLaws (n : ℕ) (h : Hooks E) : Type 1 where
    pub walk_keeps :
        (P : Store E → Type 0) (l : Store E → List ℕ) (f : ℕ → Store E → Store E) (s : Store E)
        → ((u : ℕ) (t : Store E) → P t → P (f u t))
        → P s
        → P (h.walk l f s)
    pub cb_keeps : (u : ℕ) (ev : DeviceEvent) (s : Store E) → Inv n s → Inv n (h.cb u ev s)
    pub set_state_keeps : (d : ℕ) (b : Bool) (s : Store E) → Inv n s → Inv n (h.set_state d b s).0
    pub apply_keeps :
        (d : ℕ) (s : Store E) → Inv n s → Inv n (h.system_if_apply_settings d (s.devs d).settings s)
    pub cb_quiet :
        (v u d : ℕ) (ev : DeviceEvent) (s : Store E)
        → (ev ≡ setup) ⊎ (ev ≡ update_ifindex)
        → SoleHolder u d s
        → SoleHolder u d (h.cb v ev s)
    pub set_state_quiet :
        (u d : ℕ) (s : Store E) → SoleHolder u d s → SoleHolder u d (h.set_state d true s).0

  pub put_dev-Inv :
      (n d : ℕ) (x : Device) (s : Store E)
      → x.active ≡ (s.devs d).active
      → x.present ≡ shown_state x
      → Inv n s
      → Inv n (put_dev d x s)
  put_dev-Inv n d x s a p i = record {
    counted = λ e. ground (arith, i.counted e, i.counted d);
    bound = i.bound;
    sound = i.sound;
    shown = λ e. ground (arith, i.shown e);
  }

  pub take_claim-Inv :
      (n u d : ℕ) (s : Store E)
      → u < n
      → (s.usrs u).claimed ≡ false
      → (s.usrs u).dev ≡ some d
      → Inv n s
      → Inv n (take_claim u d s)
  take_claim-Inv n u d s lt free at i = record {
    counted = λ e. ground (
      arith,
      i.counted e,
      i.counted d,
      count-update (holds e) n s.usrs u (record (s.usrs u) { claimed = true }) lt,
    );
    bound = λ v. ground (arith, i.bound v);
    sound = i.sound;
    shown = λ e. ground (arith, i.shown e, i.shown d);
  }

  pub drop_claim-Inv :
      (n u d : ℕ) (s : Store E)
      → u < n
      → (s.usrs u).claimed ≡ true
      → (s.usrs u).dev ≡ some d
      → Inv n s
      → Inv n (drop_claim u d s)
  drop_claim-Inv n u d s lt held at i = record {
    counted = λ e. ground (
      arith,
      i.counted e,
      i.counted d,
      count-update (holds e) n s.usrs u (record (s.usrs u) { claimed = false }) lt,
    );
    bound = λ v. ground (arith, i.bound v);
    sound = ground (arith, i.sound, i.counted d, count_pos (holds d) n s.usrs u lt);
    shown = λ e. ground (arith, i.shown e, i.shown d);
  }

  pub void_claim-Inv :
      (n u d : ℕ) (s : Store E) → u < n → SoleHolder u d s → Inv n s → Inv n (void_claim u d s)
  void_claim-Inv n u d s lt sole i = record {
    counted = λ e. ground (
      arith,
      i.counted e,
      i.counted d,
      sole.only,
      sole.bound_to,
      sole.claims,
      count-update (holds e) n s.usrs u (record (s.usrs u) { claimed = false }) lt,
    );
    bound = λ v. ground (arith, i.bound v);
    sound = i.sound;
    shown = λ e. ground (arith, i.shown e, i.shown d);
  }

  -- A user with no claim changes its device, or its hotplug mark.
  pub put_usr-Inv :
      (n u : ℕ) (x : User) (s : Store E)
      → u < n
      → (s.usrs u).claimed ≡ x.claimed
      → (x.claimed ≡ true → x.dev ≡ (s.usrs u).dev)
      → Inv n s
      → Inv n (put_usr u x s)
  put_usr-Inv n u x s lt keeps at i = record {
    counted = λ e. ground (arith, i.counted e, count-update (holds e) n s.usrs u x lt);
    bound = λ v. ground (arith, i.bound v, i.bound u);
    sound = i.sound;
    shown = i.shown;
  }

  -- A user with no claim joins a device, or leaves it.
  pub attach-Inv :
      (n u d : ℕ) (s : Store E)
      → u < n
      → (s.usrs u).claimed ≡ false
      → Inv n s
      → Inv n (attach u d s)
  attach-Inv n u d s lt free i =
      let j = put_usr-Inv n u (record (s.usrs u) { dev = some d }) s lt refl (λ e. cc) i in
      put_dev-Inv n d _ _ (ground arith) (ground (arith, i.shown d)) j

  pub detach-Inv :
      (n u d : ℕ) (s : Store E)
      → u < n
      → (s.usrs u).claimed ≡ false
      → Inv n s
      → Inv n (detach u d s)
  detach-Inv n u d s lt free i =
      let k =
        put_dev-Inv n d
          (record (s.devs d) {
            users = remove_id u (s.devs d).users;
            aliases = remove_id u (s.devs d).aliases;
          })
          s refl (i.shown d) i in
      let j = put_usr-Inv n u (record (s.usrs u) { dev = none }) _ lt refl (λ e. cc) k in
      record { counted = j.counted; bound = j.bound; sound = j.sound; shown = j.shown }

  pub unbound-claimed :
      (n u : ℕ) (s : Store E) → Inv n s → (s.usrs u).dev ≡ none → (s.usrs u).claimed ≡ false
  unbound-claimed n u s i off = elim (Bool-cases (s.usrs u).claimed) [
    | inl held ↦ absurd (i.bound u held off)
    | inr free ↦ free
  ]
