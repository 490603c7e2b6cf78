-- ===== src/Device/Users.antt =====
-- device.c: users join and leave a device, and the state callbacks of simple devices.
use netifd.Prelude.{
  ℕ, List, [], ◌∷◌, ◌++◌, Bool, true, false, not, Option, none, some, ◌==◌, ltb, if◌then◌else◌,
}
use netifd.Prelude.Int.{ℤ, pos, negsuc, neg_part}
use netifd.Settings.Defs.{◌∩◌}
use netifd.Device.Store.{Store, Hooks, ev_add, ev_remove, up, link_up, put_dev, put_usr}
use netifd.Device.Claim.{device_claim, device_release, device_set_ifindex}

abbrev pub remove_id : ℕ → List ℕ → List ℕ
remove_id u [] = []
remove_id u (v ∷ l) = if u == v then l else v ∷ remove_id u l

abbrev pub same_dev : Option ℕ → Option ℕ → Bool
same_dev none none = true
same_dev (some a) (some b) = a == b
same_dev _ _ = false

module _ {E : Type 0} where
  -- The store with the user in a list of the device, before any callback.
  abbrev pub attach : ℕ → ℕ → Store E → Store E
  attach u d s =
      let usr = record (s.usrs u) { dev = some d } in
      let dev = s.devs d in
      put_dev d
        (if usr.alias
          then record dev { aliases = dev.aliases ++ u ∷ [] }
          else record dev { users = dev.users ++ u ∷ [] })
        (put_usr u usr s)

  abbrev pub detach : ℕ → ℕ → Store E → Store E
  detach u d s =
      let dev = s.devs d in
      let s1 =
        put_dev d (record dev { users = remove_id u dev.users; aliases = remove_id u dev.aliases })
          s in
      record (put_usr u (record (s.usrs u) { dev = none }) s1) { freeing = true }

module _ {E : Type 0} (h : Hooks E) where
  -- A new user is told at once what the device is already.
  unfoldable pub greet : ℕ → ℕ → Store E → Store E
  greet u d s =
      let s1 = h.cb u ev_add s in
      let s2 = if (s1.devs d).active == 0 then s1 else h.cb u up s1 in
      let s3 = if (s2.devs d).link_active then h.cb u link_up s2 else s2 in
      if (s.devs d).present then s3 else s

  -- __device_add_user
  unfoldable pub join_device : ℕ → ℕ → Store E → Store E
  unfolding greet
  join_device u d s = greet u d (attach u d s)

  -- What device_remove_user leaves once the claim is dropped, before the user is taken off.
  abbrev pub released : ℕ → Store E → Store E
  released u s = device_release h u (put_usr u (record (s.usrs u) { hotplug = false }) s)

  unfoldable pub device_remove_user : ℕ → Store E → Store E
  device_remove_user u s = elim (s.usrs u).dev [ none ↦ s | some d ↦ detach u d (released u s) ]

  unfoldable pub device_add_user : ℕ → Option ℕ → Store E → Store E
  unfolding device_remove_user join_device
  device_add_user u dev s =
      let s1 = device_remove_user u s in
      if same_dev (s.usrs u).dev dev
      then s
      else elim dev [ none ↦ s1 | some d ↦ join_device u d s1 ]

  unfoldable pub device_cleanup_cb : ℕ → Store E → Store E
  device_cleanup_cb u s = device_release h u (h.cb u ev_remove s)

  -- Without the device list, which device_delete takes the device off.
  unfoldable pub device_cleanup : ℕ → Store E → Store E
  device_cleanup d s =
      h.walk (λ t. (t.devs d).aliases) device_cleanup_cb
        (h.walk (λ t. (t.devs d).users) device_cleanup_cb s)

  -- The settings that the device had are kept; the flags among them only where they will change.
  abbrev pub keep_orig : ℕ → Store E → Store E
  keep_orig d s =
      let dev = s.devs d in
      let orig = h.system_if_get_settings d s in
      put_dev d
        (record dev {
          orig_settings = record orig {
            valid_flags = orig.flags;
            flags = orig.flags ∩ dev.settings.flags;
          };
        })
        s

  unfoldable pub set_device_state : ℕ → Bool → Store E → Store E × ℤ
  set_device_state d true s =
      let s1 = device_set_ifindex h d (h.system_if_resolve d s) s in
      let s2 = keep_orig d s1 in
      let s3 = h.system_if_apply_settings d (s2.devs d).settings s2 in
      if (s1.devs d).ifindex == 0 then (s1, negsuc 0) else (h.system_if_up d s3, pos 0)
  set_device_state d false s =
      let s1 = h.system_if_down d s in
      (h.system_if_apply_settings d (s1.devs d).orig_settings s1, pos 0)

  -- A bring-up looks for the device below if none is known, and joins it. The result says whether
  -- there is one.
  abbrev pub find_parent : ℕ → Bool → Store E → Store E × Bool
  find_parent d state s =
      let parent = (s.devs d).parent in
      elim (s.usrs parent).dev [
        | some p ↦ (s, true)
        | none ↦ if not state then (s, false) else elim (h.system_if_get_parent d s) [
          | none ↦ (s, false)
          | some p ↦ (device_add_user parent (some p) s, true)
        ]
      ]

  unfoldable pub simple_device_set_state : ℕ → Bool → Store E → Store E × ℤ
  unfolding set_device_state device_add_user
  simple_device_set_state d state s =
      let (s1, has_parent) = find_parent d state s in
      let parent = (s1.devs d).parent in
      let claimed = device_claim h parent s1 in
      if not has_parent
      then set_device_state d state s1
      else if not state
      then set_device_state d false (device_release h parent s1)
      else if ltb 0 (neg_part claimed.1)
      then claimed
      else set_device_state d true claimed.0
