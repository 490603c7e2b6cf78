-- ===== src/Device/Runs.antt =====
-- device.c: all the calls of its operations, one after the other.
use netifd.Prelude.{ℕ, ◌<◌, ◌≡◌, Bool, false, Option}
use netifd.Settings.Init.{Libc}
use netifd.Device.Store.{Store, Hooks}
use netifd.Device.Claim.{device_claim, device_release, device_set_ifindex}
use netifd.Device.Present.{
  device_set_present, device_set_disabled, device_set_deferred, device_set_link,
  device_set_auth_status,
}
use netifd.Device.Users.{released, device_remove_user, device_add_user}
use netifd.Device.Config.{Request, device_apply_config}
use netifd.Device.Laws.{Inv, HookLaws}
use netifd.Device.Refcount.{device_claim-Inv, device_release-Inv, device_set_ifindex-Inv}
use netifd.Device.Membership.{
  device_set_present-Inv, device_set_disabled-Inv, device_set_deferred-Inv, device_set_link-Inv,
  device_set_auth_status-Inv, device_remove_user-Inv, device_add_user-Inv,
}
use netifd.Device.Reconfigure.{device_apply_config-Inv, ReloadKeeps}

module _ {E : Type 0} (n : ℕ) (h : Hooks E) (laws : HookLaws n h) where
  -- A user that leaves a device must not be claimed again by the callbacks of its release.
  pub data Operation : Store E → Store E → Type 0 where
    claims : (u : ℕ) (s : Store E) → u < n → Operation s (device_claim h u s).0
    releases : (u : ℕ) (s : Store E) → u < n → Operation s (device_release h u s)
    joins :
        (u : ℕ) (dev : Option ℕ) (s : Store E)
        → u < n
        → ((released h u s).usrs u).claimed ≡ false
        → Operation s (device_add_user h u dev s)
    leaves :
        (u : ℕ) (s : Store E)
        → u < n
        → ((released h u s).usrs u).claimed ≡ false
        → Operation s (device_remove_user h u s)
    present : (d : ℕ) (b : Bool) (s : Store E) → Operation s (device_set_present h d b s)
    disabled : (d : ℕ) (b : Bool) (s : Store E) → Operation s (device_set_disabled h d b s)
    deferred : (d : ℕ) (b : Bool) (s : Store E) → Operation s (device_set_deferred h d b s)
    linked : (d : ℕ) (b : Bool) (s : Store E) → Operation s (device_set_link h d b s)
    authorized : (d : ℕ) (b : Bool) (s : Store E) → Operation s (device_set_auth_status h d b s)
    indexed : (d i : ℕ) (s : Store E) → Operation s (device_set_ifindex h d i s)
    configured :
        (c : Libc) (d : ℕ) (r : Request E) (s : Store E)
        → ReloadKeeps n h laws r
        → Operation s (device_apply_config h c d r s).0

  pub data Operations (s : Store E) : Store E → Type 0 where
    nothing : Operations s s
    more : {t v : Store E} → Operations s t → Operation t v → Operations s v

  Operation-Inv : {s v : Store E} → Operation s v → Inv n s → Inv n v
  Operation-Inv (claims u s lt) i = device_claim-Inv n h laws u s lt i
  Operation-Inv (releases u s lt) i = device_release-Inv n h laws u s lt i
  Operation-Inv (joins u dev s lt gone) i = device_add_user-Inv n h laws u dev s lt gone i
  Operation-Inv (leaves u s lt gone) i = (device_remove_user-Inv n h laws u s lt gone i).0
  Operation-Inv (present d b s) i = device_set_present-Inv n h laws d b s i
  Operation-Inv (disabled d b s) i = device_set_disabled-Inv n h laws d b s i
  Operation-Inv (deferred d b s) i = device_set_deferred-Inv n h laws d b s i
  Operation-Inv (linked d b s) i = device_set_link-Inv n h laws d b s i
  Operation-Inv (authorized d b s) i = device_set_auth_status-Inv n h laws d b s i
  Operation-Inv (indexed d k s) i = device_set_ifindex-Inv n h laws d k s i
  Operation-Inv (configured c d r s keep) i = device_apply_config-Inv n h laws c d r s keep i

  -- After any sequence of operations on the device store that starts with its invariant, the count
  -- of every device is the number of claims on it, every claim is of a user with a device, no
  -- assert has failed, and every device is shown as present exactly if it is there, not disabled
  -- and not deferred. The operations are claims, releases, users that join and leave, changes of
  -- presence, of the link, of the interface index and of the authentication, and new
  -- configurations. The hooks and the reload functions must keep the invariant, a sole claim must
  -- be left alone while its device is set up, and a user that leaves a device must hold no claim
  -- after its release.
  pub Operations-Inv : {s v : Store E} → Operations s v → Inv n s → Inv n v
  Operations-Inv nothing i = i
  Operations-Inv (more r st) i = Operation-Inv st (Operations-Inv r i)
