-- ===== src/Device/Present.antt =====
-- device.c and device.h: presence, link and authentication of a device.
use netifd.Prelude.{ℕ, Bool, true, false, not, ◌&&◌, ◌||◌, if◌then◌else◌}
use netifd.Device.Store.{
  Store, Device, Hooks, ev_add, ev_remove, auth_up, link_up, link_down, put_dev,
}
use netifd.Device.Claim.{device_broadcast_event}

abbrev pub same : Bool → Bool → Bool
same true b = b
same false b = not b

module _ {E : Type 0} (h : Hooks E) where
  -- __device_set_present
  unfoldable pub announce_present : ℕ → Bool → Store E → Store E
  announce_present d state s =
      if same (s.devs d).present state
      then s
      else device_broadcast_event h d (if state then ev_add else ev_remove)
          (put_dev d (record (s.devs d) { present = state }) s)

  unfoldable pub device_refresh_present : ℕ → Store E → Store E
  unfolding announce_present
  device_refresh_present d s =
      let dev = s.devs d in
      announce_present d (dev.sys_present && not (dev.disabled || dev.deferred)) s

  unfoldable pub device_set_present : ℕ → Bool → Store E → Store E
  unfolding device_refresh_present
  device_set_present d state s =
      if same (s.devs d).sys_present state
      then s
      else device_refresh_present d (put_dev d (record (s.devs d) { sys_present = state }) s)

  unfoldable pub device_set_deferred : ℕ → Bool → Store E → Store E
  unfolding device_refresh_present
  device_set_deferred d value s =
      device_refresh_present d (put_dev d (record (s.devs d) { deferred = value }) s)

  unfoldable pub device_set_disabled : ℕ → Bool → Store E → Store E
  unfolding device_refresh_present
  device_set_disabled d value s =
      device_refresh_present d (put_dev d (record (s.devs d) { disabled = value }) s)

  -- Authentication was lost: the link is announced as down, and as up again if it still is.
  unfoldable pub announce_auth_loss : ℕ → Store E → Store E
  announce_auth_loss d s =
      let s1 = device_broadcast_event h d link_down s in
      if not (s1.devs d).link_active then s1 else device_broadcast_event h d link_up s1

  unfoldable pub announce_auth : ℕ → Store E → Store E
  announce_auth d s =
      if (s.devs d).auth_status
      then device_broadcast_event h d auth_up s
      else announce_auth_loss d s

  unfoldable pub device_set_auth_status : ℕ → Bool → Store E → Store E
  device_set_auth_status d value s =
      let s1 = put_dev d (record (s.devs d) { auth_status = value }) s in
      if same (s.devs d).auth_status value
      then s
      else if not (s.devs d).present
      then s1
      else announce_auth d s1

  unfoldable pub device_set_link : ℕ → Bool → Store E → Store E
  device_set_link d state s =
      let dev = s.devs d in
      if same dev.link_active state
      then s
      else device_broadcast_event h d (if state then link_up else link_down) (
          put_dev d
            (record dev {
              link_active = state;
              auth_status = if state then dev.auth_status else false;
            })
            s)

-- The link counts as down while an authentication that is asked for is missing.
unfoldable pub device_link_active : Device → Bool
device_link_active dev = if dev.settings.auth && not dev.auth_status then false else dev.link_active
