-- ===== src/Examples/Devices.antt =====
-- Users of devices claim, release, leave and join; a device is configured.
use netifd.Prelude.{◌≡◌, refl, true, false, none, some, arith}
use netifd.Prelude.Int.{negsuc}
use netifd.Settings.Init.{init_settings}
use netifd.Device.Store.{Store}
use netifd.Device.Claim.{
  device_claim, claim_device, claim_result, bring_up, device_fill_default_settings,
  device_broadcast_event, device_broadcast_cb, device_release, bring_down, switch_off,
}
use netifd.Device.Present.{device_set_present, device_set_disabled, device_refresh_present}
use netifd.Device.Users.{device_add_user}
use netifd.Device.Config.{
  Request, device_apply_config, device_set_config, device_init_settings, finish_config,
}
use netifd.Device.Laws.{Inv}
use netifd.Device.Refcount.{device_claim-Inv, device_release-Inv}
use netifd.Device.Runs.{
  Operations, nothing, more, claims, joins, present, configured, Operations-Inv,
}
use netifd.Examples.Attributes.{table, libc}
use netifd.Examples.Stores.{idle_store, idle_store-Inv, bench, bench-HookLaws, bench-released}

abbrev idle : Store Unit
idle = idle_store tt

-- The store after user 0 claimed device 0.
abbrev claimed : Store Unit
claimed = (device_claim bench 0 idle).0

claimed_active : (claimed.devs 0).active ≡ 1
unfolding device_claim claim_device claim_result bring_up device_fill_default_settings
    device_broadcast_event device_broadcast_cb
claimed_active = refl

claimed_link : (claimed.devs 0).link_active ≡ true
unfolding device_claim claim_device claim_result bring_up device_fill_default_settings
    device_broadcast_event device_broadcast_cb
claimed_link = refl

failed_claim : (device_claim bench 1 idle).1 ≡ negsuc 0
unfolding device_claim claim_device claim_result bring_up device_fill_default_settings
    device_broadcast_event device_broadcast_cb
failed_claim = refl

failed_active : ((device_claim bench 1 idle).0.devs 1).active ≡ 0
unfolding device_claim claim_device claim_result bring_up device_fill_default_settings
    device_broadcast_event device_broadcast_cb
failed_active = refl

released_link : ((device_release bench 0 claimed).devs 0).link_active ≡ false
unfolding device_claim claim_device claim_result bring_up device_fill_default_settings
    device_broadcast_event device_broadcast_cb device_release bring_down switch_off
released_link = refl

device_claim-Inv_example : Inv 3 (device_claim bench 0 idle).0
device_claim-Inv_example =
    device_claim-Inv 3 bench (bench-HookLaws 3) 0 idle (omega arith) (idle_store-Inv tt)

claimed-Inv : Inv 3 claimed
claimed-Inv = device_claim-Inv 3 bench (bench-HookLaws 3) 0 idle (omega arith) (idle_store-Inv tt)

device_release-Inv_example : Inv 3 (device_release bench 0 claimed)
device_release-Inv_example =
    device_release-Inv 3 bench (bench-HookLaws 3) 0 claimed (omega arith) claimed-Inv

-- A configuration with a new type-independent table for a device that is up.
abbrev request : Request Unit
request = record {
  same_type = true;
  reload = none;
  is_equal = false;
  device_attrs = true;
  table = table;
}

restarted_mtu : (((device_apply_config bench libc 0 request claimed).0.devs 0).settings).mtu ≡ 1500
unfolding device_claim claim_device claim_result bring_up device_fill_default_settings
    device_broadcast_event device_broadcast_cb device_apply_config device_set_config
    device_init_settings device_set_disabled device_refresh_present finish_config init_settings
    device_set_present
restarted_mtu = refl

-- A claim, a move to another device, a device that goes away, and a new configuration.
abbrev moved : Store Unit
moved = device_add_user bench 0 (some 2) claimed

abbrev gone : Store Unit
gone = device_set_present bench 0 false moved

abbrev operations :
    Operations 3 bench (bench-HookLaws 3) idle (device_apply_config bench libc 0 request gone).0
operations =
    more
      (more
        (more (more nothing (claims 0 idle (omega arith)))
          (joins 0 (some 2) claimed (omega arith) (bench-released 3 0 claimed claimed-Inv)))
        (present 0 false moved))
      (configured libc 0 request gone (λ d f s e i. cc))

Operations-Inv_example : Inv 3 (device_apply_config bench libc 0 request gone).0
Operations-Inv_example = Operations-Inv 3 bench (bench-HookLaws 3) operations (idle_store-Inv tt)
