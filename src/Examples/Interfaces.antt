-- ===== src/Examples/Interfaces.antt =====
-- An interface on device 0, with a handler that is up as soon as it is told to set up.
use netifd.Prelude.{◌≡◌, refl, [], true, false, none, some}
use netifd.Prelude.Int.{pos}
use netifd.ProtoShell.State.{ifpev_up}
use netifd.Device.Laws.{Inv}
use netifd.Interface.Types.{
  ifs_up, ifs_setup, ifs_down, ifc_normal, ifc_reload, ProtoFlags, Iface, World, iface_of, put_if,
  IfHooks,
}
use netifd.Interface.Kept.{put_if-Inv}
use netifd.Interface.Binding.{interface_set_main_dev}
use netifd.Interface.Events.{interface_proto_event_cb, set_config_state}
use netifd.Interface.Runs.{main_dev, proto_event}
use netifd.Examples.Stores.{idle_store, idle_store-Inv, bench}

abbrev flags : ProtoFlags
flags = record {
  immediate = true;
  nodev = false;
  init_available = false;
  lasterror = false;
  teardown_on_l3_link_down = false;
}

abbrev lan : Iface
lan = record {
  available = true;
  autostart = true;
  enabled = true;
  link_state = true;
  force_link = false;
  dynamic = false;
  link_up_event = false;
  updated = false;
  freed = false;
  state = ifs_down;
  config_state = ifc_normal;
  handler = flags;
  proto = some flags;
  same_handler = true;
  config_ip_enabled = false;
  proto_ip_enabled = false;
  errors = [];
  parent = none;
}

-- Nothing else of the daemon reacts to the interface.
abbrev desk : IfHooks Unit
desk = record {
  main_dev = λ i. 0;
  l3_dev = λ i. 1;
  ext_dev = λ i. 2;
  proto_cb = λ i c f s. (s, pos 0);
  proto_event = λ i ev s. s;
  user_event = λ i ev s. s;
  alias_notify_device = λ i d s. s;
  ip_set_enabled = λ i on s. s;
  proto_ip_flush = λ i s. s;
  data_flush = λ i s. s;
  system_flush_routes = λ s. s;
  write_resolv_conf = λ i s. s;
  proto_free = λ i s. s;
  proto_attach = λ i s. (s, some flags);
  claim_device = λ i s. s;
  do_free = λ i s. s;
}

abbrev ready : World Unit
ready =
    idle_store (record { ifaces = λ i. lan; config_init = false; null_proto = false; rest = tt })

ready-Inv : Inv 3 ready
ready-Inv =
    idle_store-Inv
      (record { ifaces = λ i. lan; config_init = false; null_proto = false; rest = tt })

-- The interface while its protocol is set up.
abbrev starting : World Unit
starting = put_if 0 (record lan { state = ifs_setup }) ready

starting-Inv : Inv 3 starting
starting-Inv = put_if-Inv 3 0 ready (record lan { state = ifs_setup }) ready-Inv

-- It is moved to another device and told to reload, and a protocol event comes.
abbrev moved : World Unit
moved = interface_set_main_dev bench desk 0 (some 2) ready

abbrev reloaded : World Unit
reloaded = set_config_state bench desk 0 ifc_reload moved

now_up : (iface_of 0 (interface_proto_event_cb bench desk 0 ifpev_up starting)).state ≡ ifs_up
unfolding interface_proto_event_cb
now_up = refl
