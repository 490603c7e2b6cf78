-- ===== src/Examples/Bonds.antt =====
-- bonding.c: a bond on device 5 with the devices 1 and 2 as ports; device 1 cannot be set up.
use netifd.Prelude.{ℕ, ◌≡◌, refl, [], ◌∷◌, Bool, true, false, none, ◌==◌, if◌then◌else◌, arith}
use netifd.Prelude.Int.{ℤ, pos, negsuc, ◌+ℤ◌, ◌-ℤ◌}
use netifd.Device.Listed.{has_id, nobody}
use netifd.Device.Store.{ev_add}
use netifd.Device.Claim.{
  device_claim, claim_device, claim_result, bring_up, bring_down, switch_off,
  device_fill_default_settings, device_release, device_set_ifindex, device_broadcast_event,
  device_broadcast_cb,
}
use netifd.Device.Present.{device_set_present}
use netifd.Device.Counting.{count}
use netifd.Device.Frame.{device_claim_frame, device_release_frame}
use netifd.Bonding.Types.{Port, Bond, World}
use netifd.Bonding.Run.{bonding_port_cb, bonding_set_state, bonding_retry_ports}
use netifd.Bonding.Counted.{Counted, BondLaws}
use netifd.Bonding.Runs.{here, next, event, state, retries, Course-Counted}
use netifd.Examples.Stores.{idle_store, bench, bench-EnvLaws}

abbrev no_port : Port
no_port = record { set_primary = false; present = false; active = false }

abbrev bond0 : Bond
bond0 = record {
  dev = 5;
  ports = 1 ∷ 2 ∷ [];
  port = λ m. no_port;
  n_present = pos 0;
  n_failed = 0;
  primary_port = none;
  retry = false;
  has_macaddr = false;
  force_active = false;
  active = false;
  effects = [];
}

abbrev sets : Bool → World → ℤ
sets b s = pos 0

-- The system refuses device 2.
abbrev joins : ℕ → World → ℤ
joins m s = if m == 2 then negsuc 0 else pos 0

bond0-Counted : Counted 3 nobody bond0
unfolding count
bond0-Counted = record {
  counted = refl;
  bounded = (omega arith, (omega arith, tt));
  listed = λ k e. cc;
}

IsUp : (m : ℕ) → Bond → Type 0
IsUp m b = (b.port m).present ≡ true

bench-BondLaws : (n : ℕ) → BondLaws n bench
unfolding IsUp
bench-BondLaws n = record {
  env_laws = λ out. bench-EnvLaws (Counted n out);
  up_keeps = λ out d s c. c;
  down_keeps = λ out d s c. c;
  apply_keeps = λ out d x s c. c;
  claim_leaves = λ m s p. device_claim_frame (IsUp m) bench (bench-EnvLaws (IsUp m)) m s p;
  release_leaves = λ m s p. device_release_frame (IsUp m) bench (bench-EnvLaws (IsUp m)) m s p;
}

abbrev one_port : World
one_port = bonding_port_cb bench sets joins 1 ev_add (idle_store bond0)

abbrev two_ports : World
two_ports = bonding_port_cb bench sets joins 2 ev_add one_port

abbrev bond_up : World × ℤ
bond_up = bonding_set_state bench sets joins true two_ports

abbrev tried_again : World
tried_again = bonding_retry_ports bench sets joins bond_up.0

both_counted : two_ports.env.n_present ≡ pos 2
unfolding bonding_port_cb ◌+ℤ◌ device_set_present
both_counted = refl

-- Device 1 cannot be set up, but its port still counts; port 2 is tried again.
one_counted : bond_up.0.env.n_present ≡ pos 1
unfolding bonding_set_state bonding_port_cb ◌+ℤ◌ ◌-ℤ◌ device_set_present device_claim claim_device
    claim_result bring_up device_fill_default_settings device_broadcast_event device_broadcast_cb
    device_release device_set_ifindex bring_down switch_off
one_counted = refl

timer_set : bond_up.0.env.retry ≡ true
unfolding bonding_set_state bonding_port_cb ◌+ℤ◌ ◌-ℤ◌ device_set_present device_claim claim_device
    claim_result bring_up device_fill_default_settings device_broadcast_event device_broadcast_cb
    device_release device_set_ifindex bring_down switch_off
timer_set = refl

second_listed : has_id 2 one_port.env.ports ≡ true
unfolding bonding_port_cb ◌+ℤ◌ device_set_present
second_listed = refl

Course-Counted_example : Counted 3 nobody tried_again.env
Course-Counted_example = Course-Counted 3 bench sets joins (bench-BondLaws 3) bond0-Counted (
    next
      (next
        (next (next here (event 1 ev_add (idle_store bond0) (omega arith) refl))
          (event 2 ev_add one_port (omega arith) second_listed))
        (state true two_ports))
      (retries bond_up.0 timer_set))
