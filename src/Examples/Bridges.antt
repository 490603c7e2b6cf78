-- ===== src/Examples/Bridges.antt =====
-- bridge.c: a bridge on device 5 with the devices 1 and 2 as members; device 1 cannot be set up.
use netifd.Prelude.{ℕ, ◌≡◌, refl, [], ◌∷◌, true, false, none, arith}
use netifd.Prelude.Int.{ℤ, pos, negsuc, ◌+ℤ◌, ◌-ℤ◌}
use netifd.Device.Listed.{has_id, nobody}
use netifd.Device.Store.{Hooks, ev_add, topo_change}
use netifd.Device.Claim.{
  device_claim, claim_device, claim_result, bring_up, device_fill_default_settings, device_release,
  device_set_ifindex, device_broadcast_event, device_broadcast_cb,
}
use netifd.Device.Present.{device_set_present}
use netifd.Device.Counting.{count}
use netifd.Device.Frame.{device_claim_frame, device_release_frame, broadcast_frame}
use netifd.Bridge.Types.{Member, Bridge, World}
use netifd.Bridge.Members.{bridge_enable_member, bridge_remove_member}
use netifd.Bridge.Run.{bridge_member_cb, bridge_set_state}
use netifd.Bridge.Present.{Counted, BridgeLaws}
use netifd.Bridge.Runs.{here, next, event, state, Reach-Counted}
use netifd.Examples.Stores.{idle_store, bench, bench-EnvLaws}

abbrev absent : Member
absent = record { present = false; active = false; pvid = 0; check_timer = false }

abbrev lan : Bridge
lan = record {
  dev = 5;
  bridge_empty = false;
  stp = false;
  active = false;
  force_active = false;
  has_vlans = false;
  retry = false;
  primary_port = none;
  members = 1 ∷ 2 ∷ [];
  member = λ m. absent;
  vlans = [];
  n_present = pos 0;
  n_failed = 0;
  effects = [];
}

abbrev works : World → ℤ
works s = pos 0

abbrev adds : ℕ → World → ℤ
adds m s = pos 0

lan-Counted : Counted 3 nobody lan
unfolding count
lan-Counted = record {
  counted = refl;
  bounded = (omega arith, (omega arith, tt));
  listed = λ k e. cc;
}

IsHere : (m : ℕ) → Bridge → Type 0
IsHere m b = (b.member m).present ≡ true

bench-BridgeLaws : (n : ℕ) → BridgeLaws n bench
unfolding IsHere
bench-BridgeLaws n = record {
  env_laws = λ out. bench-EnvLaws (Counted n out);
  up_keeps = λ out d s c. c;
  down_keeps = λ out d s c. c;
  apply_keeps = λ out d x s c. c;
  claim_leaves = λ m s p. device_claim_frame (IsHere m) bench (bench-EnvLaws (IsHere m)) m s p;
  release_leaves = λ m s p. device_release_frame (IsHere m) bench (bench-EnvLaws (IsHere m)) m s p;
  event_leaves =
      λ m d s p. broadcast_frame (IsHere m) bench (bench-EnvLaws (IsHere m)) d topo_change s p;
}

abbrev one_member : World
one_member = bridge_member_cb bench works adds 1 ev_add (idle_store lan)

abbrev two_members : World
two_members = bridge_member_cb bench works adds 2 ev_add one_member

abbrev lan_up : World × ℤ
lan_up = bridge_set_state bench works adds true two_members

-- The first member fails, and the bridge goes up with the other one.
one_left : lan_up.0.env.n_present ≡ pos 1
unfolding bridge_set_state bridge_member_cb ◌+ℤ◌ ◌-ℤ◌ device_set_present device_claim claim_device
    claim_result bring_up device_fill_default_settings device_broadcast_event device_broadcast_cb
    device_release device_set_ifindex
one_left = refl

second_absent : (one_member.env.member 2).present ≡ false
unfolding bridge_member_cb ◌+ℤ◌ device_set_present
second_absent = refl

second_listed : has_id 2 one_member.env.members ≡ true
unfolding bridge_member_cb ◌+ℤ◌ device_set_present
second_listed = refl

Reach-Counted_example : Counted 3 nobody lan_up.0.env
Reach-Counted_example = Reach-Counted 3 bench works adds (bench-BridgeLaws 3) lan-Counted (
    next
      (next (next here (event 1 ev_add (idle_store lan) (omega arith) refl (λ e. refl)))
        (event 2 ev_add one_member (omega arith) second_listed (λ e. second_absent)))
      (state true two_members))

-- Hooks by which a device goes away while it is set up, and the setup fails.
abbrev bridge_bench : Hooks Bridge
bridge_bench = bench

abbrev vanishing : Hooks Bridge
vanishing = record bridge_bench {
  set_state = λ d b s. (bridge_remove_member bench works adds 1 s, negsuc 0);
}

-- The member is taken out of the count twice.
counted_twice : (bridge_enable_member vanishing works adds 1 one_member).0.env.n_present ≡ negsuc 0
unfolding bridge_enable_member bridge_remove_member bridge_member_cb ◌+ℤ◌ ◌-ℤ◌ device_set_present
    device_claim claim_device claim_result bring_up device_fill_default_settings
    device_broadcast_event device_broadcast_cb device_release device_set_ifindex
counted_twice = refl
