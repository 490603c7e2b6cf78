-- ===== src/Examples/Stores.antt =====
-- A store of devices with hooks that can be run: a device has a link while it is set up, device 1
-- cannot be set up, and no user reacts to an event.
use netifd.Prelude.{
  ℕ, ◌≡◌, refl, List, [], ◌∷◌, Bool, true, false, not, none, some, ◌==◌, arith, if_keeps,
  match_keeps, if◌then◌else◌,
}
use netifd.Prelude.Int.{pos, negsuc}
use netifd.Settings.Defs.{Settings, no_flags}
use netifd.Device.Store.{Store, Device, User, Hooks, put_dev, put_usr, down, teardown}
use netifd.Device.Claim.{drop_claim, device_broadcast_event, switch_off, bring_down, device_release}
use netifd.Device.Users.{released}
use netifd.Device.Counting.{count}
use netifd.Device.Laws.{Inv, SoleHolder, HookLaws, put_dev-Inv}
use netifd.Device.Frame.{EnvLaws}
use netifd.Device.Refcount.{broadcast_keeps}

abbrev pub no_settings : Settings
no_settings = record {
  flags = no_flags;
  valid_flags = no_flags;
  mtu = 0;
  mtu6 = 0;
  txqueuelen = 0;
  macaddr = [];
  ipv6 = false;
  promisc = false;
  rpfilter = 0;
  acceptlocal = false;
  igmpversion = 0;
  mldversion = 0;
  neigh4reachabletime = 0;
  neigh6reachabletime = 0;
  neigh4gcstaletime = 0;
  neigh6gcstaletime = 0;
  neigh4locktime = 0;
  dadtransmits = 0;
  multicast_to_unicast = false;
  multicast_router = 0;
  multicast_fast_leave = false;
  multicast = false;
  learning = false;
  unicast_flood = false;
  sendredirects = false;
  ip6segmentrouting = false;
  isolate = false;
  drop_v4_unicast_in_l2_multicast = false;
  drop_v6_unicast_in_l2_multicast = false;
  drop_gratuitous_arp = false;
  drop_unsolicited_na = false;
  arp_accept = false;
  auth = false;
  speed = 0;
  duplex = false;
  ip_forwarding = false;
  ip6_forwarding = false;
  arp = false;
  accept_routing_header = pos 0;
  hop_limit = 0;
}

-- Each device is present and has one user, the cell of its number; the cells from 3 on are of the
-- users that are embedded in devices.
abbrev device_at : ℕ → Device
device_at d = record {
  ifname = "eth";
  ifindex = 0;
  users = d ∷ [];
  aliases = [];
  sys_present = true;
  present = true;
  active = 0;
  link_active = false;
  auth_status = false;
  external = false;
  disabled = false;
  deferred = false;
  current_config = true;
  default_config = false;
  parent = 3;
  orig_settings = no_settings;
  settings = no_settings;
}

abbrev user_at : ℕ → User
user_at u = record { claimed = false; hotplug = false; alias = false; dev = some u }

abbrev pub idle_store : {E : Type 0} → E → Store E
idle_store env = record {
  devs = device_at;
  usrs = user_at;
  freeing = false;
  faulted = false;
  env = env;
}

module _ {E : Type 0} where
  pub idle_store-Inv : (env : E) → Inv 3 (idle_store env)
  unfolding count
  idle_store-Inv env = record {
    counted = λ d. refl;
    bound = λ u e. cc;
    sound = refl;
    shown = λ d. refl;
  }

  abbrev pub walk_list : List ℕ → (ℕ → Store E → Store E) → Store E → Store E
  walk_list [] f s = s
  walk_list (u ∷ l) f s = walk_list l f (f u s)

  abbrev pub bench : Hooks E
  bench = record {
    cb = λ u ev s. s;
    set_state = λ d b s.
        (put_dev d (record (s.devs d) { link_active = b }) s, if d == 1 then negsuc 0 else pos 0);
    walk = λ l f s. walk_list (l s) f s;
    system_if_resolve = λ d s. d;
    system_if_get_settings = λ d s. no_settings;
    system_if_apply_settings = λ d set s. s;
    system_if_up = λ d s. s;
    system_if_down = λ d s. s;
    system_if_get_parent = λ d s. none;
    config_get_default_macaddr = λ name. none;
  }

  walk_list-keeps :
      (P : Store E → Type 0) (l : List ℕ) (f : ℕ → Store E → Store E) (s : Store E)
      → ((u : ℕ) (t : Store E) → P t → P (f u t))
      → P s
      → P (walk_list l f s)
  walk_list-keeps P [] f s keep p = p
  walk_list-keeps P (u ∷ l) f s keep p = walk_list-keeps P l f (f u s) keep (keep u s p)

  set_state-Sole :
      (u d : ℕ) (b : Bool) (s : Store E)
      → SoleHolder u d s
      → SoleHolder u d (put_dev d (record (s.devs d) { link_active = b }) s)
  set_state-Sole u d b s p = record {
    claims = p.claims;
    bound_to = p.bound_to;
    only = ground (arith, p.only);
  }

  pub bench-HookLaws : (n : ℕ) → HookLaws n bench
  bench-HookLaws n = record {
    walk_keeps = λ P l f s keep p. walk_list-keeps P (l s) f s keep p;
    cb_keeps = λ u ev s i. i;
    set_state_keeps = λ d b s i. put_dev-Inv n d _ s refl (i.shown d) i;
    apply_keeps = λ d s i. i;
    cb_quiet = λ v u d ev s q p. p;
    set_state_quiet = λ u d s p. set_state-Sole u d true s p;
  }

  pub bench-EnvLaws : (Q : E → Type 0) → EnvLaws Q bench
  bench-EnvLaws Q = record {
    walk_keeps = λ P l f s keep p. walk_list-keeps P (l s) f s keep p;
    cb_keeps = λ u ev s q. q;
    set_state_keeps = λ d b s q. q;
  }

  abbrev IsFree : ℕ → Store E → Type 0
  IsFree u s = (s.usrs u).claimed ≡ false

  bring_down-IsFree : (n u d : ℕ) (s : Store E) → IsFree u s → IsFree u (bring_down bench d s)
  unfolding bring_down switch_off
  bring_down-IsFree n u d s p =
      let laws = bench-HookLaws n in
      let a = broadcast_keeps n bench laws (IsFree u) d teardown s (λ v t q. q) p in
      let s1 = device_broadcast_event bench d teardown s in
      let b =
        if_keeps (IsFree u) (s1.devs d).external {x = s1} {y = (bench.set_state d false s1).0}
          (λ e. a) (λ e. a) in
      if_keeps (IsFree u) (not (((switch_off bench d s1).devs d).active == 0)) (λ e. b)
        (λ e. broadcast_keeps n bench laws (IsFree u) d down _ (λ v t q. q) b)

  -- With these hooks nobody claims again during a release.
  pub bench-released : (n u : ℕ) (s : Store E) → Inv n s → IsFree u (released bench u s)
  unfolding device_release
  bench-released n u s i =
      let s0 = put_usr u (record (s.usrs u) { hotplug = false }) s in
      if_keeps (IsFree u) (not (s0.usrs u).claimed) (λ e. ground arith)
        (λ held.
          match_keeps (IsFree u) (s0.usrs u).dev
            (λ e. absurd (i.bound u (ground arith) (ground arith)))
            (λ d at.
              let dropped : IsFree u (drop_claim u d s0) = ground arith in
              if_keeps (IsFree u) (not (((drop_claim u d s0).devs d).active == 0)) (λ e. dropped)
                (λ e. bring_down-IsFree n u d _ dropped)))
