-- ===== src/Bridge/Run.antt =====
-- bridge.c: the events of the members, and the state callback of the bridge.
use netifd.Prelude.{
  ℕ, List, [], ◌∷◌, Bool, true, false, not, ◌&&◌, ◌||◌, none, some, ◌==◌, if◌then◌else◌,
}
use netifd.Prelude.Int.{ℤ, pos, negsuc, ◌+ℤ◌}
use netifd.Settings.Defs.{DevOpt, no_flags, flag_if, ◌∩◌}
use netifd.Device.Store.{Hooks, DeviceEvent, ev_add, ev_remove, auth_up, link_up, link_down}
use netifd.Device.Claim.{is_zero}
use netifd.Device.Present.{device_set_present}
use netifd.Device.Users.{set_device_state, device_remove_user, remove_id}
use netifd.Bridge.Types.{Port, Vlan, Bridge, World, put_br, put_member, each, each_member}
use netifd.Bridge.Vlans.{bridge_set_vlan_state}
use netifd.Bridge.Members.{
  bridge_reset_primary, bridge_check_retry, bridge_disable_interface, bridge_enable_interface,
  bridge_disable_member, bridge_enable_member, bridge_remove_member, is_negative,
}

abbrev pub enoent : ℤ
enoent = negsuc 1

abbrev pub no_items : {A : Type 0} → List A → Bool
no_items [] = true
no_items (x ∷ l) = false

abbrev pub ports_without : ℕ → List Port → List Port
ports_without d [] = []
ports_without d (p ∷ l) = let rest = ports_without d l in if p.ifname == d then rest else p ∷ rest

abbrev pub has_port : ℕ → List Port → Bool
has_port d [] = false
has_port d (p ∷ l) = p.ifname == d || has_port d l

-- A VLAN that was there for a port of this device only.
abbrev pub is_emptied : ℕ → Vlan → Bool
is_emptied d v =
    has_port d v.hotplug_ports
    && no_items (ports_without d v.hotplug_ports)
    && no_items v.ports
    && v.hotplug

abbrev pub vlans_left : ℕ → List Vlan → List Vlan
vlans_left d [] = []
vlans_left d (v ∷ l) =
    let rest = vlans_left d l in
    if is_emptied d v
    then rest
    else record v { hotplug_ports = ports_without d v.hotplug_ports } ∷ rest

abbrev pub vlans_emptied : ℕ → List Vlan → List Vlan
vlans_emptied d [] = []
vlans_emptied d (v ∷ l) =
    let rest = vlans_emptied d l in
    if is_emptied d v then record v { hotplug_ports = [] } ∷ rest else rest

-- The ports of a device that were added at run time go, and the VLANs with no other port.
unfoldable pub forget_ports : ℕ → World → World
unfolding bridge_set_vlan_state
forget_ports d s =
    let b = s.env in
    let s1 = put_br (record b { vlans = vlans_left d b.vlans }) s in
    if b.has_vlans && b.active
    then each (bridge_set_vlan_state false) (vlans_emptied d b.vlans) s1
    else s1

-- `addbr` and `addif` are the results of system_bridge_addbr and system_bridge_addif.
module _ (h : Hooks Bridge) (addbr : World → ℤ) (addif : ℕ → World → ℤ) where
  abbrev pub enable : ℕ → World → World
  enable m s = (bridge_enable_member h addbr addif m s).0

  abbrev pub stop_timer : ℕ → World → World
  stop_timer m s = put_member m (record (s.env.member m) { check_timer = false }) s

  -- A present device is shown as gone and as there again, so that another bridge can claim it.
  abbrev pub toggle_present : ℕ → World → World
  toggle_present d s =
      if (s.devs d).present then device_set_present h d true (device_set_present h d false s) else s

  unfoldable pub bridge_free_member : ℕ → World → World
  unfolding bridge_remove_member forget_ports
  bridge_free_member m s =
      let s1 = bridge_remove_member h addbr addif m s in
      elim (s.usrs m).dev [
        | none ↦ record s1 { faulted = true }
        | some d ↦ toggle_present d (stop_timer m (device_remove_user h m (forget_ports d s1)))
      ]

  -- vlist_delete of a member
  unfoldable pub delete_member : ℕ → World → World
  unfolding bridge_free_member
  delete_member m s =
      bridge_free_member m (put_br (record (s.env) { members = remove_id m s.env.members }) s)

  -- The MTU is set again, which a new member may have changed in the kernel.
  abbrev pub apply_mtu : World → World
  apply_mtu s =
      let set = (s.devs s.env.dev).settings in
      let mtus = flag_if true DevOpt.mtu (flag_if true DevOpt.mtu6 no_flags) in
      h.system_if_apply_settings s.env.dev (record set { flags = set.flags ∩ mtus }) s

  unfoldable pub member_ready : ℕ → World → World
  unfolding bridge_enable_member
  member_ready m s =
      let (s1, ret) = bridge_enable_member h addbr addif m s in
      if (s.devs s.env.dev).active == 0 then s else if not (is_zero ret) then s1 else apply_mtu s1

  abbrev pub count_member : ℕ → World → World
  count_member m s =
      let s1 = put_member m (record (s.env.member m) { present = true }) s in
      put_br (record (s1.env) { n_present = s.env.n_present +ℤ pos 1 }) s1

  -- The assert fails if the member was present already.
  unfoldable pub member_added : ℕ → World → World
  unfolding member_ready
  member_added m s =
      let s1 = record (count_member m s) { faulted = s.faulted || (s.env.member m).present } in
      member_ready m (
        if is_zero (s1.env.n_present +ℤ negsuc 0)
        then device_set_present h s1.env.dev true s1
        else s1)

  unfoldable pub bridge_member_cb : ℕ → DeviceEvent → World → World
  unfolding member_added member_ready bridge_disable_member bridge_remove_member delete_member
  bridge_member_cb m ev_add s = member_added m s
  bridge_member_cb m auth_up s = member_ready m s
  bridge_member_cb m link_up s =
      if s.env.has_vlans then put_member m (record (s.env.member m) { check_timer = true }) s else s
  bridge_member_cb m link_down s = elim (s.usrs m).dev [
    | none ↦ record s { faulted = true }
    | some d ↦
        if not (s.devs d).settings.auth then s else bridge_disable_member h addbr addif m true s
  ]
  bridge_member_cb m ev_remove s =
      if (s.usrs m).hotplug then delete_member m s else bridge_remove_member h addbr addif m s
  bridge_member_cb m _ s = s

  -- `check` is the result of system_bridge_vlan_check.
  unfoldable pub bridge_member_check_cb : ℤ → ℕ → World → World
  unfolding bridge_disable_member bridge_enable_member
  bridge_member_check_cb check m s =
      let s0 = stop_timer m s in
      if is_zero check || is_negative check
      then s0
      else enable m (bridge_disable_member h addbr addif m true s0)

  unfoldable pub bridge_set_down : World → World × ℤ
  unfolding set_device_state bridge_disable_member bridge_disable_interface
  bridge_set_down s =
      let s1 = (set_device_state h s.env.dev false s).0 in
      (
        bridge_disable_interface
            (each_member (λ m. bridge_disable_member h addbr addif m false) s1.env.members s1),
        pos 0,
      )

  -- The members are tried, and the bridge goes up unless it would have no member.
  unfoldable pub enable_members : World → World × ℤ
  unfolding bridge_enable_member bridge_check_retry bridge_reset_primary set_device_state
      bridge_set_down bridge_disable_interface
  enable_members s =
      let s1 = put_br (record (s.env) { n_failed = 0 }) s in
      let s2 = bridge_check_retry (each_member enable s1.env.members s1) in
      let s3 = bridge_disable_interface s2 in
      let (s4, ret) = set_device_state h s2.env.dev true (bridge_reset_primary s2) in
      if not s2.env.force_active && is_zero s2.env.n_present
      then (device_set_present h s3.env.dev false s3, enoent)
      else if is_negative ret
      then ((bridge_set_down s4).0, ret)
      else (s4, ret)

  abbrev pub try_members : World × ℤ → World × ℤ
  try_members (s, ret) = if is_zero ret then enable_members s else (s, ret)

  unfoldable pub bridge_set_up : World → World × ℤ
  unfolding bridge_enable_interface enable_members
  bridge_set_up s0 =
      let s = put_br (record (s0.env) { has_vlans = not (no_items s0.env.vlans) }) s0 in
      if not (is_zero s.env.n_present)
      then enable_members s
      else if not s.env.force_active
      then (s, enoent)
      else try_members (bridge_enable_interface h addbr addif s)

  unfoldable pub bridge_set_state : Bool → World → World × ℤ
  unfolding bridge_set_up bridge_set_down
  bridge_set_state true s = bridge_set_up s
  bridge_set_state false s = bridge_set_down s

  abbrev pub retry_member : ℕ → World → World
  retry_member m s = if (s.env.member m).present then s else elim (s.usrs m).dev [
    | none ↦ record s { faulted = true }
    | some d ↦ if not (s.devs d).present then s else enable m (count_member m s)
  ]

  unfoldable pub bridge_retry_members : World → World
  unfolding bridge_enable_member
  bridge_retry_members s =
      let s1 = put_br (record (s.env) { n_failed = 0; retry = false }) s in
      each_member retry_member s1.env.members s1

  unfoldable pub bridge_hotplug_prepare : World → World
  bridge_hotplug_prepare s =
      device_set_present h s.env.dev true (put_br (record (s.env) { force_active = true }) s)
