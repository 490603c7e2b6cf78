-- ===== src/Bridge/Vlans.antt =====
-- bridge.c: the VLANs of the members.
use netifd.Prelude.{
  ℕ, List, [], ◌∷◌, Bool, true, false, not, ◌&&◌, ◌||◌, Option, none, some, ◌==◌, if◌then◌else◌,
}
use netifd.Bridge.Types.{Port, Vlan, Member, World, put_member, emit, bridge_vlan, each}

abbrev pub port_in : ℕ → List Port → Option Port
port_in d [] = none
port_in d (p ∷ l) = let rest = port_in d l in if p.ifname == d then some p else rest

-- The port of a device: a configured one, or else one that was added at run time.
unfoldable pub bridge_find_vlan_member_port : ℕ → Vlan → Option Port
bridge_find_vlan_member_port d v = elim (port_in d v.ports) [
  | some p ↦ some p
  | none ↦ port_in d v.hotplug_ports
]

abbrev pub bridge_member_vlan_is_pvid : Member → Port → Bool
bridge_member_vlan_is_pvid bm port = bm.pvid == 0 && port.untagged || port.pvid

-- __bridge_set_member_vlan
unfoldable pub send_member_vlan : Member → Vlan → Port → Bool → World → World
send_member_vlan bm v port add s =
    emit (bridge_vlan port.ifname v.vid add false (port.pvid || bm.pvid == v.vid) port.untagged) s

-- The port of member `m` in the VLAN, if it has one.
abbrev pub member_port : ℕ → Vlan → World → Option Port
member_port m v s = elim (s.usrs m).dev [ none ↦ none | some d ↦ bridge_find_vlan_member_port d v ]

unfoldable pub bridge_set_member_vlan : ℕ → Bool → Vlan → World → World
unfolding bridge_find_vlan_member_port send_member_vlan
bridge_set_member_vlan m add v s =
    let bm = s.env.member m in
    if not bm.present then s else elim (member_port m v s) [
      | none ↦ s
      | some port ↦
          let pvid = if bridge_member_vlan_is_pvid bm port then v.vid else bm.pvid in
          let bm1 = record bm { pvid = pvid } in
          send_member_vlan bm1 v port add (put_member m bm1 s)
    ]

unfoldable pub bridge_set_local_vlan : Bool → Vlan → World → World
bridge_set_local_vlan add v s =
    if not v.local && add then s else emit (bridge_vlan s.env.dev v.vid add true false false) s

unfoldable pub bridge_set_local_vlans : Bool → World → World
unfolding bridge_set_local_vlan
bridge_set_local_vlans add s = each (bridge_set_local_vlan add) s.env.vlans s

-- The VLAN that gives an untagged frame of the member its tag: the last that may, or the first
-- whose port is marked so.
unfoldable pub recalc_in : ℕ → List Vlan → World → Option Vlan → Option Vlan
unfolding bridge_find_vlan_member_port
recalc_in m [] s ret = ret
recalc_in m (v ∷ l) s ret =
    let later = recalc_in m l s (some v) in
    let same = recalc_in m l s ret in
    elim (member_port m v s) [
      | none ↦ same
      | some port ↦
          if not (bridge_member_vlan_is_pvid (s.env.member m) port)
          then same
          else if port.pvid
          then some v
          else later
    ]

unfoldable pub bridge_recalc_member_pvid : ℕ → World → Option Vlan
unfolding recalc_in
bridge_recalc_member_pvid m s = recalc_in m s.env.vlans s none

abbrev pub vid_of : Option Vlan → ℕ
vid_of none = 0
vid_of (some v) = v.vid

-- Another VLAN takes over the untagged frames of the member.
unfoldable pub move_pvid : Option Vlan → ℕ → Vlan → World → World
unfolding bridge_set_member_vlan
move_pvid none m v s = s
move_pvid (some v2) m v s =
    if v2.vid == v.vid
    then s
    else bridge_set_member_vlan m true v2 (bridge_set_member_vlan m false v2 s)

-- What bridge_set_vlan_state does for one member.
unfoldable pub set_vlan_state_of : Bool → Vlan → ℕ → World → World
unfolding send_member_vlan move_pvid bridge_recalc_member_pvid
set_vlan_state_of add v m s = elim (member_port m v s) [
  | none ↦ s
  | some port ↦
      let bm = s.env.member m in
      let next = bridge_recalc_member_pvid m s in
      let taken = record bm {
        pvid = if bridge_member_vlan_is_pvid bm port then v.vid else bm.pvid;
      } in
      let s1 = put_member m taken s in
      let s2 = move_pvid next m v s in
      let s3 = send_member_vlan (s2.env.member m) v port false s2 in
      if add
      then (if bm.present then send_member_vlan taken v port true s1 else s1)
      else if not (bm.pvid == v.vid)
      then (if bm.present then send_member_vlan bm v port false s else s)
      else if not (s2.env.member m).present
      then s2
      else put_member m (record (s3.env.member m) { pvid = vid_of next }) s3
]

unfoldable pub bridge_set_vlan_state : Bool → Vlan → World → World
unfolding bridge_set_local_vlan set_vlan_state_of
bridge_set_vlan_state add v s =
    each (set_vlan_state_of add v) s.env.members (bridge_set_local_vlan add v s)
