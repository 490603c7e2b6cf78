-- ===== src/Bridge/Quiet.antt =====
-- bridge.c: the operations that change neither the members nor which of them are present.
use netifd.Prelude.{
  ℕ, ◌≡◌, refl, ◌∙◌, List, [], ◌∷◌, Bool, true, false, not, ◌&&◌, Option, none, some, ◌==◌, arith,
  if_keeps, match_keeps, if◌then◌else◌,
}
use netifd.Prelude.Int.{ℤ}
use netifd.Settings.Defs.{DevOpt}
use netifd.Device.Store.{Hooks}
use netifd.Bridge.Types.{
  Vlan, Member, Bridge, World, Effect, put_br, put_member, emit, bridge_vlan, each,
}
use netifd.Bridge.Vlans.{
  bridge_member_vlan_is_pvid, send_member_vlan, member_port, vid_of, bridge_set_member_vlan,
  bridge_set_local_vlan, bridge_set_local_vlans, bridge_recalc_member_pvid, move_pvid,
  set_vlan_state_of, bridge_set_vlan_state,
}
use netifd.Bridge.Members.{
  is_negative, bridge_stp_notify, bridge_check_retry, bridge_disable_interface,
  bridge_reset_primary, bridge_enable_interface, is_none, first_present,
}
use netifd.Bridge.Run.{forget_ports, vlans_left, vlans_emptied}

pub record Quiet (s v : World) : Type 0 where
  pub same_present : (m : ℕ) → (v.env.member m).present ≡ (s.env.member m).present
  pub same_members : v.env.members ≡ s.env.members
  pub same_count : v.env.n_present ≡ s.env.n_present

pub Quiet-refl : (s : World) → Quiet s s
Quiet-refl s = record { same_present = λ m. refl; same_members = refl; same_count = refl }

pub Quiet-trans : (s v w : World) → Quiet s v → Quiet v w → Quiet s w
Quiet-trans s v w a b = record {
  same_present = λ m. b.same_present m ∙ a.same_present m;
  same_members = b.same_members ∙ a.same_members;
  same_count = b.same_count ∙ a.same_count;
}

pub put_member-Quiet :
    (m : ℕ) (x : Member) (s : World)
    → x.present ≡ (s.env.member m).present
    → Quiet s (put_member m x s)
put_member-Quiet m x s e = record {
  same_present = λ k. ground (arith, e);
  same_members = refl;
  same_count = refl;
}

pub each-Quiet :
    {A : Type 0} (f : A → World → World)
    → ((x : A) (s : World) → Quiet s (f x s))
    → (l : List A) (s : World) → Quiet s (each f l s)
each-Quiet f q [] s = Quiet-refl s
each-Quiet f q (x ∷ l) s = Quiet-trans s (f x s) _ (q x s) (each-Quiet f q l (f x s))

emit-Quiet : (e : Effect) (s : World) → Quiet s (emit e s)
emit-Quiet e s = record { same_present = λ m. refl; same_members = refl; same_count = refl }

pub member_vlan-Quiet :
    (m : ℕ) (add : Bool) (v : Vlan) (s : World) → Quiet s (bridge_set_member_vlan m add v s)
unfolding bridge_set_member_vlan send_member_vlan
member_vlan-Quiet m add v s =
    if_keeps (Quiet s) (not (s.env.member m).present) (λ e. Quiet-refl s)
      (λ e.
        match_keeps (Quiet s) (member_port m v s) (λ e. Quiet-refl s)
          (λ port e.
            Quiet-trans s _ _
              (put_member-Quiet m
                (record (s.env.member m) {
                  pvid =
                      if bridge_member_vlan_is_pvid (s.env.member m) port
                      then v.vid
                      else (s.env.member m).pvid;
                })
                s refl)
              (emit-Quiet _ _)))

local_vlan-Quiet : (add : Bool) (v : Vlan) (s : World) → Quiet s (bridge_set_local_vlan add v s)
unfolding bridge_set_local_vlan
local_vlan-Quiet add v s =
    if_keeps (Quiet s) (not v.local && add) (λ e. Quiet-refl s) (λ e. emit-Quiet _ s)

pub enable_interface-Quiet :
    (h : Hooks Bridge) (addbr : World → ℤ) (addif : ℕ → World → ℤ) (s : World)
    → Quiet s (bridge_enable_interface h addbr addif s).0
unfolding bridge_enable_interface bridge_stp_notify bridge_set_local_vlans
enable_interface-Quiet h addbr addif s =
    let s1 = bridge_stp_notify s in
    let s2 = emit (bridge_vlan s.env.dev 1 false true false false) s1 in
    let a : Quiet s s1 = if_keeps (Quiet s) s.env.stp (λ e. emit-Quiet _ s) (λ e. Quiet-refl s) in
    let b : Quiet s (bridge_set_local_vlans true s2) =
      Quiet-trans s s2 _ (Quiet-trans s s1 s2 a (emit-Quiet _ s1))
        (each-Quiet (bridge_set_local_vlan true) (local_vlan-Quiet true) s2.env.vlans s2) in
    let s3 : World = if s1.env.has_vlans then bridge_set_local_vlans true s2 else s1 in
    let c : Quiet s s3 = if_keeps (Quiet s) s1.env.has_vlans (λ e. b) (λ e. a) in
    if_keeps Result s.env.active (λ e. Quiet-refl s)
      (λ e.
        if_keeps Result (is_negative (addbr s1)) (λ e. a)
          (λ e. record {
            same_present = c.same_present;
            same_members = c.same_members;
            same_count = c.same_count;
          }))
  where
    Result : World × ℤ → Type 0
    Result r = Quiet s r.0

pub disable_interface-Quiet : (s : World) → Quiet s (bridge_disable_interface s)
unfolding bridge_disable_interface
disable_interface-Quiet s =
    if_keeps (Quiet s) (not s.env.active) (λ e. Quiet-refl s)
      (λ e. record { same_present = λ m. refl; same_members = refl; same_count = refl })

pub check_retry-Quiet : (s : World) → Quiet s (bridge_check_retry s)
unfolding bridge_check_retry
check_retry-Quiet s =
    if_keeps (Quiet s) (s.env.n_failed == 0) (λ e. Quiet-refl s)
      (λ e. record { same_present = λ m. refl; same_members = refl; same_count = refl })

pub reset_primary-Quiet : (s : World) → Quiet s (bridge_reset_primary s)
unfolding bridge_reset_primary
reset_primary-Quiet s =
    if_keeps (Quiet s)
      (is_none s.env.primary_port && (s.devs s.env.dev).settings.flags DevOpt.macaddr)
      (λ e. Quiet-refl s)
      (λ e.
        match_keeps (Quiet s) (first_present s.env.member s.env.members)
          (λ e. record { same_present = λ m. refl; same_members = refl; same_count = refl })
          (λ m e.
            match_keeps (Quiet s) (s.usrs m).dev
              (λ e. record { same_present = λ m. refl; same_members = refl; same_count = refl })
              (λ d e. record { same_present = λ m. refl; same_members = refl; same_count = refl })))

move_pvid-Quiet : (o : Option Vlan) (m : ℕ) (v : Vlan) (s : World) → Quiet s (move_pvid o m v s)
unfolding move_pvid
move_pvid-Quiet none m v s = Quiet-refl s
move_pvid-Quiet (some u) m v s =
    if_keeps (Quiet s) (u.vid == v.vid) (λ e. Quiet-refl s)
      (λ e. Quiet-trans s _ _ (member_vlan-Quiet m false u s) (member_vlan-Quiet m true u _))

vlan_state_of-Quiet :
    (add : Bool) (v : Vlan) (m : ℕ) (s : World) → Quiet s (set_vlan_state_of add v m s)
unfolding set_vlan_state_of send_member_vlan
vlan_state_of-Quiet add v m s =
    match_keeps (Quiet s) (member_port m v s) (λ e. Quiet-refl s)
      (λ port e.
        let bm = s.env.member m in
        let next = bridge_recalc_member_pvid m s in
        let taken = record bm {
          pvid = if bridge_member_vlan_is_pvid bm port then v.vid else bm.pvid;
        } in
        let s1 = put_member m taken s in
        let s2 = move_pvid next m v s in
        let s3 = send_member_vlan (s2.env.member m) v port false s2 in
        let a : Quiet s s1 = put_member-Quiet m taken s refl in
        let b : Quiet s s2 = move_pvid-Quiet next m v s in
        let c : Quiet s s3 = Quiet-trans s s2 s3 b (emit-Quiet _ s2) in
        if_keeps (Quiet s) add
          (λ e.
            if_keeps (Quiet s) bm.present (λ e. Quiet-trans s s1 _ a (emit-Quiet _ s1)) (λ e. a))
          (λ e.
            if_keeps (Quiet s) (not (bm.pvid == v.vid))
              (λ e. if_keeps (Quiet s) bm.present (λ e. emit-Quiet _ s) (λ e. Quiet-refl s))
              (λ e.
                if_keeps (Quiet s) (not (s2.env.member m).present) (λ e. b)
                  (λ e. Quiet-trans s s3 _ c (
                    put_member-Quiet m (record (s3.env.member m) { pvid = vid_of next }) s3
                      refl)))))

pub forget_ports-Quiet : (d : ℕ) (s : World) → Quiet s (forget_ports d s)
unfolding forget_ports bridge_set_vlan_state
forget_ports-Quiet d s =
    let s1 = put_br (record (s.env) { vlans = vlans_left d s.env.vlans }) s in
    let a : Quiet s s1 = record {
      same_present = λ m. refl;
      same_members = refl;
      same_count = refl;
    } in
    if_keeps (Quiet s) (s.env.has_vlans && s.env.active)
      (λ e. Quiet-trans s s1 _ a (
        each-Quiet (bridge_set_vlan_state false)
          (λ v t.
            Quiet-trans t _ _ (local_vlan-Quiet false v t) (
              each-Quiet (set_vlan_state_of false v) (vlan_state_of-Quiet false v) t.env.members _))
          (vlans_emptied d s.env.vlans) s1))
      (λ e. a)
