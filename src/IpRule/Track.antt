-- ===== src/IpRule/Track.antt =====
-- iprule.c: rules that follow the devices of interfaces, and their requests to the kernel.
use netifd.Prelude.{
  ℕ, List, [], ◌∷◌, Bool, true, false, not, ◌&&◌, ◌||◌, Option, none, some, ◌==◌, if◌then◌else◌,
}
use netifd.Device.Users.{remove_id}
use netifd.Interface.Types.{IfaceEvent, ifev_up, ifev_down, ifev_up_failed, ifev_free, ifev_create}
use netifd.IpRule.Types.{Rule, Rules, IfaceView, is_set, put_rule, request, request_if}

-- strcmp with a rule's interface, which only counts if it has one.
abbrev pub names : Option ℕ → ℕ → Bool
names none name = false
names (some n) name = n == name

module _ {A : Type 0} where
  unfoldable pub rule_ready : Rule A → Bool
  rule_ready x =
      if is_set x.out_iface && x.out_dev == 0
      then false
      else not (is_set x.in_iface && x.in_dev == 0)

  -- The interface of a rule has come up: on a device of that name.
  abbrev pub in_up : ℕ → ℕ → Rule A → Rules A → Rules A
  in_up r name x s =
      let x1 = record x { in_dev = name } in request_if (rule_ready x1) true r x1 (put_rule r x1 s)

  abbrev pub in_down : ℕ → Rule A → Rules A → Rules A
  in_down r x s = put_rule r (record x { in_dev = 0 }) (request_if (rule_ready x) false r x s)

  abbrev pub out_up : ℕ → ℕ → Rule A → Rules A → Rules A
  out_up r name x s =
      let x1 = record x { out_dev = name } in request_if (rule_ready x1) true r x1 (put_rule r x1 s)

  abbrev pub out_down : ℕ → Rule A → Rules A → Rules A
  out_down r x s = put_rule r (record x { out_dev = 0 }) (request_if (rule_ready x) false r x s)

  -- On a rule that is in the tree.
  abbrev pub with_rule : ℕ → (Rule A → Rules A) → Rules A → Rules A
  with_rule r f s = elim (s.rules r) [ none ↦ s | some x ↦ f x ]

  unfoldable pub rule_in_cb : ℕ → IfaceView → IfaceEvent → Rules A → Rules A
  rule_in_cb r iface ifev_up s =
      with_rule r (λ x. elim iface.l3_dev [ none ↦ s | some name ↦ in_up r name x s ]) s
  rule_in_cb r iface ifev_down s = with_rule r (λ x. in_down r x s) s
  rule_in_cb r iface ifev_up_failed s = with_rule r (λ x. in_down r x s) s
  rule_in_cb r iface ifev_free s = with_rule r (λ x. in_down r x s) s
  rule_in_cb r iface _ s = s

  unfoldable pub rule_out_cb : ℕ → IfaceView → IfaceEvent → Rules A → Rules A
  rule_out_cb r iface ifev_up s =
      with_rule r (λ x. elim iface.l3_dev [ none ↦ s | some name ↦ out_up r name x s ]) s
  rule_out_cb r iface ifev_down s = with_rule r (λ x. out_down r x s) s
  rule_out_cb r iface ifev_up_failed s = with_rule r (λ x. out_down r x s) s
  rule_out_cb r iface ifev_free s = with_rule r (λ x. out_down r x s) s
  rule_out_cb r iface _ s = s

  -- interface_add_user: an interface that is up tells its new user so.
  unfoldable pub add_in_user : ℕ → IfaceView → Rules A → Rules A
  unfolding rule_in_cb
  add_in_user r iface s =
      let s1 = with_rule r (λ x. put_rule r (record x { in_user = true }) s) s in
      if iface.up then rule_in_cb r iface ifev_up s1 else s1

  unfoldable pub add_out_user : ℕ → IfaceView → Rules A → Rules A
  unfolding rule_out_cb
  add_out_user r iface s =
      let s1 = with_rule r (λ x. put_rule r (record x { out_user = true }) s) s in
      if iface.up then rule_out_cb r iface ifev_up s1 else s1

  -- The loop body of generic_interface_cb, for a rule that is in the tree.
  unfoldable pub listen : ℕ → IfaceView → ℕ → Rule A → Rules A → Rules A
  unfolding add_in_user add_out_user rule_ready
  listen name iface r x s =
      let s1 = if names x.out_iface name then add_out_user r iface s else s in
      let s2 = if names x.in_iface name then add_in_user r iface s1 else s1 in
      if rule_ready x then s else s2

  abbrev pub listen_all : ℕ → IfaceView → List ℕ → Rules A → Rules A
  listen_all name iface [] s = s
  listen_all name iface (r ∷ l) s =
      listen_all name iface l (with_rule r (λ x. listen name iface r x s) s)

  unfoldable pub generic_interface_cb : ℕ → IfaceView → IfaceEvent → Rules A → Rules A
  generic_interface_cb name iface ifev_create s = listen_all name iface s.ids s
  generic_interface_cb name iface _ s = s

  -- vlist_find, and the new user if there is such an interface.
  abbrev pub register_user :
      (ℕ → Option IfaceView) → Option ℕ → (IfaceView → Rules A → Rules A) → Rules A → Rules A
  register_user find none add s = s
  register_user find (some name) add s = elim (find name) [ none ↦ s | some iface ↦ add iface s ]

  unfoldable pub register_interfaces : (ℕ → Option IfaceView) → ℕ → Rule A → Rules A → Rules A
  unfolding add_in_user add_out_user
  register_interfaces find r x s =
      register_user find x.out_iface (add_out_user r)
        (register_user find x.in_iface (add_in_user r) s)

  -- The rule is freed; its users are taken off their interfaces.
  unfoldable pub drop_rule : ℕ → Rules A → Rules A
  drop_rule r s =
      with_rule r
        (λ x.
          let s1 = request_if (rule_ready x) false r x s in
          record s1 { rules = λ q. if r == q then none else s.rules q; ids = remove_id r s.ids })
        s

  unfoldable pub insert_rule : (ℕ → Option IfaceView) → ℕ → Rule A → Rules A → Rules A
  unfolding register_interfaces
  insert_rule find r x s =
      let s1 = record (put_rule r x s) { ids = r ∷ s.ids } in
      if is_set x.in_iface || is_set x.out_iface
      then register_interfaces find r x s1
      else request true r x s1

  unfoldable pub iprule_update_rule :
      (ℕ → Option IfaceView) → Option (ℕ × Rule A) → Option ℕ → Rules A → Rules A
  unfolding insert_rule drop_rule
  iprule_update_rule find new old s =
      let s1 : Rules A = elim old [ none ↦ s | some r ↦ drop_rule r s ] in
      elim new [ none ↦ s1 | some p ↦ insert_rule find p.0 p.1 s1 ]
