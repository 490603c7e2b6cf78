-- ===== src/IpRule/Registered.antt =====
-- iprule.c: rules that come to the tree and to their interfaces.
use netifd.Prelude.{
  ℕ, List, [], ◌∷◌, Bool, true, false, ◌||◌, Option, none, some, ◌≡◌, refl, arith, if◌then◌else◌,
  if_keeps, match_keeps,
}
use netifd.Interface.Types.{ifev_up}
use netifd.IpRule.Types.{Rule, Rules, IfaceView, is_set, put_rule, request}
use netifd.IpRule.Track.{
  rule_ready, with_rule, add_in_user, add_out_user, names, listen, listen_all, register_user,
  register_interfaces, insert_rule, rule_in_cb, in_up,
}
use netifd.IpRule.Installed.{
  Installed, may_be, put_rule-Installed, rule_in_cb-Installed, rule_out_cb-Installed,
}

waits-may_be : (a n : ℕ) → a ≡ 0 → may_be a n ≡ true
waits-may_be a n e = ground arith

off_on {ℓ} : {T : Type ℓ} {b : Bool} → b ≡ false → b ≡ true → T
off_on off on = ground arith

module _ {A : Type 0} where
  abbrev marked_in : ℕ → Rules A → Rules A
  marked_in r s = with_rule r (λ x. put_rule r (record x { in_user = true }) s) s

  abbrev marked_out : ℕ → Rules A → Rules A
  marked_out r s = with_rule r (λ x. put_rule r (record x { out_user = true }) s) s

  marked_in-Installed : (r : ℕ) (s : Rules A) → Installed s → Installed (marked_in r s)
  unfolding rule_ready
  marked_in-Installed r s h =
      match_keeps Installed (s.rules r) (λ _. h)
        (λ x at. put_rule-Installed r x s at h (record x { in_user = true }) (λ i o. refl))

  marked_out-Installed : (r : ℕ) (s : Rules A) → Installed s → Installed (marked_out r s)
  unfolding rule_ready
  marked_out-Installed r s h =
      match_keeps Installed (s.rules r) (λ _. h)
        (λ x at. put_rule-Installed r x s at h (record x { out_user = true }) (λ i o. refl))

  -- A rule that has the interface and no device of it.
  abbrev InWaits : ℕ → Rules A → Type 0
  InWaits r s = (x : Rule A) → s.rules r ≡ some x → (is_set x.in_iface ≡ true) × (x.in_dev ≡ 0)

  abbrev OutWaits : ℕ → Rules A → Type 0
  OutWaits r s = (x : Rule A) → s.rules r ≡ some x → (is_set x.out_iface ≡ true) × (x.out_dev ≡ 0)

  marked_in-InWaits : (r : ℕ) (s : Rules A) → InWaits r s → InWaits r (marked_in r s)
  marked_in-InWaits r s w =
      match_keeps (InWaits r) (s.rules r) (λ _. w) (λ x at y e. ground (arith, w x at))

  marked_out-OutWaits : (r : ℕ) (s : Rules A) → OutWaits r s → OutWaits r (marked_out r s)
  marked_out-OutWaits r s w =
      match_keeps (OutWaits r) (s.rules r) (λ _. w) (λ x at y e. ground (arith, w x at))

  add_in_user-Installed :
      (r : ℕ) (v : IfaceView) (s : Rules A)
      → (v.up ≡ true → InWaits r s)
      → Installed s
      → Installed (add_in_user r v s)
  unfolding add_in_user
  add_in_user-Installed r v s w h =
      let h1 = marked_in-Installed r s h in
      if_keeps Installed v.up
        (λ on.
          let w1 = marked_in-InWaits r s (w on) in
          rule_in_cb-Installed r v ifev_up (marked_in r s) (λ x at. (w1 x at).0)
            (λ x n at e. ((w1 x at).0, waits-may_be x.in_dev n (w1 x at).1)) h1)
        (λ _. h1)

  add_out_user-Installed :
      (r : ℕ) (v : IfaceView) (s : Rules A)
      → (v.up ≡ true → OutWaits r s)
      → Installed s
      → Installed (add_out_user r v s)
  unfolding add_out_user
  add_out_user-Installed r v s w h =
      let h1 = marked_out-Installed r s h in
      if_keeps Installed v.up
        (λ on.
          let w1 = marked_out-OutWaits r s (w on) in
          rule_out_cb-Installed r v ifev_up (marked_out r s) (λ x at. (w1 x at).0)
            (λ x n at e. ((w1 x at).0, waits-may_be x.out_dev n (w1 x at).1)) h1)
        (λ _. h1)

  -- An interface that is only just created is down.
  listen-Installed :
      (name : ℕ) (v : IfaceView) (r : ℕ) (x : Rule A) (s : Rules A)
      → v.up ≡ false
      → Installed s
      → Installed (listen name v r x s)
  unfolding listen
  listen-Installed name v r x s down h =
      let h1 =
        if_keeps Installed (names x.out_iface name)
          (λ _. add_out_user-Installed r v s (off_on down) h) (λ _. h) in
      if_keeps Installed (rule_ready x) (λ _. h)
        (λ _.
          if_keeps Installed (names x.in_iface name)
            (λ _.
              add_in_user-Installed r v (if names x.out_iface name then add_out_user r v s else s)
                (off_on down) h1)
            (λ _. h1))

  pub listen_all-Installed :
      (name : ℕ) (v : IfaceView) (l : List ℕ) (s : Rules A)
      → v.up ≡ false
      → Installed s
      → Installed (listen_all name v l s)
  listen_all-Installed name v [] s down h = h
  listen_all-Installed name v (r ∷ l) s down h =
      listen_all-Installed name v l _ down
        (match_keeps Installed (s.rules r) (λ _. h) (λ x at. listen-Installed name v r x s down h))

  -- Coming to the interface of the one side leaves the other waiting.
  marked_in-OutWaits : (r : ℕ) (s : Rules A) → OutWaits r s → OutWaits r (marked_in r s)
  marked_in-OutWaits r s w =
      match_keeps (OutWaits r) (s.rules r) (λ _. w) (λ x at y e. ground (arith, w x at))

  in_up-OutWaits :
      (r n : ℕ) (x : Rule A) (s : Rules A)
      → s.rules r ≡ some x
      → OutWaits r s
      → OutWaits r (in_up r n x s)
  in_up-OutWaits r n x s at w =
      if_keeps (OutWaits r) (rule_ready (record x { in_dev = n })) (λ _ y e. ground (arith, w x at))
        (λ _ y e. ground (arith, w x at))

  add_in_user-OutWaits :
      (r : ℕ) (v : IfaceView) (s : Rules A) → OutWaits r s → OutWaits r (add_in_user r v s)
  unfolding add_in_user rule_in_cb
  add_in_user-OutWaits r v s w =
      let s1 = marked_in r s in
      let w1 = marked_in-OutWaits r s w in
      if_keeps (OutWaits r) v.up
        (λ _.
          match_keeps (OutWaits r) (s1.rules r) (λ _. w1)
            (λ x at.
              match_keeps (OutWaits r) v.l3_dev (λ _. w1) (λ n _. in_up-OutWaits r n x s1 at w1)))
        (λ _. w1)

  register_user_keeps {ℓ} :
      (P : Rules A → Type ℓ) (find : ℕ → Option IfaceView) (o : Option ℕ)
      (add : IfaceView → Rules A → Rules A) (s : Rules A)
      → P s
      → ((v : IfaceView) → is_set o ≡ true → P (add v s))
      → P (register_user find o add s)
  register_user_keeps P find none add s p f = p
  register_user_keeps P find (some n) add s p f = match_keeps P (find n) (λ _. p) (λ v _. f v refl)

  -- A new rule that has an interface waits for it.
  abbrev inserted : ℕ → Rule A → Rules A → Rules A
  inserted r x s = record (put_rule r x s) { ids = r ∷ s.ids }

  new-Installed :
      (r : ℕ) (x : Rule A) (s : Rules A)
      → s.rules r ≡ none
      → x.in_dev ≡ 0
      → x.out_dev ≡ 0
      → (is_set x.in_iface || is_set x.out_iface) ≡ true
      → Installed s
      → Installed (inserted r x s)
  unfolding rule_ready
  new-Installed r x s free i0 o0 set h q i o = ground (arith, h q i o)

  fixed-Installed :
      (r : ℕ) (x : Rule A) (s : Rules A)
      → s.rules r ≡ none
      → (is_set x.in_iface || is_set x.out_iface) ≡ false
      → Installed s
      → Installed (request true r x (inserted r x s))
  unfolding rule_ready
  fixed-Installed r x s free set h q i o = ground (arith, h q i o)

  new-InWaits :
      (r : ℕ) (x : Rule A) (s : Rules A)
      → is_set x.in_iface ≡ true
      → x.in_dev ≡ 0
      → InWaits r (inserted r x s)
  new-InWaits r x s set i0 y e = ground arith

  new-OutWaits :
      (r : ℕ) (x : Rule A) (s : Rules A)
      → is_set x.out_iface ≡ true
      → x.out_dev ≡ 0
      → OutWaits r (inserted r x s)
  new-OutWaits r x s set i0 y e = ground arith

  pub insert_rule-Installed :
      (find : ℕ → Option IfaceView) (r : ℕ) (x : Rule A) (s : Rules A)
      → s.rules r ≡ none
      → x.in_dev ≡ 0
      → x.out_dev ≡ 0
      → Installed s
      → Installed (insert_rule find r x s)
  unfolding insert_rule register_interfaces
  insert_rule-Installed find r x s free i0 o0 h =
      let P : Rules A → Type 0 = λ t. Installed t × (is_set x.out_iface ≡ true → OutWaits r t) in
      if_keeps Installed (is_set x.in_iface || is_set x.out_iface)
        (λ set.
          let h1 = new-Installed r x s free i0 o0 set h in
          let (h2, w2) =
            register_user_keeps P find x.in_iface (add_in_user r) (inserted r x s)
              (h1, λ on. new-OutWaits r x s on o0)
              (λ v on. (
                add_in_user-Installed r v (inserted r x s) (λ _. new-InWaits r x s on i0) h1,
                λ side. add_in_user-OutWaits r v (inserted r x s) (new-OutWaits r x s side o0),
              )) in
          register_user_keeps Installed find x.out_iface (add_out_user r) _ h2
            (λ v on. add_out_user-Installed r v _ (λ _. w2 on) h2))
        (λ set. fixed-Installed r x s free set h)
