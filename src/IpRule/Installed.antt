-- ===== src/IpRule/Installed.antt =====
-- iprule.c: what the kernel has of the rules.
use netifd.Prelude.{
  ℕ, Bool, true, false, ◌&&◌, ◌||◌, Option, none, some, ◌==◌, ◌≡◌, arith, match_keeps,
}
use netifd.IpRule.Types.{Rule, Rules, IfaceView, is_set, put_rule, installed}
use netifd.Interface.Types.{
  IfaceEvent, ifev_down, ifev_up, ifev_up_failed, ifev_update, ifev_free, ifev_reload, ifev_link_up,
  ifev_create,
}
use netifd.IpRule.Track.{
  rule_ready, in_up, in_down, out_up, out_down, drop_rule, rule_in_cb, rule_out_cb,
}

-- A device name changes only from the empty one, or to the same.
abbrev pub may_be : ℕ → ℕ → Bool
may_be old name = old == 0 || old == name

module _ {A : Type 0} where
  -- Whether an entry of the kernel is the one for a rule: the rule is in the tree and ready, and the
  -- names are those of its devices.
  abbrev pub fits : Option (Rule A) → ℕ → ℕ → Bool
  fits none i o = false
  fits (some x) i o = rule_ready x && (x.in_dev == i && x.out_dev == o)

  -- The kernel has exactly the entries of the rules that are ready.
  abbrev pub Installed : Rules A → Type 0
  Installed s = (r i o : ℕ) → installed (r, (i, o)) s.log ≡ fits (s.rules r) i o

  module _ (r : ℕ) (x : Rule A) (s : Rules A) (at : s.rules r ≡ some x) (h : Installed s) where
    in_up-Installed :
        (name : ℕ)
        → is_set x.in_iface ≡ true
        → may_be x.in_dev name ≡ true
        → Installed (in_up r name x s)
    unfolding rule_ready
    in_up-Installed name set ok q i o = ground (arith, h q i o)

    out_up-Installed :
        (name : ℕ)
        → is_set x.out_iface ≡ true
        → may_be x.out_dev name ≡ true
        → Installed (out_up r name x s)
    unfolding rule_ready
    out_up-Installed name set ok q i o = ground (arith, h q i o)

    in_down-Installed : is_set x.in_iface ≡ true → Installed (in_down r x s)
    unfolding rule_ready
    in_down-Installed set q i o = ground (arith, h q i o)

    out_down-Installed : is_set x.out_iface ≡ true → Installed (out_down r x s)
    unfolding rule_ready
    out_down-Installed set q i o = ground (arith, h q i o)

    -- A change that leaves the names of a rule alone.
    pub put_rule-Installed :
        (y : Rule A)
        → ((i o : ℕ) → fits (some y) i o ≡ fits (some x) i o)
        → Installed (put_rule r y s)
    put_rule-Installed y same q i o = ground (arith, h q i o, same i o)

  pub drop_rule-Installed : (r : ℕ) (s : Rules A) → Installed s → Installed (drop_rule r s)
  unfolding drop_rule rule_ready
  drop_rule-Installed r s h =
      match_keeps Installed (s.rules r) (λ _. h) (λ x at q i o. ground (arith, h q i o))

  -- The conditions on an event of a rule's interface: a rule that gets a device has the interface,
  -- and has either no device from it yet, or the same.
  abbrev pub MayRise : (Rule A → Option ℕ) → (Rule A → ℕ) → ℕ → Option ℕ → Rules A → Type 0
  MayRise iface dev r name s =
      (x : Rule A) (n : ℕ)
      → s.rules r ≡ some x
      → name ≡ some n
      → (is_set (iface x) ≡ true) × (may_be (dev x) n ≡ true)

  abbrev pub Has : (Rule A → Option ℕ) → ℕ → Rules A → Type 0
  Has iface r s = (x : Rule A) → s.rules r ≡ some x → is_set (iface x) ≡ true

  pub rule_in_cb-Installed :
      (r : ℕ) (v : IfaceView) (ev : IfaceEvent) (s : Rules A)
      → Has (λ x. x.in_iface) r s
      → MayRise (λ x. x.in_iface) (λ x. x.in_dev) r v.l3_dev s
      → Installed s
      → Installed (rule_in_cb r v ev s)
  unfolding rule_in_cb
  rule_in_cb-Installed r v ifev_up s has rise h =
      match_keeps Installed (s.rules r) (λ _. h)
        (λ x at.
          match_keeps Installed v.l3_dev (λ _. h)
            (λ n e. let (set, ok) = rise x n at e in in_up-Installed r x s at h n set ok))
  rule_in_cb-Installed r v ifev_down s has rise h =
      match_keeps Installed (s.rules r) (λ _. h) (λ x at. in_down-Installed r x s at h (has x at))
  rule_in_cb-Installed r v ifev_up_failed s has rise h =
      match_keeps Installed (s.rules r) (λ _. h) (λ x at. in_down-Installed r x s at h (has x at))
  rule_in_cb-Installed r v ifev_free s has rise h =
      match_keeps Installed (s.rules r) (λ _. h) (λ x at. in_down-Installed r x s at h (has x at))
  rule_in_cb-Installed r v ifev_update s has rise h = h
  rule_in_cb-Installed r v ifev_reload s has rise h = h
  rule_in_cb-Installed r v ifev_link_up s has rise h = h
  rule_in_cb-Installed r v ifev_create s has rise h = h

  pub rule_out_cb-Installed :
      (r : ℕ) (v : IfaceView) (ev : IfaceEvent) (s : Rules A)
      → Has (λ x. x.out_iface) r s
      → MayRise (λ x. x.out_iface) (λ x. x.out_dev) r v.l3_dev s
      → Installed s
      → Installed (rule_out_cb r v ev s)
  unfolding rule_out_cb
  rule_out_cb-Installed r v ifev_up s has rise h =
      match_keeps Installed (s.rules r) (λ _. h)
        (λ x at.
          match_keeps Installed v.l3_dev (λ _. h)
            (λ n e. let (set, ok) = rise x n at e in out_up-Installed r x s at h n set ok))
  rule_out_cb-Installed r v ifev_down s has rise h =
      match_keeps Installed (s.rules r) (λ _. h) (λ x at. out_down-Installed r x s at h (has x at))
  rule_out_cb-Installed r v ifev_up_failed s has rise h =
      match_keeps Installed (s.rules r) (λ _. h) (λ x at. out_down-Installed r x s at h (has x at))
  rule_out_cb-Installed r v ifev_free s has rise h =
      match_keeps Installed (s.rules r) (λ _. h) (λ x at. out_down-Installed r x s at h (has x at))
  rule_out_cb-Installed r v ifev_update s has rise h = h
  rule_out_cb-Installed r v ifev_reload s has rise h = h
  rule_out_cb-Installed r v ifev_link_up s has rise h = h
  rule_out_cb-Installed r v ifev_create s has rise h = h
