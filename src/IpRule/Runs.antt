-- ===== src/IpRule/Runs.antt =====
-- iprule.c: all that can happen to the rules, one event after the other.
use netifd.Prelude.{ℕ, false, Option, none, some, ◌≡◌}
use netifd.Interface.Types.{IfaceEvent, ifev_create}
use netifd.IpRule.Types.{Rule, Rules, IfaceView}
use netifd.IpRule.Track.{
  rule_in_cb, rule_out_cb, generic_interface_cb, iprule_update_rule, drop_rule,
}
use netifd.IpRule.Installed.{
  Installed, MayRise, Has, rule_in_cb-Installed, rule_out_cb-Installed, drop_rule-Installed,
}
use netifd.IpRule.Registered.{insert_rule-Installed, listen_all-Installed}

module _ {A : Type 0} where
  -- A rule as iprule_add makes it.
  abbrev pub Fresh : Rule A → Type 0
  Fresh x = (x.in_dev ≡ 0) × (x.out_dev ≡ 0)

  -- One event. A rule hears of interfaces that it has. An interface that comes up has its device, or
  -- had none; one that is created is down. A new rule takes a cell that is not in use.
  pub data Event : Rules A → Rules A → Type 0 where
    in_event :
        (r : ℕ) (v : IfaceView) (ev : IfaceEvent) (s : Rules A)
        → Has (λ x. x.in_iface) r s
        → MayRise (λ x. x.in_iface) (λ x. x.in_dev) r v.l3_dev s
        → Event s (rule_in_cb r v ev s)
    out_event :
        (r : ℕ) (v : IfaceView) (ev : IfaceEvent) (s : Rules A)
        → Has (λ x. x.out_iface) r s
        → MayRise (λ x. x.out_iface) (λ x. x.out_dev) r v.l3_dev s
        → Event s (rule_out_cb r v ev s)
    created :
        (name : ℕ) (v : IfaceView) (s : Rules A)
        → v.up ≡ false
        → Event s (generic_interface_cb name v ifev_create s)
    added :
        (find : ℕ → Option IfaceView) (r : ℕ) (x : Rule A) (s : Rules A)
        → s.rules r ≡ none
        → Fresh x
        → Event s (iprule_update_rule find (some (r, x)) none s)
    removed :
        (find : ℕ → Option IfaceView) (r : ℕ) (s : Rules A)
        → Event s (iprule_update_rule find none (some r) s)
    replaced :
        (find : ℕ → Option IfaceView) (q r : ℕ) (x : Rule A) (s : Rules A)
        → (drop_rule q s).rules r ≡ none
        → Fresh x
        → Event s (iprule_update_rule find (some (r, x)) (some q) s)

  pub data Events (s : Rules A) : Rules A → Type 0 where
    nothing : Events s s
    more : {t v : Rules A} → Events s t → Event t v → Events s v

  Event-Installed : {s v : Rules A} → Event s v → Installed s → Installed v
  unfolding generic_interface_cb iprule_update_rule
  Event-Installed (in_event r v ev s has rise) h = rule_in_cb-Installed r v ev s has rise h
  Event-Installed (out_event r v ev s has rise) h = rule_out_cb-Installed r v ev s has rise h
  Event-Installed (created name v s down) h = listen_all-Installed name v s.ids s down h
  Event-Installed (added find r x s free fresh) h =
      insert_rule-Installed find r x s free fresh.0 fresh.1 h
  Event-Installed (removed find r s) h = drop_rule-Installed r s h
  Event-Installed (replaced find q r x s free fresh) h =
      insert_rule-Installed find r x (drop_rule q s) free fresh.0 fresh.1
        (drop_rule-Installed q s h)

  -- The kernel has exactly the policy rules that are ready, each under the names of the devices
  -- that its interfaces have, after any sequence of events that starts where this holds: rules that
  -- are added, replaced and removed, interfaces that are created, and events of the interfaces that
  -- a rule is bound to. An interface that comes up must have the device that the rule has for it,
  -- or the rule none; one that is created is down, and a new rule has no devices and a cell of its
  -- own. A rule counts as in the kernel if the last request about it and these names added it.
  pub Events-Installed : {s v : Rules A} → Events s v → Installed s → Installed v
  Events-Installed nothing h = h
  Events-Installed (more r e) h = Event-Installed e (Events-Installed r h)
