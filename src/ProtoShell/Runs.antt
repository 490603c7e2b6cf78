-- ===== src/ProtoShell/Runs.antt =====
-- Every sequence of events that a script handler can meet.
use netifd.Prelude.{ℕ, ◌≡◌, ap, ◌∙◌, List, Bool, true, false, Option, none, some, if_keeps}
use netifd.ProtoShell.State.{ProtoCmd, ifpev_up, ifpev_link_lost, State, Config, Hooks}
use netifd.ProtoShell.Machine.{
  proto_shell_handler, proto_shell_teardown_timeout_cb, proto_shell_script_cb, proto_shell_task_cb,
  proto_shell_checkup_timeout_cb,
}
use netifd.ProtoShell.Notify.{
  Status, ok, invalid_argument, Item, is_stopping, settle_link, proto_shell_update_link,
  proto_shell_run_command, proto_shell_kill_command, proto_shell_setup_failed,
}
use netifd.ProtoShell.Invariant.{
  Inv, is_set, EventKeeps, proto_shell_handler-Inv, proto_shell_script_cb-Inv,
  proto_shell_task_cb-Inv, proto_shell_checkup_timeout_cb-Inv, proto_shell_teardown_timeout_cb-Inv,
}
use netifd.ProtoShell.Requests.{
  proto_shell_run_command-Inv, proto_shell_kill_command-Inv, proto_shell_setup_failed-Inv,
}

module _ {E : Type 0} (h : Hooks E) (c : Config) (apply_link : State E → State E × Status) where
  -- One event. A process ends and a timer fires only while it runs.
  pub data Step : State E → State E → Type 0 where
    command : (cmd : ProtoCmd) (s : State E) → Step s (proto_shell_handler h c cmd s).0
    script_ends : (s : State E) → s.script_pending ≡ true → Step s (proto_shell_script_cb h c s)
    task_ends :
        (status : ℕ) (s : State E)
        → s.proto_pending ≡ true
        → Step s (proto_shell_task_cb h c status s)
    teardown_fires :
        (s : State E)
        → is_set s.teardown_timeout ≡ true
        → Step s (proto_shell_teardown_timeout_cb h c s)
    checkup_fires :
        (autostart is_up : Bool) (s : State E)
        → Step s (proto_shell_checkup_timeout_cb h c autostart is_up s)
    update_link :
        (up : Option Bool) (s : State E) → Step s (proto_shell_update_link h apply_link up s).0
    run_command :
        (argv env : Option (List Item)) (s : State E)
        → Step s (proto_shell_run_command h argv env s).0
    kill_command : (sig : Option ℕ) (s : State E) → Step s (proto_shell_kill_command sig s).0
    setup_failed : (s : State E) → Step s (proto_shell_setup_failed h c s).0

  pub data Reach (s : State E) : State E → Type 0 where
    here : Reach s s
    next : {t u : State E} → Reach s t → Step t u → Reach s u

  -- What is asked of the interface: it keeps the invariant, and it does not command the handler
  -- while it is told that the protocol is up.
  pub record Laws : Type 0 where
    pub event_keeps : EventKeeps h c
    pub link_keeps : (s : State E) → Inv s → Inv (apply_link s).0
    pub up_quiet :
        (s : State E)
        → let t = h.proto_event ifpev_up s in
          (t.sm ≡ s.sm) × (t.teardown_timeout ≡ s.teardown_timeout)

  module _ (laws : Laws) where
    settle_link-Inv : (r : State E × Status) → Inv r.0 → Inv (settle_link h apply_link r).0
    settle_link-Inv (s, ok) i =
        if_keeps (λ (r : State E × Status). Inv r.0) (is_stopping s.sm) (λ e. i)
          (λ e. record { armed = ap is_set (laws.up_quiet s).1 ∙ i.armed ∙ e; waits = λ q. cc })
    settle_link-Inv (s, e) i = i

    update_link-Inv :
        (up : Option Bool) (s : State E) → Inv s → Inv (proto_shell_update_link h apply_link up s).0
    unfolding proto_shell_update_link
    update_link-Inv up s i = if_keeps P (is_stopping s.sm) (λ e. i) (λ e. by_flag up)
      where
        P : State E × Status → Type 0
        P r = Inv r.0

        by_flag :
            (up : Option Bool)
            → P (elim up [
              | none ↦ (s, invalid_argument)
              | some true ↦ settle_link h apply_link (apply_link s)
              | some false ↦ (h.proto_event ifpev_link_lost s, ok)
            ])
        by_flag none = i
        by_flag (some true) = settle_link-Inv (apply_link s) (laws.link_keeps s i)
        by_flag (some false) = laws.event_keeps ifpev_link_lost s i

    Step-Inv : {s t : State E} → Step s t → Inv s → Inv t
    Step-Inv (command cmd s) i = proto_shell_handler-Inv h c cmd s i
    Step-Inv (script_ends s p) i = proto_shell_script_cb-Inv h c laws.event_keeps s i
    Step-Inv (task_ends status s p) i = proto_shell_task_cb-Inv h c laws.event_keeps status s i
    Step-Inv (teardown_fires s p) i = proto_shell_teardown_timeout_cb-Inv h c laws.event_keeps s p i
    Step-Inv (checkup_fires a u s) i = proto_shell_checkup_timeout_cb-Inv h c a u s i
    Step-Inv (update_link up s) i = update_link-Inv up s i
    Step-Inv (run_command argv env s) i =
        proto_shell_run_command-Inv h c laws.event_keeps argv env s i
    Step-Inv (kill_command sig s) i = proto_shell_kill_command-Inv h c laws.event_keeps sig s i
    Step-Inv (setup_failed s) i = proto_shell_setup_failed-Inv h c laws.event_keeps s i

    -- Through any sequence of commands, process ends, timeouts and script notifications, the
    -- teardown timer of a script handler runs exactly while the handler stops, and an aborted setup
    -- has a process left to wait for. The interface's callback must keep this, and must not command
    -- the handler while it is told that the protocol is up.
    pub Reach-Inv : {s t : State E} → Inv s → Reach s t → Inv t
    Reach-Inv i here = i
    Reach-Inv i (next r st) = Step-Inv st (Reach-Inv i r)
