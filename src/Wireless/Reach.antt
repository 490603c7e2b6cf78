-- ===== src/Wireless/Reach.antt =====
-- wireless.c: the events that wireless devices can meet, one after the other.
use netifd.Prelude.{
  List, [], ◌∷◌, ℕ, ◌≡◌, refl, Bool, true, false, not, ◌||◌, Option, none, some, ltb, leb, if_keeps,
}
use netifd.Prelude.Int.{ℤ}
use netifd.Interface.Types.{ifc_remove}
use netifd.Wireless.Types.{Wireless, put}
use netifd.Wireless.Handlers.{kept, put_procs, process_kill_all, is_empty}
use netifd.Wireless.Machine.{
  start_setup, script_ends, setup_timeout, wireless_device_set_up, wireless_device_reconf,
  wireless_device_set_down, wdev_set_config_state, wdev_change_config,
}
use netifd.Wireless.Notify.{
  add_process, signal_of, request_kill_all, set_retry, set_data, is_setup, is_teardown, notify_up,
  any_required, check_script_tasks, Command, cmd_up, cmd_set_data, cmd_process_add,
  cmd_process_kill_all, cmd_set_retry, cmd_unknown, run_command, wireless_device_notify,
  wireless_start_pending,
}
use netifd.Wireless.Serial.{Serial, Stops-Serial, put-Serial, put_procs-Stops, kill_all-Stops}
use netifd.Wireless.Turns.{
  start_setup_keeps, retry_keeps, set_up_keeps, reconf_keeps, set_down_keeps, mark_up_keeps,
  config_state_keeps, new_config_keeps,
}
use netifd.Wireless.Exclusion.{Serial-Closed}
use netifd.Wireless.Runs.{MayFire, ends-Serial, timeout-Serial}
use netifd.ProtoShell.Notify.{Status}

module _ (can_pipe can_start : Wireless → Bool) where
  -- One event. A script ends while it runs, and a timer fires while it is set.
  pub data Step : Wireless → Wireless → Type 0 where
    set_up : (d : ℕ) (w : Wireless) → Step w (wireless_device_set_up can_pipe can_start d w)
    reconf : (d : ℕ) (w : Wireless) → Step w (wireless_device_reconf can_pipe can_start d w)
    set_down : (d : ℕ) (w : Wireless) → Step w (wireless_device_set_down can_pipe can_start d w)
    ends :
        (d : ℕ) (w : Wireless)
        → (w.devs d).running ≡ true
        → Step w (script_ends can_pipe can_start d w)
    fires :
        (d : ℕ) (w : Wireless)
        → (w.devs d).timeout ≡ true
        → MayFire can_pipe can_start d w
        → Step w (setup_timeout can_pipe can_start d w)
    new_config :
        (equal disabled : Bool) (d : ℕ) (w : Wireless)
        → Step w (wdev_change_config can_pipe can_start equal disabled d w)
    removed :
        (d : ℕ) (w : Wireless) → Step w (wdev_set_config_state can_pipe can_start ifc_remove d w)
    notified :
        (c : Option Command) (missing with_data : Bool) (d : ℕ) (w : Wireless)
        → Step w (wireless_device_notify can_pipe can_start c missing with_data d w).0
    starts_pending :
        (ds : List ℕ) (w : Wireless) → Step w (wireless_start_pending can_pipe can_start ds w)
    checks :
        (d : ℕ) (w : Wireless)
        → (w.devs d).script_check ≡ true
        → Step w (check_script_tasks can_pipe can_start d w)

  pub data Reach (w : Wireless) : Wireless → Type 0 where
    here : Reach w w
    next : {u v : Wireless} → Reach w u → Step u v → Reach w v

  add_process-Serial :
      (pid : Option ℕ) (exe required keep : Bool) (d : ℕ) (w : Wireless)
      → Serial w
      → Serial (add_process pid exe required keep d w).0
  unfolding add_process
  add_process-Serial none exe required keep d w s = s
  add_process-Serial (some pid) exe required keep d w s =
      if_keeps (λ (r : Wireless × Status). Serial r.0)
        (not exe || (ltb pid 2 || leb 0x80000000 pid)) (λ e. s) (λ e. put-Serial d _ w refl refl s)

  kill_request-Serial :
      (signal : Option ℕ) (immediate : Bool) (d : ℕ) (w : Wireless)
      → Serial w
      → Serial (request_kill_all signal immediate d w).0
  unfolding request_kill_all
  kill_request-Serial signal immediate d w s =
      let w1 = process_kill_all d (signal_of signal) immediate w in
      let a = Stops-Serial w w1 (kill_all-Stops d (signal_of signal) immediate w) s in
      if_keeps P (not (is_teardown (w.devs d).state) || (w.devs d).kill_request) (λ e. s)
        (λ e.
          if_keeps P (is_empty (w1.devs d).script_proc) (λ e. a)
            (λ e. put-Serial d _ w1 refl refl a))
    where
      P : Wireless × Status → Type 0
      P r = Serial r.0

  set_retry-Serial : (n : Option ℤ) (d : ℕ) (w : Wireless) → Serial w → Serial (set_retry n d w).0
  unfolding set_retry
  set_retry-Serial none d w s = s
  set_retry-Serial (some n) d w s = put-Serial d _ w refl refl s

  set_data-Serial : (d : ℕ) (w : Wireless) → Serial w → Serial (set_data d w).0
  unfolding set_data
  set_data-Serial d w s =
      if_keeps (λ (r : Wireless × Status). Serial r.0) (w.devs d).data_set (λ e. s)
        (λ e. put-Serial d _ w refl refl s)

  notify_up-Serial : (d : ℕ) (w : Wireless) → Serial w → Serial (notify_up can_pipe can_start d w).0
  unfolding notify_up
  notify_up-Serial d w s =
      let closed = Serial-Closed can_pipe can_start in
      if_keeps (λ (r : Wireless × Status). Serial r.0) (is_setup (w.devs d).state)
        (λ e. mark_up_keeps can_pipe can_start Serial closed d w s) (λ e. s)

  check-Serial :
      (d : ℕ) (w : Wireless) → Serial w → Serial (check_script_tasks can_pipe can_start d w)
  unfolding check_script_tasks
  check-Serial d w s =
      let closed = Serial-Closed can_pipe can_start in
      let ps = (w.devs d).script_proc in
      let x0 = record (w.devs d) { script_check = false } in
      let w1 = put_procs d (kept w.alive false ps) (put d x0 w) in
      let a =
        Stops-Serial (put d x0 w) w1 (put_procs-Stops d (kept w.alive false ps) (put d x0 w))
          (put-Serial d x0 w refl refl s) in
      if_keeps Serial (any_required can_pipe can_start w.alive ps)
        (λ e. retry_keeps can_pipe can_start Serial closed d w1 a)
        (λ e. put-Serial d _ w1 refl refl a)

  command-Serial :
      (c : Command) (d : ℕ) (w : Wireless)
      → Serial w
      → Serial (run_command can_pipe can_start c d w).0
  command-Serial cmd_up d w s = notify_up-Serial d w s
  command-Serial cmd_set_data d w s = set_data-Serial d w s
  command-Serial (cmd_process_add pid exe required keep) d w s =
      add_process-Serial pid exe required keep d w s
  command-Serial (cmd_process_kill_all signal immediate) d w s =
      kill_request-Serial signal immediate d w s
  command-Serial (cmd_set_retry n) d w s = set_retry-Serial n d w s
  command-Serial cmd_unknown d w s = s

  notify-Serial :
      (c : Option Command) (missing with_data : Bool) (d : ℕ) (w : Wireless)
      → Serial w
      → Serial (wireless_device_notify can_pipe can_start c missing with_data d w).0
  unfolding wireless_device_notify
  notify-Serial none missing with_data d w s = s
  notify-Serial (some c) missing with_data d w s =
      let P = λ (r : Wireless × Status). Serial r.0 in
      if_keeps P missing (λ e. s)
        (λ e. if_keeps P (not with_data) (λ f. s) (λ f. command-Serial c d w s))

  pending-Serial :
      (ds : List ℕ) (w : Wireless)
      → Serial w
      → Serial (wireless_start_pending can_pipe can_start ds w)
  unfolding wireless_start_pending
  pending-Serial [] w s = s
  pending-Serial (d ∷ ds) w s =
      pending-Serial ds (start_setup can_pipe can_start d false w)
        (start_setup_keeps can_pipe can_start Serial (Serial-Closed can_pipe can_start) d false w s)

  Step-Serial : {w v : Wireless} → Step w v → Serial w → Serial v
  Step-Serial (set_up d w) s =
      set_up_keeps can_pipe can_start Serial (Serial-Closed can_pipe can_start) d w s
  Step-Serial (reconf d w) s =
      reconf_keeps can_pipe can_start Serial (Serial-Closed can_pipe can_start) d w s
  Step-Serial (set_down d w) s =
      set_down_keeps can_pipe can_start Serial (Serial-Closed can_pipe can_start) d w s
  Step-Serial (ends d w on) s = ends-Serial can_pipe can_start d w on s
  Step-Serial (fires d w set may) s = timeout-Serial can_pipe can_start d w may s
  Step-Serial (new_config equal disabled d w) s =
      new_config_keeps can_pipe can_start Serial (Serial-Closed can_pipe can_start) equal disabled d
        w s
  Step-Serial (removed d w) s =
      config_state_keeps can_pipe can_start Serial (Serial-Closed can_pipe can_start) ifc_remove d w
        s
  Step-Serial (notified c missing with_data d w) s = notify-Serial c missing with_data d w s
  Step-Serial (starts_pending ds w) s = pending-Serial ds w s
  Step-Serial (checks d w set) s = check-Serial d w s

  -- Of the wireless devices whose scripts are serialized, at most one has a running script at a
  -- time, and while it runs the turn is taken. This holds after any sequence of events that starts
  -- where it holds, for scripts and pipes that start or fail: setups, reconfigurations, ends of
  -- scripts, new configurations, removals, notifications, checks of processes and starts of what is
  -- pending; and timeouts, provided that a timeout of a serialized device finds its script running.
  pub Reach-Serial : {w v : Wireless} → Serial w → Reach w v → Serial v
  Reach-Serial s here = s
  Reach-Serial s (next r st) = Step-Serial st (Reach-Serial s r)
