-- ===== src/Examples/Hotplugs.antt =====
-- The script for interface 1 is told that it is up, and interface 2 waits.
use netifd.Prelude.{Bool, ◌≡◌, refl, [], ◌∷◌, true, some}
use netifd.Interface.Types.{ifev_down, ifev_up}
use netifd.Hotplug.Queue.{
  Queue, interface_queue_event, interface_event_cb, task_complete, call_hotplug, call_from,
}
use netifd.Hotplug.Latest.{latest, interface_queue_event-latest}
use netifd.Hotplug.Runs.{Inv, here, next, event, script_ends, queue-Inv}

abbrev forks : Queue → Bool
forks q = true

abbrev busy : Queue
busy = record {
  pending = 2 ∷ [];
  current = some 1;
  current_ev = ifev_up;
  task_pending = true;
  hotplug_ev = λ i. ifev_up;
  calls = (1, ifev_up) ∷ [];
}

busy-Inv : Inv busy
busy-Inv = record { nothing_waits = λ e. cc; nothing_current = λ e. cc; once = (refl, tt) }

abbrev after_down : Queue
after_down = interface_event_cb forks 1 ifev_down busy

abbrev after_script : Queue
after_script = task_complete forks after_down

second_call : after_script.calls ≡ (2, ifev_up) ∷ (1, ifev_up) ∷ []
unfolding interface_event_cb interface_queue_event task_complete call_hotplug call_from
second_call = refl

still_busy : after_down.task_pending ≡ true
unfolding interface_event_cb
still_busy = refl

queue-Inv_example : Inv after_script
queue-Inv_example =
    queue-Inv forks busy-Inv
      (next (next here (event 1 ifev_down busy)) (script_ends after_down still_busy))

interface_queue_event-latest_example :
    latest 1 (interface_queue_event forks 1 ifev_down busy) ≡ some ifev_down
interface_queue_event-latest_example =
    interface_queue_event-latest forks 1 ifev_down busy (λ r. refl) refl refl busy-Inv
