-- ===== src/Hotplug/Queue.antt =====
-- interface-event.c: one hotplug script runs at a time, and each interface waits for at most one
-- event. The environment of the script and the ubus notifications are not part of the model.
use netifd.Prelude.{
  ℕ, List, [], ◌∷◌, ◌++◌, Bool, true, false, not, ◌&&◌, ◌||◌, Option, none, some, ◌==◌, update,
  if◌then◌else◌,
}
use netifd.Device.Users.{remove_id}
use netifd.Interface.Types.{
  IfaceEvent, ifev_down, ifev_up, ifev_up_failed, ifev_update, ifev_free, ifev_reload, ifev_link_up,
  ifev_create,
}

-- The number of an event in the enum.
abbrev pub code : IfaceEvent → ℕ
code ifev_down = 0
code ifev_up = 1
code ifev_up_failed = 2
code ifev_update = 3
code ifev_free = 4
code ifev_reload = 5
code ifev_link_up = 6
code ifev_create = 7

abbrev pub same_event : IfaceEvent → IfaceEvent → Bool
same_event a b = code a == code b

-- `pending` are the interfaces whose hotplug_list is linked in, `task_pending` is task.pending, and
-- `calls` the scripts that were started, the newest first.
pub record Queue : Type 0 where
  pub pending : List ℕ
  pub current : Option ℕ
  pub current_ev : IfaceEvent
  pub task_pending : Bool
  pub hotplug_ev : ℕ → IfaceEvent
  pub calls : List (ℕ × IfaceEvent)

-- `!list_empty(&iface->hotplug_list)`
abbrev pub waits : ℕ → List ℕ → Bool
waits i [] = false
waits i (j ∷ l) = if i == j then true else waits i l

abbrev pub is_current : ℕ → Option ℕ → Bool
is_current i none = false
is_current i (some j) = i == j

abbrev pub is_none : Option ℕ → Bool
is_none none = true
is_none (some i) = false

abbrev pub set_event : ℕ → IfaceEvent → Queue → Queue
set_event i ev q = record q { hotplug_ev = update q.hotplug_ev i ev }

abbrev pub enqueue : ℕ → IfaceEvent → Queue → Queue
enqueue i ev q = record (set_event i ev q) { pending = q.pending ++ i ∷ [] }

-- The first half of interface_queue_event, for an interface whose script runs.
abbrev pub put_running : ℕ → IfaceEvent → Queue → Queue
put_running i ev q =
    if waits i q.pending
    then (if same_event ev ifev_update then q else set_event i ev q)
    else if not (same_event ev q.current_ev) || same_event ev ifev_update
    then enqueue i ev q
    else q

-- And for one whose script does not run.
abbrev pub put_waiting : ℕ → IfaceEvent → Queue → Queue
put_waiting i ev q =
    if waits i q.pending
    then (if same_event (q.hotplug_ev i) ifev_up && same_event ev ifev_update
        then q
        else set_event i ev q)
    else enqueue i ev q

abbrev pub put_event : ℕ → IfaceEvent → Queue → Queue
put_event i ev q = if is_current i q.current then put_running i ev q else put_waiting i ev q

-- `can_fork` says whether fork succeeds.
module _ (can_fork : Queue → Bool) where
  -- call_hotplug on the list of pending interfaces: a fork that fails completes its task at once,
  -- and the next one is tried.
  unfoldable pub call_from : List ℕ → Queue → Queue
  call_from [] q = q
  call_from (i ∷ l) q =
      let ev = q.hotplug_ev i in
      let q1 = record q { pending = l; current = some i; current_ev = ev } in
      let rest = call_from l (record q1 { current = none }) in
      if can_fork q1 then record q1 { task_pending = true; calls = (i, ev) ∷ q.calls } else rest

  unfoldable pub call_hotplug : Queue → Queue
  unfolding call_from
  call_hotplug q = call_from q.pending q

  -- The script's process has ended, so the task is no longer pending.
  unfoldable pub task_complete : Queue → Queue
  unfolding call_hotplug
  task_complete q = call_hotplug (record q { current = none; task_pending = false })

  unfoldable pub interface_queue_event : ℕ → IfaceEvent → Queue → Queue
  unfolding call_hotplug
  interface_queue_event i ev q =
      let q1 = put_event i ev q in
      if same_event ev ifev_link_up
      then q
      else if not q1.task_pending && is_none q1.current
      then call_hotplug q1
      else q1

  unfoldable pub interface_dequeue_event : ℕ → Queue → Queue
  interface_dequeue_event i q = record q {
    current = if is_current i q.current then none else q.current;
    pending = remove_id i q.pending;
  }

  unfoldable pub interface_event_cb : ℕ → IfaceEvent → Queue → Queue
  unfolding interface_queue_event interface_dequeue_event
  interface_event_cb i ifev_link_up q = interface_queue_event i ifev_link_up q
  interface_event_cb i ifev_up q = interface_queue_event i ifev_up q
  interface_event_cb i ifev_up_failed q = interface_queue_event i ifev_up_failed q
  interface_event_cb i ifev_update q = interface_queue_event i ifev_update q
  interface_event_cb i ifev_down q = interface_queue_event i ifev_down q
  interface_event_cb i ifev_free q = interface_dequeue_event i q
  interface_event_cb i _ q = q
