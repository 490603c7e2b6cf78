-- ===== src/Hotplug/Latest.antt =====
-- interface-event.c, interface_queue_event: the last event of an interface that a script is told of.
use netifd.Prelude.{
  ℕ, ◌≡◌, refl, List, [], ◌∷◌, ◌++◌, Bool, true, false, not, ◌&&◌, Option, none, some, ◌==◌, arith,
  if_keeps, ap, ◌∙◌, if◌then◌else◌,
}
use netifd.Interface.Types.{
  IfaceEvent, ifev_down, ifev_up, ifev_up_failed, ifev_update, ifev_free, ifev_reload, ifev_link_up,
  ifev_create,
}
use netifd.Hotplug.Queue.{
  Queue, code, waits, is_current, is_none, same_event, enqueue, put_event, call_from, call_hotplug,
  interface_queue_event,
}
use netifd.Hotplug.Runs.{Inv}

-- The event that waits, or else the one whose script runs.
abbrev pub latest : ℕ → Queue → Option IfaceEvent
latest i q =
    if waits i q.pending
    then some (q.hotplug_ev i)
    else if is_current i q.current
    then some q.current_ev
    else none

abbrev event_of : ℕ → IfaceEvent
event_of n =
    if n == 0
    then ifev_down
    else if n == 1
    then ifev_up
    else if n == 2
    then ifev_up_failed
    else if n == 3
    then ifev_update
    else if n == 4
    then ifev_free
    else if n == 5
    then ifev_reload
    else if n == 6
    then ifev_link_up
    else ifev_create

event_of-code : (a : IfaceEvent) → event_of (code a) ≡ a
event_of-code ifev_down = refl
event_of-code ifev_up = refl
event_of-code ifev_up_failed = refl
event_of-code ifev_update = refl
event_of-code ifev_free = refl
event_of-code ifev_reload = refl
event_of-code ifev_link_up = refl
event_of-code ifev_create = refl

same_event-eq : (a b : IfaceEvent) → same_event a b ≡ true → a ≡ b
same_event-eq a b e =
    let same : code a ≡ code b = ground arith in
    let in_codes : event_of (code a) ≡ event_of (code b) = ap event_of same in
    cc (event_of-code a, event_of-code b, in_codes)

waits-enqueued : (i : ℕ) (l : List ℕ) → waits i (l ++ i ∷ []) ≡ true
waits-enqueued i [] = ground arith
waits-enqueued i (j ∷ l) = ground (arith, waits-enqueued i l)

enqueue-latest : (i : ℕ) (ev : IfaceEvent) (q : Queue) → latest i (enqueue i ev q) ≡ some ev
enqueue-latest i ev q = ground (arith, waits-enqueued i q.pending)

put_event-latest :
    (i : ℕ) (ev : IfaceEvent) (q : Queue)
    → same_event ev ifev_update ≡ false
    → latest i (put_event i ev q) ≡ some ev
put_event-latest i ev q plain = ground (arith, enqueue-latest i ev q, same_event-eq ev q.current_ev)

-- With nothing else in the queue, the script for the event is started.
started-latest :
    (can_fork : Queue → Bool) (i : ℕ) (q : Queue)
    → ((r : Queue) → can_fork r ≡ true)
    → latest i (call_from can_fork (i ∷ []) q) ≡ some (q.hotplug_ev i)
unfolding call_from
started-latest can_fork i q forks =
    let q1 = record q { pending = []; current = some i; current_ev = q.hotplug_ev i } in
    ground (arith, forks q1)

idle_put :
    (i : ℕ) (ev : IfaceEvent) (q : Queue)
    → q.pending ≡ []
    → q.current ≡ none
    → ((put_event i ev q).pending ≡ i ∷ []) × ((put_event i ev q).hotplug_ev i ≡ ev)
idle_put i ev q empty free = (ground arith, ground arith)

task_kept : (i : ℕ) (ev : IfaceEvent) (q : Queue) → (put_event i ev q).task_pending ≡ q.task_pending
task_kept i ev q = ground arith

-- After an event other than an update and a link-up is queued for an interface, it is the event
-- that the interface waits with, or, if the interface does not wait, the one that its running
-- script was told of. The queue must satisfy its invariant, and forks must succeed.
pub interface_queue_event-latest :
    (can_fork : Queue → Bool) (i : ℕ) (ev : IfaceEvent) (q : Queue)
    → ((r : Queue) → can_fork r ≡ true)
    → same_event ev ifev_update ≡ false
    → same_event ev ifev_link_up ≡ false
    → Inv q
    → latest i (interface_queue_event can_fork i ev q) ≡ some ev
unfolding interface_queue_event call_hotplug
interface_queue_event-latest can_fork i ev q forks plain queued j =
    if_keeps P (same_event ev ifev_link_up) (λ e. cc)
      (λ e.
        if_keeps P (not q1.task_pending && is_none q1.current)
          (λ free.
            let stopped : q.task_pending ≡ false = ground (arith, task_kept i ev q) in
            let (one, its) =
              idle_put i ev q (j.nothing_waits stopped) (j.nothing_current stopped) in
            rw one (started-latest can_fork i q1 forks ∙ ap some its))
          (λ busy. put_event-latest i ev q plain))
  where
    P : Queue → Type 0
    P r = latest i r ≡ some ev

    q1 : Queue
    q1 = put_event i ev q
