-- ===== src/Hotplug/Runs.antt =====
-- interface-event.c: every sequence of events and script ends.
use netifd.Prelude.{
  ℕ, ◌≡◌, refl, List, [], ◌∷◌, ◌++◌, Bool, true, false, not, ◌&&◌, Option, none, some, ◌==◌, arith,
  if_keeps, Bool-cases, inl, inr,
}
use netifd.Device.Users.{remove_id}
use netifd.Interface.Types.{
  IfaceEvent, ifev_down, ifev_up, ifev_up_failed, ifev_update, ifev_free, ifev_reload, ifev_link_up,
  ifev_create,
}
use netifd.Hotplug.Queue.{
  Queue, waits, is_current, is_none, same_event, put_event, call_from, call_hotplug, task_complete,
  interface_queue_event, interface_dequeue_event, interface_event_cb,
}

-- No interface waits twice.
abbrev pub Once : List ℕ → Type 0
Once [] = Unit
Once (i ∷ l) = (waits i l ≡ false) × Once l

-- If no script runs, nothing waits and nothing is current.
pub record Inv (q : Queue) : Type 0 where
  pub nothing_waits : q.task_pending ≡ false → q.pending ≡ []
  pub nothing_current : q.task_pending ≡ false → q.current ≡ none
  pub once : Once q.pending

waits-append :
    (i j : ℕ) (l : List ℕ) → (i == j) ≡ false → waits i l ≡ false → waits i (l ++ j ∷ []) ≡ false
waits-append i j [] ne e = ground (arith, ne)
waits-append i j (k ∷ l) ne e = ground (arith, waits-append i j l ne)

Once-append : (j : ℕ) (l : List ℕ) → waits j l ≡ false → Once l → Once (l ++ j ∷ [])
Once-append j [] e o = (refl, tt)
Once-append j (k ∷ l) e o =
    (waits-append k j l (ground (arith, e)) o.0, Once-append j l (ground (arith, e)) o.1)

waits-remove_id : (i j : ℕ) (l : List ℕ) → waits i l ≡ false → waits i (remove_id j l) ≡ false
waits-remove_id i j [] e = refl
waits-remove_id i j (k ∷ l) e = ground (arith, waits-remove_id i j l)

Once-remove_id : (j : ℕ) (l : List ℕ) → Once l → Once (remove_id j l)
Once-remove_id j [] o = tt
Once-remove_id j (k ∷ l) o =
    if_keeps Once (j == k) (λ e. o.1) (λ e. (waits-remove_id k j l o.0, Once-remove_id j l o.1))

module _ (can_fork : Queue → Bool) where
  call_from-Inv :
      (l : List ℕ) (q : Queue)
      → q.pending ≡ l
      → q.current ≡ none
      → Once l
      → Inv (call_from can_fork l q)
  unfolding call_from
  call_from-Inv [] q p c o = record {
    nothing_waits = λ e. p;
    nothing_current = λ e. c;
    once = rw p tt;
  }
  call_from-Inv (i ∷ l) q p c o =
      let q1 = record q { pending = l; current = some i; current_ev = q.hotplug_ev i } in
      if_keeps Inv (can_fork q1)
        (λ e. record { nothing_waits = λ t. cc; nothing_current = λ t. cc; once = o.1 })
        (λ e. call_from-Inv l (record q1 { current = none }) refl refl o.1)

  complete-Inv : (q : Queue) → Inv q → Inv (task_complete can_fork q)
  unfolding task_complete
  complete-Inv q j = call_from-Inv q.pending _ refl refl j.once

  put_event-Once :
      (i : ℕ) (ev : IfaceEvent) (q : Queue) → Once q.pending → Once (put_event i ev q).pending
  put_event-Once i ev q o =
      if_keeps P (is_current i q.current)
        (λ e. elim (Bool-cases (waits i q.pending)) [
          | inl w ↦ ground arith
          | inr w ↦ let more = Once-append i q.pending w o in ground arith
        ])
        (λ e. elim (Bool-cases (waits i q.pending)) [
          | inl w ↦ ground arith
          | inr w ↦ let more = Once-append i q.pending w o in ground arith
        ])
    where
      P : Queue → Type 0
      P r = Once r.pending

  put_event-task :
      (i : ℕ) (ev : IfaceEvent) (q : Queue) → (put_event i ev q).task_pending ≡ q.task_pending
  put_event-task i ev q = ground arith

  put_event-current : (i : ℕ) (ev : IfaceEvent) (q : Queue) → (put_event i ev q).current ≡ q.current
  put_event-current i ev q = ground arith

  none_lem : (o : Option ℕ) → is_none o ≡ true → o ≡ none
  none_lem none e = refl
  none_lem (some i) e = cc

  -- An event is queued, and a script is started if none runs.
  pub interface_queue_event-Inv :
      (i : ℕ) (ev : IfaceEvent) (q : Queue) → Inv q → Inv (interface_queue_event can_fork i ev q)
  unfolding interface_queue_event call_hotplug
  interface_queue_event-Inv i ev q j =
      let q1 = put_event i ev q in
      let once = put_event-Once i ev q j.once in
      if_keeps Inv (same_event ev ifev_link_up) (λ e. j)
        (λ e.
          if_keeps Inv (not q1.task_pending && is_none q1.current)
            (λ free. call_from-Inv q1.pending q1 refl (none_lem q1.current (ground arith)) once)
            (λ busy. record {
              nothing_waits = λ t. absurd (never busy t);
              nothing_current = λ t. absurd (never busy t);
              once = once;
            }))
    where
      never :
          (not (put_event i ev q).task_pending && is_none (put_event i ev q).current) ≡ false
          → (put_event i ev q).task_pending ≡ false
          → ⊥
      never busy t =
          let idle = j.nothing_current (ground (arith, put_event-task i ev q)) in
          ground (arith, put_event-current i ev q)

  dequeue-Inv : (i : ℕ) (q : Queue) → Inv q → Inv (interface_dequeue_event can_fork i q)
  unfolding interface_dequeue_event
  dequeue-Inv i q j = record {
    nothing_waits = λ t. rw (j.nothing_waits t) refl;
    nothing_current = λ t. rw (j.nothing_current t) refl;
    once = Once-remove_id i q.pending j.once;
  }

  event_cb-Inv :
      (i : ℕ) (ev : IfaceEvent) (q : Queue) → Inv q → Inv (interface_event_cb can_fork i ev q)
  unfolding interface_event_cb
  event_cb-Inv i ifev_link_up q j = interface_queue_event-Inv i ifev_link_up q j
  event_cb-Inv i ifev_up q j = interface_queue_event-Inv i ifev_up q j
  event_cb-Inv i ifev_up_failed q j = interface_queue_event-Inv i ifev_up_failed q j
  event_cb-Inv i ifev_update q j = interface_queue_event-Inv i ifev_update q j
  event_cb-Inv i ifev_down q j = interface_queue_event-Inv i ifev_down q j
  event_cb-Inv i ifev_free q j = dequeue-Inv i q j
  event_cb-Inv i ifev_reload q j = j
  event_cb-Inv i ifev_create q j = j

  -- An interface has an event, or the script that runs ends.
  pub data Step : Queue → Queue → Type 0 where
    event : (i : ℕ) (ev : IfaceEvent) (q : Queue) → Step q (interface_event_cb can_fork i ev q)
    script_ends : (q : Queue) → q.task_pending ≡ true → Step q (task_complete can_fork q)

  pub data Reach (q : Queue) : Queue → Type 0 where
    here : Reach q q
    next : {r t : Queue} → Reach q r → Step r t → Reach q t

  Step-Inv : {q r : Queue} → Step q r → Inv q → Inv r
  Step-Inv (event i ev q) j = event_cb-Inv i ev q j
  Step-Inv (script_ends q p) j = complete-Inv q j

  -- Through any sequence of interface events and ends of scripts, whether forks succeed or fail, no
  -- interface waits twice in the queue, and whenever no script runs, no interface waits and none is
  -- current.
  pub queue-Inv : {q r : Queue} → Inv q → Reach q r → Inv r
  queue-Inv j here = j
  queue-Inv j (next r st) = Step-Inv st (queue-Inv j r)
