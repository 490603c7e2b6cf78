-- ===== src/Wireless/Runs.antt =====
-- wireless.c: the end of a script and the timeout of a device, and the turn that is given on.
use netifd.Prelude.{
  ℕ, ◌≡◌, refl, ◌∙◌, ◌⊎◌, List, [], ◌∷◌, Bool, true, false, ◌&&◌, ◌||◌, ◌==◌, arith, if_keeps,
  Bool-cases, inl, inr,
}
use netifd.Wireless.Types.{Wireless, put, emit, kill_script}
use netifd.Wireless.Handlers.{handler_stop}
use netifd.Wireless.Machine.{
  kill_script_task, next_in, handler_next, give_turn, script_task_cb, script_ends, setup_timeout,
}
use netifd.Wireless.Serial.{
  Served, Serial, Stops, Stops-refl, Stops-trans, Stops-Serial, put-Stops, handler_stop-Stops,
}
use netifd.Wireless.Turns.{mark_down_keeps, script_ended_keeps}
use netifd.Wireless.Exclusion.{Vacant, Serial-Closed, Vacant-Closed, Plain, Plain-Closed}

Vacant-Serial : (w : Wireless) → Vacant w → Serial w
Vacant-Serial w v = record {
  one = λ d e p q. absurd (ground (arith, v.nobody d));
  held = λ d p. v.taken;
}

-- The script of the device that holds the turn has ended.
ended-Vacant :
    (d : ℕ) (w : Wireless)
    → Served d w
    → Serial w
    → Vacant (put d (record (w.devs d) { running = false }) w)
ended-Vacant d w p s = record {
  taken = s.held d p;
  nobody = λ e. elim (Bool-cases (d == e)) [
    | inl same ↦ ground arith
    | inr other ↦ elim (Bool-cases ((w.devs e).running && (w.devs e).serialize)) [
      | inl q ↦ absurd (ground (arith, s.one d e p q))
      | inr none_there ↦ ground arith
    ]
  ];
}

ended-Stops : (d : ℕ) (w : Wireless) → Stops w (put d (record (w.devs d) { running = false }) w)
ended-Stops d w = record { runs = λ e p. ground arith; turn = refl; same_kind = λ e. ground arith }

module _ (can_pipe can_start : Wireless → Bool) where
  handler_next-Serial : (w : Wireless) → Serial w → Serial (handler_next can_pipe can_start w)
  unfolding handler_next next_in
  handler_next-Serial w s = if_keeps Serial w.busy (λ e. s) (λ e. go w.handlers)
    where
      go : (l : List ℕ) → Serial (next_in can_pipe can_start l w)
      go [] = s
      go (d ∷ l) =
          let closed = Serial-Closed can_pipe can_start in
          let a = put-Stops d (record (w.devs d) { handler_pending = false }) w refl refl in
          closed.runs d _ _
            (closed.stops w _ (record { runs = a.runs; turn = a.turn; same_kind = a.same_kind }) s)

  -- Who may take the turn away: the device whose script has ended, or one that has no part in it.
  give-Vacant : (d : ℕ) (w : Wireless) → Vacant w → Serial (give_turn can_pipe can_start d w)
  unfolding give_turn
  give-Vacant d w v =
      let w1 = record w { faulted = w.faulted || (w.devs d).freed } in
      let s = Vacant-Serial w v in
      if_keeps Serial (w.devs d).serialize
        (λ e.
          handler_next-Serial (record w1 { busy = false })
            record {
              one = λ a b p q. absurd (ground (arith, v.nobody a));
              held = λ a p. absurd (ground (arith, v.nobody a));
            })
        (λ e. record { one = s.one; held = s.held })

  give-Plain :
      (d : ℕ) (w : Wireless) → Plain d w → Serial w → Serial (give_turn can_pipe can_start d w)
  unfolding give_turn
  give-Plain d w p s =
      if_keeps Serial (w.devs d).serialize (λ e. absurd (ground arith))
        (λ e. record { one = s.one; held = s.held })

  cb-Serial :
      (d : ℕ) (w : Wireless)
      → Vacant w ⊎ (Plain d w × Serial w)
      → Serial (script_task_cb can_pipe can_start d w)
  unfolding script_task_cb
  cb-Serial d w (inl v) =
      let closed = Vacant-Closed can_pipe can_start in
      give-Vacant d _ (script_ended_keeps can_pipe can_start Vacant closed (w.devs d).state d w v)
  cb-Serial d w (inr (p, s)) =
      let ended = script_ended_keeps can_pipe can_start in
      let state = (w.devs d).state in
      give-Plain d _ (ended (Plain d) (Plain-Closed can_pipe can_start d) state d w p)
        (ended Serial (Serial-Closed can_pipe can_start) state d w s)

  pub ends-Serial :
      (d : ℕ) (w : Wireless)
      → (w.devs d).running ≡ true
      → Serial w
      → Serial (script_ends can_pipe can_start d w)
  unfolding script_ends
  ends-Serial d w on s = elim (Bool-cases (w.devs d).serialize) [
    | inl yes_ ↦ cb-Serial d _ (inl (ended-Vacant d w (ground arith) s))
    | inr plain ↦
        let st = ended-Stops d w in
        cb-Serial d _ (inr (st.same_kind d ∙ plain, Stops-Serial w _ st s))
  ]

  -- A timeout that finds the script running kills it; it may not fire for a serialized device whose
  -- script has ended already.
  abbrev pub MayFire : ℕ → Wireless → Type 0
  MayFire d w = ((w.devs d).running ≡ true) ⊎ Plain d w

  kill-Vacant : (d : ℕ) (w : Wireless) → Served d w → Serial w → Vacant (kill_script_task d w)
  kill-Vacant d w p s =
      let v = ended-Vacant d (emit (kill_script d) w) p (record { one = s.one; held = s.held }) in
      if_keeps Vacant (w.devs d).running (λ e. record { taken = v.taken; nobody = v.nobody })
        (λ e. absurd (ground arith))

  kill-Stops : (d : ℕ) (w : Wireless) → Stops w (kill_script_task d w)
  kill-Stops d w =
      let a = ended-Stops d (emit (kill_script d) w) in
      if_keeps (Stops w) (w.devs d).running
        (λ e. record { runs = a.runs; turn = a.turn; same_kind = a.same_kind }) (λ e. Stops-refl w)

  stop-running : (d : ℕ) (w : Wireless) → ((handler_stop d w).devs d).running ≡ (w.devs d).running
  unfolding handler_stop
  stop-running d w = ground arith

  pub timeout-Serial :
      (d : ℕ) (w : Wireless)
      → MayFire d w
      → Serial w
      → Serial (setup_timeout can_pipe can_start d w)
  unfolding setup_timeout
  timeout-Serial d w may s =
      mark_down_keeps can_pipe can_start Serial (Serial-Closed can_pipe can_start) d _
        (cb-Serial d _ (by_kind may))
    where
      w0 : Wireless
      w0 = put d (record (w.devs d) { timeout = false }) w

      w1 : Wireless
      w1 = handler_stop d w0

      st : Stops w w1
      st =
          Stops-trans w w0 w1 (put-Stops d (record (w.devs d) { timeout = false }) w refl refl)
            (handler_stop-Stops d w0)

      plain :
          Plain d w
          → Vacant (kill_script_task d w1)
            ⊎ (Plain d (kill_script_task d w1) × Serial (kill_script_task d w1))
      plain p =
          let all = Stops-trans w w1 _ st (kill-Stops d w1) in
          inr (all.same_kind d ∙ p, Stops-Serial w _ all s)

      by_kind :
          MayFire d w
          → Vacant (kill_script_task d w1)
            ⊎ (Plain d (kill_script_task d w1) × Serial (kill_script_task d w1))
      by_kind (inr p) = plain p
      by_kind (inl on) = elim (Bool-cases (w.devs d).serialize) [
        | inr p ↦ plain p
        | inl p ↦
            let served : Served d w1 = ground (arith, st.same_kind d, stop-running d w0) in
            inl (kill-Vacant d w1 served (Stops-Serial w w1 st s))
      ]
