-- ===== src/Wireless/Exclusion.antt =====
-- wireless.c: which scripts of serialized devices can run at one time.
use netifd.Prelude.{
  ℕ, ◌≡◌, refl, sym, ◌∙◌, Bool, true, false, ◌&&◌, ◌||◌, ◌==◌, arith, if_keeps, ap, subst, ◌⊎◌,
  Bool-cases, inl, inr,
}
use netifd.Wireless.Types.{Wireless}
use netifd.Wireless.Handlers.{handler_stop}
use netifd.Wireless.Machine.{start_script, take_turn, wait_turn, run_handler}
use netifd.Wireless.Serial.{Served, Serial, Stops, Stops-Serial, handler_stop-Stops, put-Stops}
use netifd.Wireless.Turns.{Closed}

-- The device is not serialized.
abbrev pub Plain : ℕ → Wireless → Type 0
Plain d w = (w.devs d).serialize ≡ false

-- The turn is taken, and no script of a serialized device runs.
pub record Vacant (w : Wireless) : Type 0 where
  pub taken : w.busy ≡ true
  pub nobody : (d : ℕ) → ((w.devs d).running && (w.devs d).serialize) ≡ false

module _ (can_pipe can_start : Wireless → Bool) where
  wait-Stops : (d : ℕ) (up : Bool) (w : Wireless) → Stops w (wait_turn can_pipe can_start d up w)
  unfolding wait_turn
  wait-Stops d up w =
      let x = record (w.devs d) { handler_action = up; handler_pending = true } in
      let a = put-Stops d x w refl refl in
      record { runs = a.runs; turn = a.turn; same_kind = a.same_kind }

  -- A start of a script changes no other device, and does not touch the turn.
  start-other :
      (d : ℕ) (up : Bool) (w : Wireless) (e : ℕ)
      → (d == e) ≡ false
      → (start_script can_pipe can_start d up w).devs e ≡ w.devs e
  unfolding start_script
  start-other d up w e ne = ground arith

  start-busy :
      (d : ℕ) (up : Bool) (w : Wireless) → (start_script can_pipe can_start d up w).busy ≡ w.busy
  unfolding start_script
  start-busy d up w = ground arith

  start-kind :
      (d : ℕ) (up : Bool) (w : Wireless)
      → ((start_script can_pipe can_start d up w).devs d).serialize ≡ (w.devs d).serialize
  unfolding start_script
  start-kind d up w = ground arith

  abbrev started : ℕ → Bool → Wireless → Wireless
  started d up w = start_script can_pipe can_start d up (take_turn can_pipe can_start d up w)

  started-other :
      (d : ℕ) (up : Bool) (w : Wireless) (e : ℕ)
      → (d == e) ≡ false
      → (started d up w).devs e ≡ w.devs e
  unfolding take_turn
  started-other d up w e ne =
      ground (arith, start-other d up (take_turn can_pipe can_start d up w) e)

  started-busy :
      (d : ℕ) (up : Bool) (w : Wireless) → (started d up w).busy ≡ (w.busy || (w.devs d).serialize)
  unfolding take_turn
  started-busy d up w = start-busy d up (take_turn can_pipe can_start d up w)

  started-kind :
      (d : ℕ) (up : Bool) (w : Wireless)
      → ((started d up w).devs d).serialize ≡ (w.devs d).serialize
  unfolding take_turn
  started-kind d up w = ground (arith, start-kind d up (take_turn can_pipe can_start d up w))

  -- Who is served after a start was served before, or is the device, and then the turn was free.
  started-who :
      (d : ℕ) (up : Bool) (w : Wireless) (e : ℕ)
      → (w.busy && (w.devs d).serialize) ≡ false
      → Served e (started d up w)
      → ((d ≡ e) × (w.busy ≡ false) × ((w.devs d).serialize ≡ true)) ⊎ Served e w
  started-who d up w e free s = elim (Bool-cases (d == e)) [
    | inl same ↦
        let eq : d ≡ e = ground arith in
        let kind : (w.devs d).serialize ≡ true =
          ground (arith, started-kind d up w, ap (λ k. (started d up w).devs k) eq) in
        inl (eq, ground arith, kind)
    | inr ne ↦ inr (rw (← started-other d up w e ne) s)
  ]

  started-Serial :
      (d : ℕ) (up : Bool) (w : Wireless)
      → (w.busy && (w.devs d).serialize) ≡ false
      → Serial w
      → Serial (started d up w)
  started-Serial d up w free s = record {
    one = λ a b p q. elim (started-who d up w a free p) [
      | inl (ea, fa, ka) ↦ elim (started-who d up w b free q) [
        | inl (eb, fb, kb) ↦ sym ea ∙ eb
        | inr old ↦ absurd (ground (arith, s.held b old))
      ]
      | inr old_a ↦ elim (started-who d up w b free q) [
        | inl (eb, fb, kb) ↦ absurd (ground (arith, s.held a old_a))
        | inr old_b ↦ s.one a b old_a old_b
      ]
    ];
    held = λ a p. elim (started-who d up w a free p) [
      | inl (ea, fa, ka) ↦ ground (arith, started-busy d up w)
      | inr old ↦ ground (arith, started-busy d up w, s.held a old)
    ];
  }

  started-Vacant :
      (d : ℕ) (up : Bool) (w : Wireless)
      → (w.busy && (w.devs d).serialize) ≡ false
      → Vacant w
      → Vacant (started d up w)
  started-Vacant d up w free v = record {
    taken = ground (arith, started-busy d up w, v.taken);
    nobody = λ e.
        elim (Bool-cases
          (((started d up w).devs e).running && ((started d up w).devs e).serialize)) [
            | inr gone ↦ gone
            | inl served ↦ elim (started-who d up w e free served) [
              | inl (same, idle, kind) ↦ absurd (ground (arith, v.taken))
              | inr old ↦ absurd (ground (arith, v.nobody e))
            ]
          ];
  }

  run-Serial :
      (d : ℕ) (up : Bool) (w : Wireless) → Serial w → Serial (run_handler can_pipe can_start d up w)
  unfolding run_handler
  run-Serial d up w s =
      let w1 = handler_stop d w in
      let a = Stops-Serial w w1 (handler_stop-Stops d w) s in
      if_keeps Serial (w1.busy && (w1.devs d).serialize)
        (λ e. Stops-Serial w1 _ (wait-Stops d up w1) a) (λ e. started-Serial d up w1 e a)

  Stops-Vacant : (w v : Wireless) → Stops w v → Vacant w → Vacant v
  Stops-Vacant w v st a = record {
    taken = st.turn ∙ a.taken;
    nobody = λ d. elim (Bool-cases ((v.devs d).running && (v.devs d).serialize)) [
      | inr gone ↦ gone
      | inl served ↦ absurd (ground (arith, a.nobody d, st.runs d served))
    ];
  }

  run-Vacant :
      (d : ℕ) (up : Bool) (w : Wireless) → Vacant w → Vacant (run_handler can_pipe can_start d up w)
  unfolding run_handler
  run-Vacant d up w v =
      let w1 = handler_stop d w in
      let a = Stops-Vacant w w1 (handler_stop-Stops d w) v in
      if_keeps Vacant (w1.busy && (w1.devs d).serialize)
        (λ e. Stops-Vacant w1 _ (wait-Stops d up w1) a) (λ e. started-Vacant d up w1 e a)

  pub Serial-Closed : Closed can_pipe can_start Serial
  Serial-Closed = record { stops = Stops-Serial; runs = run-Serial }

  pub Vacant-Closed : Closed can_pipe can_start Vacant
  Vacant-Closed = record { stops = Stops-Vacant; runs = run-Vacant }

  run-Plain :
      (e d : ℕ) (up : Bool) (w : Wireless)
      → Plain e w
      → Plain e (run_handler can_pipe can_start d up w)
  unfolding run_handler
  run-Plain e d up w p =
      let w1 = handler_stop d w in
      let a = (handler_stop-Stops d w).same_kind e ∙ p in
      if_keeps (Plain e) (w1.busy && (w1.devs d).serialize)
        (λ c. (wait-Stops d up w1).same_kind e ∙ a)
        (λ c. elim (Bool-cases (d == e)) [
          | inl same ↦
              let eq : d ≡ e = ground arith in
              subst (λ k. (w1.devs k).serialize ≡ false → Plain k (started d up w1)) eq
                (λ q. started-kind d up w1 ∙ q) a
          | inr ne ↦ rw (started-other d up w1 e ne) a
        ])

  pub Plain-Closed : (e : ℕ) → Closed can_pipe can_start (Plain e)
  Plain-Closed e = record { stops = λ w v st p. st.same_kind e ∙ p; runs = run-Plain e }
