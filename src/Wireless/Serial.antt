-- ===== src/Wireless/Serial.antt =====
-- wireless.c: the scripts of the devices that are serialized, and the turn that they take.
use netifd.Prelude.{ℕ, ◌≡◌, refl, ◌∙◌, List, [], ◌∷◌, Bool, true, false, not, ◌&&◌, arith, if_keeps}
use netifd.Wireless.Types.{Process, Effect, Wdev, Wireless, put, emit, kill, complete}
use netifd.Wireless.Handlers.{
  complete_kill_request, kept, send_signals, put_procs, process_kill_all, handler_stop, free_state,
  is_empty,
}

-- The device is serialized and its script runs.
abbrev pub Served : ℕ → Wireless → Type 0
Served d w = ((w.devs d).running && (w.devs d).serialize) ≡ true

-- At most one such device at a time, and it holds the turn.
pub record Serial (w : Wireless) : Type 0 where
  pub one : (d e : ℕ) → Served d w → Served e w → d ≡ e
  pub held : (d : ℕ) → Served d w → w.busy ≡ true

-- A change that starts nothing and keeps the turn.
pub record Stops (w v : Wireless) : Type 0 where
  pub runs : (d : ℕ) → Served d v → Served d w
  pub turn : v.busy ≡ w.busy
  pub same_kind : (d : ℕ) → (v.devs d).serialize ≡ (w.devs d).serialize

pub Stops-refl : (w : Wireless) → Stops w w
Stops-refl w = record { runs = λ d s. s; turn = refl; same_kind = λ d. refl }

pub Stops-Serial : (w v : Wireless) → Stops w v → Serial w → Serial v
Stops-Serial w v st s = record {
  one = λ d e p q. s.one d e (st.runs d p) (st.runs e q);
  held = λ d p. ground (arith, s.held d (st.runs d p), st.turn);
}

pub put-Stops :
    (d : ℕ) (x : Wdev) (w : Wireless)
    → x.running ≡ (w.devs d).running
    → x.serialize ≡ (w.devs d).serialize
    → Stops w (put d x w)
put-Stops d x w a b = record {
  runs = λ e s. ground (arith, a, b);
  turn = refl;
  same_kind = λ e. ground (arith, b);
}

pub put-Serial :
    (d : ℕ) (x : Wdev) (w : Wireless)
    → x.running ≡ (w.devs d).running
    → x.serialize ≡ (w.devs d).serialize
    → Serial w
    → Serial (put d x w)
put-Serial d x w a b s = Stops-Serial w (put d x w) (put-Stops d x w a b) s

pub Stops-trans : (u v w : Wireless) → Stops u v → Stops v w → Stops u w
Stops-trans u v w a b = record {
  runs = λ d s. a.runs d (b.runs d s);
  turn = b.turn ∙ a.turn;
  same_kind = λ d. b.same_kind d ∙ a.same_kind d;
}

pub emit-Stops : (e : Effect) (w : Wireless) → Stops w (emit e w)
emit-Stops e w = record { runs = λ d s. s; turn = refl; same_kind = λ d. refl }

complete-Stops : (d : ℕ) (w : Wireless) → Stops w (complete_kill_request d w)
unfolding complete_kill_request
complete-Stops d w =
    let w1 = emit (complete d) w in
    if_keeps (Stops w) (w.devs d).kill_request
      (λ e.
        Stops-trans w w1 _ (emit-Stops (complete d) w)
          (put-Stops d (record (w.devs d) { kill_request = false }) w1 refl refl))
      (λ e. Stops-refl w)

signals-Stops : (s : ℕ) (ps : List Process) (w : Wireless) → Stops w (send_signals s ps w)
unfolding send_signals
signals-Stops s [] w = Stops-refl w
signals-Stops s (p ∷ ps) w =
    let sent = emit (kill p.pid s) w in
    if_keeps (λ (v : Wireless). Stops w (send_signals s ps v)) (w.alive p.pid && not p.keep)
      (λ e. Stops-trans w sent _ (emit-Stops (kill p.pid s) w) (signals-Stops s ps sent))
      (λ e. signals-Stops s ps w)

pub put_procs-Stops : (d : ℕ) (ps : List Process) (w : Wireless) → Stops w (put_procs d ps w)
put_procs-Stops d ps w =
    let w1 = put d (record (w.devs d) { script_proc = ps }) w in
    let a = put-Stops d (record (w.devs d) { script_proc = ps }) w refl refl in
    if_keeps (Stops w) (is_empty ps && not (is_empty (w.devs d).script_proc))
      (λ e. Stops-trans w w1 _ a (complete-Stops d w1)) (λ e. a)

pub kill_all-Stops : (d s : ℕ) (all : Bool) (w : Wireless) → Stops w (process_kill_all d s all w)
unfolding process_kill_all
kill_all-Stops d s all w =
    let ps = (w.devs d).script_proc in
    let w1 = send_signals s ps w in
    let w2 = put_procs d (kept w.alive all ps) w1 in
    let a =
      Stops-trans w w1 w2 (signals-Stops s ps w) (put_procs-Stops d (kept w.alive all ps) w1) in
    if_keeps (Stops w) all
      (λ e.
        Stops-trans w w2 _ a
          (put-Stops d (record (w2.devs d) { script_proc_fd = false }) w2 refl refl))
      (λ e. a)

pub handler_stop-Stops : (d : ℕ) (w : Wireless) → Stops w (handler_stop d w)
unfolding handler_stop
handler_stop-Stops d w =
    let a = put-Stops d (record (w.devs d) { handler_pending = false }) w refl refl in
    if_keeps (Stops w) (w.devs d).handler_pending
      (λ e. record { runs = a.runs; turn = a.turn; same_kind = a.same_kind }) (λ e. Stops-refl w)

pub free_state-Stops : (d : ℕ) (w : Wireless) → Stops w (free_state d w)
unfolding free_state
free_state-Stops d w =
    let w1 = handler_stop d w in
    let x1 = record (w1.devs d) { script_check = false; timeout = false } in
    let w2 = put d x1 w1 in
    let w3 = complete_kill_request d w2 in
    Stops-trans w w1 _ (handler_stop-Stops d w) (
      Stops-trans w1 w2 _ (put-Stops d x1 w1 refl refl) (
        Stops-trans w2 w3 _ (complete-Stops d w2)
          (put-Stops d (record (w3.devs d) { data_set = false }) w3 refl refl)))
