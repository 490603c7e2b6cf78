-- ===== src/Wireless/Handlers.antt =====
-- wireless.c: the processes of a wireless device, and the queue of the scripts that are serialized.
use netifd.Prelude.{ℕ, List, [], ◌∷◌, Bool, true, false, not, ◌&&◌, ◌||◌, if◌then◌else◌}
use netifd.Device.Users.{remove_id}
use netifd.Wireless.Types.{Process, Wireless, put, emit, kill, complete}

unfoldable pub complete_kill_request : ℕ → Wireless → Wireless
complete_kill_request d w =
    if (w.devs d).kill_request
    then put d (record (w.devs d) { kill_request = false }) (emit (complete d) w)
    else w

-- The processes that wireless_process_kill_all leaves in the list.
unfoldable pub kept : (ℕ → Bool) → Bool → List Process → List Process
kept alive all [] = []
kept alive all (p ∷ ps) =
    let rest = kept alive all ps in if all || not (alive p.pid) then rest else p ∷ rest

unfoldable pub send_signals : ℕ → List Process → Wireless → Wireless
send_signals signal [] w = w
send_signals signal (p ∷ ps) w =
    send_signals signal ps (if w.alive p.pid && not p.keep then emit (kill p.pid signal) w else w)

abbrev pub is_empty : List Process → Bool
is_empty [] = true
is_empty (p ∷ ps) = false

-- The request is completed by the removal that leaves the list empty.
abbrev pub put_procs : ℕ → List Process → Wireless → Wireless
put_procs d ps w =
    let w1 = put d (record (w.devs d) { script_proc = ps }) w in
    if is_empty ps && not (is_empty (w.devs d).script_proc) then complete_kill_request d w1 else w1

abbrev pub close_script_proc_fd : ℕ → Wireless → Wireless
close_script_proc_fd d w = put d (record (w.devs d) { script_proc_fd = false }) w

unfoldable pub process_kill_all : ℕ → ℕ → Bool → Wireless → Wireless
unfolding kept send_signals complete_kill_request
process_kill_all d signal all w =
    let ps = (w.devs d).script_proc in
    let w1 = put_procs d (kept w.alive all ps) (send_signals signal ps w) in
    if all then close_script_proc_fd d w1 else w1

unfoldable pub handler_stop : ℕ → Wireless → Wireless
handler_stop d w =
    if (w.devs d).handler_pending
    then record (put d (record (w.devs d) { handler_pending = false }) w) {
      handlers = remove_id d w.handlers;
    }
    else w

unfoldable pub free_state : ℕ → Wireless → Wireless
unfolding handler_stop complete_kill_request
free_state d w =
    let w1 = handler_stop d w in
    let w2 = put d (record (w1.devs d) { script_check = false; timeout = false }) w1 in
    let w3 = complete_kill_request d w2 in put d (record (w3.devs d) { data_set = false }) w3
