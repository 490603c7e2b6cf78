-- ===== src/ProtoShell/Requests.antt =====
-- What a script's notifications do to the handler, and how its argument lists are taken over.
use netifd.Prelude.{
  ℕ, suc, ◌+◌, ◌<◌, ◌≡◌, ◌↔◌, refl, List, [], ◌∷◌, Option, some, arith, if_keeps, length, map,
}
use netifd.ProtoShell.State.{
  Sm, s_idle, s_setup, cmd_teardown, ifpev_link_lost, State, Config, Hooks,
}
use netifd.ProtoShell.Notify.{
  Status, Item, str, other, fill_from, fill_string_list, proto_shell_run_command,
  proto_shell_kill_command, proto_shell_setup_failed, setup_failed_in,
}
use netifd.ProtoShell.Invariant.{Inv, EventKeeps, proto_shell_handler-Inv}

fill_from_strings :
    (max argc : ℕ) (vs : List ℕ)
    → argc + length vs + 1 < max
    → fill_from max argc (map str vs) ≡ some vs
unfolding fill_from
fill_from_strings max argc [] h = refl
fill_from_strings max argc (v ∷ vs) h = ground (arith, fill_from_strings max (suc argc) vs)

fill_from_bound :
    (max argc : ℕ) (l : List Item) (vs : List ℕ)
    → argc + 1 < max
    → fill_from max argc l ≡ some vs
    → (argc + length vs + 1 < max) × (l ≡ map str vs)
unfolding fill_from
fill_from_bound max argc [] [] h e = (ground arith, refl)
fill_from_bound max argc [] (v ∷ vs) h e = absurd (ground arith)
fill_from_bound max argc (other ∷ l) vs h e = absurd (ground arith)
fill_from_bound max argc (str v ∷ l) [] h e = absurd (ground arith)
fill_from_bound max argc (str v ∷ l) (w ∷ vs) h e = (
  ground (arith, fill_from_bound max (suc argc) l vs),
  ground (arith, fill_from_bound max (suc argc) l vs),
)

-- With an array of at least two entries, an argument list is taken over, and in full, exactly if
-- all its attributes are strings and their number is at most two less than the size of the array.
pub fill_string_list_iff :
    (max : ℕ) (l : List Item) (vs : List ℕ)
    → 1 < max
    → (fill_string_list max (some l) ≡ some vs) ↔ ((l ≡ map str vs) × (length vs + 1 < max))
unfolding fill_string_list
fill_string_list_iff max l vs h = (
  λ e. let b = fill_from_bound max 0 l vs (omega arith) e in (b.1, omega (arith, b.0)),
  λ p. rw p.0 (fill_from_strings max 0 vs (omega (arith, p.1))),
)

module _ {E : Type 0} (h : Hooks E) (c : Config) (keeps : EventKeeps h c) where
  pub proto_shell_run_command-Inv :
      (command env : Option (List Item)) (s : State E)
      → Inv s
      → Inv (proto_shell_run_command h command env s).0
  unfolding proto_shell_run_command
  proto_shell_run_command-Inv command env s i = ground arith

  pub proto_shell_kill_command-Inv :
      (sig : Option ℕ) (s : State E) → Inv s → Inv (proto_shell_kill_command sig s).0
  unfolding proto_shell_kill_command
  proto_shell_kill_command-Inv sig s i =
      if_keeps (λ (r : State E × Status). Inv r.0) s.proto_pending
        (λ e. record { armed = i.armed; waits = i.waits }) (λ e. i)

  setup_failed_in-Inv : (m : Sm) (s : State E) → Inv s → Inv (setup_failed_in h c m s).0
  unfolding setup_failed_in
  setup_failed_in-Inv s_idle s i =
      proto_shell_handler-Inv h c cmd_teardown _ (keeps ifpev_link_lost s i)
  setup_failed_in-Inv s_setup s i = proto_shell_handler-Inv h c cmd_teardown s i
  setup_failed_in-Inv _ s i = i

  pub proto_shell_setup_failed-Inv : (s : State E) → Inv s → Inv (proto_shell_setup_failed h c s).0
  unfolding proto_shell_setup_failed
  proto_shell_setup_failed-Inv s i = setup_failed_in-Inv s.sm s i
