-- ===== src/ProtoShell/Notify.antt =====
-- proto-shell.c, proto_shell_notify: what a script tells the daemon over ubus. The attributes are
-- taken as parsed; what an update does to the interface and its addresses is the hook `apply_link`.
use netifd.Prelude.{
  ℕ, suc, ◌-◌, List, [], ◌∷◌, Bool, true, false, ◌||◌, Option, none, some, ltb, ◌==◌, if◌then◌else◌,
}
use netifd.ProtoShell.State.{
  Sm, s_idle, s_setup, s_setup_abort, s_teardown, cmd_teardown, ifpev_up, ifpev_link_lost,
  proto_task, signal, State, Config, Hooks, sigterm, sigkill, emit, start_command,
}
use netifd.ProtoShell.Machine.{proto_shell_handler}

-- The UBUS_STATUS_* codes that are returned here.
pub data Status : Type 0 where
  ok invalid_argument permission_denied not_found unknown_error : Status

-- One attribute of a list: a well-formed string, or something else.
pub data Item : Type 0 where
  str : ℕ → Item
  other : Item

-- The loop of fill_string_list with `argc` entries filled: the strings that it appends, or `none`
-- for false.
unfoldable pub fill_from : ℕ → ℕ → List Item → Option (List ℕ)
fill_from max argc [] = some []
fill_from max argc (other ∷ l) = none
fill_from max argc (str v ∷ l) =
    let rest = fill_from max (suc argc) l in
    if suc argc == max - 1 then none else elim rest [ none ↦ none | some vs ↦ some (v ∷ vs) ]

-- A missing attribute is an empty list.
unfoldable pub fill_string_list : ℕ → Option (List Item) → Option (List ℕ)
unfolding fill_from
fill_string_list max none = some []
fill_string_list max (some l) = fill_from max 0 l

-- The states in which a script may no longer change the link.
abbrev pub is_stopping : Sm → Bool
is_stopping s_idle = false
is_stopping s_setup = false
is_stopping s_setup_abort = true
is_stopping s_teardown = true

-- A signal that is missing or out of range is SIGTERM.
abbrev chosen : Option ℕ → ℕ
chosen none = sigterm
chosen (some k) = if ltb 31 k then sigterm else k

module _ {E : Type 0} where
  unfoldable pub proto_shell_kill_command : Option ℕ → State E → State E × Status
  proto_shell_kill_command sig s =
      let k = chosen sig in
      let s1 = record s {
        proto_task_killed = s.proto_task_killed || (k == sigterm || k == sigkill);
      } in
      if s.proto_pending then (emit (signal proto_task k) s1, ok) else (s, ok)

module _ {E : Type 0} (h : Hooks E) (apply_link : State E → State E × Status) where
  abbrev pub settle_link : State E × Status → State E × Status
  settle_link (s, ok) =
      if is_stopping s.sm then (s, ok) else (record (h.proto_event ifpev_up s) { sm = s_idle }, ok)
  settle_link (s, e) = (s, e)

  unfoldable pub proto_shell_update_link : Option Bool → State E → State E × Status
  proto_shell_update_link up s =
      let set = settle_link (apply_link s) in
      if is_stopping s.sm then (s, permission_denied) else elim up [
        | none ↦ (s, invalid_argument)
        | some true ↦ set
        | some false ↦ (h.proto_event ifpev_link_lost s, ok)
      ]

module _ {E : Type 0} (h : Hooks E) where
  unfoldable pub proto_shell_run_command :
      Option (List Item) → Option (List Item) → State E → State E × Status
  unfolding start_command fill_string_list
  proto_shell_run_command command env s =
      let start : State E × Status = elim (fill_string_list 64 command) [
        | none ↦ (s, invalid_argument)
        | some argv ↦ elim (fill_string_list 32 env) [
          | none ↦ (s, invalid_argument)
          | some envp ↦ (start_command h s, ok)
        ]
      ] in
      if is_stopping s.sm
      then (s, permission_denied)
      else elim command [ none ↦ (s, invalid_argument) | some l ↦ start ]

module _ {E : Type 0} (h : Hooks E) (c : Config) where
  unfoldable pub setup_failed_in : Sm → State E → State E × Status
  unfolding proto_shell_handler
  setup_failed_in s_idle s =
      ((proto_shell_handler h c cmd_teardown (h.proto_event ifpev_link_lost s)).0, ok)
  setup_failed_in s_setup s = ((proto_shell_handler h c cmd_teardown s).0, ok)
  setup_failed_in _ s = (s, permission_denied)

  unfoldable pub proto_shell_setup_failed : State E → State E × Status
  unfolding setup_failed_in
  proto_shell_setup_failed s = setup_failed_in s.sm s
