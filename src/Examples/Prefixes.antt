-- ===== src/Examples/Prefixes.antt =====
-- A /56 prefix: 256 networks, of which the first 16 are excluded. One interface asks for a /60 with
-- no hint, one for the network 64.
use Prim.Native.String.{String}
use netifd.Prelude.{ℕ, ◌-◌, ◌^◌, ◌≡◌, ◌↔◌, refl, List, [], ◌∷◌, false, none, some, arith}
use netifd.Prelude.Int.{pos, negsuc}
use netifd.Prefix.Slots.{Assignment, size, round_up, prefix_assign}
use netifd.Prefix.Assign.{
  Downlink, DevicePrefix, first_entries, first_step, first_pass, retry, place, second_step,
  second_pass, update_assignments,
}
use netifd.Prefix.Packing.{Packed, EndsAt, Free, Respects}
use netifd.Prefix.Search.{
  Assigned, prefix_assign-Assigned, prefix_assign-none, prefix_assign-Packed,
}
use netifd.Prefix.Placing.{Placed, place-Placed, place-none}
use netifd.Prefix.Order.{prefix_assignment_cmp, Before, IsNegative, prefix_assignment_cmp-Before}
use netifd.Prefix.Rounds.{IsLaidOut, update_assignments-IsLaidOut, IsIntSized}

abbrev delegated : DevicePrefix
delegated = record { length = 56; excl_length = 60; excl_word = 0; pclass = "wan6" }

abbrev lan : Downlink
lan = record {
  name = "lan";
  assignment_length = 60;
  assignment_hint = negsuc 0;
  assignment_weight = pos 0;
  classes = [];
}

abbrev guest : Downlink
guest = record {
  name = "guest";
  assignment_length = 62;
  assignment_hint = pos 64;
  assignment_weight = pos 0;
  classes = "wan6" ∷ [];
}

abbrev at : ℕ → ℕ → String → Assignment
at s k n = record { assigned = pos s; length = k; weight = pos 0; enabled = false; name = n }

abbrev wanted : Assignment
wanted = record { assigned = negsuc 0; length = 60; weight = pos 0; enabled = false; name = "lan" }

abbrev before : List Assignment
before = at 0 60 "!excluded" ∷ at 256 64 "" ∷ []

abbrev after : List Assignment
after = at 0 60 "!excluded" ∷ at 16 60 "lan" ∷ at 256 64 "" ∷ []

-- The entries fill the prefix.
abbrev full : List Assignment
full = at 0 56 "lan" ∷ at 256 64 "" ∷ []

both_placed :
    (update_assignments (λ l. l) delegated (lan ∷ guest ∷ [])).0
    ≡ at 0 60 "!excluded" ∷ at 16 60 "lan" ∷ at 64 62 "guest" ∷ at 256 64 "" ∷ []
unfolding update_assignments second_pass first_pass first_step prefix_assign first_entries
    second_step place retry round_up
both_placed = refl

delegated-IntSized : IsIntSized delegated
delegated-IntSized = record { least = omega arith; most = omega arith; excl_most = omega arith }

update_assignments-IsLaidOut_example :
    IsLaidOut
      (2 ^ (64 - delegated.length))
      (update_assignments (λ l. l) delegated (lan ∷ guest ∷ [])).0
update_assignments-IsLaidOut_example =
    update_assignments-IsLaidOut (λ l. l) delegated (lan ∷ guest ∷ []) delegated-IntSized
      (λ h. omega arith)

found : prefix_assign before wanted ≡ some after
unfolding prefix_assign round_up
found = refl

prefix_assign-Assigned_example : Assigned 0 wanted before after
prefix_assign-Assigned_example = prefix_assign-Assigned wanted before after found

prefix_assign-Packed_example : Packed 0 after × EndsAt 256 after
prefix_assign-Packed_example =
    prefix_assign-Packed 256 wanted before after (omega arith, (omega arith, tt)) refl found

placed : place before wanted ≡ some after
unfolding place retry prefix_assign round_up
placed = refl

place-Placed_example : Placed wanted before after
place-Placed_example = place-Placed wanted before after (omega arith) placed

no_place : place full wanted ≡ none
unfolding place retry prefix_assign round_up
no_place = refl

place-none_example : ¬ Free 3 1 0 full
place-none_example = place-none wanted full refl (omega arith) no_place 3

prefix_assign-none_example :
    (prefix_assign full wanted ≡ none)
    ↔ ((s : ℕ) → Respects wanted.assigned (size wanted) s → ¬ Free s (size wanted) 0 full)
prefix_assign-none_example = prefix_assign-none wanted full

prefix_assignment_cmp-Before_example :
    IsNegative (prefix_assignment_cmp (λ a b. pos 0) (at 0 60 "lan") (at 0 62 "guest"))
    ↔ Before (λ a b. pos 0) (at 0 60 "lan") (at 0 62 "guest")
prefix_assignment_cmp-Before_example =
    prefix_assignment_cmp-Before (λ a b. pos 0) (at 0 60 "lan") (at 0 62 "guest")
      (omega arith, omega arith)
