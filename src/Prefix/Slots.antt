-- ===== src/Prefix/Slots.antt =====
-- interface-ip.c, interface_prefix_assign: one interface's subnet is put in the list of a prefix.
-- `assigned` counts in /64 networks; -1 means that no subnet is asked for. Entries of the list are
-- not negative, so the walk keeps `current` and the entries' starts in ℕ. For lengths of 34 and
-- more all sums stay below 2 ^ 31.
use Prim.Native.String.{String}
use netifd.Prelude.{
  ℕ, zero, suc, ◌+◌, ◌-◌, ◌*◌, ◌/◌, ◌^◌, List, [], ◌∷◌, Bool, ◌&&◌, Option, none, some, ltb, leb,
  if◌then◌else◌,
}
use netifd.Prelude.Int.{ℤ, pos, negsuc, pos_part}

-- struct device_prefix_assignment
pub record Assignment : Type 0 where
  pub assigned : ℤ
  pub length : ℕ
  pub weight : ℤ
  pub enabled : Bool
  pub name : String

-- The number of /64 networks in an entry, and its first one.
abbrev pub size : Assignment → ℕ
size c = 2 ^ (64 - c.length)

abbrev pub start : Assignment → ℕ
start c = pos_part c.assigned

-- `(current + asize) & ~asize`, where asize is 2 ^ k - 1 and n is 2 ^ k.
unfoldable pub round_up : ℕ → ℕ → ℕ
round_up current n = (current + (n - 1)) / n * n

-- One round of the loop: the first network taken before the entry that starts at `limit`. A hint
-- below -1 is less than any `current`.
unfoldable pub try_slot : ℤ → ℕ → ℕ → ℕ → Option ℕ
try_slot (pos hint) current n limit =
    if leb current hint && ltb (hint + (n - 1)) limit then some hint else none
try_slot (negsuc zero) current n limit =
    let next = round_up current n in if ltb (next + (n - 1)) limit then some next else none
try_slot (negsuc (suc k)) current n limit = none

abbrev cons_entry : Assignment → Option (List Assignment) → Option (List Assignment)
cons_entry c none = none
cons_entry c (some l) = some (c ∷ l)

-- The loop from `current`. The result is the list with the new entry, or `none` for `false`.
unfoldable pub assign_from : ℕ → Assignment → List Assignment → Option (List Assignment)
assign_from current a [] = none
assign_from current a (c ∷ l) =
    let rest = cons_entry c (assign_from (start c + size c) a l) in
    elim (try_slot a.assigned current (size a) (start c)) [
      | some s ↦ some (record a { assigned = pos s } ∷ c ∷ l)
      | none ↦ rest
    ]

unfoldable pub prefix_assign : List Assignment → Assignment → Option (List Assignment)
unfolding assign_from try_slot
prefix_assign l a = assign_from 0 a l
