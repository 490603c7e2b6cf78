-- ===== src/Prefix/Assign.antt =====
-- interface-ip.c, interface_update_prefix_assignments: the list of a prefix is built anew. The
-- calls of interface_set_prefix_address that stand before and after it are not part of this model,
-- nor is a malloc that fails. `classes` are the interface's assignment classes.
use Prim.Native.String.{String}
use text.Mathlib.Text.{◌==◌ as str_eq}
use netifd.Prelude.{
  ℕ, zero, suc, ◌-◌, ◌%◌, ◌^◌, List, [], ◌∷◌, ◌++◌, Bool, true, false, not, ◌&&◌, ◌||◌, Option,
  none, some, ltb, leb, if◌then◌else◌,
}
use netifd.Prelude.Int.{ℤ, pos, negsuc}
use netifd.Prefix.Slots.{Assignment, prefix_assign}

-- The fields of struct interface that are read here.
pub record Downlink : Type 0 where
  pub name : String
  pub assignment_length : ℕ
  pub assignment_hint : ℤ
  pub assignment_weight : ℤ
  pub classes : List String

-- The fields of struct device_prefix that are read here; `excl_word` is ntohl of the second word of
-- the excluded prefix.
pub record DevicePrefix : Type 0 where
  pub length : ℕ
  pub excl_length : ℕ
  pub excl_word : ℕ
  pub pclass : String

abbrev pub is_unset : ℤ → Bool
is_unset (negsuc zero) = true
is_unset _ = false

abbrev has_class : String → List String → Bool
has_class p [] = false
has_class p (c ∷ cs) = str_eq c p || has_class p cs

-- The length is usable, and the prefix is of one of the interface's classes if it has any.
unfoldable pub is_candidate : DevicePrefix → Downlink → Bool
is_candidate p i =
    leb 48 i.assignment_length
    && leb i.assignment_length 64
    && elim i.classes [ [] ↦ true | c ∷ cs ↦ has_class p.pclass (c ∷ cs) ]

-- The sizes below are shifts in an int, for prefixes of length 34 to 64.

-- The sentinel at the end of the prefix. Its weight is left unset by the code, and not read.
abbrev pub sentinel : DevicePrefix → Assignment
sentinel p = record {
  assigned = pos (2 ^ (64 - p.length));
  length = 64;
  weight = pos 0;
  enabled = false;
  name = "";
}

-- `x & ((1 << k) - 1)` is `x % 2 ^ k`.
abbrev pub excluded : DevicePrefix → Assignment
excluded p = record {
  assigned = pos (p.excl_word % 2 ^ (64 - p.length));
  length = p.excl_length;
  weight = pos 0;
  enabled = false;
  name = "!excluded";
}

unfoldable pub first_entries : DevicePrefix → List Assignment
first_entries p = if ltb 0 p.excl_length then excluded p ∷ sentinel p ∷ [] else sentinel p ∷ []

abbrev pub request : Downlink → Assignment
request i = record {
  assigned = i.assignment_hint;
  length = i.assignment_length;
  weight = i.assignment_weight;
  enabled = false;
  name = i.name;
}

-- The state of the first loop: the list of the prefix, the entries for later, `assigned_any`.
pub record Round : Type 0 where
  pub entries : List Assignment
  pub later : List Assignment
  pub assigned_any : Bool

-- A hint is tried at once. What has no hint, or one that does not fit, is put off.
unfoldable pub try_hint : Round → Assignment → Option (List Assignment) → Round
try_hint r c none = record r { later = r.later ++ record c { assigned = negsuc 0 } ∷ [] }
try_hint r c (some l) = record r { entries = l; assigned_any = true }

unfoldable pub first_step : DevicePrefix → Round → Downlink → Round
unfolding try_hint is_candidate
first_step p r i =
    let c = request i in
    if not (is_candidate p i)
    then r
    else if is_unset c.assigned
    then try_hint r c none
    else try_hint r c (prefix_assign r.entries c)

unfoldable pub first_pass : DevicePrefix → Round → List Downlink → Round
first_pass p r [] = r
first_pass p r (i ∷ is) = first_pass p (first_step p r i) is

-- The do-while loop: from the length asked for down to a single /64, with the rounds left as fuel.
unfoldable pub retry : ℕ → List Assignment → Assignment → Option (List Assignment)
retry zero l c = prefix_assign l c
retry (suc n) l c =
    let shorter = retry n l (record c { length = suc c.length }) in
    elim (prefix_assign l c) [ some m ↦ some m | none ↦ shorter ]

-- Length 64 is the last to be tried.
unfoldable pub place : List Assignment → Assignment → Option (List Assignment)
place l c = retry (64 - c.length) l c

unfoldable pub second_step : List Assignment × Bool → Assignment → List Assignment × Bool
second_step (l, any) c = elim (place l c) [ some m ↦ (m, true) | none ↦ (l, any) ]

unfoldable pub second_pass : List Assignment × Bool → List Assignment → List Assignment × Bool
second_pass s [] = s
second_pass s (c ∷ cs) = second_pass (second_step s c) cs

-- The whole routine after the old entries are gone. `visit` is the order in which the AVL tree of
-- libubox hands back the entries that were put in it, sorted by prefix_assignment_cmp.
module _ (visit : List Assignment → List Assignment) where
  unfoldable pub update_assignments : DevicePrefix → List Downlink → List Assignment × Bool
  update_assignments p is =
      let r =
        first_pass p (record { entries = first_entries p; later = []; assigned_any = false }) is in
      second_pass (r.entries, r.assigned_any) (visit r.later)
