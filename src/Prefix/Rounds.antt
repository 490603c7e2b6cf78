-- ===== src/Prefix/Rounds.antt =====
-- What the whole routine leaves in the list of a prefix, in any order that the tree visits.
use netifd.Prelude.{
  ℕ, zero, suc, ◌+◌, ◌-◌, ◌%◌, ◌^◌, ◌≤◌, ◌<◌, ◌≡◌, refl, inl, inr, List, [], ◌∷◌, Bool, Option,
  none, some, arith, Option-cases,
}
use netifd.Prefix.Slots.{Assignment, prefix_assign}
use netifd.Prefix.Packing.{Packed, EndsAt}
use netifd.Prefix.Search.{prefix_assign-Packed}
use netifd.Prefix.Placing.{retry_cases}
use netifd.Prefix.Assign.{
  Downlink, DevicePrefix, Round, request, first_entries, try_hint, first_step, first_pass, retry,
  place, second_step, second_pass, update_assignments,
}

-- The list is in order, and its sentinel stands at the end of the prefix.
abbrev pub IsLaidOut : ℕ → List Assignment → Type 0
IsLaidOut limit l = Packed 0 l × EndsAt limit l

-- The excluded prefix, if there is one, lies inside the delegated prefix.
abbrev pub ExclusionFits : DevicePrefix → Type 0
ExclusionFits p =
    (0 < p.excl_length)
    → p.excl_word % 2 ^ (64 - p.length) + 2 ^ (64 - p.excl_length) ≤ 2 ^ (64 - p.length)

-- The sizes of the prefix and of the excluded one can be shifted in an int, as the code does.
pub record IsIntSized (p : DevicePrefix) : Type 0 where
  pub least : 34 ≤ p.length
  pub most : p.length ≤ 64
  pub excl_most : p.excl_length ≤ 64

abbrev limit_of : DevicePrefix → ℕ
limit_of p = 2 ^ (64 - p.length)

first_entries-IsLaidOut :
    (p : DevicePrefix) → ExclusionFits p → IsLaidOut (limit_of p) (first_entries p)
unfolding first_entries
first_entries-IsLaidOut p h = ground arith

first_step-IsLaidOut :
    (limit : ℕ) (p : DevicePrefix) (r : Round) (i : Downlink)
    → IsLaidOut limit r.entries
    → IsLaidOut limit (first_step p r i).entries
unfolding first_step
first_step-IsLaidOut limit p r i h =
    ground (arith, tried (prefix_assign r.entries (request i)) refl)
  where
    tried :
        (o : Option (List Assignment))
        → prefix_assign r.entries (request i) ≡ o
        → IsLaidOut limit (try_hint r (request i) o).entries
    tried none e = h
    tried (some m) e = prefix_assign-Packed limit (request i) r.entries m h.0 h.1 e

first_pass-IsLaidOut :
    (limit : ℕ) (p : DevicePrefix) (r : Round) (is : List Downlink)
    → IsLaidOut limit r.entries
    → IsLaidOut limit (first_pass p r is).entries
unfolding first_pass
first_pass-IsLaidOut limit p r [] h = h
first_pass-IsLaidOut limit p r (i ∷ is) h =
    first_pass-IsLaidOut limit p (first_step p r i) is (first_step-IsLaidOut limit p r i h)

retry-IsLaidOut :
    (limit n : ℕ) (c : Assignment) (l m : List Assignment)
    → IsLaidOut limit l
    → retry n l c ≡ some m
    → IsLaidOut limit m
retry-IsLaidOut limit zero c l m h e = prefix_assign-Packed limit c l m h.0 h.1 (unfold retry in e)
retry-IsLaidOut limit (suc n) c l m h e = elim (retry_cases n l c e) [
  | inl hit ↦ prefix_assign-Packed limit c l m h.0 h.1 hit
  | inr (miss, rest) ↦ retry-IsLaidOut limit n (record c { length = suc c.length }) l m h rest
]

place-IsLaidOut :
    (limit : ℕ) (c : Assignment) (l m : List Assignment)
    → IsLaidOut limit l
    → place l c ≡ some m
    → IsLaidOut limit m
unfolding place
place-IsLaidOut limit c l m h e = retry-IsLaidOut limit (64 - c.length) c l m h e

second_step-IsLaidOut :
    (limit : ℕ) (s : List Assignment × Bool) (c : Assignment)
    → IsLaidOut limit s.0
    → IsLaidOut limit (second_step s c).0
unfolding second_step
second_step-IsLaidOut limit (l, any) c h = elim (Option-cases (place l c)) [
  | inl e ↦ rw (e, second_step) h
  | inr (m, e) ↦ rw (e, second_step) (place-IsLaidOut limit c l m h e)
]

second_pass-IsLaidOut :
    (limit : ℕ) (s : List Assignment × Bool) (cs : List Assignment)
    → IsLaidOut limit s.0
    → IsLaidOut limit (second_pass s cs).0
unfolding second_pass
second_pass-IsLaidOut limit s [] h = h
second_pass-IsLaidOut limit s (c ∷ cs) h =
    second_pass-IsLaidOut limit (second_step s c) cs (second_step-IsLaidOut limit s c h)

-- Whatever the interfaces ask for, and in whatever order those that were put off are visited, the
-- subnets of the rebuilt list, the excluded prefix and the sentinel follow one another without
-- overlap, and the sentinel stands at the end of the prefix. The delegated prefix must have a
-- length from 34 to 64, so that its size is an int, and an excluded prefix must have a length of 64
-- at most and lie inside the delegated one.
pub update_assignments-IsLaidOut :
    (visit : List Assignment → List Assignment) (p : DevicePrefix) (is : List Downlink)
    → IsIntSized p
    → ExclusionFits p
    → IsLaidOut (2 ^ (64 - p.length)) (update_assignments visit p is).0
unfolding update_assignments
update_assignments-IsLaidOut visit p is sized h =
    second_pass-IsLaidOut (limit_of p) _ (visit _)
      (first_pass-IsLaidOut (limit_of p) p _ is (first_entries-IsLaidOut p h))
