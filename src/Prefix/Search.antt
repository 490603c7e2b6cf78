-- ===== src/Prefix/Search.antt =====
-- interface-ip.c, interface_prefix_assign: the gaps of the list and what the search finds.
use netifd.Prelude.{
  ℕ, zero, suc, ◌+◌, ◌≤◌, ◌<◌, ◌≡◌, refl, ◌≢◌, ◌↔◌, ◌⊎◌, inl, inr, List, [], ◌∷◌, Option, none,
  some, arith, Option-cases, subst,
}
use netifd.Prelude.Int.{ℤ, pos, negsuc}
use netifd.Prefix.Slots.{Assignment, size, start, round_up, try_slot, assign_from, prefix_assign}
use netifd.Prefix.Rounding.{size_pos, round_up-least}
use netifd.Prefix.Packing.{Packed, EndsAt, Free, Inserted, here, there, Respects, try_slot_fits}

-- What one call promises when it returns true.
pub record Assigned (lo : ℕ) (a : Assignment) (l m : List Assignment) : Type 0 where
  pub slot : ℕ
  pub inserted : Inserted (record a { assigned = pos slot }) l m
  pub free : Free slot (size a) lo l
  pub respects : Respects a.assigned (size a) slot

assign_from-nil : (lo : ℕ) (a : Assignment) (m : List Assignment) → assign_from lo a [] ≢ some m
unfolding assign_from
assign_from-nil lo a m e = cc

-- The two ways in which the loop ends with true.
assign_from_cases :
    (lo : ℕ) (a c : Assignment) (l m : List Assignment)
    → assign_from lo a (c ∷ l) ≡ some m
    → ((s : ℕ) × (try_slot a.assigned lo (size a) (start c) ≡ some s)
        × (record a { assigned = pos s } ∷ c ∷ l ≡ m))
      ⊎ ((r : List Assignment) × (assign_from (start c + size c) a l ≡ some r) × (c ∷ r ≡ m))
unfolding assign_from
assign_from_cases lo a c l m e = elim (Option-cases (try_slot a.assigned lo (size a) (start c))) [
  | inl miss ↦ inr (after miss (assign_from (start c + size c) a l) refl)
  | inr (s, hit) ↦ inl (s, hit, ground arith)
]
  where
    after :
        try_slot a.assigned lo (size a) (start c) ≡ none
        → (o : Option (List Assignment)) → assign_from (start c + size c) a l ≡ o
        → (r : List Assignment) × (assign_from (start c + size c) a l ≡ some r) × (c ∷ r ≡ m)
    after miss none q = absurd (ground arith)
    after miss (some r) q = (r, q, ground arith)

assign_from_sound :
    (lo : ℕ) (a : Assignment) (l m : List Assignment)
    → assign_from lo a l ≡ some m
    → Assigned lo a l m
assign_from_sound lo a [] m e = absurd (assign_from-nil lo a m e)
assign_from_sound lo a (c ∷ l) m e = elim (assign_from_cases lo a c l m e) [
  | inl (s, hit, is) ↦
      let (after, fits, ok) = try_slot_fits a.assigned lo (size a) (start c) (size_pos a) hit in
      subst (Assigned lo a (c ∷ l)) is
        (record { slot = s; inserted = here; free = inl (after, fits); respects = ok })
  | inr (r, found, is) ↦
      let rest = assign_from_sound (start c + size c) a l r found in
      subst (Assigned lo a (c ∷ l)) is (record {
        slot = rest.slot;
        inserted = there rest.inserted;
        free = inr rest.free;
        respects = rest.respects;
      })
]

try_slot_complete :
    (h : ℤ) (lo n limit s : ℕ)
    → 0 < n
    → Respects h n s
    → lo ≤ s
    → s + n ≤ limit
    → (r : ℕ) × (try_slot h lo n limit ≡ some r)
unfolding try_slot
try_slot_complete (pos hint) lo n limit s p r le fits = (hint, ground arith)
try_slot_complete (negsuc zero) lo n limit s p (q, e) le fits =
    (round_up lo n, ground (arith, round_up-least lo n q))
try_slot_complete (negsuc (suc k)) lo n limit s p r le fits = absurd r

assign_from_complete :
    (lo : ℕ) (a : Assignment) (l : List Assignment) (s : ℕ)
    → Respects a.assigned (size a) s
    → Free s (size a) lo l
    → assign_from lo a l ≡ none
    → ⊥
unfolding assign_from
assign_from_complete lo a [] s r f e = f
assign_from_complete lo a (c ∷ l) s r (inl (le, fits)) e =
    let (t, hit) = try_slot_complete a.assigned lo (size a) (start c) s (size_pos a) r le fits in
    ground arith
assign_from_complete lo a (c ∷ l) s r (inr f) e =
    ground (arith, assign_from_complete (start c + size c) a l s r f)

assign_from-Packed :
    (lo : ℕ) (a : Assignment) (l m : List Assignment)
    → Packed lo l
    → assign_from lo a l ≡ some m
    → Packed lo m
assign_from-Packed lo a [] m p e = absurd (assign_from-nil lo a m e)
assign_from-Packed lo a (c ∷ l) m p e = elim (assign_from_cases lo a c l m e) [
  | inl (s, hit, is) ↦
      let (after, fits, ok) = try_slot_fits a.assigned lo (size a) (start c) (size_pos a) hit in
      subst (Packed lo) is (after, (fits, p.1))
  | inr (r, found, is) ↦
      subst (Packed lo) is (p.0, assign_from-Packed (start c + size c) a l r p.1 found)
]

EndsAt-cons :
    (limit : ℕ) (c : Assignment) (l : List Assignment) → EndsAt limit l → EndsAt limit (c ∷ l)
EndsAt-cons limit c [] h = absurd h
EndsAt-cons limit c (d ∷ l) h = h

assign_from-EndsAt :
    (limit lo : ℕ) (a : Assignment) (l m : List Assignment)
    → EndsAt limit l
    → assign_from lo a l ≡ some m
    → EndsAt limit m
assign_from-EndsAt limit lo a [] m h e = absurd h
assign_from-EndsAt limit lo a (c ∷ []) m h e = elim (assign_from_cases lo a c [] m e) [
  | inl (s, hit, is) ↦ subst (EndsAt limit) is h
  | inr (r, found, is) ↦ absurd (assign_from-nil _ a r found)
]
assign_from-EndsAt limit lo a (c ∷ d ∷ l) m h e = elim (assign_from_cases lo a c (d ∷ l) m e) [
  | inl (s, hit, is) ↦ subst (EndsAt limit) is h
  | inr (r, found, is) ↦
      subst (EndsAt limit) is
        (EndsAt-cons limit c r (assign_from-EndsAt limit (start c + size c) a (d ∷ l) r h found))
]

-- A search that succeeds puts one new entry in the list and changes no other; the entry lies in a
-- gap, at the place that the hint names, or at a multiple of its size if there is no hint.
pub prefix_assign-Assigned :
    (a : Assignment) (l m : List Assignment) → prefix_assign l a ≡ some m → Assigned 0 a l m
unfolding prefix_assign
prefix_assign-Assigned a l m e = assign_from_sound 0 a l m e

-- The search for a subnet fails exactly if no gap of the list holds a subnet of that length at the
-- place that the hint names, or, with no hint, at any multiple of its size.
pub prefix_assign-none :
    (a : Assignment) (l : List Assignment)
    → (prefix_assign l a ≡ none)
      ↔ ((s : ℕ) → Respects a.assigned (size a) s → ¬ Free s (size a) 0 l)
unfolding prefix_assign
prefix_assign-none a l = (
  λ e s r f. assign_from_complete 0 a l s r f e,
  λ full. elim (Option-cases (assign_from 0 a l)) [
    | inl e ↦ e
    | inr (m, e) ↦
        let found = assign_from_sound 0 a l m e in
        absurd (full found.slot found.respects found.free)
  ],
)

-- A search that succeeds on a list that is in order, without overlap, and ends with its sentinel
-- gives such a list, with the sentinel at the same place.
pub prefix_assign-Packed :
    (limit : ℕ) (a : Assignment) (l m : List Assignment)
    → Packed 0 l
    → EndsAt limit l
    → prefix_assign l a ≡ some m
    → Packed 0 m × EndsAt limit m
unfolding prefix_assign
prefix_assign-Packed limit a l m p h e =
    (assign_from-Packed 0 a l m p e, assign_from-EndsAt limit 0 a l m h e)
