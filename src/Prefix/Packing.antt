-- ===== src/Prefix/Packing.antt =====
-- interface-ip.c: the order of the entries in the list of a prefix.
use netifd.Prelude.{ℕ, zero, suc, ◌+◌, ◌*◌, ◌≤◌, ◌<◌, ◌≡◌, ◌⊎◌, List, [], ◌∷◌, some, arith, All}
use netifd.Prelude.Int.{ℤ, pos, negsuc}
use netifd.Prefix.Slots.{Assignment, size, start, try_slot}
use netifd.Prefix.Rounding.{round_up-ge, round_up-multiple}

-- Each entry starts at `lo` or later, and after the end of the entry before it.
abbrev pub Packed : ℕ → List Assignment → Type 0
Packed lo [] = Unit
Packed lo (c ∷ l) = (lo ≤ start c) × Packed (start c + size c) l

-- The last entry is the sentinel, which starts where the prefix ends.
abbrev pub EndsAt : ℕ → List Assignment → Type 0
EndsAt limit [] = ⊥
EndsAt limit (c ∷ []) = start c ≡ limit
EndsAt limit (c ∷ d ∷ l) = EndsAt limit (d ∷ l)

-- The `n` networks from `s` lie in a gap of the list, at or after `lo`.
abbrev pub Free : ℕ → ℕ → ℕ → List Assignment → Type 0
Free s n lo [] = ⊥
Free s n lo (c ∷ l) = ((lo ≤ s) × (s + n ≤ start c)) ⊎ Free s n (start c + size c) l

-- The second list is the first with one more entry.
pub data Inserted (x : Assignment) : List Assignment → List Assignment → Type 0 where
  here : {l : List Assignment} → Inserted x l (x ∷ l)
  there : {c : Assignment} {l m : List Assignment} → Inserted x l m → Inserted x (c ∷ l) (c ∷ m)

-- A subnet starts where its hint says, or at a multiple of its size if none was given.
abbrev pub Respects : ℤ → ℕ → ℕ → Type 0
Respects (pos hint) n s = s ≡ hint
Respects (negsuc zero) n s = (q : ℕ) × (s ≡ q * n)
Respects (negsuc (suc k)) n s = ⊥

pub Packed-mono : {lo hi : ℕ} (l : List Assignment) → lo ≤ hi → Packed hi l → Packed lo l
Packed-mono [] h p = tt
Packed-mono (c ∷ l) h p = (omega arith, p.1)

-- All entries behind the first one start after its end.
pub Packed-after : (lo : ℕ) (l : List Assignment) → Packed lo l → All (λ d. lo ≤ start d) l
Packed-after lo [] p = tt
Packed-after lo (c ∷ l) p = (p.0, Packed-after lo l (Packed-mono l (omega arith) p.1))

pub try_slot_fits :
    (h : ℤ) (current n limit : ℕ) {s : ℕ}
    → 0 < n
    → try_slot h current n limit ≡ some s
    → (current ≤ s) × (s + n ≤ limit) × Respects h n s
unfolding try_slot
try_slot_fits (pos hint) current n limit p e = ground arith
try_slot_fits (negsuc zero) current n limit p e =
    ground (arith, round_up-ge current n, round_up-multiple current n)
try_slot_fits (negsuc (suc k)) current n limit p e = cc
