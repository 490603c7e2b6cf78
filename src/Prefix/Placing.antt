-- ===== src/Prefix/Placing.antt =====
-- interface_update_prefix_assignments, the do-while loop: the size that an entry ends up with.
use native.Mathlib.Nat.{add-zero}
use netifd.Prelude.{ℕ, zero, suc, ◌+◌, ◌-◌, ◌≤◌, ◌<◌, ◌≡◌, ◌⊎◌, inl, inr, List, none, some, arith}
use netifd.Prelude.Int.{negsuc}
use netifd.Prefix.Slots.{Assignment, prefix_assign}
use netifd.Prefix.Packing.{Free}
use netifd.Prefix.Search.{prefix_assign-none}
use netifd.Prefix.Assign.{retry, place}

-- The subnet that `place` finds is of the greatest size that fits: every shorter length failed.
pub record Placed (c : Assignment) (l m : List Assignment) : Type 0 where
  pub longer : ℕ
  pub bounded : c.length + longer ≤ 64
  pub taken : prefix_assign l (record c { length = c.length + longer }) ≡ some m
  pub shorter_full :
      (j : ℕ) → j < longer → prefix_assign l (record c { length = c.length + j }) ≡ none

pub retry_cases :
    (n : ℕ) (l : List Assignment) (c : Assignment) {m : List Assignment}
    → retry (suc n) l c ≡ some m
    → (prefix_assign l c ≡ some m)
      ⊎ ((prefix_assign l c ≡ none) × (retry n l (record c { length = suc c.length }) ≡ some m))
unfolding retry
retry_cases n l c e = ground arith

Placed-suc :
    (l m : List Assignment) (c : Assignment)
    → prefix_assign l c ≡ none
    → Placed (record c { length = suc c.length }) l m
    → Placed c l m
Placed-suc l m c miss p = record {
  longer = suc p.longer;
  bounded = omega (arith, p.bounded);
  taken = rw (shift p.longer) p.taken;
  shorter_full = full;
}
  where
    shift : (j : ℕ) → c.length + suc j ≡ suc c.length + j
    shift j = omega arith

    full : (j : ℕ) → j < suc p.longer → prefix_assign l (record c { length = c.length + j }) ≡ none
    full zero h = rw (add-zero) miss
    full (suc j) h = rw (shift j) (p.shorter_full j (omega arith))

retry-Placed :
    (n : ℕ) (l m : List Assignment) (c : Assignment)
    → c.length + n ≤ 64
    → retry n l c ≡ some m
    → Placed c l m
retry-Placed zero l m c h e = record {
  longer = 0;
  bounded = h;
  taken = rw (add-zero) (unfold retry in e);
  shorter_full = λ j lt. absurd (omega arith);
}
retry-Placed (suc n) l m c h e = elim (retry_cases n l c e) [
  | inl hit ↦ record {
    longer = 0;
    bounded = omega arith;
    taken = rw (add-zero) hit;
    shorter_full = λ j lt. absurd (omega arith);
  }
  | inr (miss, rest) ↦
      Placed-suc l m c miss
        (retry-Placed n l m (record c { length = suc c.length }) (omega arith) rest)
]

-- An entry of length 64 or less that the retry loop places has the greatest size that fits: it is
-- placed at some length from the one asked for up to 64, and the search failed at every length
-- between the two.
pub place-Placed :
    (c : Assignment) (l m : List Assignment) → c.length ≤ 64 → place l c ≡ some m → Placed c l m
unfolding place
place-Placed c l m h e = retry-Placed (64 - c.length) l m c (omega arith) e

retry-none :
    (n : ℕ) (l : List Assignment) (c : Assignment)
    → retry n l c ≡ none
    → prefix_assign l (record c { length = c.length + n }) ≡ none
unfolding retry
retry-none zero l c e = rw (add-zero) e
retry-none (suc n) l c e =
    let shift : c.length + suc n ≡ suc c.length + n = omega arith in
    rw shift (retry-none n l (record c { length = suc c.length }) (ground arith))

-- The retry loop gives up on an entry with no hint and of length 64 or less only if no gap of the
-- list has room for a single /64.
pub place-none :
    (c : Assignment) (l : List Assignment)
    → c.assigned ≡ negsuc 0
    → c.length ≤ 64
    → place l c ≡ none
    → (s : ℕ) → ¬ Free s 1 0 l
unfolding place
place-none c l unset h e s f =
    let all : c.length + (64 - c.length) ≡ 64 = omega arith in
    let single : prefix_assign l (record c { length = 64 }) ≡ none =
      rw all at (retry-none (64 - c.length) l c e) in
    (prefix_assign-none (record c { length = 64 }) l).0 single s (rw unset (s, omega arith)) f
