-- ===== src/Prefix/Order.antt =====
-- interface-ip.c, prefix_assignment_cmp: the order in which the entries that were put off are tried.
-- Lengths are below 256. strcmp is a parameter.
use Prim.Native.String.{String}
use netifd.Prelude.{◌+◌, ◌<◌, ◌≤◌, ◌≡◌, ◌↔◌, ◌⊎◌, Bool, not, ◌==◌, ltb, leb, if◌then◌else◌, arith}
use netifd.Prelude.Int.{ℤ, pos, pos_part, neg_part, sub_ℕ, ◌+ℤ◌, ◌-ℤ◌}
use netifd.Prefix.Slots.{Assignment}

abbrev eq_ℤ : ℤ → ℤ → Bool
eq_ℤ a b = pos_part a + neg_part b == pos_part b + neg_part a

abbrev pub IsNegative : ℤ → Type 0
IsNegative a = 0 < neg_part a

-- The difference of two ints, which wraps around at 32 bits.
unfoldable pub sub_int : ℤ → ℤ → ℤ
sub_int a b =
    let d = a -ℤ b in
    if leb 0x80000000 (pos_part d)
    then d -ℤ pos 0x100000000
    else if ltb 0x80000000 (neg_part d)
    then d +ℤ pos 0x100000000
    else d

module _ (strcmp : String → String → ℤ) where
  unfoldable pub prefix_assignment_cmp : Assignment → Assignment → ℤ
  unfolding sub_int
  prefix_assignment_cmp a b =
      if not (a.length == b.length)
      then sub_ℕ a.length b.length
      else if not (eq_ℤ a.weight b.weight)
      then sub_int b.weight a.weight
      else strcmp a.name b.name

-- The order of the comment in the source: a smaller length, then a greater weight, then the name.
abbrev pub Before : (String → String → ℤ) → Assignment → Assignment → Type 0
Before strcmp a b =
    (a.length < b.length)
    ⊎ (a.length ≡ b.length)
      × (pos_part b.weight + neg_part a.weight < pos_part a.weight + neg_part b.weight)
    ⊎ (a.length ≡ b.length) × (a.weight ≡ b.weight) × IsNegative (strcmp a.name b.name)

-- The difference of the weights fits an int.
abbrev pub WeightsNear : Assignment → Assignment → Type 0
WeightsNear a b =
    (pos_part b.weight + neg_part a.weight < pos_part a.weight + neg_part b.weight + 0x80000000)
    × (pos_part a.weight + neg_part b.weight ≤ pos_part b.weight + neg_part a.weight + 0x80000000)

sub_int-near :
    (a b : Assignment) → WeightsNear a b → sub_int b.weight a.weight ≡ b.weight -ℤ a.weight
unfolding sub_int ◌-ℤ◌
sub_int-near a b near = ground (arith, near)

-- The comparison of two entries is negative exactly if the first has the smaller length, or the
-- same length and the greater weight, or both the same and a name that strcmp puts first. The
-- difference of the two weights must fit an int, where the code computes it.
pub prefix_assignment_cmp-Before :
    (strcmp : String → String → ℤ) (a b : Assignment)
    → WeightsNear a b
    → IsNegative (prefix_assignment_cmp strcmp a b) ↔ Before strcmp a b
unfolding prefix_assignment_cmp ◌-ℤ◌
prefix_assignment_cmp-Before strcmp a b near =
    let eq = sub_int-near a b near in (λ h. ground (arith, eq), λ h. ground (arith, eq))
