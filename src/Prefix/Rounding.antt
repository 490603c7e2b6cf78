-- ===== src/Prefix/Rounding.antt =====
-- Rounding up to a multiple: the least multiple that is not below.
use native.Mathlib.Nat.{one-le-pow}
use netifd.Prelude.{ℕ, ◌+◌, ◌-◌, ◌*◌, ◌/◌, ◌≤◌, ◌<◌, ◌≡◌, refl, arith}
use netifd.Prefix.Slots.{Assignment, size, round_up}

pub size_pos : (c : Assignment) → 0 < size c
size_pos c = one-le-pow (64 - c.length) 2 (omega arith)

pub round_up-ge : (x n : ℕ) → 0 < n → x ≤ round_up x n
unfolding round_up
round_up-ge x n h = grind arith

pub round_up-multiple : (x n : ℕ) → (q : ℕ) × (round_up x n ≡ q * n)
unfolding round_up
round_up-multiple x n = ((x + (n - 1)) / n, refl)

pub round_up-least : (x n q : ℕ) → 0 < n → x ≤ q * n → round_up x n ≤ q * n
unfolding round_up
round_up-least x n q h le = grind arith
