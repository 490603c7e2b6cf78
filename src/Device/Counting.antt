-- ===== src/Device/Counting.antt =====
-- How many cells below a bound pass a test, and how a write changes that.
use netifd.Prelude.{
  ℕ, zero, suc, ◌+◌, ◌≤◌, ◌<◌, ◌≡◌, refl, ap, inl, inr, Bool, true, false, ◌==◌, update, Bool-cases,
  arith,
}

abbrev pub one_if : Bool → ℕ
one_if true = 1
one_if false = 0

module _ {ℓ} {A : Type ℓ} (p : A → Bool) where
  unfoldable pub count : ℕ → (ℕ → A) → ℕ
  count zero f = 0
  count (suc n) f = one_if (p (f n)) + count n f

  count-update_above :
      (n : ℕ) (f : ℕ → A) (i : ℕ) (a : A) → n ≤ i → count n (update f i a) ≡ count n f
  unfolding count
  count-update_above zero f i a h = refl
  count-update_above (suc n) f i a h = ground (arith, count-update_above n f i a)

  pub count-update :
      (n : ℕ) (f : ℕ → A) (i : ℕ) (a : A)
      → i < n
      → count n (update f i a) + one_if (p (f i)) ≡ count n f + one_if (p a)
  unfolding count
  count-update zero f i a h = absurd (omega arith)
  count-update (suc n) f i a h = elim (Bool-cases (i == n)) [
    | inl last ↦ ground (arith, count-update_above n f i a)
    | inr below ↦ ground (arith, count-update n f i a)
  ]

  pub count_pos : (n : ℕ) (f : ℕ → A) (i : ℕ) → i < n → p (f i) ≡ true → 0 < count n f
  unfolding count
  count_pos zero f i h e = absurd (omega arith)
  count_pos (suc n) f i h e = elim (Bool-cases (i == n)) [
    | inl last ↦ let same : i ≡ n = ground arith in ground (arith, ap f same)
    | inr below ↦ ground (arith, count_pos n f i)
  ]
