-- ===== src/Device/Listed.antt =====
-- Lists of identifiers, as the trees of bridges and bonds keep them.
use netifd.Prelude.{
  ℕ, ◌<◌, ◌≡◌, List, [], ◌∷◌, Bool, true, false, ◌||◌, ◌==◌, All, Bool-cases, inl, inr, arith,
  if_keeps,
}
use netifd.Device.Users.{remove_id}

-- Whether an identifier is in a tree.
abbrev pub has_id : ℕ → List ℕ → Bool
has_id m [] = false
has_id m (k ∷ l) = m == k || has_id m l

-- Nobody, and one more.
abbrev pub nobody : ℕ → Bool
nobody k = false

abbrev pub also : ℕ → (ℕ → Bool) → ℕ → Bool
also m out k = k == m || out k

pub remove_id-All : (n m : ℕ) (l : List ℕ) → All (λ k. k < n) l → All (λ k. k < n) (remove_id m l)
remove_id-All n m [] a = tt
remove_id-All n m (k ∷ l) (b, a) =
    if_keeps (All (λ k. k < n)) (m == k) (λ e. a) (λ e. (b, remove_id-All n m l a))

-- An identifier is in the list still after another one is taken out.
pub remove_id-has :
    (m k : ℕ) (b : Bool) (l : List ℕ)
    → (has_id k l || b) ≡ true
    → (has_id k (remove_id m l) || (k == m || b)) ≡ true
remove_id-has m k b [] e = ground (arith, e)
remove_id-has m k b (j ∷ l) e = elim (Bool-cases (k == j)) [
  | inl eq ↦ ground (arith, e)
  | inr ne ↦ ground (arith, e, remove_id-has m k b l)
]
