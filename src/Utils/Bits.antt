-- ===== src/Utils/Bits.antt =====
-- Bit masks at variables, as the tests of fls need them.
use Prim.Native.Nat.{min, bit_and, digits, bit_and-bitwise}
use netifd.Prelude.{
  ℕ, zero, suc, ◌+◌, ◌*◌, ◌/◌, ◌%◌, ◌≤◌, ◌<◌, ◌≡◌, ◌↔◌, refl, sym, ap, ◌∙◌, arith, Bool-cases, leb,
  leb→le, inl, inr,
}

abbrev pub doubles : ℕ → ℕ → ℕ
doubles zero m = m
doubles (suc k) m = doubles k m * 2

abbrev halves : ℕ → ℕ → ℕ
halves zero a = a
halves (suc k) a = halves k (a / 2)

-- A mask of `j` ones, and the numbers of `j` digits.
abbrev pub ones : ℕ → ℕ
ones zero = 0
ones (suc j) = ones j * 2 + 1

abbrev pub span : ℕ → ℕ
span zero = 1
span (suc j) = span j * 2

-- Masking with a bound on the number of digits that are looked at.
abbrev masked : ℕ → ℕ → ℕ → ℕ
masked bound x mask = digits (λ rest. zero) min bound x mask

one_more : (bound x mask : ℕ) → x ≤ bound → masked (suc bound) x mask ≡ masked bound x mask
one_more zero zero mask le = refl
one_more zero (suc x) mask le = absurd (omega arith)
one_more (suc bound) zero mask le = refl
one_more (suc bound) (suc x) mask le =
    let shorter = one_more bound (suc x / 2) (mask / 2) (omega arith) in omega (arith, shorter)

-- The number itself is bound enough.
own_bound : (bound x mask : ℕ) → x ≤ bound → masked bound x mask ≡ masked x x mask
own_bound zero zero mask le = refl
own_bound zero (suc x) mask le = absurd (omega arith)
own_bound (suc bound) x mask le = elim (Bool-cases (leb x bound)) [
  | inl fits ↦
      let le_bound = leb→le x bound fits in
      one_more bound x mask le_bound ∙ own_bound bound x mask le_bound
  | inr exceeds ↦ let same : suc bound ≡ x = ground arith in ap (λ t. masked t x mask) same
]

none_set : (mask : ℕ) → bit_and 0 mask ≡ 0
none_set mask = bit_and-bitwise zero mask

-- The last digit, and those before it.
last_digit : (x mask : ℕ) → bit_and x mask ≡ min (x % 2) (mask % 2) + 2 * bit_and (x / 2) (mask / 2)
last_digit zero mask =
    let all = none_set mask in let before = none_set (mask / 2) in omega (arith, all, before)
last_digit (suc x) mask =
    let half = suc x / 2 in
    let whole = bit_and-bitwise (suc x) mask in
    let before = bit_and-bitwise half (mask / 2) in
    let enough = own_bound x half (mask / 2) (omega arith) in omega (arith, whole, before, enough)

half_odd : (m : ℕ) → (m * 2 + 1) / 2 ≡ m
half_odd m = omega arith

half_even : (m : ℕ) → m * 2 / 2 ≡ m
half_even m = omega arith

below_one : (x : ℕ) → x ≤ 0 → x ≡ 0
below_one x le = omega arith

no_mask : (bound x : ℕ) → x ≤ bound → bit_and x 0 ≡ 0
no_mask zero x le = omega (arith, ap (λ t. bit_and t 0) (below_one x le))
no_mask (suc bound) x le = omega (arith, last_digit x 0, no_mask bound (x / 2) (omega arith))

bit_and-odd : (a m : ℕ) → bit_and a (m * 2 + 1) ≡ bit_and (a / 2) m * 2 + a % 2
bit_and-odd a m = omega (arith, last_digit a (m * 2 + 1), ap (bit_and (a / 2)) (half_odd m))

bit_and-even : (a m : ℕ) → bit_and a (m * 2) ≡ bit_and (a / 2) m * 2
bit_and-even a m = omega (arith, last_digit a (m * 2), ap (bit_and (a / 2)) (half_even m))

bit_and-ones : (j a : ℕ) → a < span j → bit_and a (ones j) ≡ a
bit_and-ones zero a lt = omega (arith, no_mask a a (omega arith))
bit_and-ones (suc j) a lt =
    omega (arith, bit_and-odd a (ones j), bit_and-ones j (a / 2) (omega arith))

bit_and-doubles : (k a m : ℕ) → bit_and a (doubles k m) ≡ doubles k (bit_and (halves k a) m)
bit_and-doubles zero a m = refl
bit_and-doubles (suc k) a m =
    omega (arith, bit_and-even a (doubles k m), bit_and-doubles k (a / 2) m)

doubles-zero : (k m : ℕ) → doubles k m ≡ 0 → m ≡ 0
doubles-zero zero m h = h
doubles-zero (suc k) m h = doubles-zero k m (omega arith)

halves-span : (k j a : ℕ) → a < doubles k (span j) → halves k a < span j
halves-span zero j a lt = lt
halves-span (suc k) j a lt = halves-span k j (a / 2) (omega arith)

halves-zero : (k a : ℕ) → halves k a ≡ 0 → a < span k
halves-zero zero a h = omega arith
halves-zero (suc k) a h = omega (arith, halves-zero k (a / 2) h)

halves_low : (k a : ℕ) → a < span k → halves k a ≡ 0
halves_low zero a h = omega arith
halves_low (suc k) a h = halves_low k (a / 2) (omega arith)

doubles_zero : (k : ℕ) → doubles k 0 ≡ 0
doubles_zero zero = refl
doubles_zero (suc k) = omega (arith, doubles_zero k)

-- The mask of the `j` highest of `k + j` digits tells whether a number fits in `k` digits.
pub high_bits :
    (k j a : ℕ) → a < doubles k (span j) → (bit_and a (doubles k (ones j)) ≡ 0) ↔ (a < span k)
high_bits k j a lt = (
  λ e. halves-zero k a (
      sym (bit_and-ones j (halves k a) (halves-span k j a lt))
      ∙ doubles-zero k _ (sym (bit_and-doubles k a (ones j)) ∙ e)),
  λ fits.
      bit_and-doubles k a (ones j)
      ∙ ap (λ m. doubles k m)
          (bit_and-ones j (halves k a) (halves-span k j a lt) ∙ halves_low k a fits)
      ∙ doubles_zero k,
)
