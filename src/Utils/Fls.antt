-- ===== src/Utils/Fls.antt =====
-- utils.h: fls, the place of the highest binary digit that is set.
use Prim.Native.Nat.{bit_and}
use netifd.Utils.Bits.{doubles, high_bits}
use netifd.Prelude.{
  subst, sym, ap, ◌∙◌, ◌↔◌, ℕ, zero, suc, ◌+◌, ◌-◌, ◌*◌, ◌%◌, ◌^◌, ◌≤◌, ◌<◌, ◌≡◌, refl, arith, ◌==◌,
  if◌then◌else◌, if_keeps, ==_iff,
}

-- `x` and `r`. An int is its bit pattern, below 2 ^ 32; a shift drops what leaves the 32 digits.
abbrev pub shift_up : ℕ → ℕ → ℕ × ℕ → ℕ × ℕ
shift_up mask k (x, r) = if bit_and x mask == 0 then (x * 2 ^ k % 2 ^ 32, r - k) else (x, r)

unfoldable pub fls : ℕ → ℕ
fls x =
    let (y, r) =
      shift_up 0xc0000000 2
        (shift_up 0xf0000000 4 (shift_up 0xff000000 8 (shift_up 0xffff0000 16 (x, 32)))) in
    if x == 0 then 0 else if bit_and y 0x80000000 == 0 then r - 1 else r

fls_three : fls 5 ≡ 3
unfolding fls
fls_three = refl

-- The number has `n` binary digits.
abbrev pub HasDigits : ℕ → ℕ → Type 0
HasDigits x n = (x < 2 ^ n) × (2 ^ n ≤ x * 2)

halve_digits : (y n : ℕ) → HasDigits (y * 2) (suc n) → HasDigits y n
halve_digits y n (lt, le) = (omega (arith, lt, le), omega (arith, lt, le))

undouble : (k y m : ℕ) → HasDigits (doubles k y) (k + m) → HasDigits y m
undouble zero y m h = subst (HasDigits y) (omega arith) h
undouble (suc k) y m h =
    undouble k y m (halve_digits _ _ (subst (HasDigits (doubles (suc k) y)) (omega arith) h))

zero_plus : (s : ℕ) → 0 + s ≡ s
zero_plus s = omega arith

suc_plus : (k s : ℕ) → suc k + s ≡ suc (k + s)
suc_plus k s = omega arith

doubles-add : (k s x : ℕ) → doubles (k + s) x ≡ doubles k (doubles s x)
doubles-add zero s x = ap (λ t. doubles t x) (zero_plus s)
doubles-add (suc k) s x = ap (λ t. doubles t x) (suc_plus k s) ∙ ap (λ y. y * 2) (doubles-add k s x)

-- A number that `x` was shifted to, and what is left of the 32 digits: at most `u` digits are
-- used up, and the number has more than `u`.
record Shifted (x u : ℕ) (t : ℕ × ℕ) : Type 0 where
  low : 2 ^ u ≤ t.0
  high : t.0 < 2 ^ 32
  room : 32 ≤ t.1 + u
  count : ℕ
  moved : t.0 ≡ doubles count x
  rest : count + t.1 ≡ 32

-- One step, whose mask tells the numbers below `limit`.
step :
    (mask k u limit x y r : ℕ)
    → ((y < 2 ^ 32) → (bit_and y mask ≡ 0) ↔ (y < limit))
    → doubles k y ≡ y * 2 ^ k
    → (y < limit → y * 2 ^ k < 2 ^ 32)
    → (2 ^ u ≤ y → 2 ^ (u + k) ≤ y * 2 ^ k)
    → (limit ≤ y → 2 ^ (u + k) ≤ y)
    → u + k ≤ 32
    → Shifted x u (y, r)
    → Shifted x (u + k) (shift_up mask k (y, r))
step mask k u limit x y r tells twice fits up stays enough i =
    if_keeps (Shifted x (u + k)) (bit_and y mask == 0)
      (λ e.
        let lt : y < limit = (tells i.high).0 ((==_iff _ 0).0 e) in
        let whole : y * 2 ^ k % 2 ^ 32 ≡ y * 2 ^ k = omega (arith, fits lt) in
        record {
          low = omega (arith, whole, up i.low);
          high = omega arith;
          room = omega (arith, i.room);
          count = k + i.count;
          moved = whole ∙ sym twice ∙ ap (doubles k) i.moved ∙ sym (doubles-add k i.count x);
          rest = omega (arith, i.rest, i.room);
        })
      (λ e.
        let ge : limit ≤ y = ground (arith, tells i.high) in
        record {
          low = stays ge;
          high = i.high;
          room = omega (arith, i.room);
          count = i.count;
          moved = i.moved;
          rest = i.rest;
        })

-- The four steps: each follows from the one before it.
first_step : (x y r : ℕ) → Shifted x 0 (y, r) → Shifted x 16 (shift_up 0xffff0000 16 (y, r))
first_step x y r i =
    step 0xffff0000 16 0 (2 ^ 16) x y r (high_bits 16 16 y) (omega arith) (λ h. omega arith)
      (λ h. omega arith) (λ h. omega arith) (omega arith) i

second_step : (x y r : ℕ) → Shifted x 16 (y, r) → Shifted x 24 (shift_up 0xff000000 8 (y, r))
second_step x y r i =
    step 0xff000000 8 16 (2 ^ 24) x y r (high_bits 24 8 y) (omega arith) (λ h. omega arith)
      (λ h. omega arith) (λ h. omega arith) (omega arith) i

third_step : (x y r : ℕ) → Shifted x 24 (y, r) → Shifted x 28 (shift_up 0xf0000000 4 (y, r))
third_step x y r i =
    step 0xf0000000 4 24 (2 ^ 28) x y r (high_bits 28 4 y) (omega arith) (λ h. omega arith)
      (λ h. omega arith) (λ h. omega arith) (omega arith) i

fourth_step : (x y r : ℕ) → Shifted x 28 (y, r) → Shifted x 30 (shift_up 0xc0000000 2 (y, r))
fourth_step x y r i =
    step 0xc0000000 2 28 (2 ^ 30) x y r (high_bits 30 2 y) (omega arith) (λ h. omega arith)
      (λ h. omega arith) (λ h. omega arith) (omega arith) i

same_digits : (x y m n : ℕ) → x ≡ y → m ≡ n → HasDigits x m → HasDigits y n
same_digits x y m n a b h = subst (HasDigits y) b (subst (λ t. HasDigits t m) a h)

-- What is left to tell at the end: whether the highest of the 32 digits is set.
last_step :
    (x y r : ℕ) → Shifted x 30 (y, r) → HasDigits x (if bit_and y 0x80000000 == 0 then r - 1 else r)
last_step x y r i =
    let tells = high_bits 31 1 y i.high in
    undouble i.count x _ (
      if_keeps (λ n. HasDigits (doubles i.count x) (i.count + n)) (bit_and y 0x80000000 == 0)
        (λ e.
          let lt : y < 2 ^ 31 = tells.0 ((==_iff _ 0).0 e) in
          same_digits y _ 31 _ i.moved (omega (arith, i.rest, i.room)) (lt, omega (arith, i.low)))
        (λ e.
          let ge : 2 ^ 31 ≤ y = ground (arith, tells) in
          same_digits y _ 32 _ i.moved (omega (arith, i.rest)) (i.high, omega (arith, ge))))

-- For an int that is not zero, given by its 32 digits, fls gives its number of binary digits: the
-- number n for which the int is below 2 ^ n and at least half of that.
pub fls-HasDigits : (x : ℕ) → 0 < x → x < 2 ^ 32 → HasDigits x (fls x)
unfolding fls
fls-HasDigits x some_digit fits =
    let start : Shifted x 0 (x, 32) = record {
      low = some_digit;
      high = fits;
      room = omega arith;
      count = 0;
      moved = refl;
      rest = refl;
    } in
    if_keeps (HasDigits x) (x == 0) (λ e. absurd (ground arith))
      (λ e.
        last_step x _ _
          (fourth_step x _ _ (third_step x _ _ (second_step x _ _ (first_step x x 32 start)))))
