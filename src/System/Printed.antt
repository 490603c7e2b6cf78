-- ===== src/System/Printed.antt =====
-- system-linux.c: the numbers that netifd prints into a file and the kernel gives back with a line
-- break are read again, as far as they fit the reader's buffer.
use netifd.Prelude.{
  ℕ, zero, suc, ◌+◌, ◌*◌, ◌/◌, ◌%◌, ◌^◌, ◌≤◌, ◌<◌, ◌≡◌, refl, ap, ◌∙◌, sym, [], ◌∷◌, ◌++◌, arith,
  ltb, length, if_keeps, ltb→lt, ◌⊎◌, inl, inr,
}
use netifd.Prelude.Int.{pos}
use netifd.Utils.Netmask.{Text}
use netifd.Utils.Pid.{take}
use netifd.System.Text.{print_on, print_uint, digits_from, strtoul, atoi}

abbrev power : ℕ → ℕ
power zero = 1
power (suc f) = 10 * power f

-- Texts that no number goes on into.
abbrev line_break : ℕ
line_break = 10

print_on-append :
    (f n : ℕ) (acc more : Text) → print_on f n (acc ++ more) ≡ print_on f n acc ++ more
print_on-append zero n acc more = refl
print_on-append (suc f) n acc more =
    ground (arith, print_on-append f (n / 10) ((b'0' + n % 10) ∷ acc) more)

length-print_on :
    (f g n : ℕ) (acc : Text) → n < power (suc g) → length (print_on f n acc) ≤ length acc + suc g
length-print_on zero g n acc h = omega arith
length-print_on (suc f) zero n acc h = ground arith
length-print_on (suc f) (suc g) n acc h =
    ground (arith, length-print_on f g (n / 10) ((b'0' + n % 10) ∷ acc))

strtoul-digit :
    (n : ℕ) (acc : Text)
    → 0 < n
    → n < 10
    → strtoul ((b'0' + n % 10) ∷ acc) ≡ digits_from 10 n acc % 2 ^ 64
unfolding strtoul
strtoul-digit n acc p h = ground arith

digits-digit :
    (a n : ℕ) (acc : Text)
    → digits_from 10 a ((b'0' + n % 10) ∷ acc) ≡ digits_from 10 (10 * a + n % 10) acc
digits-digit a n acc = ground arith

digits-next :
    (n : ℕ) (acc : Text) → digits_from 10 (n / 10) ((b'0' + n % 10) ∷ acc) ≡ digits_from 10 n acc
digits-next n acc = digits-digit (n / 10) n acc ∙ ap (λ k. digits_from 10 k acc) (omega arith)

strtoul-print_on :
    (f n : ℕ) (acc : Text)
    → 0 < n
    → n < power f
    → strtoul (print_on f n acc) ≡ digits_from 10 n acc % 2 ^ 64
strtoul-print_on zero n acc p h = omega arith
strtoul-print_on (suc f) n acc p h =
    if_keeps (λ t. strtoul t ≡ digits_from 10 n acc % 2 ^ 64) (ltb n 10)
      (λ lt. strtoul-digit n acc p (ltb→lt n 10 lt))
      (λ ge.
        strtoul-print_on f (n / 10) ((b'0' + n % 10) ∷ acc) (ground arith) (omega arith)
        ∙ ap (λ k. k % 2 ^ 64) (digits-next n acc))

atoi-print_on :
    (f n : ℕ) (acc : Text)
    → n < power (suc f)
    → atoi (print_on (suc f) n acc) ≡ pos (digits_from 10 n acc)
unfolding atoi
atoi-print_on zero n acc h = ground arith
atoi-print_on (suc f) n acc h =
    if_keeps (λ t. atoi t ≡ pos (digits_from 10 n acc)) (ltb n 10) (λ lt. ground arith)
      (λ ge.
        atoi-print_on f (n / 10) ((b'0' + n % 10) ∷ acc) (omega arith)
        ∙ ap (λ k. pos k) (digits-next n acc))

take-nil : (k : ℕ) → take k [] ≡ []
take-nil zero = refl
take-nil (suc k) = refl

take-last :
    (k c : ℕ) (s : Text)
    → length s ≤ k
    → (take k (s ++ c ∷ []) ≡ s) ⊎ (take k (s ++ c ∷ []) ≡ s ++ c ∷ [])
take-last zero c [] h = inl refl
take-last zero c (x ∷ s) h = ground arith
take-last (suc k) c [] h = inr (ap (λ t. c ∷ t) (take-nil k))
take-last (suc k) c (x ∷ s) h = ground (arith, take-last k c s)

-- What the kernel gives for a text that was written.
abbrev pub with_line_break : Text → Text
with_line_break t = t ++ line_break ∷ []

-- A text that is printed whole before the break is read whole, whatever is cut off behind.
take-printed :
    {A : Type 0} (read : Text → A) (a : A) (k f n : ℕ) (acc : Text)
    → length (print_on f n acc) ≤ k
    → read (print_on f n acc) ≡ a
    → read (print_on f n (acc ++ line_break ∷ [])) ≡ a
    → read (take k (with_line_break (print_on f n acc))) ≡ a
take-printed read a k f n acc h whole broken = elim (take-last k line_break (print_on f n acc) h) [
  | inl e ↦ ap read e ∙ whole
  | inr e ↦ ap read (e ∙ sym (print_on-append f n acc (line_break ∷ []))) ∙ broken
]

strtoul-print_zero : (f : ℕ) → strtoul (take 9 (with_line_break (print_on (suc f) 0 []))) ≡ 0
unfolding strtoul
strtoul-print_zero f = refl

strtoul-printed :
    (f g n : ℕ)
    → 0 < n
    → n < power f
    → n < power (suc g)
    → n < 2 ^ 64
    → strtoul (take (suc g) (with_line_break (print_on f n []))) ≡ n
strtoul-printed f g n p h k b =
    take-printed strtoul n (suc g) f n [] (omega (arith, length-print_on f g n [] k))
      (strtoul-print_on f n [] p h ∙ omega arith)
      (strtoul-print_on f n (line_break ∷ []) p h ∙ omega arith)

pub strtoul-print_uint :
    (n : ℕ) → n < 10 ^ 9 → strtoul (take 9 (with_line_break (print_uint n))) ≡ n
unfolding print_uint
strtoul-print_uint zero h = strtoul-print_zero 9
strtoul-print_uint (suc n) h =
    strtoul-printed 10 8 (suc n) (omega arith) (omega arith) (omega arith) (omega arith)

atoi-printed :
    (f g n : ℕ)
    → n < power (suc f)
    → n < power (suc g)
    → atoi (take (suc g) (with_line_break (print_on (suc f) n []))) ≡ pos n
atoi-printed f g n h k =
    take-printed atoi (pos n) (suc g) (suc f) n [] (omega (arith, length-print_on (suc f) g n [] k))
      (atoi-print_on f n [] h) (atoi-print_on f n (line_break ∷ []) h)

pub atoi-print_uint : (n : ℕ) → n < 2 ^ 32 → atoi (take 63 (with_line_break (print_uint n))) ≡ pos n
unfolding print_uint
atoi-print_uint n h = atoi-printed 9 62 n (omega arith) (omega arith)
