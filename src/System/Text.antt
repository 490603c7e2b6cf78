-- ===== src/System/Text.antt =====
-- system-linux.c: the numbers in the files of the kernel. Printing is the %u, %d and %i of snprintf;
-- reading is strtoul with the base 0, and atoi.
use netifd.Prelude.{
  ℕ, zero, suc, ◌+◌, ◌-◌, ◌*◌, ◌/◌, ◌%◌, ◌^◌, [], ◌∷◌, Bool, ◌&&◌, leb, ltb, ◌==◌, if◌then◌else◌,
}
use netifd.Prelude.Int.{ℤ, pos, negsuc}
use netifd.Utils.Netmask.{Text}

abbrev digit : ℕ → ℕ
digit n = b'0' + n % 10

-- The digits of `n` before a text. The fuel bounds their number: ten are enough below 2 ^ 32.
abbrev pub print_on : ℕ → ℕ → Text → Text
print_on zero n acc = acc
print_on (suc f) n acc =
    let more = print_on f (n / 10) (digit n ∷ acc) in if ltb n 10 then digit n ∷ acc else more

unfoldable pub print_uint : ℕ → Text
print_uint n = print_on 10 n []

unfoldable pub print_int : ℤ → Text
unfolding print_uint
print_int (pos n) = print_uint n
print_int (negsuc n) = b'-' ∷ print_uint (suc n)

abbrev is_digit : ℕ → ℕ → Bool
is_digit base c = leb b'0' c && ltb c (b'0' + base)

-- The digits at the start of a text, behind what has been read. The digits above 9, which only a
-- number with 0x has, are not modelled.
abbrev pub digits_from : ℕ → ℕ → Text → ℕ
digits_from base a [] = a
digits_from base a (c ∷ cs) =
    let more = digits_from base (base * a + (c - b'0')) cs in if is_digit base c then more else a

-- Without a sign: a leading zero stands for octal.
abbrev unsigned_text : Text → ℕ
unsigned_text [] = 0
unsigned_text (c ∷ cs) = if c == b'0' then digits_from 8 0 cs else digits_from 10 0 (c ∷ cs)

-- As the 64-bit number that strtoul returns.
unfoldable pub strtoul : Text → ℕ
strtoul [] = 0
strtoul (c ∷ cs) =
    if c == b'-' then (2 ^ 64 - unsigned_text cs) % 2 ^ 64 else unsigned_text (c ∷ cs) % 2 ^ 64

unfoldable pub atoi : Text → ℤ
atoi [] = pos 0
atoi (c ∷ cs) =
    if c == b'-'
    then (let n = digits_from 10 0 cs in if n == 0 then pos 0 else negsuc (n - 1))
    else pos (digits_from 10 0 (c ∷ cs))

-- Conversions to unsigned int, to int and to bool.
abbrev pub to_uint : ℕ → ℕ
to_uint n = n % 2 ^ 32

abbrev pub to_int : ℕ → ℤ
to_int n = let m = n % 2 ^ 32 in if ltb m (2 ^ 31) then pos m else negsuc (2 ^ 32 - 1 - m)

abbrev pub int_to_uint : ℤ → ℕ
int_to_uint (pos n) = n % 2 ^ 32
int_to_uint (negsuc n) = 2 ^ 32 - 1 - n % 2 ^ 32

abbrev pub to_bool : ℕ → Bool
to_bool n = ltb 0 n
