-- ===== src/Utils/Addresses.antt =====
-- utils.c: which addresses with a netmask are read, and as what.
use netifd.Prelude.{
  subst, Bool-cases, leb, leb→le, inl, inr, ℕ, zero, suc, ◌+◌, ◌-◌, ◌*◌, ◌/◌, ◌%◌, ◌^◌, ◌≤◌, ◌<◌,
  ◌≡◌, ◌↔◌, refl, ap, ◌∙◌, [], ◌∷◌, ◌++◌, Bool, true, false, ◌&&◌, Option, none, some, arith, ltb,
  ◌==◌, ==_iff, if◌then◌else◌,
}
use netifd.Utils.Fls.{fls}
use netifd.Utils.Netmask.{
  Text, has_char, cut_before, cut_behind, no_netmask, width, parse_netmask_string, split_netmask,
  parse_ip_and_netmask,
}

cut_before-whole : (c : ℕ) (s : Text) → has_char c s ≡ false → cut_before c s ≡ s
cut_before-whole c [] h = refl
cut_before-whole c (x ∷ s) h = ground (arith, cut_before-whole c s)

cut_before-append : (c : ℕ) (s t : Text) → has_char c s ≡ false → cut_before c (s ++ c ∷ t) ≡ s
cut_before-append c [] t h = ground arith
cut_before-append c (x ∷ s) t h = ground (arith, cut_before-append c s t)

cut_behind-append : (c : ℕ) (s t : Text) → has_char c s ≡ false → cut_behind c (s ++ c ∷ t) ≡ t
cut_behind-append c [] t h = ground arith
cut_behind-append c (x ∷ s) t h = ground (arith, cut_behind-append c s t)

has_char-append : (c : ℕ) (s t : Text) → has_char c (s ++ c ∷ t) ≡ true
has_char-append c [] t = ground arith
has_char-append c (x ∷ s) t = ground (arith, has_char-append c s t)

-- Numbers below 256 and addresses, as they are printed.
abbrev digit : ℕ → ℕ
digit n = b'0' + n % 10

abbrev pub decimal : ℕ → Text
decimal n =
    if ltb n 10
    then digit n ∷ []
    else if ltb n 100
    then digit (n / 10) ∷ digit n ∷ []
    else digit (n / 100) ∷ digit (n / 10) ∷ digit n ∷ []

abbrev pub dotted : ℕ → ℕ → ℕ → ℕ → Text
dotted a b c d = decimal a ++ b'.' ∷ (decimal b ++ b'.' ∷ (decimal c ++ b'.' ∷ decimal d))

-- The mask of `n` ones, as an address in host order and as a text.
abbrev pub mask_of : ℕ → ℕ
mask_of n = 2 ^ 32 - 2 ^ (32 - n)

abbrev pub dotted_mask : ℕ → Text
dotted_mask n =
    let m = mask_of n in dotted (m / 2 ^ 24) (m / 2 ^ 16 % 256) (m / 2 ^ 8 % 256) (m % 256)

decimal_no_dot : (n : ℕ) → n < 256 → has_char b'.' (decimal n) ≡ false
decimal_no_dot n lt = ground arith

and_left : (a b : Bool) → (a && b) ≡ true → a ≡ true
and_left a b h = ground arith

and_right : (a b : Bool) → (a && b) ≡ true → b ≡ true
and_right a b h = ground arith

abbrev reads_back : ℕ → Bool
reads_back n = 32 - fls (2 ^ 32 - 1 - mask_of n) == n

abbrev up_to : ℕ → Bool
up_to zero = reads_back zero
up_to (suc n) = let shorter = up_to n in reads_back (suc n) && shorter

up_to-reads_back : (n length : ℕ) → up_to n ≡ true → length ≤ n → reads_back length ≡ true
up_to-reads_back zero length all le =
    let none_left : 0 ≡ length = omega arith in subst (λ t. reads_back t ≡ true) none_left all
up_to-reads_back (suc n) length all le = elim (Bool-cases (leb length n)) [
  | inl shorter ↦
      up_to-reads_back n length (and_right (reads_back (suc n)) (up_to n) all)
        (leb→le length n shorter)
  | inr whole ↦
      let same : suc n ≡ length = ground arith in
      subst (λ t. reads_back t ≡ true) same (and_left (reads_back (suc n)) (up_to n) all)
]

all_lengths : up_to 32 ≡ true
unfolding fls
all_lengths = refl

fls-mask_of : (n : ℕ) → n ≤ 32 → 32 - fls (2 ^ 32 - 1 - mask_of n) ≡ n
fls-mask_of n le = (==_iff _ n).0 (up_to-reads_back 32 n all_lengths le)

dotted_dot : (a b c d : ℕ) → has_char b'.' (dotted a b c d) ≡ true
dotted_dot a b c d =
    has_char-append b'.' (decimal a) (decimal b ++ b'.' ∷ (decimal c ++ b'.' ∷ decimal d))

-- strtoul and inet_aton read what is printed.
abbrev pub ReadsDecimal : (Text → ℕ × Text) → Type 0
ReadsDecimal strtoul = (n : ℕ) → n < 256 → strtoul (decimal n) ≡ (n, [])

abbrev pub ReadsDotted : (Text → Option ℕ) → Type 0
ReadsDotted inet_aton =
    (a b c d : ℕ)
    → a < 256
    → b < 256
    → c < 256
    → d < 256
    → inet_aton (dotted a b c d) ≡ some (((a * 256 + b) * 256 + c) * 256 + d)

pow_pos : (k : ℕ) → 0 < 2 ^ k
pow_pos zero = omega arith
pow_pos (suc k) = omega (arith, pow_pos k)

bytes :
    (m : ℕ) → ((m / 2 ^ 24 * 256 + m / 2 ^ 16 % 256) * 256 + m / 2 ^ 8 % 256) * 256 + m % 256 ≡ m
bytes m = omega arith

width-byte : (v6 : Bool) → width v6 < 256
width-byte v6 = ground arith

module _ (strtoul : Text → ℕ × Text) (inet_aton : Text → Option ℕ) where
  parse_decimal :
      (n : ℕ) (v6 : Bool)
      → n < 256
      → ReadsDecimal strtoul
      → parse_netmask_string strtoul inet_aton (decimal n) v6 ≡ n
  unfolding parse_netmask_string
  parse_decimal n v6 lt reads = ground (arith, reads n lt, decimal_no_dot n lt)

  parse_aton :
      (str : Text) (a : ℕ)
      → has_char b'.' str ≡ true
      → inet_aton str ≡ some a
      → parse_netmask_string strtoul inet_aton str false ≡ 32 - fls (2 ^ 32 - 1 - a)
  unfolding parse_netmask_string
  parse_aton str a dot reads = ground arith

  parse_dotted_v6 :
      (str : Text)
      → has_char b'.' str ≡ true
      → parse_netmask_string strtoul inet_aton str true ≡ no_netmask
  unfolding parse_netmask_string
  parse_dotted_v6 str dot = ground arith

  dotted_mask_dot : (n : ℕ) → has_char b'.' (dotted_mask n) ≡ true
  dotted_mask_dot n =
      let m = mask_of n in dotted_dot (m / 2 ^ 24) (m / 2 ^ 16 % 256) (m / 2 ^ 8 % 256) (m % 256)

  parse_dotted :
      (n : ℕ)
      → n ≤ 32
      → ReadsDotted inet_aton
      → parse_netmask_string strtoul inet_aton (dotted_mask n) false ≡ n
  parse_dotted n le reads =
      let m = mask_of n in
      let lt : m < 2 ^ 32 = omega (arith, pow_pos (32 - n)) in
      parse_aton (dotted_mask n) m (dotted_mask_dot n) (
        reads (m / 2 ^ 24) (m / 2 ^ 16 % 256) (m / 2 ^ 8 % 256) (m % 256) (omega arith)
          (omega arith) (omega arith) (omega arith)
        ∙ ap some (bytes m))
      ∙ fls-mask_of n le

  module _ {A : Type 0} (inet_pton : Bool → Text → Option A) where
    -- parse_ip_and_netmask gives an address exactly if the netmask that it leaves is at most 32, or
    -- 128 for IPv6, and inet_pton reads this address from what stands before the slash.
    pub parse_ip_bounds :
        (v6 : Bool) (str : Text) (netmask : ℕ) (a : A)
        → let r = parse_ip_and_netmask strtoul inet_aton inet_pton v6 str netmask in
          (r.0 ≡ some a) ↔ ((r.1 ≤ width v6) × (inet_pton v6 (cut_before b'/' str) ≡ some a))
    unfolding parse_ip_and_netmask split_netmask
    parse_ip_bounds v6 str netmask a = ground (arith, cut_before-whole b'/' str)

    -- A text with a slash, by what its netmask is read as.
    read_with :
        (v6 : Bool) (text mask : Text) (netmask n : ℕ)
        → has_char b'/' text ≡ false
        → parse_netmask_string strtoul inet_aton mask v6 ≡ n
        → parse_ip_and_netmask strtoul inet_aton inet_pton v6 (text ++ b'/' ∷ mask) netmask
          ≡ (if ltb (width v6) n then (none, n) else (inet_pton v6 text, n))
    unfolding parse_ip_and_netmask split_netmask
    read_with v6 text mask netmask n clean reads = rw (
      has_char-append b'/' text mask,
      cut_before-append b'/' text mask clean,
      cut_behind-append b'/' text mask clean,
      reads,
    )

    fits :
        (v6 : Bool) (text : Text) (a : A) (n : ℕ)
        → inet_pton v6 text ≡ some a
        → n ≤ width v6
        → let r : Option A × ℕ = if ltb (width v6) n then (none, n) else (inet_pton v6 text, n) in
          r ≡ (some a, n)
    fits v6 text a n reads le = ground (arith, reads)

    -- An address with a netmask is read back as what was written: the address, a slash and the
    -- decimal prefix length give the address and the length, for both families. With the netmask in
    -- dotted notation an IPv4 address is read the same way, and an IPv6 address is refused. The
    -- text of the address has no slash and is one that inet_pton reads, the length is at most that
    -- of the family, and strtoul and inet_aton read decimal and dotted notation.
    pub parse_ip_roundtrip :
        (v6 : Bool) (text : Text) (a : A) (n netmask : ℕ)
        → has_char b'/' text ≡ false
        → inet_pton v6 text ≡ some a
        → n ≤ width v6
        → ReadsDecimal strtoul
        → ReadsDotted inet_aton
        → let parse = λ (mask : Text).
          parse_ip_and_netmask strtoul inet_aton inet_pton v6 (text ++ b'/' ∷ mask) netmask in
          (parse (decimal n) ≡ (some a, n))
          × (parse (dotted_mask n) ≡ (if v6 then (none, no_netmask) else (some a, n)))
    parse_ip_roundtrip true text a n netmask clean reads le d t = (
      read_with true text (decimal n) netmask n clean (parse_decimal n true (omega arith) d)
          ∙ fits true text a n reads le,
      read_with true text (dotted_mask n) netmask no_netmask clean
          (parse_dotted_v6 (dotted_mask n) (dotted_mask_dot n)),
    )
    parse_ip_roundtrip false text a n netmask clean reads le d t = (
      read_with false text (decimal n) netmask n clean (parse_decimal n false (omega arith) d)
          ∙ fits false text a n reads le,
      read_with false text (dotted_mask n) netmask n clean (parse_dotted n le t)
          ∙ fits false text a n reads le,
    )
