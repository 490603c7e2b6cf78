-- ===== src/IpRule/Compare.antt =====
-- iprule.c: rule_cmp, by which the rules are kept in their tree. strcmp and memcmp of the C library are
-- parameters.
use netifd.Prelude.{
  ℕ, zero, suc, List, [], ◌∷◌, Bool, not, ◌||◌, Option, none, some, ◌≡◌, ◌↔◌, refl, ap, arith,
  if◌then◌else◌,
}
use netifd.Prelude.Int.{ℤ, pos}
use netifd.Device.Claim.{is_zero}
use netifd.IpRule.Types.{Rule, is_set}

abbrev bit : Bool → ℕ
bit b = if b then 1 else 0

bit-inj : (a b : Bool) → bit a ≡ bit b → a ≡ b
bit-inj a b h = ground arith

abbrev at : ℕ → List ℕ → ℕ
at i [] = 0
at zero (x ∷ l) = x
at (suc i) (x ∷ l) = at i l

abbrev pub value_of : Option ℕ → ℕ
value_of none = 0
value_of (some n) = n

abbrev first : {B : Type 0} → Option (B × ℕ) → Option B
first none = none
first (some p) = some p.0

abbrev second : {B : Type 0} → Option (B × ℕ) → Option ℕ
second none = none
second (some p) = some p.1

-- The memory from the flags on to the end of struct iprule: the flags by their bits, then the fields.
-- A field that is not set is zero.
module _ {A : Type 0} (addr_word : A → ℕ) where
  abbrev addr_of : Option A → ℕ
  addr_of none = 0
  addr_of (some a) = addr_word a

  unfoldable pub words : Rule A → List ℕ
  words x =
      bit x.v6
      ∷ bit (is_set x.in_iface)
      ∷ bit (is_set x.out_iface)
      ∷ bit (is_set x.src)
      ∷ bit (is_set x.dest)
      ∷ bit (is_set x.priority)
      ∷ bit (is_set x.tos)
      ∷ bit (is_set x.fwmark)
      ∷ bit (is_set x.fwmask)
      ∷ bit (is_set x.lookup)
      ∷ bit (is_set x.action)
      ∷ bit (is_set x.gotoid)
      ∷ bit (is_set x.sup_prefixlen)
      ∷ bit (is_set x.uidrange)
      ∷ bit x.invert
      ∷ value_of (second x.src)
      ∷ addr_of (first x.src)
      ∷ value_of (second x.dest)
      ∷ addr_of (first x.dest)
      ∷ value_of x.priority
      ∷ value_of x.tos
      ∷ value_of x.fwmark
      ∷ value_of x.fwmask
      ∷ value_of x.lookup
      ∷ value_of x.sup_prefixlen
      ∷ value_of (first x.uidrange)
      ∷ value_of (second x.uidrange)
      ∷ value_of x.action
      ∷ value_of x.gotoid
      ∷ []

-- strcmp is asked for if one of the rules has the interface.
abbrev pub compare_names : (ℕ → ℕ → ℤ) → Option ℕ → Option ℕ → ℤ
compare_names strcmp a b = if is_set a || is_set b then strcmp (value_of a) (value_of b) else pos 0

abbrev cascade : ℤ → ℤ → ℤ → ℤ
cascade a b c = if not (is_zero a) then a else if not (is_zero b) then b else c

cascade-zero : (a b c : ℤ) → cascade a b c ≡ pos 0 → (a ≡ pos 0) × ((b ≡ pos 0) × (c ≡ pos 0))
cascade-zero a b c h = (ground arith, (ground arith, ground arith))

zero-cascade : (a b c : ℤ) → a ≡ pos 0 → b ≡ pos 0 → c ≡ pos 0 → cascade a b c ≡ pos 0
zero-cascade a b c p q r = ground arith

module _ {strcmp : ℕ → ℕ → ℤ} where
  same_names :
      (a b : Option ℕ)
      → ((m n : ℕ) → (strcmp m n ≡ pos 0) ↔ (m ≡ n))
      → is_set a ≡ is_set b
      → compare_names strcmp a b ≡ pos 0
      → a ≡ b
  same_names none none names set h = refl
  same_names none (some n) names set h = ground arith
  same_names (some m) none names set h = ground arith
  same_names (some m) (some n) names set h = ap (λ k. some k) ((names m n).0 h)

  names-zero :
      (a b : Option ℕ)
      → ((m n : ℕ) → (strcmp m n ≡ pos 0) ↔ (m ≡ n))
      → a ≡ b
      → compare_names strcmp a b ≡ pos 0
  names-zero none none names e = refl
  names-zero none (some n) names e = ground arith
  names-zero (some m) none names e = ground arith
  names-zero (some m) (some n) names e = (names m n).1 (ground arith)

module _ {A : Type 0} (strcmp : ℕ → ℕ → ℤ) (memcmp : List ℕ → List ℕ → ℤ) (addr_word : A → ℕ) where
  same_in :
      (r1 r2 : Rule A)
      → words addr_word r1 ≡ words addr_word r2
      → is_set r1.in_iface ≡ is_set r2.in_iface
  unfolding words
  same_in r1 r2 e = bit-inj _ _ (ap (λ l. at 1 l) e)

  same_out :
      (r1 r2 : Rule A)
      → words addr_word r1 ≡ words addr_word r2
      → is_set r1.out_iface ≡ is_set r2.out_iface
  unfolding words
  same_out r1 r2 e = bit-inj _ _ (ap (λ l. at 2 l) e)

  unfoldable pub rule_cmp : Rule A → Rule A → ℤ
  rule_cmp r1 r2 =
      let by_in = compare_names strcmp r1.in_iface r2.in_iface in
      let by_out = compare_names strcmp r1.out_iface r2.out_iface in
      if not (is_zero by_in)
      then by_in
      else if not (is_zero by_out)
      then by_out
      else memcmp (words addr_word r1) (words addr_word r2)

  -- Two policy rules take the same place in their tree exactly if they have the same interfaces and
  -- the same memory from the flags on; their order and the devices of their interfaces do not
  -- count. strcmp and memcmp must give zero exactly for what is the same.
  pub rule_cmp_iff :
      (r1 r2 : Rule A)
      → ((a b : ℕ) → (strcmp a b ≡ pos 0) ↔ (a ≡ b))
      → ((f g : List ℕ) → (memcmp f g ≡ pos 0) ↔ (f ≡ g))
      → (rule_cmp r1 r2 ≡ pos 0) ↔ (
          (r1.in_iface ≡ r2.in_iface)
          × ((r1.out_iface ≡ r2.out_iface) × (words addr_word r1 ≡ words addr_word r2)))
  unfolding rule_cmp
  rule_cmp_iff r1 r2 names rest = (
    (λ zero.
        let (by_in, (by_out, same)) =
          cascade-zero (compare_names strcmp r1.in_iface r2.in_iface)
            (compare_names strcmp r1.out_iface r2.out_iface)
            (memcmp (words addr_word r1) (words addr_word r2)) zero in
        let f = (rest (words addr_word r1) (words addr_word r2)).0 same in
        (
          same_names r1.in_iface r2.in_iface names (same_in r1 r2 f) by_in,
          (same_names r1.out_iface r2.out_iface names (same_out r1 r2 f) by_out, f),
        )),
    λ (by_in, (by_out, f)).
        zero-cascade _ _ _ (names-zero r1.in_iface r2.in_iface names by_in)
          (names-zero r1.out_iface r2.out_iface names by_out)
          ((rest (words addr_word r1) (words addr_word r2)).1 f),
  )
