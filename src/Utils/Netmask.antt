-- ===== src/Utils/Netmask.antt =====
-- utils.c: netmasks, and addresses with a netmask. A text is the list of its bytes, without the
-- closing zero. strtoul, inet_aton and inet_pton of the C library are parameters.
use netifd.Prelude.{
  ℕ, ◌-◌, ◌%◌, ◌^◌, List, [], ◌∷◌, Bool, true, false, not, Option, none, some, ltb, ◌==◌,
  if◌then◌else◌,
}
use netifd.Utils.Fls.{fls}

abbrev pub Text : Type 0
Text = List ℕ

-- strchr, for a byte that is not the closing zero.
abbrev pub has_char : ℕ → Text → Bool
has_char c [] = false
has_char c (x ∷ s) = if c == x then true else has_char c s

-- What stands before the first such byte, and behind it.
abbrev pub cut_before : ℕ → Text → Text
cut_before c [] = []
cut_before c (x ∷ s) = let rest = cut_before c s in if c == x then [] else x ∷ rest

abbrev pub cut_behind : ℕ → Text → Text
cut_behind c [] = []
cut_behind c (x ∷ s) = let rest = cut_behind c s in if c == x then s else rest

abbrev pub is_nil : Text → Bool
is_nil [] = true
is_nil (x ∷ s) = false

-- ~0
abbrev pub no_netmask : ℕ
no_netmask = 2 ^ 32 - 1

-- AF_INET6 or AF_INET
abbrev pub width : Bool → ℕ
width true = 128
width false = 32

-- `strtoul` gives the number and the rest of the text; `inet_aton` the address in host order.
module _ (strtoul : Text → ℕ × Text) (inet_aton : Text → Option ℕ) where
  unfoldable pub parse_netmask_string : Text → Bool → ℕ
  parse_netmask_string str v6 =
      let (ret, err) = strtoul str in
      if not (has_char b'.' str)
      then (if is_nil err then ret % 2 ^ 32 else no_netmask)
      else if v6
      then no_netmask
      else elim (inet_aton str) [ none ↦ no_netmask | some addr ↦ 32 - fls (2 ^ 32 - 1 - addr) ]

  -- What is left of the text, and the netmask, which stays without a slash. The code returns true.
  unfoldable pub split_netmask : Text → ℕ → Bool → Text × ℕ
  unfolding parse_netmask_string
  split_netmask str netmask v6 =
      if has_char b'/' str
      then (cut_before b'/' str, parse_netmask_string (cut_behind b'/' str) v6)
      else (str, netmask)

  module _ {A : Type 0} (inet_pton : Bool → Text → Option A) where
    unfoldable pub parse_ip_and_netmask : Bool → Text → ℕ → Option A × ℕ
    unfolding split_netmask
    parse_ip_and_netmask v6 str netmask =
        let (astr, mask) = split_netmask str netmask v6 in
        if ltb (width v6) mask then (none, mask) else (inet_pton v6 astr, mask)
