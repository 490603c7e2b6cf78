-- ===== src/IpRule/Parse.antt =====
-- iprule.c: a rule read from its attributes, and the order of the rules in their tree. strtoul and
-- sscanf of the C library and the lookups of names are parameters.
use netifd.Prelude.{
  ℕ, suc, ◌%◌, ◌^◌, Bool, false, not, ◌||◌, Option, none, some, ltb, if◌then◌else◌,
}
use netifd.Utils.Netmask.{Text, has_char, cut_before, cut_behind, is_nil, parse_ip_and_netmask}
use netifd.Utils.Pid.{same_bytes}
use netifd.IpRule.Types.{Rule, RuleAttrs}

-- What sscanf reads with "%u-%u".
pub data Scanned : Type 0 where
  nothing : Scanned
  one : ℕ → Scanned
  two : ℕ → ℕ → Scanned

-- The library and the lookups: `strtoul` gives the number and the rest of the text.
pub record Readers (A : Type 0) : Type 0 where
  pub strtoul : Text → ℕ × Text
  pub inet_aton : Text → Option ℕ
  pub inet_pton : Bool → Text → Option A
  pub sscanf : Text → Scanned
  pub system_resolve_rt_table : Text → Option ℕ
  pub system_resolve_iprule_action : Text → Option ℕ

-- `goto error`: the rest is not done.
infixl 5 ◌>>=◌
abbrev pub ◌>>=◌ {ℓ κ} : {A : Type ℓ} {B : Type κ} → Option A → (A → Option B) → Option B
none >>= f = none
some a >>= f = f a

-- An attribute that is there must be read; one that is not leaves its field alone.
abbrev pub attr {ℓ κ} : {A : Type ℓ} {B : Type κ} → Option A → (A → Option B) → Option (Option B)
attr none f = some none
attr (some a) f = elim (f a) [ none ↦ none | some b ↦ some (some b) ]

-- A flag that is not there is off.
abbrev pub given : Option Bool → Bool
given none = false
given (some b) = b

abbrev pub mark_of : Option (ℕ × Option ℕ) → Option ℕ
mark_of none = none
mark_of (some m) = some m.0

abbrev pub mask_of : Option (ℕ × Option ℕ) → Option ℕ
mask_of none = none
mask_of (some m) = m.1

module _ {A : Type 0} (c : Readers A) where
  -- A number that takes up the whole text.
  unfoldable pub whole_number : Text → Option ℕ
  whole_number s =
      let (n, e) = c.strtoul s in
      if same_bytes e s || not (is_nil e) then none else some (n % 2 ^ 32)

  abbrev pub mark_head : Text → Text
  mark_head mark = if has_char b'/' mark then cut_before b'/' mark else mark

  abbrev pub mark_mask : Text → Option Text
  mark_mask mark = if has_char b'/' mark then some (cut_behind b'/' mark) else none

  -- The mark and its mask.
  unfoldable pub iprule_parse_mark : Text → Option (ℕ × Option ℕ)
  unfolding whole_number
  iprule_parse_mark mark = do
    fwmark ← whole_number (mark_head mark)
    fwmask ← attr (mark_mask mark) whole_number
    some (fwmark, fwmask)

  unfoldable pub parse_range : Scanned → Option (ℕ × ℕ)
  parse_range nothing = none
  parse_range (one a) = some (a, a)
  parse_range (two a b) = some (a, b)

  unfoldable pub parse_addr : Bool → Text → Option (A × ℕ)
  unfolding parse_ip_and_netmask
  parse_addr v6 str =
      let (a, mask) = parse_ip_and_netmask c.strtoul c.inet_aton c.inet_pton v6 str 0 in
      elim a [ none ↦ none | some x ↦ some (x, mask) ]

  unfoldable pub parse_tos : ℕ → Option ℕ
  parse_tos tos = if ltb 255 tos then none else some tos

  -- The rule, without the interface users. `order` is the counter of its family.
  unfoldable pub read_rule : RuleAttrs → Bool → ℕ → Option (Rule A)
  unfolding iprule_parse_mark parse_range parse_addr parse_tos
  read_rule tb v6 order = do
    src ← attr tb.src (parse_addr v6)
    dest ← attr tb.dest (parse_addr v6)
    tos ← attr tb.tos parse_tos
    mark ← attr tb.mark iprule_parse_mark
    lookup ← attr tb.lookup c.system_resolve_rt_table
    uidrange ← attr tb.uidrange (λ s. parse_range (c.sscanf s))
    action ← attr tb.action c.system_resolve_iprule_action
    some (record {
      order = order;
      in_user = false;
      out_user = false;
      in_dev = 0;
      out_dev = 0;
      in_iface = tb.in_name;
      out_iface = tb.out_name;
      v6 = v6;
      invert = given tb.invert;
      src = src;
      dest = dest;
      priority = tb.priority;
      tos = tos;
      fwmark = mark_of mark;
      fwmask = mask_of mark;
      lookup = lookup;
      sup_prefixlen = tb.sup_prefixlen;
      uidrange = uidrange;
      action = action;
      gotoid = tb.gotoid;
    })

  -- iprule_add, up to the insertion into the tree: the rule, if there is one, and the counters of the
  -- two families.
  unfoldable pub iprule_add : RuleAttrs → Bool → ℕ × ℕ → Option (Rule A) × (ℕ × ℕ)
  unfolding read_rule
  iprule_add tb v6 (n4, n6) =
      let rule = read_rule tb v6 (if v6 then n6 else n4) in
      if given tb.disabled
      then (none, (n4, n6))
      else (rule, if v6 then (n4, suc n6 % 2 ^ 32) else (suc n4 % 2 ^ 32, n6))
