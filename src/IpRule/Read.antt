-- ===== src/IpRule/Read.antt =====
-- iprule.c: what a rule that is added looks like.
use netifd.Prelude.{
  ℕ, ◌≤◌, Bool, true, Option, none, some, ◌≡◌, refl, ap, arith, subst, if◌then◌else◌,
}
use netifd.Utils.Netmask.{Text, width, parse_ip_and_netmask}
use netifd.IpRule.Types.{Rule, RuleAttrs, is_set}
use netifd.IpRule.Runs.{Fresh}
use netifd.IpRule.Parse.{
  Readers, attr, mark_of, mask_of, iprule_parse_mark, parse_addr, parse_tos, parse_range, read_rule,
  iprule_add, ◌>>=◌,
}

-- What holds of the result, if there is one.
abbrev Ensures {ℓ κ} : {B : Type ℓ} → (B → Type κ) → Option B → Type (ℓ ⊔ κ)
Ensures P o = (b : _) → o ≡ some b → P b

bind-Ensures {ℓ κ μ} :
    {A : Type ℓ} {B : Type κ} (P : B → Type μ) (m : Option A) (f : A → Option B)
    → ((a : A) → m ≡ some a → Ensures P (f a))
    → Ensures P (m >>= f)
bind-Ensures P none f h b e = cc
bind-Ensures P (some a) f h b e = h a refl b e

some-Ensures {ℓ κ} : {B : Type ℓ} (P : B → Type κ) (b : B) → P b → Ensures P (some b)
some-Ensures P b p c e = subst P (ap (λ o. elim o [ none ↦ b | some x ↦ x ]) e) p

read_whole {κ} :
    {B : Type κ} (m : Option B) (r : Option B) (b : B)
    → elim m [ none ↦ none | some y ↦ some (some y) ] ≡ some r
    → r ≡ some b
    → m ≡ some b
read_whole none r b h e = cc
read_whole (some y) r b h e = cc

-- A field that is set was read from an attribute.
attr-some {ℓ κ} :
    {A : Type ℓ} {B : Type κ} (o : Option A) (f : A → Option B) (r : Option B) (b : B)
    → attr o f ≡ some r
    → r ≡ some b
    → (a : A) × (o ≡ some a) × (f a ≡ some b)
attr-some none f r b h e = cc
attr-some (some a) f r b h e = (a, refl, read_whole (f a) r b h e)

module _ {A : Type 0} (c : Readers A) where
  parse_tos-bound : (t n : ℕ) → parse_tos c t ≡ some n → n ≤ 255
  unfolding parse_tos
  parse_tos-bound t n h = ground arith

  parse_addr-bound :
      (v6 : Bool) (s : Text) (a : A) (m : ℕ) → parse_addr c v6 s ≡ some (a, m) → m ≤ width v6
  unfolding parse_addr parse_ip_and_netmask
  parse_addr-bound v6 s a m h = ground arith

  -- What is asked of a rule in the tree.
  pub record WellRead (tb : RuleAttrs) (v6 : Bool) (x : Rule A) : Type 0 where
    pub fresh : Fresh x
    pub of_in : x.in_iface ≡ tb.in_name
    pub of_out : x.out_iface ≡ tb.out_name
    pub tos_bound : (t : ℕ) → x.tos ≡ some t → t ≤ 255
    pub src_bound : (a : A) (m : ℕ) → x.src ≡ some (a, m) → m ≤ width v6
    pub dest_bound : (a : A) (m : ℕ) → x.dest ≡ some (a, m) → m ≤ width v6
    pub marked : is_set x.fwmask ≡ true → is_set x.fwmark ≡ true

  mark-masked :
      (mark : Option (ℕ × Option ℕ)) → is_set (mask_of mark) ≡ true → is_set (mark_of mark) ≡ true
  mark-masked none h = h
  mark-masked (some m) h = refl

  read_rule-WellRead :
      (tb : RuleAttrs) (v6 : Bool) (order : ℕ) → Ensures (WellRead tb v6) (read_rule c tb v6 order)
  unfolding read_rule
  read_rule-WellRead tb v6 order =
      let P : Rule A → Type 0 = WellRead tb v6 in
      bind-Ensures P (attr tb.src (parse_addr c v6)) _ (λ src src_read.
        bind-Ensures P (attr tb.dest (parse_addr c v6)) _ (λ dest dest_read.
          bind-Ensures P (attr tb.tos (parse_tos c)) _ (λ tos tos_read.
            bind-Ensures P (attr tb.mark (iprule_parse_mark c)) _ (λ mark mark_read.
              bind-Ensures P (attr tb.lookup c.system_resolve_rt_table) _ (λ lookup _.
                bind-Ensures P (attr tb.uidrange (λ s. parse_range c (c.sscanf s))) _ (λ range _.
                  bind-Ensures P (attr tb.action c.system_resolve_iprule_action) _ (λ action _.
                    some-Ensures P _ (record {
                      fresh = (refl, refl);
                      of_in = refl;
                      of_out = refl;
                      tos_bound = λ t e.
                          let (n, _, r) = attr-some tb.tos (parse_tos c) tos t tos_read e in
                          parse_tos-bound n t r;
                      src_bound = λ a m e.
                          let (s, _, r) =
                            attr-some tb.src (parse_addr c v6) src (a, m) src_read e in
                          parse_addr-bound v6 s a m r;
                      dest_bound = λ a m e.
                          let (s, _, r) =
                            attr-some tb.dest (parse_addr c v6) dest (a, m) dest_read e in
                          parse_addr-bound v6 s a m r;
                      marked = mark-masked mark;
                    }))))))))

  added_read :
      (tb : RuleAttrs) (v6 : Bool) (n : ℕ × ℕ) (x : Rule A)
      → (iprule_add c tb v6 n).0 ≡ some x
      → read_rule c tb v6 (if v6 then n.1 else n.0) ≡ some x
  unfolding iprule_add
  added_read tb v6 n x h = ground arith

  -- A policy rule that is read from its attributes has no devices yet and the interfaces that the
  -- attributes name; its TOS is at most 255, the masks of its source and destination are at most
  -- 32, or 128 for IPv6, and it has a mask for its mark only with a mark.
  pub iprule_add-WellRead :
      (tb : RuleAttrs) (v6 : Bool) (n : ℕ × ℕ) (x : Rule A)
      → (iprule_add c tb v6 n).0 ≡ some x
      → WellRead tb v6 x
  unfolding iprule_add
  iprule_add-WellRead tb v6 n x h =
      read_rule-WellRead tb v6 (if v6 then n.1 else n.0) x (added_read tb v6 n x h)
