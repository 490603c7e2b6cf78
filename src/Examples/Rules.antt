-- ===== src/Examples/Rules.antt =====
-- A policy rule for an interface that is up, then goes down.
use netifd.Prelude.{
  ℕ, List, ap, sym, ◌∙◌, [], ◌∷◌, true, false, Option, none, some, ◌==◌, ◌≡◌, ◌↔◌, refl, arith,
  if◌then◌else◌,
}
use netifd.Prelude.Int.{ℤ, pos}
use netifd.Utils.Pid.{same_bytes}
use netifd.Interface.Types.{ifev_down}
use netifd.IpRule.Types.{Rule, RuleAttrs, Rules, IfaceView, installed}
use netifd.IpRule.Track.{rule_ready, rule_in_cb, iprule_update_rule}
use netifd.IpRule.Installed.{Installed}
use netifd.IpRule.Runs.{nothing, more, added, in_event, Events-Installed}
use netifd.IpRule.Parse.{Readers, iprule_add}
use netifd.IpRule.Parse
use netifd.IpRule.Read.{WellRead, iprule_add-WellRead}
use netifd.IpRule.Compare.{words, rule_cmp, rule_cmp_iff}

-- Addresses are numbers; no text is read but as the number 100.
abbrev readers : Readers ℕ
readers = record {
  strtoul = λ s. (100, []);
  inet_aton = λ s. none;
  inet_pton = λ v6 s. some 9;
  sscanf = λ s. Parse.nothing;
  system_resolve_rt_table = λ s. some 100;
  system_resolve_iprule_action = λ s. none;
}

abbrev attrs : RuleAttrs
attrs = record {
  in_name = some 5;
  out_name = none;
  invert = none;
  src = none;
  dest = none;
  priority = some 10;
  tos = some 16;
  mark = some (b'1' ∷ b'/' ∷ b'1' ∷ []);
  lookup = some (b'a' ∷ []);
  sup_prefixlen = none;
  uidrange = none;
  action = none;
  gotoid = none;
  disabled = some false;
}

abbrev rule : Rule ℕ
rule = record {
  order = 1;
  in_user = false;
  out_user = false;
  in_dev = 0;
  out_dev = 0;
  in_iface = some 5;
  out_iface = none;
  v6 = false;
  invert = false;
  src = none;
  dest = none;
  priority = some 10;
  tos = some 16;
  fwmark = some 100;
  fwmask = some 100;
  lookup = some 100;
  sup_prefixlen = none;
  uidrange = none;
  action = none;
  gotoid = none;
}

read : (iprule_add readers attrs false (1, 1)).0 ≡ some rule
unfolding iprule_add Parse.whole_number
read = refl

iprule_add-WellRead_example : WellRead readers attrs false rule
iprule_add-WellRead_example = iprule_add-WellRead readers attrs false (1, 1) rule read

abbrev lan : IfaceView
lan = record { up = true; l3_dev = some 7 }

abbrev find : ℕ → Option IfaceView
find name = if name == 5 then some lan else none

abbrev empty : Rules ℕ
empty = record { ids = []; rules = λ r. none; log = [] }

abbrev followed : Rules ℕ
followed = iprule_update_rule find (some (0, rule)) none empty

-- The rule is added at once, for the device 7.
in_kernel : installed (0, (7, 0)) followed.log ≡ true
unfolding iprule_update_rule rule_ready
in_kernel = refl

Events-Installed_example : Installed (rule_in_cb 0 lan ifev_down followed)
unfolding iprule_update_rule
Events-Installed_example =
    Events-Installed
      (more (more nothing (added find 0 rule empty refl (refl, refl)))
        (in_event 0 lan ifev_down followed (λ x e. ground arith) (λ x n at e. ground arith)))
      (λ r i o. refl)

-- strcmp and memcmp by what they say of texts that are the same.
abbrev strcmp : ℕ → ℕ → ℤ
strcmp a b = if a == b then pos 0 else pos 1

abbrev memcmp : List ℕ → List ℕ → ℤ
memcmp s t = if same_bytes s t then pos 0 else pos 1

strcmp_iff : (a b : ℕ) → (strcmp a b ≡ pos 0) ↔ (a ≡ b)
strcmp_iff a b = (λ h. ground arith, λ h. ground arith)

same_bytes→same : (s t : List ℕ) → same_bytes s t ≡ true → s ≡ t
same_bytes→same [] [] h = refl
same_bytes→same [] (y ∷ t) h = ground arith
same_bytes→same (x ∷ s) [] h = ground arith
same_bytes→same (x ∷ s) (y ∷ t) h = ground (arith, same_bytes→same s t)

same_bytes_refl : (s : List ℕ) → same_bytes s s ≡ true
same_bytes_refl [] = refl
same_bytes_refl (x ∷ s) = ground (arith, same_bytes_refl s)

memcmp_iff : (s t : List ℕ) → (memcmp s t ≡ pos 0) ↔ (s ≡ t)
memcmp_iff s t = (
  λ h. same_bytes→same s t (ground arith),
  λ e. ap (λ b. if b then pos 0 else pos 1) (ap (λ u. same_bytes s u) (sym e) ∙ same_bytes_refl s),
)

-- The same rule in another place, for an interface that is up.
abbrev moved : Rule ℕ
moved = record rule { order = 2; in_dev = 7 }

rule_cmp_iff_example : (rule_cmp strcmp memcmp (λ a. a) rule moved ≡ pos 0) ↔ (
    (rule.in_iface ≡ moved.in_iface)
    × ((rule.out_iface ≡ moved.out_iface) × (words (λ a. a) rule ≡ words (λ a. a) moved)))
rule_cmp_iff_example = rule_cmp_iff strcmp memcmp (λ a. a) rule moved strcmp_iff memcmp_iff
