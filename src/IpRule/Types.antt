-- ===== src/IpRule/Types.antt =====
-- iprule.h, iprule.c: a rule, its attributes in a configuration, and the requests to the kernel. The
-- name of an interface or a device stands as a number, 0 for the empty text. A field whose flag is
-- not set is none.
use netifd.Prelude.{
  ℕ, List, [], ◌∷◌, Bool, true, false, ◌&&◌, Option, none, some, ◌==◌, if◌then◌else◌, update,
}
use netifd.Utils.Netmask.{Text}

-- struct iprule, `A` is an address. `in_user` says that in_iface_user.iface is not NULL.
pub record Rule (A : Type 0) : Type 0 where
  pub order : ℕ
  pub in_user : Bool
  pub out_user : Bool
  pub in_dev : ℕ
  pub out_dev : ℕ
  pub in_iface : Option ℕ
  pub out_iface : Option ℕ
  pub v6 : Bool
  pub invert : Bool
  pub src : Option (A × ℕ)
  pub dest : Option (A × ℕ)
  pub priority : Option ℕ
  pub tos : Option ℕ
  pub fwmark : Option ℕ
  pub fwmask : Option ℕ
  pub lookup : Option ℕ
  pub sup_prefixlen : Option ℕ
  pub uidrange : Option (ℕ × ℕ)
  pub action : Option ℕ
  pub gotoid : Option ℕ

-- The attributes in rule_attr that a configuration has, of the right type.
pub record RuleAttrs : Type 0 where
  pub in_name : Option ℕ
  pub out_name : Option ℕ
  pub invert : Option Bool
  pub src : Option Text
  pub dest : Option Text
  pub priority : Option ℕ
  pub tos : Option ℕ
  pub mark : Option Text
  pub lookup : Option Text
  pub sup_prefixlen : Option ℕ
  pub uidrange : Option Text
  pub action : Option Text
  pub gotoid : Option ℕ
  pub disabled : Option Bool

abbrev pub is_set : {A : Type 0} → Option A → Bool
is_set none = false
is_set (some a) = true

-- A rule in the kernel: which one, and the names of the devices that it was added with.
abbrev pub Entry : Type 0
Entry = ℕ × (ℕ × ℕ)

abbrev pub same_entry : Entry → Entry → Bool
same_entry e f = e.0 == f.0 && (e.1.0 == f.1.0 && e.1.1 == f.1.1)

-- The requests of system_add_iprule (true) and system_del_iprule, the newest first.
abbrev pub Log : Type 0
Log = List (Bool × Entry)

-- The last request about an entry added it.
abbrev pub installed : Entry → Log → Bool
installed e [] = false
installed e ((b, f) ∷ l) = let before = installed e l in if same_entry e f then b else before

-- The tree of rules as cells, in the order of `ids`, and the requests.
pub record Rules (A : Type 0) : Type 0 where
  pub ids : List ℕ
  pub rules : ℕ → Option (Rule A)
  pub log : Log

-- What a rule reads of an interface: whether it is up, and the name of its layer 3 device, if any.
pub record IfaceView : Type 0 where
  pub up : Bool
  pub l3_dev : Option ℕ

module _ {A : Type 0} where
  abbrev pub put_rule : ℕ → Rule A → Rules A → Rules A
  put_rule r x s = record s { rules = update s.rules r (some x) }

  abbrev pub request : Bool → ℕ → Rule A → Rules A → Rules A
  request b r x s = record s { log = (b, (r, (x.in_dev, x.out_dev))) ∷ s.log }

  abbrev pub request_if : Bool → Bool → ℕ → Rule A → Rules A → Rules A
  request_if c b r x s = if c then request b r x s else s
