-- ===== src/Address/Log.antt =====
-- interface-ip.c: an address, its routes and its rules, and the requests to the system layer.
use netifd.Prelude.{ℕ, List, [], ◌∷◌, Bool, true, false, not, ◌&&◌, ◌||◌, ◌==◌, ltb, if◌then◌else◌}

-- struct device_addr. `addr` stands for the address with its mask, `net` for the network that
-- clear_if_addr makes of it, with the mask, and `flags` for the flags that
-- have no field of their own. `subnet_set` says that subnet.iface is not NULL.
pub record Addr : Type 0 where
  pub addr : ℕ
  pub net : ℕ
  pub mask : ℕ
  pub flags : ℕ
  pub v6 : Bool
  pub offlink : Bool
  pub external : Bool
  pub enabled : Bool
  pub failed : Bool
  pub policy_table : ℕ
  pub subnet_set : Bool
  pub broadcast : ℕ
  pub point_to_point : ℕ
  pub valid_until : ℕ
  pub preferred_until : ℕ

-- What a request is about: its kind, and the address or the network that it belongs to.
abbrev pub Item : Type 0
Item = ℕ × ℕ

abbrev pub address : ℕ → Item
address k = (0, k)

-- The route by which traffic to the rest of an off-link subnet is dropped, by its family.
abbrev pub null_route : Bool → ℕ → Item
null_route false k = (1, k)
null_route true k = (2, k)

abbrev pub subnet_route : ℕ → Item
subnet_route k = (3, k)

abbrev pub addr_rules : ℕ → Item
addr_rules k = (4, k)

-- The requests, the newest first: an item is added (true) or deleted.
abbrev pub Log : Type 0
Log = List (Bool × Item)

abbrev pub same_item : Item → Item → Bool
same_item i j = i.0 == j.0 && i.1 == j.1

-- The last request about the item added it.
abbrev pub installed : Item → Log → Bool
installed i [] = false
installed i ((b, j) ∷ l) = let before = installed i l in if same_item i j then b else before

-- The interface: whether a metric is set, and its tables.
pub record Conf : Type 0 where
  pub metric : Bool
  pub ip4table : ℕ
  pub ip6table : ℕ

abbrev pub table_of : Conf → Addr → ℕ
table_of c a = if a.v6 then c.ip6table else c.ip4table

-- `v6` is the family that the code takes the address to have.
abbrev pub needs_null_route : Bool → Addr → Bool
needs_null_route v6 a = a.offlink && ltb a.mask (if v6 then 128 else 32)

-- `resolves` says that system_resolve_rt_proto knows the protocol "kernel".
unfoldable pub interface_handle_subnet_route : Bool → Bool → Addr → Log → Addr × Log
interface_handle_subnet_route resolves true a l =
    let a1 = record a { subnet_set = true } in
    if a.offlink
    then (a, l)
    else if not resolves
    then (a1, l)
    else (a1, (true, subnet_route a.net) ∷ (false, subnet_route a.net) ∷ l)
interface_handle_subnet_route resolves false a l =
    if a.offlink || not a.subnet_set
    then (a, l)
    else (record a { subnet_set = false }, (false, subnet_route a.net) ∷ l)

abbrev pub request_if : Bool → Bool → Item → Log → Log
request_if c b i l = if c then (b, i) ∷ l else l
