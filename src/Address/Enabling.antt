-- ===== src/Address/Enabling.antt =====
-- interface-ip.c: which addresses, routes and rules the kernel has after the addresses of an
-- interface are enabled or disabled.
use netifd.Prelude.{
  ◌≡◌, refl, ap, ◌∙◌, List, [], ◌∷◌, Bool, true, false, not, ◌&&◌, ◌||◌, ◌==◌, All, arith,
}
use netifd.Device.Present.{same}
use netifd.Address.Log.{
  Addr, Item, Log, Conf, address, null_route, subnet_route, addr_rules, installed, needs_null_route,
  interface_handle_subnet_route,
}
use netifd.Address.Update.{enable_addr, disable_addr, set_addr_enabled, set_addrs_enabled}

-- What the kernel has for an address: the address itself and its null route while it is enabled,
-- its rules while it is enabled in a table, and no subnet route that is forgotten.
pub record Mirrors (l : Log) (a : Addr) : Type 0 where
  pub own : installed (address a.addr) l ≡ (a.enabled && not a.external)
  pub nulls :
      installed (null_route a.v6 a.net) l ≡ (a.enabled && not a.external && needs_null_route a.v6 a)
  pub rules : installed (addr_rules a.addr) l ≡ (a.enabled && not (a.policy_table == 0))
  pub subnet : (not (installed (subnet_route a.net) l) || a.subnet_set) ≡ true
  pub no_subnet : (a.enabled || not a.subnet_set) ≡ true
  pub offlink_none : (a.offlink && a.subnet_set) ≡ false

-- The items of an address: itself and its rules, and the routes of its network.
abbrev owns : Addr → Item → Bool
owns a i =
    (i.1 == a.addr && (i.0 == 0 || i.0 == 4))
    || (i.1 == a.net && (i.0 == 1 || (i.0 == 2 || i.0 == 3)))

-- Two addresses are not the same, and not of the same network.
abbrev pub Differ : Addr → Addr → Type 0
Differ a b = ((b.addr == a.addr) ≡ false) × ((b.net == a.net) ≡ false)

Differ-owns : (a b : Addr) (i : Item) → Differ a b → owns a i ≡ true → owns b i ≡ false
Differ-owns a b i d e = ground (arith, d.0, d.1, e)

Differ-owned : (a b : Addr) (i : Item) → Differ a b → owns b i ≡ true → owns a i ≡ false
Differ-owned a b i d e = ground (arith, d.0, d.1, e)

module _ (resolves : Bool) (c : Conf) where
  -- A request for one address leaves what belongs to the others.
  others_stay :
      (on : Bool) (a : Addr) (l : Log) (i : Item)
      → owns a i ≡ false
      → installed i (set_addr_enabled resolves c on a l).1 ≡ installed i l
  unfolding set_addr_enabled enable_addr disable_addr interface_handle_subnet_route
  others_stay on a l i ne = ground (arith, ne)

  one-Mirrors :
      (on : Bool) (a : Addr) (l : Log)
      → Mirrors l a
      → let r = set_addr_enabled resolves c on a l in Mirrors r.1 r.0
  unfolding set_addr_enabled enable_addr disable_addr interface_handle_subnet_route
  one-Mirrors on a l m = record {
    own = ground arith;
    nulls = ground arith;
    rules = ground arith;
    subnet = ground arith;
    no_subnet = ground arith;
    offlink_none = ground arith;
  }

  one_done :
      (on : Bool) (a : Addr) (l : Log)
      → let r = set_addr_enabled resolves c on a l in
        ((r.0.addr ≡ a.addr) × (r.0.net ≡ a.net)) × ((r.0.external || same r.0.enabled on) ≡ true)
  unfolding set_addr_enabled enable_addr disable_addr interface_handle_subnet_route
  one_done on a l = ((ground arith, ground arith), ground arith)

  Mirrors-stays :
      (l k : Log) (a : Addr)
      → ((i : Item) → owns a i ≡ true → installed i k ≡ installed i l)
      → Mirrors l a
      → Mirrors k a
  Mirrors-stays l k a e m = record {
    own = e (address a.addr) (ground arith) ∙ m.own;
    nulls = e (null_route a.v6 a.net) (ground arith) ∙ m.nulls;
    rules = e (addr_rules a.addr) (ground arith) ∙ m.rules;
    subnet = ap (λ b. not b || a.subnet_set) (e (subnet_route a.net) (ground arith)) ∙ m.subnet;
    no_subnet = m.no_subnet;
    offlink_none = m.offlink_none;
  }

  -- Of the addresses of a list no two are the same or of the same network.
  abbrev pub Apart : List Addr → Type 0
  Apart [] = Unit
  Apart (a ∷ rest) = All (Differ a) rest × Apart rest

  list_stays :
      (on : Bool) (addrs : List Addr) (l : Log) (i : Item)
      → All (λ (b : Addr). owns b i ≡ false) addrs
      → installed i (set_addrs_enabled resolves c on addrs l).1 ≡ installed i l
  unfolding set_addrs_enabled
  list_stays on [] l i apart = refl
  list_stays on (a ∷ rest) l i (ne, apart) =
      list_stays on rest (set_addr_enabled resolves c on a l).1 i apart ∙ others_stay on a l i ne

  apart_items :
      (i : Item) (a : Addr) (rest : List Addr)
      → owns a i ≡ true
      → All (Differ a) rest
      → All (λ (b : Addr). owns b i ≡ false) rest
  apart_items i a [] e apart = tt
  apart_items i a (b ∷ rest) e (d, apart) = (Differ-owns a b i d e, apart_items i a rest e apart)

  rest_stays :
      (on : Bool) (a : Addr) (l : Log) (rest : List Addr)
      → All (Differ a) rest
      → All (Mirrors l) rest
      → All (Mirrors (set_addr_enabled resolves c on a l).1) rest
  rest_stays on a l [] apart all = tt
  rest_stays on a l (b ∷ rest) (ne, apart) (m, all) = (
    Mirrors-stays l (set_addr_enabled resolves c on a l).1 b
        (λ i e. others_stay on a l i (Differ-owned a b i ne e)) m,
    rest_stays on a l rest apart all,
  )

  -- After interface_ip_set_enabled every address that is not external is enabled, or disabled, as
  -- asked, and the requests to the kernel fit the addresses again: the last request about an
  -- address, and about the null route of an off-link one, added it exactly if the address is
  -- enabled and not external; the last request about its rules added them exactly if it is enabled
  -- with a table; and no subnet route is forgotten. This must hold before, and no two addresses of
  -- the list may be the same or of the same network, of which they would share the routes. The
  -- interface has a device.
  pub set_addrs_enabled-Mirrors :
      (on : Bool) (addrs : List Addr) (l : Log)
      → Apart addrs
      → All (Mirrors l) addrs
      → let r = set_addrs_enabled resolves c on addrs l in
        All (λ (a : Addr). Mirrors r.1 a × ((a.external || same a.enabled on) ≡ true)) r.0
  unfolding set_addrs_enabled
  set_addrs_enabled-Mirrors on [] l apart all = tt
  set_addrs_enabled-Mirrors on (a ∷ rest) l (ne, apart) (m, all) =
      let r = set_addr_enabled resolves c on a l in
      let k = (set_addrs_enabled resolves c on rest r.1).1 in
      let (same_key, done) = one_done on a l in
      (
        (
          Mirrors-stays r.1 k r.0
              (λ i e.
                list_stays on rest r.1 i
                  (apart_items i a rest (ground (arith, same_key.0, same_key.1, e)) ne))
              (one-Mirrors on a l m),
          done,
        ),
        set_addrs_enabled-Mirrors on rest r.1 apart (rest_stays on a l rest ne all),
      )
