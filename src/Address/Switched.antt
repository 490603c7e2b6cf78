-- ===== src/Address/Switched.antt =====
-- interface-ip.c: whether the kernel has the routes and the neighbors after they are switched.
use netifd.Prelude.{
  ◌≡◌, refl, sym, ◌∙◌, List, [], ◌∷◌, Bool, true, false, not, ◌&&◌, ◌||◌, ◌==◌, All, subst, arith,
}
use netifd.Device.Present.{same}
use netifd.Address.Log.{Item, Log, same_item, installed}
use netifd.Address.Routes.{
  Route, Neighbor, IpState, route_item, neighbor_item, interface_ip_set_route_enabled,
  set_neighbor_enabled,
}
use netifd.Address.Entries.{RouteFits, NeighborFits, set_route-RouteFits, set_neighbor-NeighborFits}
use netifd.Address.Switch.{each_entry, Results, switch_route, switch_neighbor, set_entries_enabled}

same_item_comm : (i j : Item) → same_item i j ≡ false → same_item j i ≡ false
same_item_comm i j e = ground arith

-- No two entries of a list have the same item.
abbrev pub HasDistinct : {A : Type 0} → (A → Item) → List A → Type 0
HasDistinct key [] = Unit
HasDistinct key (a ∷ rest) =
    All (λ b. same_item (key b) (key a) ≡ false) rest × HasDistinct key rest

-- A loop over entries, each of which has an item of its own.
module _ {A : Type 0} (key : A → Item) (step : A → Log → A × Log) where
  module _
      (others : (a : A) (l : Log) (i : Item)
        → same_item i (key a) ≡ false
        → installed i (step a l).1 ≡ installed i l) where
    pub items_stay :
        (list : List A) (l : Log) (i : Item)
        → All (λ (b : A). same_item i (key b) ≡ false) list
        → installed i (each_entry step list l).1 ≡ installed i l
    items_stay [] l i apart = refl
    items_stay (a ∷ rest) l i (ne, apart) = items_stay rest (step a l).1 i apart ∙ others a l i ne

    module _ (Fits : Log → A → Type 0) (Done : A → Type 0)
        (carried : (l k : Log) (a : A)
          → installed (key a) k ≡ installed (key a) l
          → Fits l a
          → Fits k a)
        (same_key : (a : A) (l : Log) → key (step a l).0 ≡ key a)
        (one : (a : A) (l : Log)
          → Fits l a
          → Fits (step a l).1 (step a l).0 × Done (step a l).0) where
      rest_fits :
          (a : A) (l : Log) (rest : List A)
          → All (λ (b : A). same_item (key b) (key a) ≡ false) rest
          → All (Fits l) rest
          → All (Fits (step a l).1) rest
      rest_fits a l [] apart all = tt
      rest_fits a l (b ∷ rest) (ne, apart) (f, all) =
          (carried l (step a l).1 b (others a l (key b) ne) f, rest_fits a l rest apart all)

      turned :
          (a : A) (rest : List A)
          → All (λ (b : A). same_item (key b) (key a) ≡ false) rest
          → All (λ (b : A). same_item (key a) (key b) ≡ false) rest
      turned a [] apart = tt
      turned a (b ∷ rest) (ne, apart) = (same_item_comm (key b) (key a) ne, turned a rest apart)

      pub each-Fits :
          (list : List A) (l : Log)
          → HasDistinct key list
          → All (Fits l) list
          → let r = each_entry step list l in All (λ (a : A). Fits r.1 a × Done a) r.0
      each-Fits [] l apart all = tt
      each-Fits (a ∷ rest) l (ne, apart) (f, all) =
          let r = step a l in
          let k = (each_entry step rest r.1).1 in
          let (fits, done) = one a l f in
          let eq = items_stay rest r.1 (key a) (turned a rest ne) in
          let at = subst (λ i. installed i k ≡ installed i r.1) (sym (same_key a l)) eq in
          ((carried r.1 k r.0 at fits, done), each-Fits rest r.1 apart (rest_fits a l rest ne all))

All-map :
    {A : Type 0} {P Q : A → Type 0} (list : List A)
    → ((a : A) → P a → Q a)
    → All P list
    → All Q list
All-map [] f all = tt
All-map (a ∷ rest) f (p, all) = (f a p, All-map rest f all)

abbrev pub route_key : Route → Item
route_key r = route_item r.route

abbrev pub neighbor_key : Neighbor → Item
neighbor_key x = neighbor_item x.addr

-- The route is as asked for, but for a default route that is not wanted.
abbrev pub RouteAsAsked : (no_default on : Bool) → Route → Type 0
RouteAsAsked no_default on r =
    (r.external || same r.enabled (on && not (no_default && r.mask == 0))) ≡ true

abbrev pub NeighborAsAsked : Bool → Neighbor → Type 0
NeighborAsAsked on x = x.enabled ≡ on

module _ (sys : Results) (no_default on : Bool) where
  route_others :
      (r : Route) (l : Log) (i : Item)
      → same_item i (route_key r) ≡ false
      → installed i (switch_route sys no_default on r l).1 ≡ installed i l
  unfolding interface_ip_set_route_enabled
  route_others r l i ne = ground arith

  route_one :
      (r : Route) (l : Log)
      → RouteFits l r
      → let t = switch_route sys no_default on r l in
        RouteFits t.1 t.0 × RouteAsAsked no_default on t.0
  unfolding interface_ip_set_route_enabled
  route_one r l fits =
      let ip : IpState = record { enabled = on; no_defaultroute = no_default } in
      ((set_route-RouteFits (sys.route_fails r.route) on ip r l fits).0, ground arith)

  route_key_stays :
      (r : Route) (l : Log) → route_key (switch_route sys no_default on r l).0 ≡ route_key r
  unfolding interface_ip_set_route_enabled
  route_key_stays r l = ground arith

  neighbor_others :
      (x : Neighbor) (l : Log) (i : Item)
      → same_item i (neighbor_key x) ≡ false
      → installed i (switch_neighbor sys on x l).1 ≡ installed i l
  unfolding set_neighbor_enabled
  neighbor_others x l i ne = ground arith

  neighbor_one :
      (x : Neighbor) (l : Log)
      → NeighborFits l x
      → let t = switch_neighbor sys on x l in NeighborFits t.1 t.0 × NeighborAsAsked on t.0
  neighbor_one x l fits = set_neighbor-NeighborFits (sys.neighbor_fails x.addr) on x l fits

  neighbor_key_stays :
      (x : Neighbor) (l : Log) → neighbor_key (switch_neighbor sys on x l).0 ≡ neighbor_key x
  unfolding set_neighbor_enabled
  neighbor_key_stays x l = ground arith

  apart_routes :
      (x : Neighbor) (routes : List Route)
      → All (λ r. same_item (neighbor_key x) (route_key r) ≡ false) routes
  apart_routes x [] = tt
  apart_routes x (r ∷ rest) = (refl, apart_routes x rest)

  apart_neighbors :
      (r : Route) (neighbors : List Neighbor)
      → All (λ x. same_item (route_key r) (neighbor_key x) ≡ false) neighbors
  apart_neighbors r [] = tt
  apart_neighbors r (x ∷ rest) = (refl, apart_neighbors r rest)

  -- After the loops of interface_ip_set_enabled every route that is not external is enabled as
  -- asked, except that a default route is disabled if none is wanted, and every neighbor is enabled
  -- as asked, also those that the system layer refuses; and the requests to it fit them: the last
  -- request about a route added it exactly if it is enabled and not external, and the last one
  -- about a neighbor exactly if it is enabled. This must hold of the requests before, and no two
  -- routes of the settings and the host routes, and no two neighbors, may be the same.
  pub set_entries_enabled-Fits :
      (routes : List Route) (neighbors : List Neighbor) (l : Log)
      → HasDistinct route_key routes
      → HasDistinct neighbor_key neighbors
      → All (RouteFits l) routes
      → All (NeighborFits l) neighbors
      → let t = set_entries_enabled sys no_default on routes neighbors l in
        All (λ r. RouteFits t.1.1 r × RouteAsAsked no_default on r) t.0
        × All (λ x. NeighborFits t.1.1 x × NeighborAsAsked on x) t.1.0
  unfolding set_entries_enabled
  set_entries_enabled-Fits routes neighbors l ra na rf nf =
      let step = switch_route sys no_default on in
      let turn = switch_neighbor sys on in
      let l1 = (each_entry step routes l).1 in
      let l2 = (each_entry turn neighbors l1).1 in
      let before : All (NeighborFits l1) neighbors =
        All-map neighbors
          (λ x f.
            items_stay route_key step route_others routes l (neighbor_key x) (apart_routes x routes)
            ∙ f)
          nf in
      let switched =
        each-Fits route_key step route_others RouteFits (RouteAsAsked no_default on)
          (λ l k r e f. e ∙ f) route_key_stays route_one routes l ra rf in
      (
        All-map (each_entry step routes l).0
            (λ r p. (
              items_stay neighbor_key turn neighbor_others neighbors l1 (route_key r)
                    (apart_neighbors r neighbors)
                  ∙ p.0,
              p.1,
            ))
            switched,
        each-Fits neighbor_key turn neighbor_others NeighborFits (NeighborAsAsked on)
            (λ l k x e f. e ∙ f) neighbor_key_stays neighbor_one neighbors l1 na before,
      )
