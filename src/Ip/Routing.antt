-- ===== src/Ip/Routing.antt =====
-- pkg/ip/routing.go: the routing table.
use Prim.Native.Nat.{bit_and}
use go_network.Base.{
  ℕ, Option, none, some, ◌≡◌, arith, List, [], ◌∷◌, ◌++◌, ltb, ◌==◌, ◌&&◌, ◌||◌, not, Bool, true,
  false,
}
use go_network.Utils.{ntoh32}
use go_network.Ip.Iface.{Iface}

abbrev pub addr_any : ℕ
addr_any = 0

abbrev pub addr_broadcast : ℕ
addr_broadcast = 0xffffffff

pub record Route : Type 0 where
  pub network : ℕ
  pub netmask : ℕ
  pub nexthop : ℕ
  pub iface : Iface

unfoldable pub route_add : ℕ → ℕ → ℕ → Iface → List Route → List Route
route_add network netmask nexthop iface routes =
    routes
    ++ (record { network = network; netmask = netmask; nexthop = nexthop; iface = iface } ∷ [])

-- `SetDefaultGateway` behind `Str2Addr`.
unfoldable pub set_default_gateway : Iface → ℕ → List Route → List Route
unfolding route_add
set_default_gateway iface gw routes = route_add addr_any addr_any gw iface routes

-- The routing half of `IfaceRegister`.
unfoldable pub route_iface : Iface → List Route → List Route
unfolding route_add
route_iface iface routes =
    route_add (bit_and iface.unicast iface.netmask) iface.netmask addr_any iface routes

abbrev pub covers : ℕ → Route → Bool
covers dst route = bit_and dst route.netmask == route.network

-- `candidate == nil || Ntoh32(candidate.netmask) < Ntoh32(route.netmask)`. Up to Go 1.21, and the module
-- declares Go 1.16, there is one variable `route` for the whole loop, and `candidate` is its address:
-- where candidate is set, both sides are the netmask of the same variable.
unfoldable pub better : Bool → Route → Bool
unfolding ntoh32
better candidate route = not candidate || ltb (ntoh32 route.netmask) (ntoh32 route.netmask)

-- The loop of `LookupTable`: whether candidate is set, and the loop variable it then points to.
unfoldable pub lookup_loop : ℕ → Bool → Route → List Route → Option Route
unfolding better
lookup_loop dst candidate route [] = elim candidate [ true ↦ some route | false ↦ none ]
lookup_loop dst candidate route (r ∷ routes) =
    lookup_loop dst (candidate || (covers dst r && better candidate r)) r routes

-- The only error is that no route is found.
unfoldable pub lookup_table : ℕ → List Route → Option Route
unfolding lookup_loop
lookup_table dst [] = none
lookup_table dst (r ∷ routes) = lookup_loop dst false r (r ∷ routes)

-- Whether some route covers the address.
abbrev pub some_covers : ℕ → List Route → Bool
some_covers dst [] = false
some_covers dst (r ∷ routes) = covers dst r || some_covers dst routes

abbrev pub last_of : Route → List Route → Route
last_of r [] = r
last_of r (s ∷ routes) = last_of s routes

lookup_loop_lem :
    (dst : ℕ) (candidate : Bool) (route : Route) (routes : List Route)
    → lookup_loop dst candidate route routes ≡ elim (candidate || some_covers dst routes) [
      | true ↦ some (last_of route routes)
      | false ↦ none
    ]
unfolding lookup_loop better
lookup_loop_lem dst candidate route [] = ground arith
lookup_loop_lem dst candidate route (r ∷ routes) =
    ground (arith, lookup_loop_lem dst (candidate || (covers dst r && better candidate r)) r routes)

-- LookupTable fails exactly if no route covers the address; if one does, the answer is the route that
-- was added last, whether that one covers the address or not.
pub lookup_table_lem :
    (dst : ℕ) (r : Route) (routes : List Route)
    → lookup_table dst (r ∷ routes)
      ≡ elim (some_covers dst (r ∷ routes)) [ true ↦ some (last_of r routes) | false ↦ none ]
unfolding lookup_table
lookup_table_lem dst r routes = lookup_loop_lem dst false r (r ∷ routes)
