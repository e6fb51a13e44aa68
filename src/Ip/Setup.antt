-- ===== src/Ip/Setup.antt =====
-- NewIface and IfaceRegister of pkg/ip/interface.go, and SetDefaultGateway of pkg/ip/routing.go, from
-- the strings that they are given on.
use go_network.Base.{ℕ, List, some, none}
use go_network.Errors.{Result, ok, err, panic, Done}
use go_network.Net.Device.{DeviceOps, iface_family_ip}
use go_network.Net.Registry
use go_network.Net.Registry.{Net}
use go_network.Ip.Address.{str2addr}
use go_network.Ip.Iface.{Device, Iface, new_iface}
use go_network.Ip.Routing.{Route, route_iface, set_default_gateway}

-- The devices with their interfaces, and the routing table.
pub record Stack (D : Type 0) : Type 0 where
  pub net : Net D
  pub routes : List Route

abbrev pub with_netmask : Device → ℕ → Result ℕ → Result Iface
with_netmask dev unicast (ok netmask) = ok (new_iface dev unicast netmask)
with_netmask dev unicast (err e) = err e
with_netmask dev unicast panic = panic

abbrev pub with_unicast : Device → Result ℕ → List ℕ → Result Iface
with_unicast dev (ok unicast) netmask = with_netmask dev unicast (str2addr netmask)
with_unicast dev (err e) netmask = err e
with_unicast dev panic netmask = panic

-- `NewIface`, with the device that IfaceRegister will set.
unfoldable pub new_iface_str : Device → List ℕ → List ℕ → Result Iface
unfolding str2addr new_iface
new_iface_str dev unicast netmask = with_unicast dev (str2addr unicast) netmask

abbrev pub with_gateway : {D : Type 0} → Iface → Result ℕ → Stack D → Stack D × Done
with_gateway iface (ok gw) s = (record s { routes = set_default_gateway iface gw s.routes }, ok tt)
with_gateway iface (err e) s = (s, err e)
with_gateway iface panic s = (s, panic)

unfoldable pub set_default_gateway_str : {D : Type 0} → Iface → List ℕ → Stack D → Stack D × Done
unfolding str2addr set_default_gateway
set_default_gateway_str iface gw s = with_gateway iface (str2addr gw) s

module _ {D : Type 0} {H : Type 0} {W : Type 0} (ops : DeviceOps D H W) where
  -- What pkg/ip reads of the device with that number.
  abbrev pub seen_device : ℕ → D → Device
  seen_device ptr dev = record { name = ptr; mtu = ops.mtu dev; flags = ops.flags dev }

  -- IfaceRegister for an interface that has no device yet, the number i. If pkg/net refuses it, it stays
  -- without a device, and the log line of routeAdd panics behind the new route.
  unfoldable pub iface_register : ℕ → D → ℕ → Iface → Stack D → Stack D × Done
  unfolding Registry.iface_register route_iface
  iface_register ptr dev i iface s =
      let (n, refused) =
        Registry.iface_register ops ptr dev (record { ptr = i; family = iface_family_ip }) s.net in
      let routed : Stack D = record { net = n; routes = route_iface iface s.routes } in
      (routed, elim refused as (λ _. Done) [ none ↦ ok tt | some _ ↦ panic ])
