-- ===== src/Setting/Tables.antt =====
-- The tables that NetInit of pkg/setting.go leaves.
use go_network.Device.EtherAddr.{EtherAddr}
use go_network.Device.Kinds.{mtu, flags, flags_loopback, flags_ether}
use go_network.Ip.Iface.{Iface}
use go_network.Ip.Routing.{Route}

-- iface0 and iface1 of NetInit on the second and the third device, and the routes.
abbrev pub iface0 : Iface
iface0 = record {
  dev = record { name = 1; mtu = 65535; flags = flags_loopback };
  unicast = 0x7f000001;
  netmask = 0xff000000;
  broadcast = 0x7fffffff;
}

abbrev pub iface1 : Iface
iface1 = record {
  dev = record { name = 2; mtu = 1500; flags = flags_ether };
  unicast = 0xc0000202;
  netmask = 0xffffff00;
  broadcast = 0xc00002ff;
}

abbrev loopback_route : Route
loopback_route = record { network = 0x7f000000; netmask = 0xff000000; nexthop = 0; iface = iface0 }

abbrev subnet_route : Route
subnet_route = record { network = 0xc0000200; netmask = 0xffffff00; nexthop = 0; iface = iface1 }

abbrev pub default_route : Route
default_route = record { network = 0; netmask = 0; nexthop = 0xc0000201; iface = iface1 }
