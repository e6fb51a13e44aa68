-- ===== src/Ip/Tests.antt =====
-- Runs of pkg/ip, and its theorems at concrete inputs.
use go_network.Strings.{codes}
use go_network.Ip.Address.Dotted.{str2addr-dotted, address_of, dotted}
use go_network.Ip.Address.{str2addr}
use go_network.Base.{
  inr, replicate, ℕ, ◌≡◌, ◌≤◌, refl, arith, List, [], ◌∷◌, none, some, true, false,
}
use go_network.Errors.{panic, cache_not_found}
use go_network.Ip.Iface.{Iface, needs_arp}
use go_network.Ip.Routing.{some_covers, Route, lookup_table, lookup_table_lem}
use go_network.Ip.Header.{Header}
use go_network.Ip.Protocol.{Ip, IpEnv, tx_header, find_iface}
use go_network.Ip.Delivery.{find_iface_lem, count_type}

-- The world is the list of the packets that left.
instance abbrev wire : IpEnv (List (List ℕ))
wire = record {
  resolve = λ iface pa w. (w, inr cache_not_found);
  device_output = λ dev bytes hwaddr w. (bytes ∷ w, none);
}

-- 192.0.2.2/24 on a device without ARP, and 127.0.0.1/8.
abbrev link : Iface
link = record {
  dev = record { name = 0; mtu = 1500; flags = 1 };
  unicast = 0xc0000202;
  netmask = 0xffffff00;
  broadcast = 0xc00002ff;
}

abbrev loopback : Iface
loopback = record {
  dev = record { name = 1; mtu = 65535; flags = 1 };
  unicast = 0x7f000001;
  netmask = 0xff000000;
  broadcast = 0x7fffffff;
}

abbrev to_link : Route
to_link = record { network = 0xc0000200; netmask = 0xffffff00; nexthop = 0; iface = link }

abbrev to_loopback : Route
to_loopback = record { network = 0x7f000000; netmask = 0xff000000; nexthop = 0; iface = loopback }

-- A packet for 192.0.2.1 takes the route to the loopback device, because that was added last.
wrong_route : lookup_table 0xc0000201 (to_link ∷ to_loopback ∷ []) ≡ some to_loopback
unfolding lookup_table
wrong_route = refl

lookup_table_lem_example :
    lookup_table 0xc0000201 (to_link ∷ to_loopback ∷ [])
    ≡ elim (some_covers 0xc0000201 (to_link ∷ to_loopback ∷ [])) [
      | true ↦ some to_loopback
      | false ↦ none
    ]
lookup_table_lem_example = lookup_table_lem 0xc0000201 to_link (to_loopback ∷ [])

abbrev peer : Iface
peer = record link { unicast = 0xc0000201 }

abbrev sender : Ip (List (List ℕ))
sender = record { routes = to_link ∷ []; id = 65535; world = [] }

found : lookup_table 0xc0000201 sender.routes ≡ some to_link
unfolding lookup_table
found = refl

direct : needs_arp link.dev ≡ false
unfolding needs_arp
direct = refl

taken : find_iface 0xc0000201 none (some peer ∷ []) ≡ some peer
unfolding find_iface
taken = refl

-- 240 bytes: the packet has 260.
abbrev long_header : Header
long_header = tx_header 17 240 7 link 0xc0000201

abbrev long_payload : List ℕ
long_payload = replicate 240 1

find_iface_lem_example : find_iface 0xc0000207 none (some peer ∷ some loopback ∷ []) ≡ some loopback
find_iface_lem_example = find_iface_lem 0xc0000207 (some peer ∷ some loopback ∷ [])

unique : (t : ℕ) → count_type t (6 ∷ 17 ∷ []) ≤ 1
unique t = ground arith

str2addr-dotted_example : str2addr (dotted 192 (300 ∷ 2 ∷ [])) ≡ address_of 0 0 (192 ∷ 300 ∷ 2 ∷ [])
str2addr-dotted_example =
    str2addr-dotted 192 (300 ∷ 2 ∷ []) (omega arith, (omega arith, (omega arith, tt)))

-- A fifth number.
five_parts : str2addr (codes "1.2.3.4.5") ≡ panic
unfolding str2addr
five_parts = refl
