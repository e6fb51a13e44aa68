-- ===== src/Icmp/Tests.antt =====
-- Runs of pkg/icmp, and its theorems at concrete inputs.
use go_network.Base.{some, ◌%◌, ◌≡◌, ◌↔◌, refl, arith, [], ◌∷◌, List, ℕ, inl, none}
use go_network.Utils.{check_sum}
use go_network.Utils.Checksum.{word_sum}
use go_network.Icmp.Message.{Header, header2data, rx_handler}
use go_network.Strings.{codes}
use go_network.Icmp.Enum.{code2string}
use go_network.Icmp.Text.{header_string}
use go_network.Icmp.Answer.{request, reply_header}
use go_network.Icmp.Ping.{IsPath, packet_of, sent, delivery_of, ping_returns}
use go_network.Ip.Routing.{Route, lookup_table}
use go_network.Ip.Iface.{Iface, needs_arp}
use go_network.Ip.Protocol
use go_network.Ip.Protocol.{Ip, IpEnv, find_iface, rx_packet}
use go_network.Device.EtherAddr.{EtherAddr}

abbrev echo : Header
echo = record { typ = 8; code = 0; checksum = 0; values = 65537 }

-- A payload of one byte is enough for the receiver to refuse the message.
refused : check_sum (header2data echo (1 ∷ [])).0 0 ≡ 65279
unfolding header2data
refused = refl

-- The hardware address of a host of 192.0.2.0/24.
abbrev mac_of : ℕ → EtherAddr
mac_of pa = record { a0 = 2; a1 = 0; a2 = 0; a3 = 0; a4 = 0; a5 = pa % 256 }

-- A world that is the list of the packets that left, and a resolver that knows all hosts of the network.
instance abbrev wire : IpEnv (List (List ℕ))
wire = record {
  resolve = λ iface pa w. (w, inl (mac_of pa));
  device_output = λ dev bytes hwaddr w. (bytes ∷ w, none);
}

abbrev nic : Iface
nic = record {
  dev = record { name = 2; mtu = 1500; flags = 0x0121 };
  unicast = 0xc0000202;
  netmask = 0xffffff00;
  broadcast = 0xc00002ff;
}

abbrev host : Ip (List (List ℕ))
host = record {
  routes = record { network = 0xc0000200; netmask = 0xffffff00; nexthop = 0; iface = nic } ∷ [];
  id = 6;
  world = [];
}

-- A ping with identifier 1, sequence number 1 and two bytes; the checksum is over all of it.
summed : check_sum (request 0 63227 65537 (1 ∷ 2 ∷ [])) 0 ≡ 0
unfolding check_sum
summed = refl

abbrev asker : Iface
asker = record nic { unicast = 0xc0000201 }

abbrev route_over : Iface → Route
route_over iface = record { network = 0xc0000200; netmask = 0xffffff00; nexthop = 0; iface = iface }

abbrev asking : Ip (List (List ℕ))
asking = record host { routes = route_over asker ∷ [] }

abbrev ask : List ℕ
ask = request 0 63227 65537 (1 ∷ 2 ∷ [])

abbrev reply : List ℕ
reply = (header2data (reply_header 65537) (1 ∷ 2 ∷ [])).0

there :
    IsPath 0xc0000201 0xc0000202 ask
      (route_over asker)
      asking
      []
      (mac_of 0xc0000202)
      (1 ∷ 17 ∷ [])
      (some nic ∷ [])
      nic
unfolding lookup_table find_iface needs_arp
there = record {
  bound = refl;
  own = refl;
  unicast = omega arith;
  dst_addr = omega arith;
  mtu = omega arith;
  fits = omega arith;
  long = omega arith;
  needs = refl;
  single = refl;
  known = refl;
  found = refl;
  here = refl;
  once = refl;
}

back :
    IsPath 0xc0000202 0xc0000201 reply
      (route_over nic)
      host
      []
      (mac_of 0xc0000201)
      (1 ∷ 17 ∷ [])
      (some asker ∷ [])
      asker
unfolding lookup_table find_iface needs_arp header2data
back = record {
  bound = refl;
  own = refl;
  unicast = omega arith;
  dst_addr = omega arith;
  mtu = omega arith;
  fits = omega arith;
  long = omega arith;
  needs = refl;
  single = refl;
  known = refl;
  found = refl;
  here = refl;
  once = refl;
}

ping_returns_example :
    (Protocol.tx_handler 1 ask 0xc0000201 0xc0000202 asking
      ≡ sent 0xc0000202 ask (route_over asker) asking [] (mac_of 0xc0000202))
    × (rx_packet (1 ∷ 17 ∷ []) (some nic ∷ []) (packet_of 0xc0000202 ask (route_over asker) asking)
        ≡ delivery_of 0xc0000201 0xc0000202 ask nic ∷ [])
    × (rx_handler ask 0xc0000201 nic host
        ≡ sent 0xc0000201 reply (route_over nic) host [] (mac_of 0xc0000201))
    × (rx_packet (1 ∷ 17 ∷ []) (some asker ∷ []) (packet_of 0xc0000201 reply (route_over nic) host)
        ≡ delivery_of 0xc0000202 0xc0000201 reply asker ∷ [])
    × ((check_sum reply 0 ≡ 0) ↔ (word_sum (1 ∷ 2 ∷ []) % 65535 ≡ 0))
ping_returns_example =
    ping_returns 0 63227 65537 (1 ∷ 2 ∷ []) 0xc0000201 0xc0000202 (route_over asker)
      (route_over nic) asking host [] [] (mac_of 0xc0000202) (mac_of 0xc0000201) (1 ∷ 17 ∷ [])
      (1 ∷ 17 ∷ []) (some asker ∷ []) (some nic ∷ []) asker nic (omega arith) (omega arith)
      (ground arith) summed there back

host_unreach_name : code2string 3 1 ≡ codes "CodeHostUnreach(1)"
unfolding code2string
host_unreach_name = refl

-- Only the low byte of the sequence number is printed.
seq_name :
    header_string (record echo { values = 65792 })
    ≡ codes
        "\n\t\ttyp: TypeEcho, \n\t\tcode: UNKNOWN(0),\n\t\tchecksum: 0,\n\t\tid: 1,\n\t\tseq: 0,\n\t"
unfolding header_string
seq_name = refl
