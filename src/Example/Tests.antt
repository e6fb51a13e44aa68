-- ===== src/Example/Tests.antt =====
-- Runs of the echo server of example/udp/main.go, and its theorems at concrete inputs.
use go_network.Base.{true, ℕ, ◌≡◌, refl, arith, List, [], ◌∷◌, none, some, inl, ◌%◌}
use go_network.Errors.{returns}
use go_network.Device.EtherAddr.{EtherAddr}
use go_network.Ip.Iface.{Iface, needs_arp}
use go_network.Ip.Routing.{Route, lookup_table}
use go_network.Ip.Protocol.{Ip, IpEnv, find_iface, rx_packet}
use go_network.Udp.Pcb.{Pcb, Buffer, send, listen}
use go_network.Udp.Sockets.{Others}
use go_network.Udp.Datagram.{sent_datagram, deliver_udp}
use go_network.Example.UdpEcho.{echo_round, echo_loop, main, round, datagram}
use go_network.Example.UdpEcho.Answers.{waiting, try_all, echo_loop-try_all}
use go_network.Example.UdpEcho.RoundTrip.{IsWay, echo_returns, buffer_of, packet_of, sent}

-- The hardware address of a host of 192.0.2.0/24.
abbrev mac_of : ℕ → EtherAddr
mac_of pa = record { a0 = 2; a1 = 0; a2 = 0; a3 = 0; a4 = 0; a5 = pa % 256 }

-- A world that is the list of the packets that left, and a resolver that knows all hosts of the network.
instance abbrev wire : IpEnv (List (List ℕ))
wire = record {
  resolve = λ iface pa w. (w, inl (mac_of pa));
  device_output = λ dev bytes hwaddr w. (bytes ∷ w, none);
}

-- 192.0.2.2/24 and 192.0.2.1/24 on Ethernet devices.
abbrev server_iface : Iface
server_iface = record {
  dev = record { name = 2; mtu = 1500; flags = 0x0121 };
  unicast = 0xc0000202;
  netmask = 0xffffff00;
  broadcast = 0xc00002ff;
}

abbrev client_iface : Iface
client_iface = record server_iface { unicast = 0xc0000201 }

abbrev route_over : Iface → Route
route_over iface = record { network = 0xc0000200; netmask = 0xffffff00; nexthop = 0; iface = iface }

abbrev host : Iface → Ip (List (List ℕ))
host iface = record { routes = route_over iface ∷ []; id = 6; world = [] }

abbrev server : Pcb
server = record { ptr = 1; local = record { addr = 0xc0000202; port = 8080 }; rx_queue = [] }

abbrev client : Pcb
client = record { ptr = 5; local = record { addr = 0xc0000201; port = 9000 }; rx_queue = [] }

abbrev other : Pcb
other = record { ptr = 2; local = record { addr = 0; port = 0 }; rx_queue = [] }

abbrev hello : List ℕ
hello = 104 ∷ 105 ∷ []

-- main binds the block, answers the datagram in the second round, and closes the block.
served :
    main 1
      (round
        ∷ datagram (sent_datagram client.local server.local hello) 0xc0000201 0xc0000202
        ∷ round
        ∷ [])
      (other ∷ [])
      (host server_iface)
    ≡ returns (
      other ∷ [],
      (sent server.local client.local hello
          (route_over server_iface)
          (host server_iface)
          []
          (mac_of 0xc0000201)).0,
    )
unfolding main sent_datagram
served = refl

there :
    IsWay client.local server.local hello
      (route_over client_iface)
      (host client_iface)
      []
      (mac_of 0xc0000202)
      (1 ∷ 17 ∷ [])
      (some server_iface ∷ [])
      server_iface
unfolding lookup_table find_iface needs_arp
there = record {
  bound = refl;
  own = refl;
  port = refl;
  port_u16 = omega arith;
  unicast_u32 = omega arith;
  dst_addr = omega arith;
  dst_port = omega arith;
  mtu = omega arith;
  fits = omega arith;
  needs = refl;
  single = refl;
  known = refl;
  found = refl;
  here = refl;
  once = refl;
}

back :
    IsWay server.local client.local hello
      (route_over server_iface)
      (host server_iface)
      []
      (mac_of 0xc0000201)
      (1 ∷ 17 ∷ [])
      (some client_iface ∷ [])
      client_iface
unfolding lookup_table find_iface needs_arp
back = record {
  bound = refl;
  own = refl;
  port = refl;
  port_u16 = omega arith;
  unicast_u32 = omega arith;
  dst_addr = omega arith;
  dst_port = omega arith;
  mtu = omega arith;
  fits = omega arith;
  needs = refl;
  single = refl;
  known = refl;
  found = refl;
  here = refl;
  once = refl;
}

abbrev asked : List Pcb
asked = waiting server (other ∷ []) [] (buffer_of client.local hello ∷ [])

abbrev answered : List Pcb
answered = waiting client [] (other ∷ []) (buffer_of server.local hello ∷ [])

echo_returns_example :
    (send client hello server.local (client ∷ []) (host client_iface)
      ≡ returns (
          sent client.local server.local hello
            (route_over client_iface)
            (host client_iface)
            []
            (mac_of 0xc0000202)))
    × (deliver_udp
          (rx_packet (1 ∷ 17 ∷ []) (some server_iface ∷ []) (
            packet_of client.local server.local hello
              (route_over client_iface)
              (host client_iface)))
          (other ∷ server ∷ [])
        ≡ returns asked)
    × (echo_round 1 asked (host server_iface)
        ≡ returns (
          other ∷ server ∷ [],
          (sent server.local client.local hello
              (route_over server_iface)
              (host server_iface)
              []
              (mac_of 0xc0000201)).0,
        ))
    × (deliver_udp
          (rx_packet (1 ∷ 17 ∷ []) (some client_iface ∷ []) (
            packet_of server.local client.local hello
              (route_over server_iface)
              (host server_iface)))
          (client ∷ other ∷ [])
        ≡ returns answered)
    × (listen 5 true answered ≡ returns (client ∷ other ∷ [], hello, server.local))
unfolding Others
echo_returns_example =
    echo_returns client server hello (route_over client_iface) (route_over server_iface)
      (host client_iface) (host server_iface) [] [] (mac_of 0xc0000202) (mac_of 0xc0000201)
      (1 ∷ 17 ∷ []) (1 ∷ 17 ∷ []) (some client_iface ∷ []) (some server_iface ∷ []) client_iface
      server_iface [] (other ∷ []) (other ∷ []) [] (client ∷ []) true there back (ground arith)
      (omega arith) (omega arith) ((refl, refl), tt) tt

-- An empty datagram is taken from the queue and not answered.
abbrev waiting_two : List Buffer
waiting_two = buffer_of client.local [] ∷ buffer_of client.local hello ∷ []

echo_loop-try_all_example :
    echo_loop 1
      (round ∷ round ∷ round ∷ [])
      (waiting server (other ∷ []) [] waiting_two)
      (host server_iface)
    ≡ returns (other ∷ server ∷ [], try_all server.local waiting_two (host server_iface))
echo_loop-try_all_example =
    echo_loop-try_all server (other ∷ []) [] (refl, tt) refl refl waiting_two 1 (host server_iface)
