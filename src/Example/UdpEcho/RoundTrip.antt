-- ===== src/Example/UdpEcho/RoundTrip.antt =====
-- A client of the echo server of example/udp/main.go, over pkg/udp and pkg/ip.
use go_network.Base.{
  ◌||◌, inl, ==_iff, ℕ, ◌+◌, ◌%◌, ◌≡◌, ◌≤◌, ◌<◌, refl, sym, ap, ◌∙◌, arith, List, [], ◌∷◌, length,
  ltb, ◌==◌, Bool, true, false, Option, none, some, All, IsU8, IsU16, IsU32,
}
use go_network.Errors.{returns, Error}
use go_network.Ip.Iface.{Iface, needs_arp}
use go_network.Ip.Routing.{Route, addr_any, addr_broadcast, lookup_table}
use go_network.Ip.Protocol.{Ip, IpEnv, generate_id, next_hop, output, find_iface, rx_packet}
use go_network.Device.EtherAddr.{EtherAddr}
use go_network.Ip.ProtoType.{proto_udp}
use go_network.Ip.Delivery.{count_type}
use go_network.Ip.Transfer.{tx_packet}
use go_network.Udp.Endpoint.{Endpoint}
use go_network.Udp.Pcb.{Pcb, Buffer, is_at, send, tx_handler, listen}
use go_network.Udp.Sockets.{Others, Others-Before, send_bound}
use go_network.Udp.Datagram.{deliver_udp, sent_datagram, send-listen}
use go_network.Example.UdpEcho.{echo_round}
use go_network.Example.UdpEcho.Answers.{waiting, try_answer, echo_round-try_answer}

abbrev pub buffer_of : Endpoint → List ℕ → Buffer
buffer_of src bytes = record { foreign = src; bytes = bytes }

here-is_at : (q : Pcb) → is_at q.local.addr q.local.port q ≡ true
here-is_at q =
    rw ((==_iff q.local.addr q.local.addr).1 refl) ((==_iff q.local.port q.local.port).1 refl)

module _ {W : Type 0} ⦃env : IpEnv W⦄ where
  -- Bytes of one endpoint that reach the host of another: over a route that has the address of the
  -- first and a device that needs ARP, whose MTU they fit and for which the resolver knows the hardware
  -- address a of the next hop, to a host with an interface for the second. The resolver leaves w below.
  pub record IsWay (src dst : Endpoint) (bytes : List ℕ) (route : Route) (m : Ip W) (w : W)
      (a : EtherAddr) (protos : List ℕ) (ifaces : List (Option Iface)) (receiver : Iface)
      : Type 0 where
    pub bound : (src.addr == addr_any) ≡ false
    pub own : src.addr ≡ route.iface.unicast
    pub port : (src.port == 0) ≡ false
    pub port_u16 : IsU16 src.port
    pub unicast_u32 : IsU32 route.iface.unicast
    pub dst_addr : IsU32 dst.addr
    pub dst_port : IsU16 dst.port
    pub mtu : IsU16 route.iface.dev.mtu
    pub fits : 28 + length bytes ≤ route.iface.dev.mtu
    pub needs : needs_arp route.iface.dev ≡ true
    pub single :
        (next_hop route dst.addr == route.iface.broadcast
          || (next_hop route dst.addr == addr_broadcast))
        ≡ false
    pub known : env.resolve route.iface (next_hop route dst.addr) m.world ≡ (w, inl a)
    pub found : lookup_table dst.addr m.routes ≡ some route
    pub here : find_iface dst.addr none ifaces ≡ some receiver
    pub once : count_type proto_udp protos ≡ 1

  -- The packet of a datagram.
  abbrev pub packet_of : Endpoint → Endpoint → List ℕ → Route → Ip W → List ℕ
  packet_of src dst bytes route m =
      tx_packet proto_udp (sent_datagram src dst bytes) (generate_id m.id) dst.addr route.iface

  -- What Send does.
  abbrev pub sent :
      Endpoint → Endpoint → List ℕ → Route → Ip W → W → EtherAddr → Ip W × Option Error
  sent src dst bytes route m w a =
      output route.iface (packet_of src dst bytes route m) (some a)
        (record m { id = generate_id m.id; world = w })

  module _ (p q : Pcb) (bytes : List ℕ) (route : Route) (m : Ip W) (w : W) (a : EtherAddr)
      (protos : List ℕ) (ifaces : List (Option Iface)) (receiver : Iface)
      (way : IsWay p.local q.local bytes route m w a protos ifaces receiver)
      (octets : All IsU8 bytes) (long : 20 ≤ (28 + length bytes) % 256) (before after : List Pcb)
      (o : Others q.local.addr q.local.port q.ptr before) (pcbs : List Pcb) (block : Bool) where
    travels :
        (send p bytes q.local pcbs m ≡ returns (sent p.local q.local bytes route m w a))
        × (deliver_udp
              (rx_packet protos ifaces (packet_of p.local q.local bytes route m))
              (waiting q before after [])
            ≡ returns (waiting q before after (buffer_of p.local bytes ∷ [])))
        × (listen q.ptr block (waiting q before after (buffer_of p.local bytes ∷ []))
            ≡ returns (waiting q before after [], bytes, p.local))
    travels =
        send-listen p q.local bytes route m way.bound way.own w a pcbs protos ifaces receiver
          (record q { rx_queue = [] }) before after block way.port way.port_u16 way.dst_addr
          way.dst_port way.unicast_u32 way.mtu octets way.fits long way.needs way.single way.known
          way.found way.here way.once (here-is_at q) o refl

    transmits : tx_handler p.local q.local bytes m ≡ sent p.local q.local bytes route m w a
    transmits =
        let e = sym (send_bound p bytes q.local pcbs m way.bound way.port) ∙ travels.0 in cc e

  tried_some :
      (local : Endpoint) (b : Buffer) (m : Ip W)
      → ltb 0 (length b.bytes) ≡ true
      → try_answer local b m ≡ (tx_handler local b.foreign b.bytes m).0
  unfolding try_answer
  tried_some local b m h = rw (try_answer, h) refl

  -- A client sends bytes to the echo server, both bound to an address and a port, on hosts whose devices
  -- need ARP and whose resolvers know the next hops, which are no broadcast addresses; with routes from
  -- and interfaces for each other's addresses, UDP registered once, and no earlier block with the address
  -- and port or the number of theirs. The packet of Send fills the queue of the server; the next round of
  -- the server's loop hands the packet of the answer to the device; and when that has arrived, Listen at
  -- the client returns the bytes with the endpoint of the server. The queues of both are empty before and
  -- afterwards. There is a byte at least, the packet fits the MTU, and its length modulo 256 is 20 or
  -- more.
  pub echo_returns :
      (client server : Pcb) (bytes : List ℕ) (there back : Route) (cm sm : Ip W) (cw sw : W)
      (ca sa : EtherAddr) (cprotos sprotos : List ℕ) (cifaces sifaces : List (Option Iface))
      (ciface siface : Iface) (cbefore cafter sbefore safter pcbs : List Pcb) (block : Bool)
      → IsWay client.local server.local bytes there cm cw ca sprotos sifaces siface
      → IsWay server.local client.local bytes back sm sw sa cprotos cifaces ciface
      → All IsU8 bytes
      → 0 < length bytes
      → 20 ≤ (28 + length bytes) % 256
      → Others server.local.addr server.local.port server.ptr sbefore
      → Others client.local.addr client.local.port client.ptr cbefore
      → let asked = waiting server sbefore safter (buffer_of client.local bytes ∷ []) in
        let answered = waiting client cbefore cafter (buffer_of server.local bytes ∷ []) in
        (send client bytes server.local pcbs cm
          ≡ returns (sent client.local server.local bytes there cm cw ca))
        × (deliver_udp
              (rx_packet sprotos sifaces (packet_of client.local server.local bytes there cm))
              (waiting server sbefore safter [])
            ≡ returns asked)
        × (echo_round server.ptr asked sm
            ≡ returns (
              waiting server sbefore safter [],
              (sent server.local client.local bytes back sm sw sa).0,
            ))
        × (deliver_udp
              (rx_packet cprotos cifaces (packet_of server.local client.local bytes back sm))
              (waiting client cbefore cafter [])
            ≡ returns answered)
        × (listen client.ptr block answered
            ≡ returns (waiting client cbefore cafter [], bytes, server.local))
  echo_returns client server bytes there back cm sm cw sw ca sa cprotos sprotos cifaces sifaces
        ciface siface cbefore cafter sbefore safter pcbs block to from octets some_bytes long so
        co =
      let go =
        travels client server bytes there cm cw ca sprotos sifaces siface to octets long sbefore
          safter so pcbs block in
      let come =
        travels server client bytes back sm sw sa cprotos cifaces ciface from octets long cbefore
          cafter co (waiting server sbefore safter []) block in
      let reply =
        tried_some server.local (buffer_of client.local bytes) sm (ground (arith, some_bytes))
        ∙ ap (λ (r : Ip W × Option Error). r.0)
            (transmits server client bytes back sm sw sa cprotos cifaces ciface from octets long
              cbefore cafter co (waiting server sbefore safter []) block) in
      (
        go.0,
        go.1,
        echo_round-try_answer server sbefore safter
              (Others-Before server.local.addr server.local.port server.ptr sbefore so) from.bound
              from.port (buffer_of client.local bytes) [] sm
            ∙ ap (λ (k : Ip W). returns (waiting server sbefore safter [], k)) reply,
        come.1,
        come.2,
      )
