-- ===== src/Udp/Datagram.antt =====
-- From Send to Listen: pkg/udp/pcb.go and pkg/udp/protocol.go over pkg/ip/protocol.go.
use mathlib.Core.Path.{subst}
use go_network.Base.{
  ◌||◌, inl, ==_iff, ℕ, ◌+◌, ◌%◌, ◌≡◌, ◌≤◌, ◌<◌, refl, ap, ◌∙◌, arith, List, [], ◌∷◌, ◌++◌, length,
  ltb, ◌==◌, if◌then◌else◌, u16, Bool, true, false, Option, none, some, All, IsU8, IsU16, IsU32,
}
use go_network.Errors.{Outcome, returns, blocked, Error}
use go_network.Ip.Iface.{Iface, needs_arp}
use go_network.Ip.Routing.{Route, addr_any, addr_broadcast, lookup_table}
use go_network.Ip.Protocol
use go_network.Ip.Protocol.{
  Ip, IpEnv, generate_id, next_hop, output, find_iface, deliver_protos, rx_packet, Delivery,
  tx_header,
}
use go_network.Ip.Delivery.{count_type, delivered_to}
use go_network.Ip.Transfer.{tx_packet}
use go_network.Ip.Resolution.{tx_handler_resolved}
use go_network.Device.EtherAddr.{EtherAddr}
use go_network.Udp.Endpoint.{Endpoint}
use go_network.Ip.ProtoType.{proto_udp}
use go_network.Udp.Header.{Header, header2data}
use go_network.Udp.Header.RoundTrip.{IsHeader, length-header2data}
use go_network.Udp.Pcb.{Pcb, is_at, send, tx_handler, rx_handler, listen}
use go_network.Udp.Sockets.{Others, send_bound, listen-rx_handler}

-- The calls of the upper protocols that are for UDP, in their order. The caller logs an error.
unfoldable pub deliver_udp : List Delivery → List Pcb → Outcome (List Pcb)
unfolding rx_handler
deliver_udp [] pcbs = returns pcbs
deliver_udp (d ∷ ds) pcbs = elim (d.proto == proto_udp) [
  | false ↦ deliver_udp ds pcbs
  | true ↦ elim (rx_handler d.payload d.src d.dst pcbs) [
    | blocked ↦ blocked
    | returns r ↦ deliver_udp ds r.0
  ]
]

deliver_udp_one :
    (d : Delivery) (pcbs : List Pcb) (r : List Pcb × Option Error)
    → (d.proto == proto_udp) ≡ true
    → rx_handler d.payload d.src d.dst pcbs ≡ returns r
    → deliver_udp (d ∷ []) pcbs ≡ returns r.0
unfolding deliver_udp
deliver_udp_one d pcbs r t e = rw (deliver_udp, t, e) refl

kept :
    {A : Type 0} (n k : ℕ) (x y : List A)
    → n ≡ k
    → 20 ≤ (20 + k) % 256
    → (if ltb ((20 + n) % 256) 20 then x else y) ≡ y
kept n k x y e h = let f : ltb ((20 + n) % 256) 20 ≡ false = ground (arith, e, h) in rw f refl

-- The header that TxHandler writes.
abbrev pub sent_header : Endpoint → Endpoint → List ℕ → Header
sent_header src dst bytes = record {
  src = src.port;
  dst = dst.port;
  len = u16 (8 + length bytes);
  checksum = 0;
}

sent-IsHeader :
    (src dst : Endpoint) (bytes : List ℕ)
    → IsU16 src.port
    → IsU16 dst.port
    → 8 + length bytes < 65536
    → All IsU8 bytes
    → IsHeader (sent_header src dst bytes) bytes
sent-IsHeader src dst bytes s d small u8 = record {
  src = s;
  dst = d;
  len = omega (arith, small);
  checksum = refl;
  small = small;
  bytes = u8;
}

-- The datagram that TxHandler writes.
unfoldable pub sent_datagram : Endpoint → Endpoint → List ℕ → List ℕ
unfolding header2data
sent_datagram src dst bytes = (header2data (sent_header src dst bytes) bytes src.addr dst.addr).0

module _ {W : Type 0} ⦃env : IpEnv W⦄ (p : Pcb) (dst : Endpoint) (bytes : List ℕ) (route : Route)
    (m : Ip W) (bound : (p.local.addr == addr_any) ≡ false)
    (own : p.local.addr ≡ route.iface.unicast) where
  tx_handler_fits :
      8 + length bytes ≤ 65515
      → tx_handler p.local dst bytes m
        ≡ Protocol.tx_handler proto_udp (sent_datagram p.local dst bytes) p.local.addr dst.addr m
  unfolding tx_handler sent_datagram
  tx_handler_fits small =
      let f : ltb 65515 (length bytes + 8) ≡ false = ground (arith, small) in
      rw (tx_handler, f) refl

  -- Send on a block that is bound, over a route that has the block's address and a device that needs ARP,
  -- where the resolver knows the next hop, hands one packet to the device. At a host with an interface for its destination and UDP registered
  -- once, where a block with an empty queue is bound to the destination, the packet reaches that block,
  -- and the next Listen there returns the bytes and the sender's endpoint. The length of the packet
  -- modulo 256 is at least 20.
  pub send-listen :
      (w : W) (a : EtherAddr) (pcbs : List Pcb) (protos : List ℕ) (ifaces : List (Option Iface))
      (receiver : Iface) (q : Pcb) (before after : List Pcb) (block : Bool)
      → (p.local.port == 0) ≡ false
      → IsU16 p.local.port
      → IsU32 dst.addr
      → IsU16 dst.port
      → IsU32 route.iface.unicast
      → IsU16 route.iface.dev.mtu
      → All IsU8 bytes
      → 28 + length bytes ≤ route.iface.dev.mtu
      → 20 ≤ (28 + length bytes) % 256
      → needs_arp route.iface.dev ≡ true
      → (next_hop route dst.addr == route.iface.broadcast
          || (next_hop route dst.addr == addr_broadcast))
        ≡ false
      → env.resolve route.iface (next_hop route dst.addr) m.world ≡ (w, inl a)
      → lookup_table dst.addr m.routes ≡ some route
      → find_iface dst.addr none ifaces ≡ some receiver
      → count_type proto_udp protos ≡ 1
      → is_at dst.addr dst.port q ≡ true
      → Others dst.addr dst.port q.ptr before
      → q.rx_queue ≡ []
      → let id = generate_id m.id in
        let packet =
          tx_packet proto_udp (sent_datagram p.local dst bytes) id dst.addr route.iface in
        let arrived =
          before
          ++ record q { rx_queue = record { foreign = p.local; bytes = bytes } ∷ [] } ∷ after in
        (send p bytes dst pcbs m
          ≡ returns (output route.iface packet (some a) (record m { id = id; world = w })))
        × (deliver_udp (rx_packet protos ifaces packet) (before ++ q ∷ after) ≡ returns arrived)
        × (listen q.ptr block arrived
            ≡ returns (before ++ record q { rx_queue = [] } ∷ after, bytes, p.local))
  unfolding sent_datagram
  send-listen w a pcbs protos ifaces receiver q before after block port s da dp su mtu u8 fits long
        needs single known found here once at others empty =
      let hdr = sent_header p.local dst bytes in
      let arrived =
        before
        ++ record q { rx_queue = record { foreign = p.local; bytes = bytes } ∷ [] } ∷ after in
      let v = sent-IsHeader p.local dst bytes s dp (omega (arith, mtu, fits)) u8 in
      let len = length-header2data hdr bytes p.local.addr dst.addr v in
      let passed =
        tx_handler_resolved proto_udp (sent_datagram p.local dst bytes) p.local.addr dst.addr route
          m w a protos ifaces receiver (omega arith) da su mtu (rw bound refl) found
          (rw (bound, (==_iff p.local.addr route.iface.unicast).1 own) refl)
          (omega (arith, len, fits)) needs single known here in
      let got =
        listen-rx_handler hdr dst.addr q before after at others bytes p.local.addr block v empty in
      let h =
        tx_header proto_udp (length (sent_datagram p.local dst bytes)) (generate_id m.id)
          route.iface dst.addr in
      let delivery : rx_packet protos ifaces _ ≡ _ ∷ [] =
        passed.1
        ∙ kept (length (sent_datagram p.local dst bytes)) (8 + length bytes) [] _ len
            (omega (arith, long))
        ∙ delivered_to protos h (sent_datagram p.local dst bytes) receiver once in
      (
        send_bound p bytes dst pcbs m bound port
            ∙ ap returns (tx_handler_fits (omega (arith, mtu, fits)) ∙ passed.0),
        ap (λ l. deliver_udp l (before ++ q ∷ after)) delivery
            ∙ deliver_udp_one _ (before ++ q ∷ after) _ refl (
                subst
                  (λ a.
                    rx_handler (sent_datagram p.local dst bytes) a dst.addr (before ++ q ∷ after)
                    ≡ returns (arrived, none))
                  own got.0),
        got.1,
      )
