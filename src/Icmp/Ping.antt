-- ===== src/Icmp/Ping.antt =====
-- A ping to pkg/icmp, there and back over pkg/ip.
use go_network.Base.{
  ◌||◌, inl, true, ==_iff, ℕ, ◌+◌, ◌%◌, ◌≡◌, ◌≤◌, ◌<◌, ◌↔◌, refl, sym, ap, ◌∙◌, arith, false, List,
  [], ◌∷◌, ◌==◌, length, ltb, IsU8, IsU16, IsU32, All, Option, some, none,
}
use go_network.Errors.{Error}
use go_network.Utils.{check_sum}
use go_network.Utils.Checksum.{word_sum}
use go_network.Ip.Iface.{Iface, needs_arp}
use go_network.Ip.Routing.{Route, addr_any, addr_broadcast, lookup_table}
use go_network.Ip.ProtoType.{proto_icmp}
use go_network.Ip.Protocol
use go_network.Ip.Protocol.{
  Ip, IpEnv, Delivery, generate_id, next_hop, output, find_iface, rx_packet, tx_header,
}
use go_network.Ip.Delivery.{count_type, delivered_to}
use go_network.Ip.Transfer.{tx_packet}
use go_network.Ip.Resolution.{tx_handler_resolved}
use go_network.Device.EtherAddr.{EtherAddr}
use go_network.Icmp.Message.{header2data, rx_handler}
use go_network.Icmp.Answer.{request, reply_header, echo_answered}

-- A message for ICMP from an address to an address.
abbrev pub delivery_of : ℕ → ℕ → List ℕ → Iface → Delivery
delivery_of src dst bytes iface = record {
  proto = proto_icmp;
  payload = bytes;
  src = src;
  dst = dst;
  iface = iface;
}

module _ {W : Type 0} ⦃env : IpEnv W⦄ where
  -- A message of one host that reaches another: over a route that has the address of the first and a
  -- device that needs ARP, whose MTU it fits and for which the resolver knows the hardware address a of
  -- the next hop, to a host with an interface for the second. The resolver leaves w below. The length of
  -- the packet modulo 256 is at least 20.
  pub record IsPath (src dst : ℕ) (bytes : List ℕ) (route : Route) (m : Ip W) (w : W)
      (a : EtherAddr) (protos : List ℕ) (ifaces : List (Option Iface)) (receiver : Iface)
      : Type 0 where
    pub bound : (src == addr_any) ≡ false
    pub own : src ≡ route.iface.unicast
    pub unicast : IsU32 route.iface.unicast
    pub dst_addr : IsU32 dst
    pub mtu : IsU16 route.iface.dev.mtu
    pub fits : 20 + length bytes ≤ route.iface.dev.mtu
    pub long : 20 ≤ (20 + length bytes) % 256
    pub needs : needs_arp route.iface.dev ≡ true
    pub single :
        (next_hop route dst == route.iface.broadcast || (next_hop route dst == addr_broadcast))
        ≡ false
    pub known : env.resolve route.iface (next_hop route dst) m.world ≡ (w, inl a)
    pub found : lookup_table dst m.routes ≡ some route
    pub here : find_iface dst none ifaces ≡ some receiver
    pub once : count_type proto_icmp protos ≡ 1

  -- The packet of a message.
  abbrev pub packet_of : ℕ → List ℕ → Route → Ip W → List ℕ
  packet_of dst bytes route m = tx_packet proto_icmp bytes (generate_id m.id) dst route.iface

  -- What TxHandler of pkg/ip does.
  abbrev pub sent : ℕ → List ℕ → Route → Ip W → W → EtherAddr → Ip W × Option Error
  sent dst bytes route m w a =
      output route.iface (packet_of dst bytes route m) (some a)
        (record m { id = generate_id m.id; world = w })

  carried :
      (src dst : ℕ) (bytes : List ℕ) (route : Route) (m : Ip W) (w : W) (a : EtherAddr)
      (protos : List ℕ) (ifaces : List (Option Iface)) (receiver : Iface)
      → IsPath src dst bytes route m w a protos ifaces receiver
      → (Protocol.tx_handler proto_icmp bytes src dst m ≡ sent dst bytes route m w a)
        × (rx_packet protos ifaces (packet_of dst bytes route m)
            ≡ delivery_of src dst bytes receiver ∷ [])
  carried src dst bytes route m w a protos ifaces receiver p =
      let (out, come) =
        tx_handler_resolved proto_icmp bytes src dst route m w a protos ifaces receiver
          (omega arith) p.dst_addr p.unicast p.mtu (rw (p.bound) refl) p.found
          (rw (p.bound, (==_iff src route.iface.unicast).1 p.own) refl) p.fits p.needs p.single
          p.known p.here in
      let kept : ltb ((20 + length bytes) % 256) 20 ≡ false = let l = p.long in ground (arith, l) in
      let h = tx_header proto_icmp (length bytes) (generate_id m.id) route.iface dst in
      (
        out,
        come
            ∙ rw kept (delivered_to protos h bytes receiver p.once)
            ∙ ap (λ a. delivery_of a dst bytes receiver ∷ []) (sym p.own),
      )

  -- An echo request of bytes with a right checksum, between two hosts whose devices need ARP and whose
  -- resolvers know the next hops, which are no broadcast addresses; with routes from and interfaces for
  -- each other's addresses, and ICMP registered once: the packet of the request gives RxHandler of pkg/icmp
  -- the request; RxHandler hands one packet to the device; and that packet gives the sender one message,
  -- from the address of the interface, with the identifier, the sequence number and the payload of the
  -- request. The checksum over this message is right exactly if the sum of the words of the payload is
  -- divisible by 65535. Both packets fit the MTU, and their lengths modulo 256 are 20 or more.
  pub ping_returns :
      (code c values : ℕ) (payload : List ℕ) (asker there : ℕ) (route back : Route) (cm sm : Ip W)
      (cw sw : W) (ca sa : EtherAddr) (cprotos sprotos : List ℕ)
      (cifaces sifaces : List (Option Iface)) (ciface siface : Iface)
      → IsU32 values
      → 8 + length payload < 65536
      → All IsU8 payload
      → check_sum (request code c values payload) 0 ≡ 0
      → IsPath asker there (request code c values payload) route cm cw ca sprotos sifaces siface
      → IsPath siface.unicast asker
          (header2data (reply_header values) payload).0
          back
          sm
          sw
          sa
          cprotos
          cifaces
          ciface
      → let ask = request code c values payload in
        let reply = (header2data (reply_header values) payload).0 in
        (Protocol.tx_handler proto_icmp ask asker there cm ≡ sent there ask route cm cw ca)
        × (rx_packet sprotos sifaces (packet_of there ask route cm)
            ≡ delivery_of asker there ask siface ∷ [])
        × (rx_handler ask asker siface sm ≡ sent asker reply back sm sw sa)
        × (rx_packet cprotos cifaces (packet_of asker reply back sm)
            ≡ delivery_of siface.unicast asker reply ciface ∷ [])
        × ((check_sum reply 0 ≡ 0) ↔ (word_sum payload % 65535 ≡ 0))
  ping_returns code c values payload asker there route back cm sm cw sw ca sa cprotos sprotos
        cifaces sifaces ciface siface v small bytes h to from =
      let (out, come) =
        carried asker there (request code c values payload) route cm cw ca sprotos sifaces siface
          to in
      let (reply, returned) =
        carried siface.unicast asker (header2data (reply_header values) payload).0 back sm sw sa
          cprotos cifaces ciface from in
      let answer = echo_answered code c values payload asker siface sm v small bytes h in
      (out, come, answer.0 ∙ reply, returned, answer.1)
