-- ===== src/Ip/Transfer.antt =====
-- From TxHandler to RxHandler in pkg/ip/protocol.go: what one host sends, another delivers.
use go_network.Base.{
  ◌∷◌, ℕ, ◌+◌, ◌%◌, ◌≡◌, ◌≤◌, ◌<◌, refl, ap, ◌∙◌, arith, List, [], length, ltb, ◌==◌, ◌&&◌, not,
  if◌then◌else◌, Bool, true, false, Option, none, some, IsU8, IsU16, IsU32,
}
use go_network.Errors.{Error, ok, err, data_smaller_than_ihl}
use go_network.Ip.Iface.{Iface, needs_arp}
use go_network.Ip.Routing.{Route, addr_any, addr_broadcast, lookup_table}
use go_network.Ip.Header.{Header, header2data}
use go_network.Ip.Header.RoundTrip.{IsHeader, data2header-header2data}
use go_network.Ip.Protocol.{
  Ip, IpEnv, tx_header, generate_id, tx_handler, tx_route, tx_resolved, output, find_iface,
  deliver_protos, rx_header, rx_result, rx_packet, Delivery,
}

-- The packet that TxHandler hands to the device.
abbrev pub tx_packet : ℕ → List ℕ → ℕ → ℕ → Iface → List ℕ
tx_packet proto bytes id dst iface =
    (header2data (tx_header proto (length bytes) id iface dst) bytes).0

rx_result_if :
    (protos : List ℕ) (ifaces : List (Option Iface)) (b : Bool) (e : Error) (h : Header)
    (payload : List ℕ)
    → rx_result protos ifaces (if b then err e else ok (h, payload))
      ≡ (if b then [] else rx_header protos ifaces h payload)
unfolding rx_result
rx_result_if protos ifaces true e h payload = refl
rx_result_if protos ifaces false e h payload = refl

deliver_checksum :
    (protos : List ℕ) (h : Header) (c : ℕ) (payload : List ℕ) (iface : Iface)
    → deliver_protos protos (record h { checksum = c }) payload iface
      ≡ deliver_protos protos h payload iface
unfolding deliver_protos
deliver_checksum [] h c payload iface = refl
deliver_checksum (t ∷ protos) h c payload iface =
    ground (arith, deliver_checksum protos h c payload iface)

module _ (proto : ℕ) (bytes : List ℕ) (id dst : ℕ) (iface : Iface) (p : IsU8 proto) (i : IsU16 id)
    (d : IsU32 dst) (s : IsU32 iface.unicast) (small : 20 + length bytes < 65536) where
  sent-IsHeader : IsHeader (tx_header proto (length bytes) id iface dst) bytes
  sent-IsHeader = record {
    vhl = refl;
    tos = omega arith;
    tol = omega arith;
    id = i;
    flags = omega arith;
    ttl = omega arith;
    proto_type = p;
    checksum = refl;
    src = s;
    dst = d;
    small = small;
  }

  rx_header_sent :
      (protos : List ℕ) (ifaces : List (Option Iface)) (receiver : Iface) (c : ℕ)
      → find_iface dst none ifaces ≡ some receiver
      → rx_header protos ifaces
          (record (tx_header proto (length bytes) id iface dst) { checksum = c })
          bytes
        ≡ deliver_protos protos (tx_header proto (length bytes) id iface dst) bytes receiver
  unfolding rx_header
  rx_header_sent protos ifaces receiver c here =
      rw (rx_header, here)
        (deliver_checksum protos (tx_header proto (length bytes) id iface dst) c bytes receiver)

  -- A packet of TxHandler that arrives at a device with an interface for its destination is given to
  -- the upper protocol of its type with its payload and its source, and a packet whose length modulo
  -- 256 is less than 20 is dropped.
  pub rx_packet-tx_packet :
      (protos : List ℕ) (ifaces : List (Option Iface)) (receiver : Iface)
      → find_iface dst none ifaces ≡ some receiver
      → rx_packet protos ifaces (tx_packet proto bytes id dst iface) ≡ (
          if ltb ((20 + length bytes) % 256) 20
          then []
          else deliver_protos protos (tx_header proto (length bytes) id iface dst) bytes receiver)
  unfolding rx_packet header2data
  rx_packet-tx_packet protos ifaces receiver here =
      let h = tx_header proto (length bytes) id iface dst in
      let b = ltb ((20 + length bytes) % 256) 20 in
      ap (rx_result protos ifaces) (data2header-header2data h bytes sent-IsHeader)
      ∙ rx_result_if protos ifaces b data_smaller_than_ihl (header2data h bytes).1 bytes
      ∙ ap (λ (l : List Delivery). if b then [] else l)
          (rx_header_sent protos ifaces receiver _ here)

module _ {W : Type 0} ⦃env : IpEnv W⦄ where
  tx_route_direct :
      (proto : ℕ) (bytes : List ℕ) (src dst : ℕ) (route : Route) (m : Ip W)
      → (not (src == addr_any) && not (src == route.iface.unicast)) ≡ false
      → 20 + length bytes ≤ route.iface.dev.mtu
      → needs_arp route.iface.dev ≡ false
      → tx_route proto bytes src dst route m
        ≡ output route.iface
            (tx_packet proto bytes (generate_id m.id) dst route.iface)
            none
            (record m { id = generate_id m.id })
  unfolding tx_route output
  tx_route_direct proto bytes src dst route m own fits direct =
      let f : ltb route.iface.dev.mtu (20 + length bytes) ≡ false = ground (arith, fits) in
      rw (tx_route, own, f, tx_resolved, direct) refl

  -- Through a route over a device without ARP, TxHandler hands one packet with the next identification
  -- to the device, if the source is the interface's or none and the packet fits the MTU; and that packet,
  -- when it arrives at an interface for its destination, is given to the upper protocol of its type
  -- unless its length modulo 256 is less than 20.
  pub tx_handler_delivers :
      (proto : ℕ) (bytes : List ℕ) (src dst : ℕ) (route : Route) (m : Ip W) (protos : List ℕ)
      (ifaces : List (Option Iface)) (receiver : Iface)
      → IsU8 proto
      → IsU32 dst
      → IsU32 route.iface.unicast
      → IsU16 route.iface.dev.mtu
      → (src == addr_any && (dst == addr_broadcast)) ≡ false
      → lookup_table dst m.routes ≡ some route
      → (not (src == addr_any) && not (src == route.iface.unicast)) ≡ false
      → 20 + length bytes ≤ route.iface.dev.mtu
      → needs_arp route.iface.dev ≡ false
      → find_iface dst none ifaces ≡ some receiver
      → let id = generate_id m.id in
        let packet = tx_packet proto bytes id dst route.iface in
        (tx_handler proto bytes src dst m ≡ output route.iface packet none (record m { id = id }))
        × (rx_packet protos ifaces packet ≡ (
            if ltb ((20 + length bytes) % 256) 20
            then []
            else deliver_protos protos
                (tx_header proto (length bytes) id route.iface dst)
                bytes
                receiver))
  unfolding tx_handler output
  tx_handler_delivers proto bytes src dst route m protos ifaces receiver p d s w sourced found own
        fits direct here =
      (
        rw (tx_handler, sourced, found)
            (tx_route_direct proto bytes src dst route m own fits direct),
        rx_packet-tx_packet proto bytes (generate_id m.id) dst route.iface p (omega arith) d s
            (omega (arith, w, fits)) protos ifaces receiver here,
      )
