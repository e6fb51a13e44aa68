-- ===== src/Ip/Resolution.antt =====
-- TxHandler of pkg/ip/protocol.go over a device that needs ARP, with the resolver's answer, and RxHandler
-- at the host that the packet is for.
use go_network.Base.{
  ℕ, ◌+◌, ◌≡◌, ◌≤◌, refl, ap, ◌∙◌, arith, List, length, ltb, ◌==◌, ◌&&◌, ◌||◌, not, true, false,
  Option, some, none, [], ◌⊎◌, inl, inr, ◌%◌, if◌then◌else◌, IsU8, IsU16, IsU32,
}
use go_network.Errors.{Error}
use go_network.Device.EtherAddr.{EtherAddr}
use go_network.Ip.Iface.{Iface, needs_arp}
use go_network.Ip.Routing.{Route, addr_any, addr_broadcast, lookup_table}
use go_network.Ip.Protocol.{
  Ip, IpEnv, generate_id, tx_handler, tx_route, tx_resolved, tx_header, output, next_hop,
  find_iface, rx_packet, deliver_protos,
}
use go_network.Ip.Transfer.{tx_packet, rx_packet-tx_packet}

module _ {W : Type 0} ⦃env : IpEnv W⦄ where
  -- What TxHandler does with the answer.
  abbrev pub answered : Iface → List ℕ → Ip W → W × (EtherAddr ⊎ Error) → Ip W × Option Error
  answered iface packet m (w, inl a) = output iface packet (some a) (record m { world = w })
  answered iface packet m (w, inr e) = (record m { world = w }, some e)

  by_answer :
      (iface : Iface) (packet : List ℕ) (m : Ip W) (r : W × (EtherAddr ⊎ Error))
      → (elim r.1 as (λ _. Ip W × Option Error) [
        | inl a ↦ output iface packet (some a) (record m { world = r.0 })
        | inr e ↦ (record m { world = r.0 }, some e)
      ])
        ≡ answered iface packet m r
  by_answer iface packet m (w, inl a) = refl
  by_answer iface packet m (w, inr x) = refl

  resolved-answered :
      (iface : Iface) (hop : ℕ) (packet : List ℕ) (m : Ip W)
      → needs_arp iface.dev ≡ true
      → (hop == iface.broadcast || (hop == addr_broadcast)) ≡ false
      → tx_resolved iface hop packet m ≡ answered iface packet m (env.resolve iface hop m.world)
  unfolding tx_resolved
  resolved-answered iface hop packet m n b =
      rw (tx_resolved, n, b) (by_answer iface packet m (env.resolve iface hop m.world))

  pub tx_handler-answered :
      (proto : ℕ) (bytes : List ℕ) (src dst : ℕ) (route : Route) (m : Ip W)
      (r : W × (EtherAddr ⊎ Error))
      → (src == addr_any && (dst == addr_broadcast)) ≡ false
      → lookup_table dst m.routes ≡ some route
      → (not (src == addr_any) && not (src == route.iface.unicast)) ≡ false
      → 20 + length bytes ≤ route.iface.dev.mtu
      → needs_arp route.iface.dev ≡ true
      → (next_hop route dst == route.iface.broadcast || (next_hop route dst == addr_broadcast))
        ≡ false
      → env.resolve route.iface (next_hop route dst) m.world ≡ r
      → let id = generate_id m.id in
        tx_handler proto bytes src dst m
        ≡ answered route.iface (tx_packet proto bytes id dst route.iface) (record m { id = id }) r
  unfolding tx_handler tx_route
  tx_handler-answered proto bytes src dst route m r sourced found own fits needs single e =
      let f : ltb route.iface.dev.mtu (20 + length bytes) ≡ false = ground (arith, fits) in
      let id = generate_id m.id in
      rw (tx_handler, sourced, found)
        (rw (tx_route, own, f)
          (resolved-answered route.iface (next_hop route dst)
              (tx_packet proto bytes id dst route.iface) (record m { id = id }) needs single
            ∙ ap
                (answered route.iface (tx_packet proto bytes id dst route.iface)
                  (record m { id = id }))
                e))

  -- Where the resolver knows the next hop, TxHandler hands one packet with the next identification to the
  -- device, for that hardware address, if the source is the interface's or none and the packet fits the
  -- MTU; and that packet, when it arrives at an interface for its destination, is given to the upper
  -- protocol of its type unless its length modulo 256 is less than 20.
  pub tx_handler_resolved :
      (proto : ℕ) (bytes : List ℕ) (src dst : ℕ) (route : Route) (m : Ip W) (w : W) (a : EtherAddr)
      (protos : List ℕ) (ifaces : List (Option Iface)) (receiver : Iface)
      → IsU8 proto
      → IsU32 dst
      → IsU32 route.iface.unicast
      → IsU16 route.iface.dev.mtu
      → (src == addr_any && (dst == addr_broadcast)) ≡ false
      → lookup_table dst m.routes ≡ some route
      → (not (src == addr_any) && not (src == route.iface.unicast)) ≡ false
      → 20 + length bytes ≤ route.iface.dev.mtu
      → needs_arp route.iface.dev ≡ true
      → (next_hop route dst == route.iface.broadcast || (next_hop route dst == addr_broadcast))
        ≡ false
      → env.resolve route.iface (next_hop route dst) m.world ≡ (w, inl a)
      → find_iface dst none ifaces ≡ some receiver
      → let id = generate_id m.id in
        let packet = tx_packet proto bytes id dst route.iface in
        (tx_handler proto bytes src dst m
          ≡ output route.iface packet (some a) (record m { id = id; world = w }))
        × (rx_packet protos ifaces packet ≡ (
            if ltb ((20 + length bytes) % 256) 20
            then []
            else deliver_protos protos
                (tx_header proto (length bytes) id route.iface dst)
                bytes
                receiver))
  tx_handler_resolved proto bytes src dst route m w a protos ifaces receiver p d s mtu sourced found
        own fits needs single known here =
      (
        tx_handler-answered proto bytes src dst route m (w, inl a) sourced found own fits needs
            single known,
        rx_packet-tx_packet proto bytes (generate_id m.id) dst route.iface p (omega arith) d s
            (omega (arith, mtu, fits)) protos ifaces receiver here,
      )
