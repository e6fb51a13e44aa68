-- ===== src/Ip/Protocol.antt =====
-- pkg/ip/protocol.go and pkg/ip/ip_protocol.go: TxHandler, one packet of RxHandler, ProtoRegister.
use Prim.Native.Nat.{bit_and}
use go_network.Base.{
  ℕ, ◌⊎◌, inl, inr, ◌+◌, List, [], ◌∷◌, ◌++◌, length, ltb, ◌==◌, ◌&&◌, ◌||◌, not, if◌then◌else◌,
  Bool, true, false, Option, none, some, u16,
}
use go_network.Errors.{
  Error, Result, ok, err, panic, source_required, source_mismatch, unreachable,
  proto_already_registered, route_not_found,
}
use go_network.Device.EtherAddr.{EtherAddr, ether_addr_broadcast}
use go_network.Ip.Iface.{Device, Iface, needs_arp}
use go_network.Ip.Routing.{Route, addr_any, addr_broadcast, lookup_table}
use go_network.Ip.Header.{Header, header_size_min, header2data, data2header}

-- What TxHandler calls: the resolver that Init was given, and net.DeviceOutput for IP packets, with the
-- nil hardware address as none.
pub record IpEnv (W : Type 0) : Type 0 where
  pub resolve : Iface → ℕ → W → W × (EtherAddr ⊎ Error)
  pub device_output : Device → List ℕ → Option EtherAddr → W → W × Option Error

-- The package's variables `routes` and `id`, and the world.
pub record Ip (W : Type 0) : Type 0 where
  pub routes : List Route
  pub id : ℕ
  pub world : W

-- The header of TxHandler: version 4, 5 words.
abbrev pub tx_header : ℕ → ℕ → ℕ → Iface → ℕ → Header
tx_header proto len id iface dst = record {
  vhl = 69;
  tos = 0;
  tol = u16 (header_size_min + len);
  id = id;
  flags = 0;
  ttl = 255;
  proto_type = proto;
  checksum = 0;
  src = iface.unicast;
  dst = dst;
}

abbrev pub generate_id : ℕ → ℕ
generate_id id = u16 (id + 1)

abbrev pub next_hop : Route → ℕ → ℕ
next_hop route dst = if route.nexthop == addr_any then dst else route.nexthop

module _ {W : Type 0} ⦃env : IpEnv W⦄ where
  unfoldable pub output : Iface → List ℕ → Option EtherAddr → Ip W → Ip W × Option Error
  output iface bytes hwaddr m =
      let (w, e) = env.device_output iface.dev bytes hwaddr m.world in (record m { world = w }, e)

  -- TxHandler behind the header: the hardware address, and the device.
  unfoldable pub tx_resolved : Iface → ℕ → List ℕ → Ip W → Ip W × Option Error
  unfolding needs_arp output
  tx_resolved iface nexthop bytes m = elim (needs_arp iface.dev) [
    | false ↦ output iface bytes none m
    | true ↦ elim (nexthop == iface.broadcast || (nexthop == addr_broadcast)) [
      | true ↦ output iface bytes (some ether_addr_broadcast) m
      | false ↦
          let (w, hwaddr) = env.resolve iface nexthop m.world in
          let n : Ip W = record m { world = w } in
          elim hwaddr [ inl a ↦ output iface bytes (some a) n | inr e ↦ (n, some e) ]
    ]
  ]

  -- TxHandler behind the routing table.
  unfoldable pub tx_route : ℕ → List ℕ → ℕ → ℕ → Route → Ip W → Ip W × Option Error
  unfolding header2data tx_resolved
  tx_route proto bytes src dst route m =
      let iface = route.iface in
      let id = generate_id m.id in
      let packet = (header2data (tx_header proto (length bytes) id iface dst) bytes).0 in
      if not (src == addr_any) && not (src == iface.unicast)
      then (m, some source_mismatch)
      else if ltb iface.dev.mtu (header_size_min + length bytes)
      then (m, some unreachable)
      else tx_resolved iface (next_hop route dst) packet (record m { id = id })

  unfoldable pub tx_handler : ℕ → List ℕ → ℕ → ℕ → Ip W → Ip W × Option Error
  unfolding lookup_table tx_route
  tx_handler proto bytes src dst m =
      if src == addr_any && (dst == addr_broadcast)
      then (m, some source_required)
      else elim (lookup_table dst m.routes) [
        | some route ↦ tx_route proto bytes src dst route m
        | none ↦ (m, some route_not_found)
      ]

abbrev pub is_for : ℕ → Iface → Bool
is_for dst iface =
    iface.unicast == dst || (iface.broadcast == addr_broadcast) || (iface.broadcast == dst)

-- The search for the interface: a candidate that is no `*Iface` sets `iface` to nil, and one that does
-- not match stays in `iface`.
unfoldable pub find_iface : ℕ → Option Iface → List (Option Iface) → Option Iface
find_iface dst iface [] = iface
find_iface dst iface (none ∷ candidates) = find_iface dst none candidates
find_iface dst iface (some i ∷ candidates) = elim (is_for dst i) [
  | true ↦ some i
  | false ↦ find_iface dst (some i) candidates
]

-- A call of the RxHandler of the upper protocol of that type.
pub record Delivery : Type 0 where
  pub proto : ℕ
  pub payload : List ℕ
  pub src : ℕ
  pub dst : ℕ
  pub iface : Iface

-- The loop over `protos`, each given by its type.
unfoldable pub deliver_protos : List ℕ → Header → List ℕ → Iface → List Delivery
deliver_protos [] hdr payload iface = []
deliver_protos (t ∷ protos) hdr payload iface = elim (t == hdr.proto_type) [
  | true ↦
      record { proto = t; payload = payload; src = hdr.src; dst = hdr.dst; iface = iface }
      ∷ deliver_protos protos hdr payload iface
  | false ↦ deliver_protos protos hdr payload iface
]

abbrev pub is_fragment : Header → Bool
is_fragment hdr = ltb 0 (bit_and hdr.flags 0x2000) || ltb 0 (bit_and hdr.flags 0x1fff)

-- A header and a payload in the loop of RxHandler, with the interfaces of the packet's device.
unfoldable pub rx_header : List ℕ → List (Option Iface) → Header → List ℕ → List Delivery
unfolding find_iface deliver_protos
rx_header protos ifaces hdr payload = elim (is_fragment hdr) [
  | true ↦ []
  | false ↦ elim (find_iface hdr.dst none ifaces) [
    | none ↦ []
    | some iface ↦ deliver_protos protos hdr payload iface
  ]
]

-- What the loop does with the result of data2header: an error is logged.
unfoldable pub rx_result : List ℕ → List (Option Iface) → Result (Header × List ℕ) → List Delivery
unfolding rx_header
rx_result protos ifaces (ok p) = rx_header protos ifaces p.0 p.1
rx_result protos ifaces (err e) = []
rx_result protos ifaces panic = []

-- One packet in the loop of RxHandler.
unfoldable pub rx_packet : List ℕ → List (Option Iface) → List ℕ → List Delivery
unfolding data2header rx_result
rx_packet protos ifaces bytes = rx_result protos ifaces (data2header bytes)

abbrev pub is_registered : ℕ → List ℕ → Bool
is_registered t [] = false
is_registered t (s ∷ protos) = s == t || is_registered t protos

unfoldable pub proto_register : ℕ → List ℕ → List ℕ × Option Error
proto_register t protos = elim (is_registered t protos) [
  | true ↦ (protos, some proto_already_registered)
  | false ↦ (protos ++ (t ∷ []), none)
]
