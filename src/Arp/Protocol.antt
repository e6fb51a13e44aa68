-- ===== src/Arp/Protocol.antt =====
-- pkg/arp/protocol.go: RxHandler, Reply, Resolve and Request. The frames that are given to
-- net.DeviceOutput are recorded, the newest first; the code only logs or drops the errors of that call.
use go_network.Base.{ℕ, List, [], ◌∷◌, ◌==◌, Bool, true, false, Option, none, some, set, get_or}
use go_network.Errors.{
  Error, Result, ok, err, panic, cache_not_found, cache_incomplete, arp_only_ethernet,
  unsupported_protocol_address, unsupported_hardware_address,
}
use go_network.Device.EtherAddr.{EtherAddr, ether_addr_len, ether_addr_any, ether_addr_broadcast}
use go_network.Arp.Cache.{
  CacheEntry, zero_entry, cache_imcomplete, is_imcomplete, cache_alloc, cache_insert, cache_select,
  cache_update,
}
use go_network.Arp.Header.{
  ArpEther, zero_header, arp_hrd_ether, arp_pro_ip, arp_op_request, arp_op_reply, addr_len,
  header2data, data2header,
}

pub record Frame : Type 0 where
  pub bytes : List ℕ
  pub dst : EtherAddr

-- An `*ip.Iface`: its unicast address, and the address of its device if that is a `*device.Ether`.
pub record ArpIface : Type 0 where
  pub unicast : ℕ
  pub ether : Option EtherAddr

-- The table, the frames, and whether the loop of RxHandler runs.
pub record Arp : Type 0 where
  pub caches : List CacheEntry
  pub frames : List Frame
  pub running : Bool

-- The packet that Reply and Request send.
abbrev pub packet : ℕ → EtherAddr → ℕ → EtherAddr → ℕ → ArpEther
packet op sha spa tha tpa = record {
  hrd = arp_hrd_ether;
  pro = arp_pro_ip;
  hln = ether_addr_len;
  pln = addr_len;
  op = op;
  sha = sha;
  spa = spa;
  tha = tha;
  tpa = tpa;
}

unfoldable pub reply : ArpIface → EtherAddr → ℕ → EtherAddr → Arp → Arp × Option Error
unfolding header2data
reply iface tha tpa dst a = elim iface.ether [
  | none ↦ (a, some arp_only_ethernet)
  | some sha ↦ (
    record a {
      frames =
          record { bytes = header2data (packet arp_op_reply sha iface.unicast tha tpa); dst = dst }
          ∷ a.frames;
    },
    none,
  )
]

unfoldable pub request : ArpIface → ℕ → Arp → Arp × Option Error
unfolding header2data
request iface tpa a = elim iface.ether [
  | none ↦ (a, some arp_only_ethernet)
  | some sha ↦ (
    record a {
      frames =
          record {
            bytes = header2data (packet arp_op_request sha iface.unicast ether_addr_any tpa);
            dst = ether_addr_broadcast;
          }
          ∷ a.frames;
    },
    none,
  )
]

-- The header of a packet, the zero value if it is refused.
unfoldable pub header_of : List ℕ → ArpEther
unfolding data2header
header_of bytes = elim (data2header bytes) [
  | ok hdr ↦ hdr
  | err _ ↦ zero_header
  | panic ↦ zero_header
]

-- RxHandler behind the check of the address: the insertion, unless the entry was updated, and the reply.
unfoldable pub accept : ℕ → ArpIface → ArpEther → Bool → Arp → Arp
unfolding cache_insert reply
accept now iface hdr merge a =
    let caches : List CacheEntry = elim merge [
      | true ↦ a.caches
      | false ↦ cache_insert now hdr.spa hdr.sha a.caches
    ] in
    let inserted : Arp = record a { caches = caches } in
    elim (hdr.op == arp_op_request) [
      | true ↦ (reply iface hdr.sha hdr.spa hdr.sha inserted).0
      | false ↦ inserted
    ]

-- A header in the loop of RxHandler, with the IP interface of the packet's device, if there is one.
unfoldable pub rx_header : ℕ → Option ArpIface → ArpEther → Arp → Arp
unfolding cache_update accept
rx_header now iface hdr a =
    let (caches, merge) = cache_update now hdr.spa hdr.sha a.caches in
    let updated : Arp = record a { caches = caches } in
    elim iface [
      | none ↦ record updated { running = false }
      | some i ↦ elim (i.unicast == hdr.tpa) [
        | true ↦ accept now i hdr merge updated
        | false ↦ record updated { running = false }
      ]
    ]

-- One packet in the loop of RxHandler. An error of data2header is logged, and its zero header used.
unfoldable pub rx_packet : ℕ → Option ArpIface → List ℕ → Arp → Arp
unfolding header_of rx_header
rx_packet now iface bytes a = rx_header now iface (header_of bytes) a

-- What RxHandler takes from its channel: the time, the interface and the bytes.
unfoldable pub rx_handler : List (ℕ × Option ArpIface × List ℕ) → Arp → Arp
unfolding rx_packet
rx_handler [] a = a
rx_handler ((now, iface, bytes) ∷ packets) a = elim a.running [
  | true ↦ rx_handler packets (rx_packet now iface bytes a)
  | false ↦ a
]

-- Resolve for an address that is not in the table.
unfoldable pub resolve_new : ℕ → ArpIface → ℕ → Arp → Arp
unfolding cache_alloc request
resolve_new now iface pa a =
    let entry : CacheEntry = record {
      state = cache_imcomplete;
      pa = pa;
      ha = ether_addr_any;
      timeval = now;
    } in
    (request iface pa (record a { caches = set a.caches (cache_alloc a.caches) entry })).0

-- Resolve; an interface that is not an `*ip.Iface` is none.
unfoldable pub resolve : ℕ → Option ArpIface → ℕ → Arp → Arp × Result EtherAddr
unfolding cache_select request resolve_new
resolve now none pa a = (a, err unsupported_protocol_address)
resolve now (some iface) pa a = elim iface.ether [
  | none ↦ (a, err unsupported_hardware_address)
  | some _ ↦ elim (cache_select pa a.caches) [
    | none ↦ (resolve_new now iface pa a, err cache_not_found)
    | some index ↦
        let entry = get_or a.caches index zero_entry in
        elim (is_imcomplete entry.state) [
          | true ↦ ((request iface pa a).0, err cache_incomplete)
          | false ↦ (a, ok entry.ha)
        ]
  ]
]
