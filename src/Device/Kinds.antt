-- ===== src/Device/Kinds.antt =====
-- pkg/device: the three kinds of devices, as the methods of net.Device that they implement.
use go_network.Base.{
  ℕ, List, [], ◌∷◌, ◌++◌, length, take, drop, replicate, ltb, ◌||◌, ◌-◌, ◌≡◌, refl, ◌⊎◌, inl, inr,
  Bool, true, false, Option, none, some,
}
use go_network.Errors.{Error, Outcome, returns, blocked, only_ethernet_address}
use go_network.Wire.{copy_at}
use go_network.Device.EtherAddr.{EtherAddr, ether_addr_broadcast}
use go_network.Device.Frame.{
  EtherHeader, ether_header_size, ether_frame_size_max, ether_payload_size_max, same_addr,
  header2data, data2header,
}
use go_network.Net.Device.{NetIface, Line, DeviceOps}
use go_network.Net.Protocol.{Slice, bytes, received, Proto, device_input}

-- DeviceTypeNull, DeviceTypeLoopback and DeviceTypeEther, and the flags.
abbrev pub device_type_null : ℕ
device_type_null = 0

abbrev pub device_type_loopback : ℕ
device_type_loopback = 1

abbrev pub device_type_ether : ℕ
device_type_ether = 2

abbrev pub flags_null : ℕ
flags_null = 0x0001

abbrev pub flags_loopback : ℕ
flags_loopback = 0x0011

abbrev pub flags_ether : ℕ
flags_ether = 0x0121

abbrev pub max_uint16 : ℕ
max_uint16 = 65535

-- `Ether`, with the buffer `buf` of its RxHandler. The device file is the environment.
pub record Ether : Type 0 where
  pub flags : ℕ
  pub interfaces : List NetIface
  pub addr : EtherAddr
  pub buf : List ℕ

-- `Null` and `Loopback` have their flags only; names are for the log.
pub data Device : Type 0 where
  null : ℕ → Device
  loopback : ℕ → Device
  ether : Ether → Device

-- `NullInit` and `LoopbackInit`, and `EtherInit` with the address that the system gave.
unfoldable pub null_init : Device
null_init = null flags_null

unfoldable pub loopback_init : Device
loopback_init = loopback flags_loopback

unfoldable pub ether_init : EtherAddr → Device
ether_init addr = ether (record {
  flags = flags_ether;
  interfaces = [];
  addr = addr;
  buf = replicate ether_frame_size_max 0;
})

unfoldable pub device_type : Device → ℕ
device_type (null _) = device_type_null
device_type (loopback _) = device_type_loopback
device_type (ether _) = device_type_ether

unfoldable pub mtu : Device → ℕ
mtu (null _) = max_uint16
mtu (loopback _) = max_uint16
mtu (ether _) = ether_payload_size_max

unfoldable pub flags : Device → ℕ
flags (null f) = f
flags (loopback f) = f
flags (ether e) = e.flags

-- The methods of Null and Loopback keep no interface.
unfoldable pub add_iface : NetIface → Device → Device
add_iface iface (null f) = null f
add_iface iface (loopback f) = loopback f
add_iface iface (ether e) = ether (record e { interfaces = e.interfaces ++ (iface ∷ []) })

unfoldable pub interfaces : Device → List NetIface
interfaces (null f) = []
interfaces (loopback f) = []
interfaces (ether e) = e.interfaces

-- The device file: what Write and Close answer.
pub record FileEnv (W : Type 0) : Type 0 where
  pub write : List ℕ → W → W × Option Error
  pub close : W → W × Option Error

pub flags-add_iface : (i : NetIface) (d : Device) → flags (add_iface i d) ≡ flags d
unfolding flags add_iface
flags-add_iface i (null f) = refl
flags-add_iface i (loopback f) = refl
flags-add_iface i (ether e) = refl

pub interfaces-add_iface :
    (i : NetIface) (d : Device)
    → (interfaces (add_iface i d) ≡ interfaces d ++ (i ∷ []))
      ⊎ (interfaces (add_iface i d) ≡ interfaces d)
unfolding interfaces add_iface
interfaces-add_iface i (null f) = inr refl
interfaces-add_iface i (loopback f) = inr refl
interfaces-add_iface i (ether e) = inl refl

module _ {W : Type 0} ⦃env : FileEnv W⦄ where
  -- TxHandler of Ether; a nil or another hardware address is none.
  unfoldable pub ether_tx : Ether → List ℕ → ℕ → Option EtherAddr → Line W → Line W × Option Error
  unfolding header2data
  ether_tx e payload typ none l = (l, some only_ethernet_address)
  ether_tx e payload typ (some dst) l =
      let frame = header2data (record { src = e.addr; dst = dst; typ = typ }) payload in
      let (w, failed) = env.write frame l.world in
      (record l { written = frame ∷ l.written; world = w }, failed)

  abbrev pub with_protos : Line W → Outcome (List Proto) → Outcome (Line W × Option Error)
  with_protos l (returns ps) = returns (record l { protos = ps }, none)
  with_protos l blocked = blocked

  -- TxHandler. Loopback gives the data back to the protocols at once.
  unfoldable pub tx_handler :
      ℕ → Device → List ℕ → ℕ → Option EtherAddr → Line W → Outcome (Line W × Option Error)
  unfolding ether_tx device_input
  tx_handler ptr (null f) payload typ dst l = returns (l, none)
  tx_handler ptr (loopback f) payload typ dst l =
      with_protos l (device_input typ (record { slice = bytes payload; dev = ptr }) l.protos)
  tx_handler ptr (ether e) payload typ dst l = returns (ether_tx e payload typ dst l)

  unfoldable pub close_device : Device → W → W × Option Error
  close_device (null f) w = (w, none)
  close_device (loopback f) w = (w, none)
  close_device (ether e) w = env.close w

  -- The devices as net.Device.
  abbrev pub device_ops : DeviceOps Device EtherAddr W
  device_ops = record {
    mtu = mtu;
    flags = flags;
    add_iface = add_iface;
    interfaces = interfaces;
    tx_handler = tx_handler;
    close = close_device;
    flags-add_iface = flags-add_iface;
    interfaces-add_iface = interfaces-add_iface;
  }

abbrev pub is_mine : Ether → EtherHeader → Bool
is_mine e hdr = same_addr hdr.dst e.addr || same_addr hdr.dst ether_addr_broadcast

-- The header of the frame that lies in the buffer, and the length that was read.
unfoldable pub rx_header : ℕ → Ether → EtherHeader → ℕ → List Proto → Outcome (List Proto)
unfolding device_input
rx_header ptr e hdr len protos = elim (is_mine e hdr) [
  | true ↦
      device_input hdr.typ (record { slice = received ptr (len - ether_header_size); dev = ptr })
        protos
  | false ↦ returns protos
]

-- The buffer after Read put bytes into it.
unfoldable pub fill : Ether → List ℕ → Ether
unfolding copy_at
fill e frame = record e { buf = copy_at e.buf 0 frame }

-- One round of the loop of RxHandler of Ether: Read failed, or put bytes into the buffer.
unfoldable pub ether_rx : ℕ → Ether → Option (List ℕ) → List Proto → Ether × Outcome (List Proto)
unfolding fill data2header rx_header
ether_rx ptr e none protos = (e, returns protos)
ether_rx ptr e (some frame) protos =
    let read = fill e frame in
    (
      read,
      elim (ltb (length frame) ether_header_size) [
        | true ↦ returns protos
        | false ↦ rx_header ptr read (data2header read.buf).0 (length frame) protos
      ],
    )

-- What a slice of the buffer reads as.
unfoldable pub contents : Ether → ℕ → List ℕ
contents e n = take n (drop ether_header_size e.buf)

-- What a slice of a ProtoBuffer of the device reads as.
unfoldable pub slice_bytes : Ether → Slice → List ℕ
unfolding contents
slice_bytes e (bytes bs) = bs
slice_bytes e (received q n) = contents e n
