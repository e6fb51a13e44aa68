-- ===== src/Net/Protocol.antt =====
-- pkg/net/protocol.go, and DeviceInputHanlder of pkg/net/devices.go: the protocols and their buffers,
-- which the devices fill. A device is a number, its place in the list of devices.
use go_network.Base.{ℕ, List, [], ◌∷◌, ◌++◌, length, ltb, ◌==◌, true, false}
use go_network.Errors.{Outcome, returns, blocked}

abbrev pub proto_type_ip : ℕ
proto_type_ip = 0x0800

abbrev pub proto_type_arp : ℕ
proto_type_arp = 0x0806

abbrev pub proto_buffer_size : ℕ
proto_buffer_size = 100

-- The data of a `ProtoBuffer`: bytes of its own, or the first bytes behind the header in the receive
-- buffer of an Ethernet device, which the slice shares with the device.
pub data Slice : Type 0 where
  bytes : List ℕ → Slice
  received : ℕ → ℕ → Slice

pub record ProtoBuffer : Type 0 where
  pub slice : Slice
  pub dev : ℕ

-- A protocol, and what waits in its channel.
pub record Proto : Type 0 where
  pub typ : ℕ
  pub buffer : List ProtoBuffer

unfoldable pub proto_register : ℕ → List Proto → List Proto
proto_register typ protos = protos ++ (record { typ = typ; buffer = [] } ∷ [])

abbrev pub keep_first : Proto → Outcome (List Proto) → Outcome (List Proto)
keep_first p (returns ps) = returns (p ∷ ps)
keep_first p blocked = blocked

-- The send on the channel of a protocol.
abbrev pub put : ProtoBuffer → Proto → List Proto → Outcome (List Proto)
put b p ps = elim (ltb (length p.buffer) proto_buffer_size) [
  | true ↦ returns (record p { buffer = p.buffer ++ (b ∷ []) } ∷ ps)
  | false ↦ blocked
]

-- The loop of `DeviceInputHanlder`: the first protocol of the type gets the data.
unfoldable pub device_input : ℕ → ProtoBuffer → List Proto → Outcome (List Proto)
device_input typ b [] = returns []
device_input typ b (p ∷ ps) = elim (p.typ == typ) [
  | true ↦ put b p ps
  | false ↦ keep_first p (device_input typ b ps)
]

-- A receive on the channel of the first protocol of the type, which waits if there is nothing.
unfoldable pub receive : ℕ → List Proto → Outcome (List Proto × ProtoBuffer)
receive typ [] = blocked
receive typ (p ∷ ps) = elim (p.typ == typ) [
  | true ↦ elim p.buffer [ [] ↦ blocked | b ∷ bs ↦ returns (record p { buffer = bs } ∷ ps, b) ]
  | false ↦ elim (receive typ ps) [ returns (qs, b) ↦ returns (p ∷ qs, b) | blocked ↦ blocked ]
]
