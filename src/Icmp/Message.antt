-- ===== src/Icmp/Message.antt =====
-- pkg/icmp/header.go and pkg/icmp/protocol.go: the codec, TxHandler and RxHandler.
use go_network.Base.{
  true, false, ℕ, List, [], ◌∷◌, ◌++◌, length, take, drop, get_or, ltb, ◌==◌, ◌||◌, not,
  if◌then◌else◌, u8, put_uint16, put_uint32, read_uint16, read_uint32, Option, some,
}
use go_network.Ip.ProtoType.{proto_icmp}
use go_network.Errors.{Error, data_too_small, checksum_error, icmp_type_unknown}
use go_network.Utils.{hton16, check_sum}
use go_network.Wire.{copy_at}
use go_network.Icmp.Enum.{type_echo_reply, type_echo}
use go_network.Ip.Iface.{Iface}
use go_network.Ip.Protocol
use go_network.Ip.Protocol.{Ip, IpEnv}

abbrev pub header_size : ℕ
header_size = 8

pub record Header : Type 0 where
  pub typ : ℕ
  pub code : ℕ
  pub checksum : ℕ
  pub values : ℕ

-- `binary.Write` of a `Header`.
abbrev pub write_header : Header → List ℕ
write_header h = (u8 h.typ ∷ u8 h.code ∷ []) ++ put_uint16 h.checksum ++ put_uint32 h.values

-- `binary.Read` of a `Header` from at least 8 bytes, which RxHandler has checked.
unfoldable pub read_header : List ℕ → Header
read_header bytes = record {
  typ = b 0;
  code = b 1;
  checksum = read_uint16 (b 2) (b 3);
  values = read_uint32 (b 4) (b 5) (b 6) (b 7);
}
  where
    b : ℕ → ℕ
    b i = get_or bytes i 0

-- The checksum is that of the 8 bytes of the header.
unfoldable pub header2data : Header → List ℕ → List ℕ × Header
unfolding check_sum hton16 copy_at
header2data hdr payload =
    let buf = write_header hdr ++ payload in
    let chksum = check_sum (take header_size buf) 0 in
    (copy_at buf 2 (hton16 chksum), record hdr { checksum = chksum })

module _ {W : Type 0} ⦃env : IpEnv W⦄ where
  unfoldable pub tx_handler : ℕ → ℕ → ℕ → List ℕ → ℕ → ℕ → Ip W → Ip W × Option Error
  unfolding header2data Protocol.tx_handler
  tx_handler typ code values bytes src dst m =
      let hdr : Header = record { typ = typ; code = code; checksum = 0; values = values } in
      Protocol.tx_handler proto_icmp (header2data hdr bytes).0 src dst m

  -- RxHandler behind its checks.
  unfoldable pub rx_message : Header → List ℕ → ℕ → Iface → Ip W → Ip W × Option Error
  unfolding tx_handler
  rx_message hdr payload src iface m = elim (hdr.typ == type_echo) [
    | true ↦ tx_handler type_echo_reply 0 hdr.values payload iface.unicast src m
    | false ↦ (m, some icmp_type_unknown)
  ]

  -- RxHandler; whatever the destination was, the reply comes from the address of the interface.
  unfoldable pub rx_handler : List ℕ → ℕ → Iface → Ip W → Ip W × Option Error
  unfolding read_header rx_message check_sum
  rx_handler bytes src iface m =
      let chksum = check_sum bytes 0 in
      if ltb (length bytes) header_size
      then (m, some data_too_small)
      else if not (chksum == 0 || (chksum == 65535))
      then (m, some checksum_error)
      else rx_message (read_header bytes) (drop header_size bytes) src iface m
