-- ===== src/Device/Frame.antt =====
-- The Ethernet header of pkg/device/ethernet.go and its bytes: the source, the destination, the type.
use go_network.Base.{
  ℕ, List, [], ◌∷◌, ◌++◌, drop, get_or, ◌==◌, ◌&&◌, Bool, u8, put_uint16, read_uint16,
}
use go_network.Device.EtherAddr.{EtherAddr}

abbrev pub ether_header_size : ℕ
ether_header_size = 14

abbrev pub ether_frame_size_max : ℕ
ether_frame_size_max = 1514

abbrev pub ether_payload_size_max : ℕ
ether_payload_size_max = 1500

pub record EtherHeader : Type 0 where
  pub src : EtherAddr
  pub dst : EtherAddr
  pub typ : ℕ

-- `==` on the arrays.
abbrev pub same_addr : EtherAddr → EtherAddr → Bool
same_addr a b =
    a.a0 == b.a0
    && (a.a1 == b.a1)
    && (a.a2 == b.a2)
    && (a.a3 == b.a3)
    && (a.a4 == b.a4)
    && (a.a5 == b.a5)

abbrev pub put_addr : EtherAddr → List ℕ
put_addr a = u8 a.a0 ∷ u8 a.a1 ∷ u8 a.a2 ∷ u8 a.a3 ∷ u8 a.a4 ∷ u8 a.a5 ∷ []

-- `binary.Write` of an `EtherHeader`.
abbrev pub write_header : EtherHeader → List ℕ
write_header h = put_addr h.src ++ put_addr h.dst ++ put_uint16 h.typ

unfoldable pub header2data : EtherHeader → List ℕ → List ℕ
header2data hdr payload = write_header hdr ++ payload

-- `binary.Read` of an `EtherHeader` from at least 14 bytes.
unfoldable pub read_header : List ℕ → EtherHeader
read_header data' = record {
  src = record { a0 = b 0; a1 = b 1; a2 = b 2; a3 = b 3; a4 = b 4; a5 = b 5 };
  dst = record { a0 = b 6; a1 = b 7; a2 = b 8; a3 = b 9; a4 = b 10; a5 = b 11 };
  typ = read_uint16 (b 12) (b 13);
}
  where
    b : ℕ → ℕ
    b i = get_or data' i 0

-- `data2header`, which is called on the receive buffer of 1514 bytes only.
unfoldable pub data2header : List ℕ → EtherHeader × List ℕ
unfolding read_header
data2header data' = (read_header data', drop ether_header_size data')
