-- ===== src/Tcp/Header.antt =====
-- pkg/tcp/header.go: the header, its bytes in network order, and the checksum over the pseudo header.
pub mod RoundTrip
use go_network.Base.{
  ℕ, ◌+◌, ◌-◌, List, ◌∷◌, ◌++◌, length, drop, get_or, ltb, ◌==◌, ◌||◌, if◌then◌else◌, u8, u16,
  put_uint16, put_uint32, read_uint16, read_uint32,
}
use go_network.Ip.ProtoType.{proto_tcp}
use go_network.Errors.{data_too_small, checksum_error, Result, ok, err}
use go_network.Utils.{hton16, check_sum}
use go_network.Wire.{copy_at}

abbrev pub header_size_min : ℕ
header_size_min = 20

abbrev pub pseudo_header_size : ℕ
pseudo_header_size = 12

pub record Header : Type 0 where
  pub src : ℕ
  pub dst : ℕ
  pub seq : ℕ
  pub ack : ℕ
  pub offset : ℕ
  pub flag : ℕ
  pub window : ℕ
  pub checksum : ℕ
  pub urgent : ℕ

-- `binary.Write` of a `PseudoHeader` and of a `Header`.
unfoldable pub pseudo_header : ℕ → ℕ → ℕ → List ℕ
pseudo_header src dst len = put_uint32 src ++ (put_uint32 dst ++ (0 ∷ proto_tcp ∷ put_uint16 len))

unfoldable pub write_header : Header → List ℕ
write_header h =
    put_uint16 h.src
    ++ (put_uint16 h.dst
        ++ (put_uint32 h.seq
            ++ (put_uint32 h.ack
                ++ (u8 h.offset
                    ∷ u8 h.flag
                    ∷ (put_uint16 h.window ++ (put_uint16 h.checksum ++ put_uint16 h.urgent))))))

-- `binary.Read` of a `Header` from at least 20 bytes.
unfoldable pub read_header : List ℕ → Header
read_header data' = record {
  src = read_uint16 (b 0) (b 1);
  dst = read_uint16 (b 2) (b 3);
  seq = read_uint32 (b 4) (b 5) (b 6) (b 7);
  ack = read_uint32 (b 8) (b 9) (b 10) (b 11);
  offset = b 12;
  flag = b 13;
  window = read_uint16 (b 14) (b 15);
  checksum = read_uint16 (b 16) (b 17);
  urgent = read_uint16 (b 18) (b 19);
}
  where
    b : ℕ → ℕ
    b i = get_or data' i 0

-- The two calls of CheckSum in `data2header`: over the pseudo header, and, from its complement, over
-- the segment.
unfoldable pub segment_checksum : List ℕ → ℕ → ℕ → ℕ
unfolding pseudo_header check_sum
segment_checksum bytes src dst =
    check_sum bytes (65535 - check_sum (pseudo_header src dst (u16 (length bytes))) 0)

unfoldable pub data2header : List ℕ → ℕ → ℕ → Result (Header × List ℕ)
unfolding read_header segment_checksum
data2header bytes src dst =
    if ltb (length bytes) header_size_min
    then err data_too_small
    else (let chksum = segment_checksum bytes src dst in
        if chksum == 0 || chksum == 65535
        then ok (read_header bytes, drop header_size_min bytes)
        else err checksum_error)

-- The bytes, and the header with the checksum stored in it.
unfoldable pub header2data : Header → List ℕ → ℕ → ℕ → List ℕ × Header
unfolding pseudo_header write_header check_sum hton16 copy_at
header2data hdr payload src dst =
    let buf =
      pseudo_header src dst (u16 (header_size_min + length payload))
      ++ (write_header hdr ++ payload) in
    let chksum = check_sum buf 0 in
    (drop pseudo_header_size (copy_at buf 28 (hton16 chksum)), record hdr { checksum = chksum })
