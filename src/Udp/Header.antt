-- ===== src/Udp/Header.antt =====
-- pkg/udp/header.go: the header of 8 bytes, and the checksum over the pseudo header.
pub mod RoundTrip
use go_network.Base.{
  ℕ, ◌+◌, ◌-◌, List, [], ◌∷◌, ◌++◌, length, drop, get_or, ltb, ◌==◌, ◌||◌, not, if◌then◌else◌, u16,
  put_uint16, put_uint32, read_uint16,
}
use go_network.Ip.ProtoType.{proto_udp}
use go_network.Errors.{Result, ok, err, data_too_small, length_mismatch, checksum_error}
use go_network.Utils.{hton16, check_sum}
use go_network.Wire.{copy_at}

abbrev pub header_size : ℕ
header_size = 8

abbrev pub pseudo_header_size : ℕ
pseudo_header_size = 12

pub record Header : Type 0 where
  pub src : ℕ
  pub dst : ℕ
  pub len : ℕ
  pub checksum : ℕ

-- `binary.Write` of a `PseudoHeader` and of a `Header`.
abbrev pub pseudo_header : ℕ → ℕ → ℕ → List ℕ
pseudo_header src dst len = put_uint32 src ++ put_uint32 dst ++ (0 ∷ proto_udp ∷ put_uint16 len)

abbrev pub write_header : Header → List ℕ
write_header h = put_uint16 h.src ++ put_uint16 h.dst ++ put_uint16 h.len ++ put_uint16 h.checksum

-- `binary.Read` of a `Header` from at least 8 bytes.
unfoldable pub read_header : List ℕ → Header
read_header bytes = record {
  src = read_uint16 (b 0) (b 1);
  dst = read_uint16 (b 2) (b 3);
  len = read_uint16 (b 4) (b 5);
  checksum = read_uint16 (b 6) (b 7);
}
  where
    b : ℕ → ℕ
    b i = get_or bytes i 0

-- The checks on a header that was read and on the checksum that was computed, which is not looked at
-- where the header has none.
unfoldable pub check_header : Header → ℕ → List ℕ → Result (Header × List ℕ)
check_header hdr chksum bytes =
    if not (hdr.len == length bytes)
    then err length_mismatch
    else if hdr.checksum == 0
    then ok (hdr, drop header_size bytes)
    else if chksum == 0 || chksum == 65535
    then ok (hdr, drop header_size bytes)
    else err checksum_error

unfoldable pub data2header : List ℕ → ℕ → ℕ → Result (Header × List ℕ)
unfolding read_header check_header check_sum
data2header bytes src dst =
    let hdr = read_header bytes in
    if ltb (length bytes) header_size
    then err data_too_small
    else check_header hdr (check_sum bytes (65535 - check_sum (pseudo_header src dst hdr.len) 0))
        bytes

-- The bytes, and the header with the checksum stored in it.
unfoldable pub header2data : Header → List ℕ → ℕ → ℕ → List ℕ × Header
unfolding check_sum hton16 copy_at
header2data hdr payload src dst =
    let buf =
      pseudo_header src dst (u16 (header_size + length payload)) ++ write_header hdr ++ payload in
    let chksum = check_sum buf 0 in
    (drop pseudo_header_size (copy_at buf 18 (hton16 chksum)), record hdr { checksum = chksum })
