-- ===== src/Ip/Header.antt =====
-- pkg/ip/header.go: the header of 20 bytes, its bytes in network order, and its checksum.
pub mod RoundTrip
use go_network.Base.{
  ℕ, ◌+◌, ◌*◌, ◌/◌, ◌%◌, List, [], ◌∷◌, ◌++◌, length, take, drop, get_or, ltb, ◌==◌, ◌||◌, not,
  if◌then◌else◌, u8, u16, put_uint16, put_uint32, read_uint16, read_uint32,
}
use go_network.Errors.{
  Result, ok, err, data_too_small, data_smaller_than_ihl, data_smaller_than_total_length,
  checksum_error,
}
use go_network.Utils.{hton16, check_sum}
use go_network.Wire.{copy_at}

abbrev pub header_size_min : ℕ
header_size_min = 20

abbrev pub v4 : ℕ
v4 = 4

pub record Header : Type 0 where
  pub vhl : ℕ
  pub tos : ℕ
  pub tol : ℕ
  pub id : ℕ
  pub flags : ℕ
  pub ttl : ℕ
  pub proto_type : ℕ
  pub checksum : ℕ
  pub src : ℕ
  pub dst : ℕ

abbrev pub zero_header : Header
zero_header = record {
  vhl = 0;
  tos = 0;
  tol = 0;
  id = 0;
  flags = 0;
  ttl = 0;
  proto_type = 0;
  checksum = 0;
  src = 0;
  dst = 0;
}

-- `binary.Write` of a `Header`.
abbrev pub write_header : Header → List ℕ
write_header h =
    u8 h.vhl ∷ u8 h.tos ∷ []
    ++ put_uint16 h.tol
    ++ put_uint16 h.id
    ++ put_uint16 h.flags
    ++ (u8 h.ttl ∷ u8 h.proto_type ∷ [])
    ++ put_uint16 h.checksum
    ++ put_uint32 h.src
    ++ put_uint32 h.dst

-- `binary.Read` of a `Header` from at least 20 bytes.
unfoldable pub read_header : List ℕ → Header
read_header bytes = record {
  vhl = b 0;
  tos = b 1;
  tol = read_uint16 (b 2) (b 3);
  id = read_uint16 (b 4) (b 5);
  flags = read_uint16 (b 6) (b 7);
  ttl = b 8;
  proto_type = b 9;
  checksum = read_uint16 (b 10) (b 11);
  src = read_uint32 (b 12) (b 13) (b 14) (b 15);
  dst = read_uint32 (b 16) (b 17) (b 18) (b 19);
}
  where
    b : ℕ → ℕ
    b i = get_or bytes i 0

-- `(hdr.Vhl & 0xf) << 2`, a uint8.
abbrev pub header_len : Header → ℕ
header_len hdr = hdr.vhl % 16 * 4

-- The checks of `data2header` on a header that was read and the checksum of the bytes that it claims.
-- Another version is no error: the code returns the nil error of the read, with a zero header and no
-- payload.
unfoldable pub check_header : Header → ℕ → List ℕ → Result (Header × List ℕ)
check_header hdr chksum bytes =
    if not (hdr.vhl / 16 == v4)
    then ok (zero_header, [])
    else if ltb (u8 (length bytes)) (header_len hdr)
    then err data_smaller_than_ihl
    else if ltb (u16 (length bytes)) hdr.tol
    then err data_smaller_than_total_length
    else if chksum == 0 || chksum == 65535
    then ok (hdr, drop (header_len hdr) bytes)
    else err checksum_error

unfoldable pub data2header : List ℕ → Result (Header × List ℕ)
unfolding read_header check_header check_sum
data2header bytes =
    let hdr = read_header bytes in
    if ltb (length bytes) header_size_min
    then err data_too_small
    else check_header hdr (check_sum (take (header_len hdr) bytes) 0) bytes

-- The bytes, and the header with the checksum stored in it.
unfoldable pub header2data : Header → List ℕ → List ℕ × Header
unfolding check_sum hton16 copy_at
header2data hdr payload =
    let buf = write_header hdr ++ payload in
    let chksum = check_sum (take header_size_min buf) 0 in
    (copy_at buf 10 (hton16 chksum), record hdr { checksum = chksum })
