-- ===== src/Arp/Header.antt =====
-- pkg/arp/header.go: the ARP packet for IPv4 on Ethernet, and its bytes in network order.
pub mod RoundTrip
use go_network.Base.{
  ℕ, ◌+◌, ◌*◌, List, [], ◌∷◌, ◌++◌, length, get_or, ltb, ◌==◌, ◌||◌, not, if◌then◌else◌, u8,
  put_uint16, put_uint32, read_uint16, read_uint32,
}
use go_network.Errors.{Result, ok, err, data_too_small, arp_only_ethernet, arp_only_ip}
use go_network.Device.EtherAddr.{EtherAddr, ether_addr_len, ether_addr_any}

abbrev pub arp_hrd_ether : ℕ
arp_hrd_ether = 1

abbrev pub arp_pro_ip : ℕ
arp_pro_ip = 0x0800

abbrev pub arp_op_request : ℕ
arp_op_request = 1

abbrev pub arp_op_reply : ℕ
arp_op_reply = 2

-- ip.AddrLen.
abbrev pub addr_len : ℕ
addr_len = 4

abbrev pub arp_ether_size : ℕ
arp_ether_size = 8 + 2 * ether_addr_len + 2 * addr_len

-- `ArpEther`, with the fields of the embedded `Header` first.
pub record ArpEther : Type 0 where
  pub hrd : ℕ
  pub pro : ℕ
  pub hln : ℕ
  pub pln : ℕ
  pub op : ℕ
  pub sha : EtherAddr
  pub spa : ℕ
  pub tha : EtherAddr
  pub tpa : ℕ

abbrev pub zero_header : ArpEther
zero_header = record {
  hrd = 0;
  pro = 0;
  hln = 0;
  pln = 0;
  op = 0;
  sha = ether_addr_any;
  spa = 0;
  tha = ether_addr_any;
  tpa = 0;
}

abbrev pub put_ether : EtherAddr → List ℕ
put_ether a = u8 a.a0 ∷ u8 a.a1 ∷ u8 a.a2 ∷ u8 a.a3 ∷ u8 a.a4 ∷ u8 a.a5 ∷ []

-- `binary.Write` of an `ArpEther`.
unfoldable pub header2data : ArpEther → List ℕ
header2data h =
    put_uint16 h.hrd
    ++ put_uint16 h.pro
    ++ (u8 h.hln ∷ u8 h.pln ∷ [])
    ++ put_uint16 h.op
    ++ put_ether h.sha
    ++ put_uint32 h.spa
    ++ put_ether h.tha
    ++ put_uint32 h.tpa

-- `binary.Read` of an `ArpEther` from at least 28 bytes.
unfoldable pub read_header : List ℕ → ArpEther
read_header bytes = record {
  hrd = read_uint16 (b 0) (b 1);
  pro = read_uint16 (b 2) (b 3);
  hln = b 4;
  pln = b 5;
  op = read_uint16 (b 6) (b 7);
  sha = record { a0 = b 8; a1 = b 9; a2 = b 10; a3 = b 11; a4 = b 12; a5 = b 13 };
  spa = read_uint32 (b 14) (b 15) (b 16) (b 17);
  tha = record { a0 = b 18; a1 = b 19; a2 = b 20; a3 = b 21; a4 = b 22; a5 = b 23 };
  tpa = read_uint32 (b 24) (b 25) (b 26) (b 27);
}
  where
    b : ℕ → ℕ
    b i = get_or bytes i 0

unfoldable pub data2header : List ℕ → Result ArpEther
unfolding read_header
data2header bytes =
    let hdr = read_header bytes in
    if ltb (length bytes) arp_ether_size
    then err data_too_small
    else if not (hdr.hrd == arp_hrd_ether) || not (hdr.hln == ether_addr_len)
    then err arp_only_ethernet
    else if not (hdr.pro == arp_pro_ip) || not (hdr.pln == addr_len)
    then err arp_only_ip
    else ok hdr
