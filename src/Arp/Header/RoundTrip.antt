-- ===== src/Arp/Header/RoundTrip.antt =====
-- The codec of pkg/arp/header.go reads what it writes.
use go_network.Base.{ℕ, ◌≡◌, arith, List, ◌++◌, IsU8, IsU16, IsU32, read_uint32-put}
use go_network.Errors.{ok}
use go_network.Device.EtherAddr.{EtherAddr, ether_addr_len}
use go_network.Arp.Header.{
  ArpEther, header2data, data2header, read_header, arp_hrd_ether, arp_pro_ip, addr_len,
}

pub record IsEtherAddr (a : EtherAddr) : Type 0 where
  pub b0 : IsU8 a.a0
  pub b1 : IsU8 a.a1
  pub b2 : IsU8 a.a2
  pub b3 : IsU8 a.a3
  pub b4 : IsU8 a.a4
  pub b5 : IsU8 a.a5

-- A packet for IPv4 on Ethernet, all of whose words are in range.
pub record IsPacket (h : ArpEther) : Type 0 where
  pub hrd : h.hrd ≡ arp_hrd_ether
  pub pro : h.pro ≡ arp_pro_ip
  pub hln : h.hln ≡ ether_addr_len
  pub pln : h.pln ≡ addr_len
  pub op : IsU16 h.op
  pub sha : IsEtherAddr h.sha
  pub spa : IsU32 h.spa
  pub tha : IsEtherAddr h.tha
  pub tpa : IsU32 h.tpa

module _ (h : ArpEther) (v : IsPacket h) (rest : List ℕ) where
  read_header-header2data : read_header (header2data h ++ rest) ≡ h
  unfolding read_header header2data
  read_header-header2data = ground (arith, read_uint32-put h.spa v.spa, read_uint32-put h.tpa v.tpa)

  -- A packet is read back as it was written, whatever padding follows it in the frame.
  pub data2header_round_trip : data2header (header2data h ++ rest) ≡ ok h
  unfolding data2header header2data
  data2header_round_trip =
      let a = v.hrd in
      let b = v.pro in
      let c = v.hln in
      let d = v.pln in
      ground (arith, a, b, c, d, read_uint32-put h.spa v.spa, read_uint32-put h.tpa v.tpa)
