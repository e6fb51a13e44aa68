-- ===== src/Device/EtherAddr.antt =====
-- pkg/device/ethernet_address.go and the addresses of pkg/device/ethernet.go.
use go_network.Base.{ℕ}

-- `[6]byte`.
pub record EtherAddr : Type 0 where
  pub a0 : ℕ
  pub a1 : ℕ
  pub a2 : ℕ
  pub a3 : ℕ
  pub a4 : ℕ
  pub a5 : ℕ

abbrev pub ether_addr_len : ℕ
ether_addr_len = 6

abbrev pub ether_addr_any : EtherAddr
ether_addr_any = record { a0 = 0; a1 = 0; a2 = 0; a3 = 0; a4 = 0; a5 = 0 }

abbrev pub ether_addr_broadcast : EtherAddr
ether_addr_broadcast = record { a0 = 255; a1 = 255; a2 = 255; a3 = 255; a4 = 255; a5 = 255 }
