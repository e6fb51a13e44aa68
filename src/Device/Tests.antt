-- ===== src/Device/Tests.antt =====
-- The devices of pkg/device at concrete inputs.
use go_network.Device.Text.{ether_addr_string}
use go_network.Strings.{codes}
use go_network.Device.Raw.Descriptors.{open_tap-fds, IsSystem}
use go_network.Device.Raw.{Sys, open_tap}
use go_network.Base.{
  inr, drop, inl, ap, ℕ, ◌+◌, ◌≡◌, ◌≤◌, refl, arith, List, [], ◌∷◌, map, length, replicate, ltb,
  true, false, Option, none, some,
}
use go_network.Errors.{errno, returns, data_larger_than_mtu}
use go_network.Net.Protocol.{Slice, received, device_input}
use go_network.Net.Device.{NetIface, Line}
use go_network.Net.Registry.{Net, is_up, device_output, iface_register}
use go_network.Ip.Iface.{Iface}
use go_network.Ip.Protocol.{rx_packet}
use go_network.Device.EtherAddr.{EtherAddr}
use go_network.Device.Frame.{EtherHeader, header2data, ether_frame_size_max, ether_payload_size_max}
use go_network.Device.Kinds.{
  flags, Ether, Device, FileEnv, device_ops, ether, loopback, interfaces, add_iface, ether_rx,
  contents, slice_bytes, flags_ether, flags_loopback,
}
use go_network.Device.Reception.{IsEtherAddr, ether_rx_overwrites}
use go_network.Device.Transmission.{
  frame_of, device_output-frame, device_output-ether_rx, iface_register-loopback,
}

-- A device file that takes every frame; the world is the number of the frames.
instance abbrev file : FileEnv ℕ
file = record { write = λ frame w. (w + 1, none); close = λ w. (w, none) }

abbrev mac : ℕ → EtherAddr
mac n = record { a0 = 2; a1 = 0; a2 = 0; a3 = 0; a4 = 0; a5 = n }

abbrev tap : ℕ → Ether
tap n = record { flags = flags_ether; interfaces = []; addr = mac n; buf = replicate 1514 0 }

abbrev line : Line ℕ
line = record { protos = record { typ = 0x0800; buffer = [] } ∷ []; written = []; world = 0 }

mac_bytes : (n : ℕ) → n ≤ 255 → IsEtherAddr (mac n)
mac_bytes n h = (omega arith, omega arith, omega arith, omega arith, omega arith, omega arith)

-- The device is up.
tap_up : is_up (device_ops {W = ℕ}) (ether (tap 1)) ≡ true
unfolding is_up flags
tap_up = refl

device_output-frame_example :
    (device_output device_ops 2 (ether (tap 1)) (7 ∷ 8 ∷ []) 0x0800 (some (mac 2)) line
      ≡ elim (ltb ether_payload_size_max 2) [
        | true ↦ returns (line, some data_larger_than_mtu)
        | false ↦ returns (
          record line { written = frame_of (tap 1) (7 ∷ 8 ∷ []) 0x0800 (mac 2) ∷ []; world = 1 },
          none,
        )
      ])
    × (ltb ether_payload_size_max 2 ≡ false
        → length (frame_of (tap 1) (7 ∷ 8 ∷ []) 0x0800 (mac 2)) ≤ ether_frame_size_max)
device_output-frame_example =
    device_output-frame 2 (tap 1) (7 ∷ 8 ∷ []) 0x0800 (mac 2) line tap_up (omega arith)

abbrev frame : List ℕ
frame = frame_of (tap 1) (7 ∷ 8 ∷ []) 0x0800 (mac 2)

device_output-ether_rx_example :
    (device_output device_ops 2 (ether (tap 1)) (7 ∷ 8 ∷ []) 0x0800 (some (mac 2)) line
      ≡ returns (record line { written = frame ∷ []; world = 1 }, none))
    × ((ether_rx 2 (tap 2) (some frame) line.protos).1
        ≡ device_input 0x0800 (record { slice = received 2 2; dev = 2 }) line.protos)
    × (contents (ether_rx 2 (tap 2) (some frame) line.protos).0 2 ≡ 7 ∷ 8 ∷ [])
device_output-ether_rx_example =
    device_output-ether_rx 2 2 (tap 1) (tap 2) (7 ∷ 8 ∷ []) 0x0800 (mac 2) line line.protos tap_up
      (omega arith) refl (mac_bytes 1 (omega arith)) (mac_bytes 2 (omega arith)) (omega arith) refl

-- A frame for another host, behind one of the device.
abbrev other_header : EtherHeader
other_header = record { src = mac 1; dst = mac 3; typ = 0x0806 }

abbrev mine_header : EtherHeader
mine_header = record { src = mac 1; dst = mac 2; typ = 0x0800 }

abbrev first_read : Ether
first_read = (ether_rx 2 (tap 2) (some (header2data mine_header (7 ∷ 8 ∷ []))) line.protos).0

ether_rx_overwrites_example :
    (slice : Slice) × ((ether_rx 2
        (tap 2)
        (some (header2data mine_header (7 ∷ 8 ∷ [])))
        line.protos).1
      ≡ device_input 0x0800 (record { slice = slice; dev = 2 }) line.protos)
    × (slice_bytes first_read slice ≡ 7 ∷ 8 ∷ [])
    × (slice_bytes
          (ether_rx 2 first_read (some (header2data other_header (9 ∷ 9 ∷ 9 ∷ []))) line.protos).0
          slice
        ≡ 9 ∷ 9 ∷ [])
ether_rx_overwrites_example =
    ether_rx_overwrites 2 (tap 2) mine_header other_header (7 ∷ 8 ∷ []) (9 ∷ 9 ∷ 9 ∷ []) line.protos
      line.protos (omega arith) (omega arith) (mac_bytes 1 (omega arith))
      (mac_bytes 2 (omega arith)) (omega arith) refl

abbrev as_ip : NetIface → Option Iface
as_ip i = none

abbrev no_devices : Net Device
no_devices = record { devices = loopback flags_loopback ∷ []; interfaces = []; tied = [] }

iface_register-loopback_example :
    ((iface_register
        (device_ops {W = ℕ})
        0
        (loopback flags_loopback)
        (record { ptr = 0; family = 1 })
        no_devices).1
      ≡ none)
    × (rx_packet
          (1 ∷ [])
          (map as_ip
            (interfaces (add_iface (record { ptr = 0; family = 1 }) (loopback flags_loopback))))
          (69 ∷ [])
        ≡ [])
iface_register-loopback_example =
    iface_register-loopback ℕ 0 flags_loopback (record { ptr = 0; family = 1 }) no_devices as_ip
      (1 ∷ []) (69 ∷ [])

-- A system whose world is the list of the open descriptors: 3 is the file, and 4 a socket.
instance abbrev descriptors : Sys (List ℕ)
descriptors = record {
  open_file = λ w. (3 ∷ w, inl 3);
  socket = λ w. (4 ∷ w, inl 4);
  close = λ fd w. drop 1 w;
  tun_set_iff = λ fd r w. (w, inl r);
  get_flags = λ fd r w. (w, inl r);
  set_flags = λ fd r w. (w, inr (errno 1));
  get_hwaddr = λ fd name w. (w, inl (2 ∷ 0 ∷ 0 ∷ 0 ∷ 0 ∷ 1 ∷ []));
}

descriptors-IsSystem : IsSystem descriptors (λ w. w)
descriptors-IsSystem = record {
  opened = λ w. refl;
  socket = λ w. refl;
  close = λ fd fds w h. ap (drop 1) h;
  tun_set_iff = λ fd r w. refl;
  get_flags = λ fd r w. refl;
  set_flags = λ fd r w. refl;
  get_hwaddr = λ fd name w. refl;
}

open_tap-fds_example : (open_tap {W = List ℕ} (codes "tap0") []).0 ≡ 3 ∷ []
open_tap-fds_example = open_tap-fds (λ w. w) descriptors-IsSystem (codes "tap0") []

addr_name :
    ether_addr_string (record { a0 = 2; a1 = 0; a2 = 0; a3 = 0; a4 = 0; a5 = 171 })
    ≡ codes "2:0:0:0:0:ab"
unfolding ether_addr_string
addr_name = refl
