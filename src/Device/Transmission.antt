-- ===== src/Device/Transmission.antt =====
-- What net.DeviceOutput of pkg/net/devices.go puts on the line of a device of pkg/device, and what a
-- device at the other end reads.
use go_network.Base.{
  ℕ, ◌≤◌, ◌<◌, ◌≡◌, refl, ◌∙◌, arith, List, [], ◌∷◌, map, length, ltb, true, false, Option, some,
  none, IsU16,
}
use go_network.Errors.{Result, ok, err, panic, returns, data_larger_than_mtu}
use go_network.Net.Protocol.{Proto, received, device_input}
use go_network.Net.Device.{NetIface, Line}
use go_network.Net.Registry.{Net, is_up, device_output, iface_register, find_family}
use go_network.Ip.Iface.{Iface}
use go_network.Ip.Header.{Header, data2header}
use go_network.Ip.Protocol.{rx_packet, rx_result, rx_header, find_iface}
use go_network.Device.EtherAddr.{EtherAddr}
use go_network.Device.Frame.{ether_frame_size_max, ether_payload_size_max, header2data}
use go_network.Device.Kinds.{
  Ether, Device, loopback, ether, FileEnv, device_ops, is_mine, ether_rx, ether_tx, tx_handler, mtu,
  add_iface, interfaces, contents,
}
use go_network.Device.Reception.{IsEtherAddr, ether_rx-header2data}

abbrev pub frame_of : Ether → List ℕ → ℕ → EtherAddr → List ℕ
frame_of e data' typ dst = header2data (record { src = e.addr; dst = dst; typ = typ }) data'

rx_result_nowhere : (protos : List ℕ) (r : Result (Header × List ℕ)) → rx_result protos [] r ≡ []
unfolding rx_result rx_header find_iface
rx_result_nowhere protos (ok (hdr, payload)) = ground arith
rx_result_nowhere protos (err e) = refl
rx_result_nowhere protos panic = refl

module _ {W : Type 0} ⦃env : FileEnv W⦄ where
  -- DeviceOutput on an Ethernet device that is up, for data of less than 65536 bytes: what is larger than
  -- the MTU is refused and nothing changes, and the rest leaves as one frame of 1514 bytes at most.
  pub device_output-frame :
      (ptr : ℕ) (e : Ether) (data' : List ℕ) (typ : ℕ) (dst : EtherAddr) (l : Line W)
      → is_up (device_ops {W = W}) (ether e) ≡ true
      → length data' < 65536
      → (device_output device_ops ptr (ether e) data' typ (some dst) l
          ≡ elim (ltb ether_payload_size_max (length data')) [
            | true ↦ returns (l, some data_larger_than_mtu)
            | false ↦ returns (
              record l {
                written = frame_of e data' typ dst ∷ l.written;
                world = (env.write (frame_of e data' typ dst) l.world).0;
              },
              (env.write (frame_of e data' typ dst) l.world).1,
            )
          ])
        × (ltb ether_payload_size_max (length data') ≡ false
            → length (frame_of e data' typ dst) ≤ ether_frame_size_max)
  unfolding device_output tx_handler ether_tx mtu header2data
  device_output-frame ptr e data' typ dst l up small = (ground (arith, up), λ h. ground arith)

  -- Data of at most the MTU that DeviceOutput sends from an Ethernet device is passed on by the device
  -- that it is addressed to, or by every device if it is for all, to the protocol of its type, as the
  -- bytes that were sent.
  pub device_output-ether_rx :
      (ptr q : ℕ) (e b : Ether) (data' : List ℕ) (typ : ℕ) (dst : EtherAddr) (l : Line W)
      (protos : List Proto)
      → is_up (device_ops {W = W}) (ether e) ≡ true
      → length data' ≤ ether_payload_size_max
      → length b.buf ≡ ether_frame_size_max
      → IsEtherAddr e.addr
      → IsEtherAddr dst
      → IsU16 typ
      → is_mine b (record { src = e.addr; dst = dst; typ = typ }) ≡ true
      → let frame = frame_of e data' typ dst in
        let (after, passed) = ether_rx q b (some frame) protos in
        (device_output device_ops ptr (ether e) data' typ (some dst) l
          ≡ returns (
            record l { written = frame ∷ l.written; world = (env.write frame l.world).0 },
            (env.write frame l.world).1,
          ))
        × (passed ≡ device_input typ (record { slice = received q (length data'); dev = q }) protos)
        × (contents after (length data') ≡ data')
  device_output-ether_rx ptr q e b data' typ dst l protos up small room s d t mine =
      let fits : ltb ether_payload_size_max (length data') ≡ false = ground arith in
      let (passed, read) =
        ether_rx-header2data q b (record { src = e.addr; dst = dst; typ = typ }) data' protos
          (omega arith) s d t in
      (
        (device_output-frame ptr e data' typ dst l up (omega arith)).0 ∙ rw (fits) refl,
        passed ∙ rw (mine) refl,
        read,
      )

module _ (W : Type 0) ⦃env : FileEnv W⦄ where
  -- IfaceRegister reports no error for an interface on a loopback device, but the device keeps none, so
  -- whatever packet comes back from it reaches no upper protocol of IP.
  pub iface_register-loopback :
      (ptr f : ℕ) (iface : NetIface) (n : Net Device) (as_ip : NetIface → Option Iface)
      (protos : List ℕ) (bytes : List ℕ)
      → ((iface_register (device_ops {W = W}) ptr (loopback f) iface n).1 ≡ none)
        × (rx_packet protos (map as_ip (interfaces (add_iface iface (loopback f)))) bytes ≡ [])
  unfolding iface_register find_family interfaces add_iface rx_packet
  iface_register-loopback ptr f iface n as_ip protos bytes =
      (refl, rx_result_nowhere protos (data2header bytes))
