-- ===== src/Tcp/Peers/Delivery.antt =====
-- The bytes of a segment of TxHandler in RxHandler of pkg/tcp/protocol.go.
use go_network.Base.{
  ℕ, ◌+◌, ◌-◌, List, ◌∷◌, ◌++◌, ◌≡◌, ◌<◌, refl, ap, ◌∙◌, arith, length, ltb, false, Option, some,
  u32,
}
use go_network.Errors.{Error, Result, ok}
use go_network.Udp.Endpoint.{Endpoint}
use go_network.Tcp.Header.{Header, header2data}
use go_network.Tcp.Header.RoundTrip.{
  IsHeader, data2header-header2data, length-header2data, header2data_stored,
}
use go_network.Tcp.Pcb.{Pcb, Machine, Env}
use go_network.Tcp.Output.{tx_header}
use go_network.Tcp.Arrives.{segment_arrives}
use go_network.Tcp.Registry.{Host, find_local, segment_of, rx_result, rx_handler}

module _ {W : Type 0} ⦃env : Env W⦄ where
  -- The host with the control block where it was.
  abbrev pub put_back :
      List (ℕ × Pcb)
      → ℕ
      → List (ℕ × Pcb)
      → Host W
      → Machine W × Option Error
      → Result (Host W × Option Error)
  put_back before q after h (m, e) =
      ok (record h { pcbs = before ++ ((q, m.pcb) ∷ after); io = m.io }, e)

  opened :
      (src dst : Endpoint) (payload : List ℕ) (seq ack flag wnd up c n : ℕ) (h : Host W)
      (before after : List (ℕ × Pcb)) (q : ℕ) (p : Pcb)
      → n ≡ 20 + length payload
      → 20 + length payload < 65536
      → find_local dst.addr dst.port h.pcbs ≡ some (before, (q, p), after)
      → let hdr = tx_header src dst seq ack flag wnd up in
        rx_result n (ok (record hdr { checksum = c }, payload)) src.addr dst.addr h
        ≡ put_back before q after h (
            segment_arrives
              (segment_of hdr (length payload))
              flag
              payload
              (length payload)
              src
              (record { pcb = p; io = h.io }))
  unfolding rx_result segment_of
  opened src dst payload seq ack flag wnd up c n h before after q p e small found =
      let len : u32 (n + 4294967296 - 20) ≡ length payload = omega (arith, e, small) in
      let fits : ltb (length payload) 0 ≡ false = ground arith in
      rw (rx_result, found, len, fits) refl

  -- RxHandler gives the bytes that TxHandler made of a segment to segmentArrives of the first control
  -- block at the destination: with the numbers, the flags, the window and the text that were sent, and the
  -- sender's address and port.
  pub rx_handler-header2data :
      (src dst : Endpoint) (payload : List ℕ) (seq ack flag wnd up : ℕ) (h : Host W)
      (before after : List (ℕ × Pcb)) (q : ℕ) (p : Pcb)
      → IsHeader (tx_header src dst seq ack flag wnd up) payload
      → find_local dst.addr dst.port h.pcbs ≡ some (before, (q, p), after)
      → let hdr = tx_header src dst seq ack flag wnd up in
        rx_handler (header2data hdr payload src.addr dst.addr).0 src.addr dst.addr h
        ≡ put_back before q after h (
            segment_arrives
              (segment_of hdr (length payload))
              flag
              payload
              (length payload)
              src
              (record { pcb = p; io = h.io }))
  unfolding rx_handler
  rx_handler-header2data src dst payload seq ack flag wnd up h before after q p v found =
      let hdr = tx_header src dst seq ack flag wnd up in
      let (bytes, sent) = header2data hdr payload src.addr dst.addr in
      ap (λ r. rx_result (length bytes) r src.addr dst.addr h)
        (data2header-header2data hdr payload src.addr dst.addr v
          ∙ ap (λ (x : Header). ok (x, payload)) (header2data_stored hdr payload src.addr dst.addr))
      ∙ opened src dst payload seq ack flag wnd up sent.checksum (length bytes) h before after q p
          (length-header2data hdr payload src.addr dst.addr v) v.small found
