-- ===== src/Tcp/Output.antt =====
-- TxHandler and TxHelperTCP of pkg/tcp/protocol.go.
use go_network.Base.{ℕ, ◌-◌, List, ◌||◌, Option, none, some, length, ltb, if◌then◌else◌}
use go_network.Errors.{Error, data_too_large}
use go_network.Udp.Endpoint.{Endpoint}
use go_network.Tcp.ControlFlag
use go_network.Tcp.ControlFlag.{is_set}
use go_network.Tcp.Header.{Header, header_size_min, header2data}
use go_network.Tcp.Pcb.{Machine, Io, Env, Event, Trigger, Chan, emit}
use go_network.Tcp.Queue.{queue_add}

-- ip.PayloadSizeMax.
abbrev pub payload_size_max : ℕ
payload_size_max = 65515

-- The header that `TxHandler` builds; the offset is 5 words in the high four bits.
abbrev pub tx_header : Endpoint → Endpoint → ℕ → ℕ → ℕ → ℕ → ℕ → Header
tx_header src dst seq ack flag wnd up = record {
  src = src.port;
  dst = dst.port;
  seq = seq;
  ack = ack;
  offset = 80;
  flag = flag;
  window = wnd;
  checksum = 0;
  urgent = up;
}

module _ {W : Type 0} ⦃env : Env W⦄ where
  unfoldable pub tx_handler :
      Endpoint → Endpoint → List ℕ → ℕ → ℕ → ℕ → ℕ → ℕ → Io W → Io W × Option Error
  tx_handler src dst payload seq ack flag wnd up io =
      if ltb payload_size_max (length payload - header_size_min)
      then (io, some data_too_large)
      else (let (bytes, hdr) =
            header2data (tx_header src dst seq ack flag wnd up) payload src.addr dst.addr in
          let logged = emit (Event.transmit src dst hdr payload) io in
          let (w, e) = env.ip_tx_handler bytes src.addr dst.addr logged.world in
          (record logged { world = w }, e))

  -- The segment is queued only after it was sent, and only if it takes sequence numbers.
  unfoldable pub tx_helper_tcp :
      ℕ → List ℕ → Trigger → Option Chan → Machine W → Machine W × Option Error
  unfolding tx_handler queue_add
  tx_helper_tcp flag bytes trigger err_ch m =
      let p = m.pcb in
      let seq = if is_set flag ControlFlag.syn then p.iss else p.snd.nxt in
      let (io, e) = tx_handler p.local p.foreign bytes seq p.rcv.nxt flag p.rcv.wnd p.rcv.up m.io in
      elim e [
        | some x ↦ (record m { io = io }, some x)
        | none ↦
            if is_set flag ControlFlag.syn_fin || ltb 0 (length bytes)
            then (queue_add seq flag bytes trigger err_ch (record m { io = io }), none)
            else (record m { io = io }, none)
      ]
