-- ===== src/Tcp/Calls.antt =====
-- The user calls of pkg/tcp/pcb.go: Open, Send, Receive, Close, Abort and Status. `ch` is the caller's
-- channel, which is not nil.
use go_network.Base.{
  ℕ, zero, suc, ◌+◌, List, [], Option, none, some, length, ltb, ◌==◌, if◌then◌else◌, Bool, true,
  false, u32,
}
use go_network.Errors.{
  Error, foreign_unspecified, connection_exists, connection_does_not_exist, insufficient_resources,
  connection_closing, receive_already_called, no_remaining_data, close_requested, connection_reset,
}
use go_network.Udp.Endpoint.{Endpoint}
use go_network.Tcp.ControlFlag
use go_network.Tcp.Pcb.{
  PcbState, listen, syn_sent, syn_received, established, fin_wait1, fin_wait2, close_wait, closing,
  last_ack, time_wait, closed, Pcb, Machine, Env, Event, Trigger, trigger_open, trigger_close,
  trigger_receive, trigger_send, Chan, no_rcv_cmd, transition, emit,
}
use go_network.Tcp.Queue.{signal_cmd, signal_err}
use go_network.Tcp.Output.{tx_helper_tcp}
use go_network.Tcp.Segment.{tx_bare}

-- `ch <- err`.
abbrev pub reply : {W : Type 0} → Chan → Option Error → Machine W → Machine W
reply ch e m = record m { io = emit (Event.notify ch e) m.io }

-- `pcb.snd.nxt += n`.
abbrev pub advance : {W : Type 0} → ℕ → Machine W → Machine W
advance n m = record m {
  pcb = record m.pcb { snd = record m.pcb.snd { nxt = u32 (m.pcb.snd.nxt + n) } };
}

-- The loops try three times, for the sake of the ARP cache.
abbrev pub tries : ℕ
tries = 3

-- The assignments of an active OPEN.
unfoldable pub start_open : Endpoint → ℕ → ℕ → Pcb → Pcb
start_open foreign timeout iss p = record p {
  timeout = timeout;
  foreign = foreign;
  iss = iss;
  snd = record p.snd { una = iss; nxt = u32 (iss + 1) };
}

module _ {W : Type 0} ⦃env : Env W⦄ where
  -- `for i := 0; i < n; i++ { if err = TxHelperTCP(…); err == nil { … return } }`: the last error, or
  -- none once a segment was sent.
  unfoldable pub retry :
      ℕ → ℕ → List ℕ → Trigger → Chan → Option Error → Machine W → Machine W × Option Error
  retry zero flag bytes why ch e m = (m, e)
  retry (suc n) flag bytes why ch e m =
      let (m', e') = tx_helper_tcp flag bytes why (some ch) m in
      elim e' [ none ↦ (m', none) | some x ↦ retry n flag bytes why ch (some x) m' ]

  -- What follows such a loop: `good` on success, else the last error to the caller.
  unfoldable pub after_retry : Chan → (Machine W → Machine W) → Machine W × Option Error → Machine W
  after_retry ch good (m, none) = good m
  after_retry ch good (m, some x) = reply ch (some x) m

  -- The active OPEN, the same in CLOSED and LISTEN.
  unfoldable pub active_open : Chan → Endpoint → ℕ → Machine W → Machine W
  unfolding retry after_retry start_open
  active_open ch foreign timeout m =
      if foreign.addr == 0
      then reply ch (some foreign_unspecified) m
      else (let (w, iss) = env.rand_uint32 m.io.world in
          after_retry ch (transition syn_sent) (
            retry tries ControlFlag.syn [] trigger_open ch none (record {
              pcb = start_open foreign timeout iss m.pcb;
              io = record m.io { world = w };
            })))

  abbrev set_timeout : ℕ → Machine W → Machine W
  set_timeout timeout m = record m { pcb = record m.pcb { timeout = timeout } }

  unfoldable pub open_in : PcbState → Chan → Endpoint → Bool → ℕ → Machine W → Machine W
  unfolding active_open
  open_in closed ch foreign true timeout m = active_open ch foreign timeout m
  open_in closed ch foreign false timeout m =
      reply ch none (transition listen (set_timeout timeout m))
  open_in listen ch foreign true timeout m = active_open ch foreign timeout m
  open_in listen ch foreign false timeout m = reply ch none (set_timeout timeout m)
  open_in _ ch foreign active timeout m = reply ch (some connection_exists) m

  -- `Open`.
  unfoldable pub open_call : Chan → Endpoint → Bool → ℕ → Machine W → Machine W
  unfolding open_in
  open_call ch foreign active timeout m = open_in m.pcb.state ch foreign active timeout m

  -- A message larger than the window is reported, and sent all the same.
  unfoldable pub send_established : Chan → List ℕ → Machine W → Machine W
  unfolding retry after_retry
  send_established ch bytes m =
      let n =
        if ltb m.pcb.snd.wnd (length bytes) then reply ch (some insufficient_resources) m else m in
      after_retry ch (advance (length bytes))
        (retry tries ControlFlag.ack bytes trigger_send ch none n)

  unfoldable pub send_in : PcbState → Chan → List ℕ → Machine W → Machine W
  unfolding send_established
  send_in closed ch bytes m = reply ch (some connection_does_not_exist) m
  send_in listen ch bytes m = reply ch (some connection_does_not_exist) m
  send_in syn_sent ch bytes m = reply ch (some connection_does_not_exist) m
  send_in syn_received ch bytes m = reply ch (some connection_does_not_exist) m
  send_in established ch bytes m = send_established ch bytes m
  send_in close_wait ch bytes m = send_established ch bytes m
  send_in _ ch bytes m = reply ch (some connection_closing) m

  -- `Send`.
  unfoldable pub send : Chan → List ℕ → Machine W → Machine W
  unfolding send_in
  send ch bytes m = send_in m.pcb.state ch bytes m

  unfoldable pub close_in : PcbState → Chan → Machine W → Machine W
  unfolding retry after_retry
  close_in closed ch m = reply ch (some connection_does_not_exist) m
  close_in listen ch m = reply ch none (transition closed (signal_err close_requested m))
  close_in syn_sent ch m = reply ch none (transition closed (signal_err close_requested m))
  close_in syn_received ch m =
      after_retry ch (λ n. advance 1 (transition fin_wait1 n))
        (retry tries ControlFlag.ack_fin [] trigger_close ch none m)
  close_in established ch m =
      after_retry ch (λ n. advance 1 (transition fin_wait1 n))
        (retry tries ControlFlag.ack_fin [] trigger_close ch none m)
  close_in close_wait ch m =
      after_retry ch (λ n. advance 1 (transition last_ack n))
        (retry tries ControlFlag.ack_fin [] trigger_close ch none m)
  close_in _ ch m = reply ch (some connection_closing) m

  -- `Close`.
  unfoldable pub close : Chan → Machine W → Machine W
  unfolding close_in
  close ch m = close_in m.pcb.state ch m

  -- The states in which `Abort` sends a RST.
  unfoldable pub abort_in : PcbState → Machine W → Machine W × Option Error
  abort_in closed m = (m, some connection_does_not_exist)
  abort_in listen m = (transition closed (signal_err connection_reset m), none)
  abort_in syn_sent m = (transition closed (signal_err connection_reset m), none)
  abort_in closing m = (transition closed m, none)
  abort_in last_ack m = (transition closed m, none)
  abort_in time_wait m = (transition closed m, none)
  abort_in _ m =
      let n = transition closed (signal_err connection_reset m) in
      tx_bare n.pcb.snd.nxt 0 ControlFlag.rst n

  -- `Abort`.
  unfoldable pub abort : Machine W → Machine W × Option Error
  unfolding abort_in
  abort m = abort_in m.pcb.state m

module _ {W : Type 0} where
  -- The part of `Receive` that the states share: `room` is the length of the caller's buffer.
  unfoldable pub queue_receive : Chan → ℕ → Machine W → Machine W
  queue_receive ch room m =
      signal_cmd trigger_receive
        (record m { pcb = record m.pcb { rcv_cmd = record { room = room; err_ch = some ch } } })

  abbrev pub pending : Machine W → Bool
  pending m = elim m.pcb.rcv_cmd.err_ch [ none ↦ false | some _ ↦ true ]

  unfoldable pub receive_open : Chan → ℕ → Machine W → Machine W
  unfolding queue_receive
  receive_open ch room m =
      if pending m then reply ch (some receive_already_called) m else queue_receive ch room m

  -- CLOSE-WAIT: nothing more will come.
  unfoldable pub receive_last : Chan → ℕ → Machine W → Machine W
  unfolding queue_receive
  receive_last ch room m =
      if pending m
      then reply ch (some receive_already_called) m
      else (let n = queue_receive ch room m in
          if pending n
          then reply ch (some no_remaining_data)
              (record n { pcb = record n.pcb { rcv_cmd = no_rcv_cmd } })
          else n)

  unfoldable pub receive_in : PcbState → Chan → ℕ → Machine W → Machine W
  unfolding receive_open receive_last
  receive_in closed ch room m = reply ch (some connection_does_not_exist) m
  receive_in listen ch room m = reply ch (some connection_does_not_exist) m
  receive_in syn_sent ch room m = reply ch (some connection_does_not_exist) m
  receive_in syn_received ch room m = reply ch (some connection_does_not_exist) m
  receive_in established ch room m = receive_open ch room m
  receive_in fin_wait1 ch room m = receive_open ch room m
  receive_in fin_wait2 ch room m = receive_open ch room m
  receive_in close_wait ch room m = receive_last ch room m
  receive_in _ ch room m = reply ch (some connection_closing) m

  -- `Receive`.
  unfoldable pub receive : Chan → ℕ → Machine W → Machine W
  unfolding receive_in
  receive ch room m = receive_in m.pcb.state ch room m

-- `Status`.
unfoldable pub status : Pcb → PcbState
status p = p.state
