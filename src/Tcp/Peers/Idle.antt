-- ===== src/Tcp/Peers/Idle.antt =====
-- What Send, and the acknowledgement of what was sent, leave alone at the sender in pkg/tcp: what waits
-- for a RECEIVE, the pending RECEIVE, and what RECEIVEs were given.
use go_network.Base.{
  ℕ, List, [], ◌∷◌, ◌++◌, ◌≡◌, ◌≤◌, refl, ap, ◌∙◌, arith, keep, length, Option, some, none,
}
use go_network.Errors.{Error}
use go_network.Tcp.ControlFlag
use go_network.Tcp.Pcb.{
  Machine, Env, Event, transmit, notify, deliver, blocked, established, trigger_send, Chan,
  RetxEntry,
}
use go_network.Tcp.Output.{tx_helper_tcp, payload_size_max}
use go_network.Tcp.Segment.{Segment}
use go_network.Tcp.Queue.Remove.{notices, is_acked, queue_ack_lem}
use go_network.Tcp.Calls.{send}
use go_network.Tcp.Synchronized.{update_window}
use go_network.Tcp.Frames.{queue_ack-Same}
use go_network.Tcp.Peers.{Sends, tx_helper_tcp-Sent}
use go_network.Tcp.Peers.Established.{acked}
use go_network.Tcp.Peers.Text.{warned, send-sent}

-- All the bytes that RECEIVEs were given, in their order.
unfoldable pub received : List Event → List ℕ
received [] = []
received (deliver bytes ∷ events) = received events ++ bytes
received (notify ch e ∷ events) = received events
received (blocked ∷ events) = received events
received (transmit src dst hdr bytes ∷ events) = received events

pub record IsIdle {W : Type 0} (m n : Machine W) : Type 0 where
  pub rx_len : n.pcb.rx_len ≡ m.pcb.rx_len
  pub rcv_cmd : n.pcb.rcv_cmd ≡ m.pcb.rcv_cmd
  pub received : received n.io.trace ≡ received m.io.trace

pub IsIdle-trans : {W : Type 0} → (k m n : Machine W) → IsIdle k m → IsIdle m n → IsIdle k n
IsIdle-trans k m n a b = record {
  rx_len = b.rx_len ∙ a.rx_len;
  rcv_cmd = b.rcv_cmd ∙ a.rcv_cmd;
  received = b.received ∙ a.received;
}

received-notices :
    (e : Option Error) (es : List RetxEntry) (trace : List Event)
    → received (notices e es trace) ≡ received trace
unfolding received
received-notices e [] trace = refl
received-notices e (x ∷ es) trace =
    received-notices e es (elim x.err_ch [ none ↦ trace | some ch ↦ notify ch e ∷ trace ])
    ∙ ground arith

module _ {W : Type 0} ⦃env : Env W⦄ where
  warned-IsIdle : (ch : Chan) (bytes : List ℕ) (m : Machine W) → IsIdle m (warned ch bytes m)
  unfolding received
  warned-IsIdle ch bytes m = record {
    rx_len = ground arith;
    rcv_cmd = ground arith;
    received = ground arith;
  }

  update_window-IsIdle : (seg : Segment) (m : Machine W) → IsIdle m (update_window seg m)
  unfolding update_window
  update_window-IsIdle seg m = record {
    rx_len = ground arith;
    rcv_cmd = ground arith;
    received = ground arith;
  }

  acked-IsIdle : (seg : Segment) (m : Machine W) → IsIdle m (acked seg m)
  unfolding acked
  acked-IsIdle seg m =
      let k : Machine W = record m {
        pcb = record m.pcb { state = established; snd = record m.pcb.snd { una = seg.ack } };
      } in
      let same = queue_ack-Same k in
      record {
        rx_len = same.rx_len;
        rcv_cmd = same.rcv_cmd;
        received =
            ap received (queue_ack_lem k).1
            ∙ received-notices none (keep (is_acked seg.ack) m.pcb.retx_queue) m.io.trace;
      }

  -- The sender behind an acknowledgement.
  pub ack-IsIdle : (seg : Segment) (m : Machine W) → IsIdle m (update_window seg (acked seg m))
  ack-IsIdle seg m =
      IsIdle-trans m (acked seg m) (update_window seg (acked seg m)) (acked-IsIdle seg m)
        (update_window-IsIdle seg (acked seg m))

  module _ (sends : Sends env) (ch : Chan) (bytes : List ℕ) (m : Machine W)
      (small : length bytes ≤ payload_size_max) where
    abbrev helped : Machine W
    helped = (tx_helper_tcp ControlFlag.ack bytes trigger_send (some ch) (warned ch bytes m)).0

    helped-IsIdle : IsIdle (warned ch bytes m) helped
    unfolding received
    helped-IsIdle =
        let sent =
          tx_helper_tcp-Sent sends ControlFlag.ack bytes trigger_send (some ch) (warned ch bytes m)
            small in
        record {
          rx_len = sent.same.rx_len;
          rcv_cmd = sent.same.rcv_cmd;
          received = ap received sent.trace;
        }

    pub send-IsIdle : m.pcb.state ≡ established → IsIdle m (send ch bytes m)
    send-IsIdle state =
        let all =
          IsIdle-trans m (warned ch bytes m) helped (warned-IsIdle ch bytes m) helped-IsIdle in
        rw (send-sent sends ch bytes m state small)
          (record { rx_len = all.rx_len; rcv_cmd = all.rcv_cmd; received = all.received })
