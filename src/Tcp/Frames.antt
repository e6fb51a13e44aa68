-- ===== src/Tcp/Frames.antt =====
-- What the helpers of pkg/tcp leave alone in the control block: lemmas for the proofs about the
-- handlers, which keep the helpers shut.
use go_network.Base.{ℕ, List, [], Option, ◌≡◌, refl, arith}
use go_network.Errors.{Error}
use go_network.Tcp.Pcb.{Pcb, Machine, Env, Trigger, trigger_receive, Chan, no_rcv_cmd}
use go_network.Tcp.Queue.{
  queue_add, queue_ack, queue_flush, signal_queue, signal_receive, deliver_data, signal_cmd,
  signal_err,
}
use go_network.Tcp.Output.{tx_handler, tx_helper_tcp}
use go_network.Tcp.Segment.{tx_bare}

-- Two control blocks that differ in the retransmission queue at most.
pub record Same (p q : Pcb) : Type 0 where
  pub state : q.state ≡ p.state
  pub local : q.local ≡ p.local
  pub foreign : q.foreign ≡ p.foreign
  pub snd : q.snd ≡ p.snd
  pub iss : q.iss ≡ p.iss
  pub rcv : q.rcv ≡ p.rcv
  pub irs : q.irs ≡ p.irs
  pub mss : q.mss ≡ p.mss
  pub rx_queue : q.rx_queue ≡ p.rx_queue
  pub rx_len : q.rx_len ≡ p.rx_len
  pub rcv_cmd : q.rcv_cmd ≡ p.rcv_cmd
  pub timeout : q.timeout ≡ p.timeout
  pub last_tx_time : q.last_tx_time ≡ p.last_tx_time

-- Two control blocks that differ in the queues and the receive window at most.
pub record SameState (p q : Pcb) : Type 0 where
  pub state : q.state ≡ p.state
  pub local : q.local ≡ p.local
  pub foreign : q.foreign ≡ p.foreign
  pub snd : q.snd ≡ p.snd
  pub iss : q.iss ≡ p.iss
  pub rcv_nxt : q.rcv.nxt ≡ p.rcv.nxt
  pub rcv_up : q.rcv.up ≡ p.rcv.up

module _ {W : Type 0} ⦃env : Env W⦄ where
  pub tx_helper_tcp-Same :
      (flag : ℕ) (bytes : List ℕ) (t : Trigger) (ch : Option Chan) (m : Machine W)
      → Same m.pcb (tx_helper_tcp flag bytes t ch m).0.pcb
  unfolding tx_helper_tcp tx_handler queue_add
  tx_helper_tcp-Same flag bytes t ch m = ground arith

  pub tx_bare-pcb : (seq ack flag : ℕ) (m : Machine W) → (tx_bare seq ack flag m).0.pcb ≡ m.pcb
  unfolding tx_bare
  tx_bare-pcb seq ack flag m = refl

  pub queue_ack-Same : (m : Machine W) → Same m.pcb (queue_ack m).pcb
  unfolding queue_ack
  queue_ack-Same m = ground arith

module _ {W : Type 0} where
  pub signal_cmd-SameState : (t : Trigger) (m : Machine W) → SameState m.pcb (signal_cmd t m).pcb
  unfolding signal_cmd signal_queue signal_receive deliver_data
  signal_cmd-SameState trigger_receive m = ground arith
  signal_cmd-SameState _ m = ground arith

  -- After an error nothing is queued and nothing is pending.
  pub signal_err-pcb :
      (e : Error) (m : Machine W)
      → (signal_err e m).pcb ≡ record m.pcb { retx_queue = []; rcv_cmd = no_rcv_cmd }
  unfolding signal_err queue_flush
  signal_err-pcb e m = refl
