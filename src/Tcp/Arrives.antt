-- ===== src/Tcp/Arrives.antt =====
-- segmentArrives and RxHandler of pkg/tcp/protocol.go.
pub mod Edges
pub mod Outcomes
pub mod Outside
use go_network.Base.{ℕ, List, Option}
use go_network.Errors.{Error}
use go_network.Udp.Endpoint.{Endpoint}
use go_network.Tcp.Pcb.{PcbState, listen, syn_sent, closed, Machine, Env}
use go_network.Tcp.Segment.{Segment}
use go_network.Tcp.Handshake.{arrives_closed, arrives_listen, arrives_syn_sent}
use go_network.Tcp.Synchronized.{arrives_synchronized}

module _ {W : Type 0} ⦃env : Env W⦄ where
  -- The switch of `segmentArrives`.
  unfoldable pub arrives_in :
      PcbState → Segment → ℕ → List ℕ → ℕ → Endpoint → Machine W → Machine W × Option Error
  unfolding arrives_closed arrives_listen arrives_syn_sent arrives_synchronized
  arrives_in closed seg flag bytes data_len foreign m = arrives_closed seg flag m
  arrives_in listen seg flag bytes data_len foreign m =
      arrives_listen seg flag bytes data_len foreign m
  arrives_in syn_sent seg flag bytes data_len foreign m = arrives_syn_sent seg flag m
  arrives_in _ seg flag bytes data_len foreign m = arrives_synchronized seg flag bytes data_len m

  unfoldable pub segment_arrives :
      Segment → ℕ → List ℕ → ℕ → Endpoint → Machine W → Machine W × Option Error
  unfolding arrives_in
  segment_arrives seg flag bytes data_len foreign m =
      arrives_in m.pcb.state seg flag bytes data_len foreign m
