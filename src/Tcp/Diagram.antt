-- ===== src/Tcp/Diagram.antt =====
-- The state diagram of pkg/tcp with the user calls and the timer: what each can do to the state.
use go_network.Base.{◌≡◌, refl, Bool, true}
use go_network.Udp.Endpoint.{Endpoint}
use go_network.Tcp.Pcb.{
  RetxEntry, PcbState, listen, syn_sent, syn_received, established, fin_wait1, close_wait, last_ack,
  closed, Machine, Env,
}
use go_network.Tcp.ControlFlag
use go_network.Tcp.Arrives.Edges.{◌⟶◌, same_state}
use go_network.Tcp.Timer.{retransmit}
use go_network.Tcp.Reachable.{
  Step, arrival, opening, sending, receiving, ending, aborting, ticking, elsewhere,
}

-- Which part of the program takes a step.
pub data Actor : Type 0 where
  segment user timer other : Actor

-- What each may do to the state.
pub data Moves : Actor → PcbState → PcbState → Type 0 where
  along : {s t : PcbState} → s ⟶ t → Moves segment s t
  keep : {a : Actor} {s : PcbState} → Moves a s s
  passive_open : Moves user closed listen
  active_open_closed : Moves user closed syn_sent
  active_open_listen : Moves user listen syn_sent
  close_syn_received : Moves user syn_received fin_wait1
  close_established : Moves user established fin_wait1
  close_close_wait : Moves user close_wait last_ack
  user_closed : {s : PcbState} → Moves user s closed
  timer_closed : {s : PcbState} → Moves timer s closed

abbrev user_arrow : PcbState → PcbState → Bool
user_arrow closed listen = true
user_arrow closed syn_sent = true
user_arrow listen syn_sent = true
user_arrow syn_received fin_wait1 = true
user_arrow established fin_wait1 = true
user_arrow close_wait last_ack = true
user_arrow _ closed = true
user_arrow s t = same_state s t

abbrev timer_arrow : PcbState → PcbState → Bool
timer_arrow _ closed = true
timer_arrow s t = same_state s t

module _ {W : Type 0} ⦃env : Env W⦄ where
  -- Who takes the step.
  abbrev pub actor : {m n : Machine W} → Step m n → Actor
  actor (arrival seg flag bytes len foreign h) = segment
  actor (opening ch foreign active timeout) = user
  actor (sending ch bytes) = user
  actor (receiving ch room) = user
  actor (ending ch) = user
  actor aborting = user
  actor ticking = timer
  actor (elsewhere io) = other

  retransmit_state :
      (entry : RetxEntry) (m : Machine W) → (retransmit entry m).pcb.state ≡ m.pcb.state
  unfolding retransmit
  retransmit_state entry m = refl
