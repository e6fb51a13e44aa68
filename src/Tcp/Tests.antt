-- ===== src/Tcp/Tests.antt =====
-- Runs of pkg/tcp, and its theorems at concrete inputs.
use go_network.Tcp.Registry.Unique.{newpcb_unique, count_local}
use go_network.Tcp.Registry.{Host, newpcb}
use go_network.Tcp.Reachable.{
  Step, ending, Reachable, arrival, after, opening, made, Reachable-IsSound,
}
use go_network.Tcp.Timer.Retransmission.{tick_queue-keep, calculate_rto_bounds}
use go_network.Tcp.Timer.{tick_queue}
use go_network.Tcp.Calls.{close, open_call}
use go_network.Tcp.Invariant.{IsSound}
use go_network.Errors.{ok, Error}
use go_network.Tcp.Segment.Window.{acceptable_text, InReceiveWindow, HasWords}
use go_network.Tcp.Arrives.Outside.{segment_outside, IsOutside, text}
use go_network.Tcp.Arrives.Outcomes.{segment_reset, reply_event}
use go_network.Tcp.Queue.Delivery.{deliver_some, contents}
use go_network.Tcp.Synchronized.{reset_error}
use go_network.Tcp.ControlFlag.{is_set}
use go_network.Base.{
  ◌⊎◌, refl, arith, ◌<◌, ◌*◌, ◌^◌, ◌↔◌, ◌≤◌, true, false, if◌then◌else◌, Option, ℕ, ◌+◌, ◌≡◌, [],
  ◌∷◌, none, some, keep, not,
}
use go_network.Udp.Endpoint.{Endpoint}
use go_network.Tcp.ControlFlag
use go_network.Tcp.Pcb.{
  ubound, deliver, calculate_rto, send_if, notify, no_rcv_cmd, Pcb, lbound, PcbState, Machine, Io,
  Env, new_pcb, trigger_send,
}
use go_network.Tcp.Queue.{prefix, deliver_data, queue_ack, new_entry}
use go_network.Tcp.Queue.Remove.{is_acked, notices, queue_ack_lem}
use go_network.Tcp.Segment.{last_seq, in_window, acceptable, Segment}
use go_network.Tcp.Arrives.{segment_arrives}

-- A world that is its clock: every segment is sent, and every random number is 1000.
instance abbrev ticking : Env ℕ
ticking = record {
  ip_tx_handler = λ bytes src dst w. (w, none);
  time_now = λ w. (w + 1, w);
  rand_uint32 = λ w. (w, 1000);
}

abbrev here : Endpoint
here = record { addr = 0xc0000202; port = 80 }

abbrev there : Endpoint
there = record { addr = 0xc0000201; port = 8080 }

abbrev quiet : Io ℕ
quiet = record { srtt = 10000000000; rto = 10000000000; world = 0; trace = [] }

abbrev fresh : Machine ℕ
fresh = record { pcb = unfold new_pcb in new_pcb here; io = quiet }

abbrev listening : Machine ℕ
listening = record fresh { pcb = record fresh.pcb { state = PcbState.listen } }

abbrev syn_segment : Segment
syn_segment = record { seq = 500; ack = 0; len = 1; wnd = 4096; up = 0 }

abbrev two_sent : Machine ℕ
two_sent = record fresh {
  pcb = record fresh.pcb {
    state = PcbState.established;
    snd = record fresh.pcb.snd { una = 20; nxt = 30 };
    retx_queue =
        new_entry 10 16 (1 ∷ []) trigger_send (some 7) 0 0
        ∷ new_entry 20 16 (2 ∷ []) trigger_send (some 8) 0 0
        ∷ [];
  };
}

queue_ack_lem_example :
    ((queue_ack two_sent).pcb.retx_queue ≡ keep (λ e. not (is_acked 20 e)) two_sent.pcb.retx_queue)
    × ((queue_ack two_sent).io.trace ≡ notices none (keep (is_acked 20) two_sent.pcb.retx_queue) [])
queue_ack_lem_example = queue_ack_lem two_sent

-- A passive OPEN, and then the SYN of a peer.
abbrev opened : Machine ℕ
opened = open_call 7 there false 0 fresh

opened_reached : Reachable here opened
unfolding new_pcb
opened_reached = after (made quiet) (opening 7 there false 0)

syn_reached : Reachable here (segment_arrives syn_segment ControlFlag.syn [] 0 there opened).0
syn_reached = after opened_reached (
    arrival syn_segment ControlFlag.syn [] 0 there
      (record { seq = omega arith; ack = omega arith; wnd = omega arith; up = omega arith }))

Reachable-IsSound_example :
    IsSound (segment_arrives syn_segment ControlFlag.syn [] 0 there opened).0.pcb
Reachable-IsSound_example = Reachable-IsSound (λ w. omega arith) syn_reached

abbrev connected : Machine ℕ
connected = record fresh {
  pcb = record fresh.pcb {
    state = PcbState.established;
    foreign = there;
    snd = record fresh.pcb.snd { una = 20; nxt = 30 };
    rcv = record fresh.pcb.rcv { nxt = 500; wnd = 100 };
    retx_queue = [];
    rcv_cmd = record { err_ch = some 9; room = 100 };
  };
}

abbrev text_segment : Segment
text_segment = record { seq = 500; ack = 20; len = 3; wnd = 4096; up = 0 }

abbrev late_segment : Segment
late_segment = record text_segment { seq = 700 }

late_HasWords : HasWords connected.pcb late_segment
unfolding new_pcb
late_HasWords = record {
  nxt = omega arith;
  wnd = omega arith;
  seq = omega arith;
  len = omega arith;
}

late_outside : IsOutside connected.pcb late_segment
unfolding InReceiveWindow new_pcb
late_outside = text (omega arith) (omega arith) (λ e. omega (arith, e)) (λ e. omega (arith, e))

text_accepted : acceptable text_segment connected.pcb ≡ true
unfolding acceptable in_window
text_accepted = refl

segment_outside_example :
    ((segment_arrives late_segment ControlFlag.ack (1 ∷ 2 ∷ 3 ∷ []) 3 there connected).0.pcb
      ≡ connected.pcb)
    × ((segment_arrives late_segment ControlFlag.ack (1 ∷ 2 ∷ 3 ∷ []) 3 there connected).0.io.trace
        ≡ (if is_set ControlFlag.ack ControlFlag.rst
            then []
            else reply_event ControlFlag.ack 30 connected.pcb ∷ []))
segment_outside_example =
    segment_outside late_segment ControlFlag.ack (1 ∷ 2 ∷ 3 ∷ []) 3 there connected refl
      late_HasWords late_outside

abbrev after_reset : Machine ℕ × Option Error
after_reset = segment_arrives text_segment ControlFlag.rst [] 0 there connected

segment_reset_example :
    (after_reset.1 ≡ none)
    × (after_reset.0.pcb
        ≡ record connected.pcb { state = PcbState.closed; retx_queue = []; rcv_cmd = no_rcv_cmd })
    × (after_reset.0.io.trace
        ≡ (send_if
            (some 9)
            (some (reset_error PcbState.established))
            (record quiet { trace = [] })).trace)
unfolding is_set
segment_reset_example =
    segment_reset text_segment ControlFlag.rst [] 0 there connected refl text_accepted refl

text_words : HasWords connected.pcb text_segment
text_words = record { nxt = omega arith; wnd = omega arith; seq = omega arith; len = omega arith }

acceptable_text_example : (acceptable text_segment connected.pcb ≡ true) ↔ (
    (InReceiveWindow connected.pcb 500) ⊎ (InReceiveWindow connected.pcb (last_seq text_segment)))
acceptable_text_example =
    acceptable_text connected.pcb text_segment text_words (omega arith) (omega arith)

-- An empty segment just behind the window.
abbrev behind_segment : Segment
behind_segment = record text_segment { seq = 600; len = 0 }

-- A window that passes 2^32.
abbrev wrapping : Pcb
wrapping = record connected.pcb { rcv = record connected.pcb.rcv { nxt = 4294967290; wnd = 100 } }

-- Three bytes wait for a RECEIVE with room for two.
abbrev three_waiting : Machine ℕ
three_waiting = record connected {
  pcb = record connected.pcb {
    rx_queue = λ i. i + 1;
    rx_len = 3;
    rcv_cmd = record { err_ch = some 9; room = 2 };
  };
}

deliver_some_example :
    ((deliver_data three_waiting).io.trace
      ≡ notify 9 none ∷ deliver (prefix 2 three_waiting.pcb.rx_queue) ∷ [])
    × (contents (deliver_data three_waiting).pcb ≡ prefix 1 (λ i. i + 1 + 1))
deliver_some_example = deliver_some three_waiting 9 refl (omega arith) (omega arith) (omega arith)

-- One entry is acknowledged, and one is not.
two_sent-IsSound : IsSound two_sent.pcb
unfolding new_pcb
two_sent-IsSound = ground arith

tick_queue-keep_example :
    ((tick_queue two_sent).pcb.state ≡ PcbState.closed)
    ⊎ ((tick_queue two_sent).pcb.retx_queue
        ≡ keep (λ e. not (is_acked 20 e)) two_sent.pcb.retx_queue)
tick_queue-keep_example = tick_queue-keep two_sent two_sent-IsSound

calculate_rto_bounds_example :
    (lbound ≤ (calculate_rto 5000000000 quiet).rto)
    × ((calculate_rto 5000000000 quiet).rto ≤ ubound)
    × ((calculate_rto 5000000000 quiet).srtt ≤ 2 ^ 58)
    × (7 * 10000000000 < 2 ^ 63)
    × (3 * 5000000000 < 2 ^ 63)
    × (17 * (calculate_rto 5000000000 quiet).srtt < 2 ^ 63)
calculate_rto_bounds_example = calculate_rto_bounds 5000000000 quiet (omega arith) (omega arith)

abbrev no_blocks : Host ℕ
no_blocks = record { pcbs = []; next_ptr = 4; io = quiet }

abbrev one_block : Host ℕ
one_block = record { pcbs = (4, unfold new_pcb in new_pcb here) ∷ []; next_ptr = 5; io = quiet }

made_block : newpcb here no_blocks ≡ ok (one_block, 4)
unfolding newpcb new_pcb
made_block = refl

newpcb_unique_example : count_local here one_block.pcbs ≤ 1
newpcb_unique_example = newpcb_unique here here no_blocks one_block 4 (λ a. omega arith) made_block

-- CLOSE of an established connection.
abbrev closing_call : Step two_sent (close 7 two_sent)
closing_call = ending 7
