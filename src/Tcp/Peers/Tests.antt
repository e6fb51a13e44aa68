-- ===== src/Tcp/Peers/Tests.antt =====
-- Two peers of pkg/tcp at concrete inputs.
use go_network.Tcp.Peers.Idle.{received}
use go_network.Tcp.Peers.Stream.{IsQuiet, stream}
use go_network.Tcp.Peers.Session.{session_delivers}
use go_network.Tcp.Peers.Conversation.{Turn, IsAtRest, converse, conversation_delivers}
use go_network.Base.{List, ℕ, ◌+◌, ◌≡◌, ◌++◌, refl, arith, [], ◌∷◌, none, some}
use go_network.Udp.Endpoint.{Endpoint}
use go_network.Tcp.ControlFlag
use go_network.Tcp.Header.{header2data}
use go_network.Tcp.Header.RoundTrip.{IsHeader}
use go_network.Tcp.Pcb.{no_rcv_cmd, PcbState, Machine, Io, Env, new_pcb}
use go_network.Tcp.Output.{tx_header}
use go_network.Tcp.Segment.{Segment}
use go_network.Tcp.Arrives.{segment_arrives}
use go_network.Tcp.Registry.{Host, find_local, segment_of, rx_handler}
use go_network.Tcp.Peers.Established.{IsEstablished}
use go_network.Tcp.Peers.Connect.{client2, server2, handshake_refuses_text}
use go_network.Tcp.Peers.Closing.{IsIn}
use go_network.Tcp.Peers.Release.{first2, first3, other1, other3, connection_closes}
use go_network.Tcp.Peers.Delivery.{put_back, rx_handler-header2data}

-- A world that is its clock: every segment is sent, and every random number is 1000.
instance abbrev ticking : Env ℕ
ticking = record {
  ip_tx_handler = λ bytes src dst w. (w, none);
  time_now = λ w. (w + 1, w);
  rand_uint32 = λ w. (w, 1000);
}

abbrev here : Endpoint
here = record { addr = 0xc0000202; port = 80 }

abbrev there : Endpoint
there = record { addr = 0xc0000201; port = 8080 }

abbrev quiet : Io ℕ
quiet = record { srtt = 10000000000; rto = 10000000000; world = 0; trace = [] }

abbrev client : Machine ℕ
client = record { pcb = unfold new_pcb in new_pcb there; io = quiet }

abbrev server : Machine ℕ
server = record {
  pcb = record (unfold new_pcb in new_pcb here) { state = PcbState.listen };
  io = quiet;
}

session_delivers_example :
    let r =
      stream 7 9 100
        ((1 ∷ 2 ∷ []) ∷ (3 ∷ []) ∷ [])
        (client2 7 60 client server, server2 7 60 client server) in
    IsQuiet there here (1001 + 3) 1001 0 r.0 r.1 × (received r.1.io.trace ≡ [] ++ 1 ∷ 2 ∷ 3 ∷ [])
unfolding new_pcb received
session_delivers_example =
    session_delivers (λ bytes src dst w. refl) 7 60 client server refl refl refl refl refl
      (omega arith) (omega arith) refl refl 9 100 ((1 ∷ 2 ∷ []) ∷ (3 ∷ []) ∷ [])
      ((omega arith, omega arith, omega arith), ((omega arith, omega arith, omega arith), tt))
      (omega arith) (omega arith)

abbrev text : Segment
text = record { seq = 1001; ack = 1001; len = 3; wnd = 4096; up = 0 }

handshake_refuses_text_example :
    (segment_arrives text ControlFlag.ack
      (1 ∷ 2 ∷ 3 ∷ [])
      3
      here
      (client2 7 60 client server)).0.pcb
    ≡ (client2 7 60 client server).pcb
unfolding new_pcb
handshake_refuses_text_example =
    handshake_refuses_text (λ bytes src dst w. refl) 7 60 client server refl refl refl refl refl
      (omega arith) (omega arith) refl text ControlFlag.ack (1 ∷ 2 ∷ 3 ∷ []) 3 here (omega arith)

-- The two sides of a connection, with a RECEIVE pending at the server.
abbrev sender : Machine ℕ
sender = record client {
  pcb = record client.pcb {
    state = PcbState.established;
    foreign = here;
    snd = record client.pcb.snd { una = 1001; nxt = 1001; wnd = 65535 };
    rcv = record client.pcb.rcv { nxt = 2001 };
  };
}

abbrev receiver : Machine ℕ
receiver = record server {
  pcb = record server.pcb {
    state = PcbState.established;
    foreign = there;
    snd = record server.pcb.snd { una = 2001; nxt = 2001 };
    rcv = record server.pcb.rcv { nxt = 1001; wnd = 65535 };
    rcv_cmd = record { room = 100; err_ch = some 9 };
  };
}

sender-IsEstablished : IsEstablished there here 1001 2001 0 sender.pcb
unfolding new_pcb
sender-IsEstablished = record {
  state = refl;
  local = refl;
  foreign = refl;
  una = refl;
  snd_nxt = refl;
  rcv_nxt = refl;
  rcv_wnd = refl;
  queue = refl;
}

receiver-IsEstablished : IsEstablished here there 2001 1001 65535 receiver.pcb
unfolding new_pcb
receiver-IsEstablished = record {
  state = refl;
  local = refl;
  foreign = refl;
  una = refl;
  snd_nxt = refl;
  rcv_nxt = refl;
  rcv_wnd = refl;
  queue = refl;
}

abbrev host : Host ℕ
host = record { pcbs = (4, server.pcb) ∷ []; next_ptr = 5; io = quiet }

found : find_local 0xc0000202 80 host.pcbs ≡ some ([], (4, server.pcb), [])
unfolding find_local new_pcb
found = refl

syn-IsHeader : IsHeader (tx_header there here 1000 0 ControlFlag.syn 0 0) []
syn-IsHeader = record {
  src = omega arith;
  dst = omega arith;
  seq = omega arith;
  ack = omega arith;
  offset = omega arith;
  flag = omega arith;
  window = omega arith;
  checksum = refl;
  urgent = omega arith;
  small = omega arith;
  bytes = tt;
}

rx_handler-header2data_example :
    rx_handler
      (header2data (tx_header there here 1000 0 ControlFlag.syn 0 0) [] 0xc0000201 0xc0000202).0
      0xc0000201
      0xc0000202
      host
    ≡ put_back [] 4 [] host (
        segment_arrives
          (segment_of (tx_header there here 1000 0 ControlFlag.syn 0 0) 0)
          ControlFlag.syn
          []
          0
          there
          (record { pcb = server.pcb; io = quiet }))
rx_handler-header2data_example =
    rx_handler-header2data there here [] 1000 0 ControlFlag.syn 0 0 host [] [] 4 server.pcb
      syn-IsHeader found

-- The same two sides with an open window on both.
abbrev closer : Machine ℕ
closer = record sender { pcb = record sender.pcb { rcv = record sender.pcb.rcv { wnd = 4096 } } }

closer-IsEstablished : IsEstablished there here 1001 2001 4096 closer.pcb
unfolding new_pcb
closer-IsEstablished = record {
  state = refl;
  local = refl;
  foreign = refl;
  una = refl;
  snd_nxt = refl;
  rcv_nxt = refl;
  rcv_wnd = refl;
  queue = refl;
}

connection_closes_example :
    IsIn PcbState.fin_wait2 there here 1002 1002 2001 4096 (first2 7 closer receiver).pcb
    × IsIn PcbState.close_wait here there 2001 2001 1002 65535 (other1 7 closer receiver).pcb
    × IsIn PcbState.time_wait there here 1002 1002 2002 4096 (first3 7 8 closer receiver).pcb
    × ((other3 7 8 closer receiver).pcb.state ≡ PcbState.closed)
unfolding new_pcb
connection_closes_example =
    connection_closes (λ bytes src dst w. refl) 7 8 closer receiver there here 1001 2001 4096 65535
      closer-IsEstablished receiver-IsEstablished refl refl (omega arith) (omega arith)
      (omega arith) (omega arith)

abbrev quiet_receiver : Machine ℕ
quiet_receiver = record receiver { pcb = record receiver.pcb { rcv_cmd = no_rcv_cmd } }

quiet_receiver-IsEstablished : IsEstablished here there 2001 1001 65535 quiet_receiver.pcb
unfolding new_pcb
quiet_receiver-IsEstablished = record {
  state = refl;
  local = refl;
  foreign = refl;
  una = refl;
  snd_nxt = refl;
  rcv_nxt = refl;
  rcv_wnd = refl;
  queue = refl;
}

abbrev turns : List Turn
turns = Turn.first (1 ∷ 2 ∷ []) ∷ Turn.second (3 ∷ []) ∷ Turn.first (4 ∷ []) ∷ []

conversation_delivers_example :
    let r = converse 7 9 100 turns (closer, quiet_receiver) in
    IsAtRest there here (1001 + 3) (2001 + 1) r.0 r.1
    × (received r.1.io.trace ≡ [] ++ 1 ∷ 2 ∷ 4 ∷ [])
    × (received r.0.io.trace ≡ [] ++ 3 ∷ [])
unfolding new_pcb received
conversation_delivers_example =
    conversation_delivers (λ bytes src dst w. refl) 7 9 100 there here turns 1001 2001 closer
      quiet_receiver
      (
        (omega arith, omega arith, omega arith),
        ((omega arith, omega arith, omega arith), ((omega arith, omega arith, omega arith), tt)),
      )
      (record {
        client_window = 4096;
        quiet = record {
          server_window = 65535;
          client = closer-IsEstablished;
          server = quiet_receiver-IsEstablished;
          positive = omega arith;
          bound = omega arith;
          empty = refl;
          free = refl;
        };
        positive = omega arith;
        bound = omega arith;
        empty = refl;
        free = refl;
      })
      (omega arith) (omega arith)
