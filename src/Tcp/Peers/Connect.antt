-- ===== src/Tcp/Peers/Connect.antt =====
-- The three-way handshake between two peers of pkg/tcp, and what it leaves.
use go_network.Base.{ℕ, ◌+◌, List, [], ◌≡◌, ◌<◌, sym, ◌∙◌, arith, ◌==◌, true, false, u32}
use mathlib.Core.Path.{subst}
use go_network.Tcp.ControlFlag
use go_network.Udp.Endpoint.{Endpoint}
use go_network.Tcp.Pcb.{Machine, Env, closed, listen, Chan, buffer_size}
use go_network.Tcp.Segment.{Segment, acceptable}
use go_network.Tcp.Calls.{open_call}
use go_network.Tcp.Arrives.{segment_arrives}
use go_network.Tcp.Arrives.Outcomes.{segment_refused}
use go_network.Tcp.Peers.{Sends, arrive_event, arrive_from}
use go_network.Tcp.Peers.Opening.{IsSynSent, open_call-IsSynSent}
use go_network.Tcp.Peers.Handshake.{IsSynReceived, arrive-IsSynReceived}
use go_network.Tcp.Peers.Established.{IsEstablished, HasSent, arrive-syn_sent, arrive-syn_received}

module _ {W : Type 0} ⦃env : Env W⦄ where
  -- The client and the server after each of the segments: SYN, SYN|ACK and ACK.
  abbrev pub client1 : Chan → ℕ → Machine W → Machine W → Machine W
  client1 ch timeout client server = open_call ch server.pcb.local true timeout client

  abbrev pub server1 : Chan → ℕ → Machine W → Machine W → Machine W
  server1 ch timeout client server = arrive_from (client1 ch timeout client server) server

  abbrev pub client2 : Chan → ℕ → Machine W → Machine W → Machine W
  client2 ch timeout client server =
      arrive_from (server1 ch timeout client server) (client1 ch timeout client server)

  abbrev pub server2 : Chan → ℕ → Machine W → Machine W → Machine W
  server2 ch timeout client server =
      arrive_from (client2 ch timeout client server) (server1 ch timeout client server)

  module _ (sends : Sends env) (ch : Chan) (timeout : ℕ) (client server : Machine W)
      (new : client.pcb.state ≡ closed) (idle : client.pcb.retx_queue ≡ [])
      (waits : server.pcb.state ≡ listen) (quiet : server.pcb.retx_queue ≡ [])
      (bound : (server.pcb.local.addr == 0) ≡ false)
      (small : (env.rand_uint32 client.io.world).1 + 65536 < 4294967296)
      (in_range : (env.rand_uint32 server.io.world).1 + 1 < 4294967296) where
    abbrev pub a : ℕ
    a = (env.rand_uint32 client.io.world).1

    abbrev pub b : ℕ
    b = (env.rand_uint32 server.io.world).1

    first : IsSynSent a server.pcb.local client (client1 ch timeout client server)
    first = open_call-IsSynSent sends ch server.pcb.local timeout client new idle bound

    pub second : IsSynReceived a b client.pcb.local server (server1 ch timeout client server)
    unfolding arrive_from
    second =
        subst (λ t. IsSynReceived a b client.pcb.local server (arrive_event t server))
          (sym first.trace)
          (arrive-IsSynReceived sends a (record client.pcb { foreign = server.pcb.local })
            client.pcb.local server.pcb.local client.io.trace server waits quiet)

    pub third :
        IsEstablished client.pcb.local server.pcb.local
          (a + 1)
          (b + 1)
          client.pcb.rcv.wnd
          (client2 ch timeout client server).pcb
        × HasSent client.pcb.local server.pcb.local
            (a + 1)
            (b + 1)
            ControlFlag.ack
            (client2 ch timeout client server)
    unfolding arrive_from
    third =
        let c = client1 ch timeout client server in
        subst
          (λ y.
            IsEstablished client.pcb.local server.pcb.local (a + 1) y client.pcb.rcv.wnd
              (client2 ch timeout client server).pcb
            × HasSent client.pcb.local server.pcb.local (a + 1) y ControlFlag.ack
                (client2 ch timeout client server))
          (omega (arith, in_range))
          (subst
            (λ t.
              IsEstablished client.pcb.local server.pcb.local (a + 1) (u32 (b + 1))
                client.pcb.rcv.wnd (arrive_event t c).pcb
              × HasSent client.pcb.local server.pcb.local (a + 1) (u32 (b + 1)) ControlFlag.ack
                  (arrive_event t c))
            (sym second.trace)
            (arrive-syn_sent a b server.pcb.local client c
              (record server.pcb {
                foreign = client.pcb.local;
                rcv = record server.pcb.rcv { nxt = u32 (a + 1); wnd = buffer_size };
              })
              server.pcb.local client.pcb.local server.io.trace (omega (arith, small)) first
              (omega (arith, small))))

    -- Where ip.TxHandler takes every segment, an active OPEN of a new control block and three segments to
    -- and fro, the SYN, its answer by a control block in LISTEN and the ACK, establish the connection on
    -- both sides: each has the other's address, all that was sent is acknowledged, and each expects the
    -- number that the other will send next. The server's number is below 2^32 - 1 and the client's so
    -- small that the server's window does not wrap. The client's receive window is the one it had.
    pub three_way_handshake :
        let x = (env.rand_uint32 client.io.world).1 in
        let y = (env.rand_uint32 server.io.world).1 in
        IsEstablished client.pcb.local server.pcb.local
          (x + 1)
          (y + 1)
          client.pcb.rcv.wnd
          (client2 ch timeout client server).pcb
        × IsEstablished server.pcb.local client.pcb.local
            (y + 1)
            (x + 1)
            buffer_size
            (server2 ch timeout client server).pcb
    three_way_handshake = (
      third.0,
      arrive-syn_received a b client.pcb.local server (server1 ch timeout client server)
          (client2 ch timeout client server) client.pcb.local server.pcb.local small in_range second
          third.1,
    )

    -- The receive window of a control block that Newpcb made is 0, and the handshake does not open it: no
    -- segment with text or a FIN is accepted on the connection that an active OPEN made.
    pub handshake_refuses_text :
        client.pcb.rcv.wnd ≡ 0
        → (seg : Segment) (flag : ℕ) (bytes : List ℕ) (len : ℕ) (foreign : Endpoint) → 0 < seg.len
        → let c = client2 ch timeout client server in
          (segment_arrives seg flag bytes len foreign c).0.pcb ≡ c.pcb
    handshake_refuses_text shut seg flag bytes len foreign text =
        let c = client2 ch timeout client server in
        let closed_window = third.0.rcv_wnd ∙ shut in
        let state = third.0.state in
        (segment_refused seg flag bytes len foreign c (ground (arith, state))
          (unfold acceptable in ground (arith, closed_window, text))).0
