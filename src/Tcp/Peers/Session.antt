-- ===== src/Tcp/Peers/Session.antt =====
-- A session of pkg/tcp from the active OPEN on: the handshake, and what the client then sends.
use go_network.Base.{
  ℕ, ◌+◌, List, [], ◌++◌, ◌≡◌, ◌<◌, sym, ap, ◌∙◌, arith, All, length, ◌==◌, false,
}
use go_network.Tcp.Pcb.{Machine, Env, closed, listen, Chan, buffer_size, no_rcv_cmd}
use mathlib.Core.Path.{subst}
use go_network.Tcp.Peers.{Sends}
use go_network.Tcp.Peers.Established.{arrive-syn_received_taken}
use go_network.Tcp.Peers.Connect.{client2, server1, server2, second, third, three_way_handshake}
use go_network.Tcp.Peers.Idle.{received, IsIdle, ack-IsIdle}
use go_network.Tcp.Peers.Stream.{IsQuiet, Fit, concat, stream, stream_delivers}

module _ {W : Type 0} ⦃env : Env W⦄ (sends : Sends env) (ch : Chan) (timeout : ℕ)
    (client server : Machine W) (new : client.pcb.state ≡ closed)
    (idle : client.pcb.retx_queue ≡ []) (waits : server.pcb.state ≡ listen)
    (quiet : server.pcb.retx_queue ≡ []) (bound : (server.pcb.local.addr == 0) ≡ false)
    (small : (env.rand_uint32 client.io.world).1 + 65536 < 4294967296)
    (in_range : (env.rand_uint32 server.io.world).1 + 1 < 4294967296) where
  -- The third segment at the server.
  server-IsIdle : IsIdle (server1 ch timeout client server) (server2 ch timeout client server)
  server-IsIdle =
      let m = server1 ch timeout client server in
      let (seg, taken) =
        arrive-syn_received_taken (env.rand_uint32 client.io.world).1
          (env.rand_uint32 server.io.world).1 client.pcb.local server m
          (client2 ch timeout client server) client.pcb.local server.pcb.local small in_range
          (second sends ch timeout client server new idle waits quiet bound small in_range)
          (third sends ch timeout client server new idle waits quiet bound small in_range).1 in
      subst (IsIdle m) (sym taken) (ack-IsIdle seg m)

  module _ (free : server.pcb.rcv_cmd ≡ no_rcv_cmd) (empty : server.pcb.rx_len ≡ 0) where
    opened :
        IsQuiet client.pcb.local server.pcb.local
          ((env.rand_uint32 client.io.world).1 + 1)
          ((env.rand_uint32 server.io.world).1 + 1)
          client.pcb.rcv.wnd
          (client2 ch timeout client server)
          (server2 ch timeout client server)
        × (received (server2 ch timeout client server).io.trace ≡ received server.io.trace)
    unfolding received
    opened =
        let (here, there) =
          three_way_handshake sends ch timeout client server new idle waits quiet bound small
            in_range in
        let syn = second sends ch timeout client server new idle waits quiet bound small in_range in
        let last = server-IsIdle in
        (
          record {
            server_window = buffer_size;
            client = here;
            server = there;
            positive = omega arith;
            bound = omega arith;
            empty = last.rx_len ∙ syn.rx_len ∙ omega (arith, empty);
            free = last.rcv_cmd ∙ syn.rcv_cmd ∙ free;
          },
          last.received ∙ ap received syn.trace,
        )

    -- Where ip.TxHandler takes every segment, an active OPEN of a new control block to a server in LISTEN,
    -- the three segments of the handshake, and then messages of the client one after the other, each a
    -- RECEIVE at the server, a Send, and the acknowledgement of it before the next: both sides are
    -- established, and the RECEIVEs are given the bytes of all messages, in order, once and no others;
    -- nothing is then unacknowledged or on its way. No message is empty, none is longer than a segment or
    -- than the buffer of its RECEIVE, and no sequence number wraps. Before, nothing is unacknowledged on
    -- either side, neither text nor a RECEIVE waits at the server, and its address is not 0.
    pub session_delivers :
        (receiver_ch : Chan) (room : ℕ) (chunks : List (List ℕ))
        → All (Fit room) chunks
        → (env.rand_uint32 server.io.world).1 + 1 + client.pcb.rcv.wnd < 4294967296
        → (env.rand_uint32 client.io.world).1 + 1 + length (concat chunks) + 65535 < 4294967296
        → let x = (env.rand_uint32 client.io.world).1 + 1 in
          let y = (env.rand_uint32 server.io.world).1 + 1 in
          let r =
            stream ch receiver_ch room chunks
              (client2 ch timeout client server, server2 ch timeout client server) in
          IsQuiet client.pcb.local server.pcb.local
            (x + length (concat chunks))
            y
            client.pcb.rcv.wnd
            r.0
            r.1
          × (received r.1.io.trace ≡ received server.io.trace ++ concat chunks)
    session_delivers receiver_ch room chunks fit wide far =
        let (at_rest, before) = opened in
        let (after, got) =
          stream_delivers sends ch receiver_ch room client.pcb.local server.pcb.local
            ((env.rand_uint32 server.io.world).1 + 1) client.pcb.rcv.wnd wide chunks
            ((env.rand_uint32 client.io.world).1 + 1) (client2 ch timeout client server)
            (server2 ch timeout client server) fit at_rest far in
        (after, got ∙ ap (λ l. l ++ concat chunks) before)
