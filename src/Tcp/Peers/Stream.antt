-- ===== src/Tcp/Peers/Stream.antt =====
-- A stream of bytes over an established connection of pkg/tcp: RECEIVE on one side and Send on the other,
-- again and again.
use mathlib.Core.Path.{subst}
use mathlib.Core.List.{append-nil, append_assoc}
use go_network.Base.{
  ℕ, ◌+◌, List, [], ◌∷◌, ◌++◌, ◌≡◌, ◌≤◌, ◌<◌, refl, sym, ap, ◌∙◌, arith, All, length, some,
  length-append,
}
use go_network.Udp.Endpoint.{Endpoint}
use go_network.Tcp.Pcb.{Pcb, Machine, Env, Chan, buffer_size, no_rcv_cmd, established}
use go_network.Tcp.Output.{payload_size_max}
use go_network.Tcp.Queue.{prefix, signal_cmd, signal_receive}
use go_network.Tcp.Queue.Delivery.{contents, length-prefix}
use go_network.Tcp.Calls.{send, receive, receive_in, receive_open, queue_receive}
use go_network.Tcp.Synchronized.Text.{take_text_delivers}
use go_network.Tcp.Arrives.Outcomes.{ack_reply, reply_event}
use go_network.Tcp.Peers.{Sends, arrive_from}
use go_network.Tcp.Peers.Established.{IsEstablished, acked}
use go_network.Tcp.Synchronized.{update_window}
use go_network.Tcp.Peers.Idle.{received, IsIdle, IsIdle-trans, send-IsIdle, ack-IsIdle}
use go_network.Tcp.Peers.Exchange.{
  arrive_from-taken, taken, text_segment, arrive_from-send, send_delivers,
}

abbrev pub concat : List (List ℕ) → List ℕ
concat [] = []
concat (bytes ∷ chunks) = bytes ++ concat chunks

-- A message fits the buffer of every RECEIVE and one segment.
abbrev pub Fit : ℕ → List ℕ → Type 0
Fit room bytes = (0 < length bytes) × (length bytes ≤ payload_size_max) × (length bytes ≤ room)

-- The connection between two messages: nothing is on its way, and nothing waits at the receiver.
pub record IsQuiet {W : Type 0} (here there : Endpoint) (x y client_window : ℕ) (c s : Machine W)
    : Type 0 where
  pub server_window : ℕ
  pub client : IsEstablished here there x y client_window c.pcb
  pub server : IsEstablished there here y x server_window s.pcb
  pub positive : 0 < server_window
  pub bound : server_window ≤ buffer_size
  pub empty : s.pcb.rx_len ≡ 0
  pub free : s.pcb.rcv_cmd ≡ no_rcv_cmd

contents-nothing : (p : Pcb) → contents p ≡ [] → p.rx_len ≡ 0
unfolding contents
contents-nothing p e = sym (length-prefix p.rx_len p.rx_queue) ∙ ap length e

nothing-contents : (p : Pcb) → p.rx_len ≡ 0 → contents p ≡ []
unfolding contents prefix
nothing-contents p e = ap (λ n. prefix n p.rx_queue) e

module _ {W : Type 0} ⦃env : Env W⦄ where
  -- A RECEIVE with a buffer of that size, a Send, the segment, and its acknowledgement.
  unfoldable pub message : Chan → Chan → ℕ → List ℕ → Machine W × Machine W → Machine W × Machine W
  unfolding receive send arrive_from
  message ch receiver_ch room bytes (c, s) =
      let c1 = send ch bytes c in
      let s1 = arrive_from c1 (receive receiver_ch room s) in (arrive_from s1 c1, s1)

  unfoldable pub stream :
      Chan → Chan → ℕ → List (List ℕ) → Machine W × Machine W → Machine W × Machine W
  unfolding message
  stream ch receiver_ch room [] q = q
  stream ch receiver_ch room (bytes ∷ chunks) q =
      stream ch receiver_ch room chunks (message ch receiver_ch room bytes q)

  abbrev asking : Chan → ℕ → Machine W → Machine W
  asking ch room s = record s {
    pcb = record s.pcb { rcv_cmd = record { room = room; err_ch = some ch } };
  }

  receive-waits :
      (ch : Chan) (room : ℕ) (s : Machine W)
      → s.pcb.state ≡ established
      → s.pcb.rx_len ≡ 0
      → s.pcb.rcv_cmd ≡ no_rcv_cmd
      → receive ch room s ≡ asking ch room s
  unfolding receive receive_open queue_receive signal_cmd signal_receive
  receive-waits ch room s e empty free =
      ap (λ t. receive_in t ch room s) e ∙ ground (arith, empty, free)

  module _ (sends : Sends env) (ch receiver_ch : Chan) (room : ℕ) (here there : Endpoint) (y cw : ℕ)
      (y_small : y + cw < 4294967296) where
    module _ (bytes : List ℕ) (x : ℕ) (c s : Machine W) (q : IsQuiet here there x y cw c s)
        (some_text : 0 < length bytes) (small : length bytes ≤ payload_size_max)
        (fits : length bytes ≤ room) (x_small : x + length bytes + 65535 < 4294967296) where
      abbrev s0 : Machine W
      s0 = asking receiver_ch room s

      server0 : IsEstablished there here y x q.server_window s0.pcb
      server0 =
          let e = q.server in
          record {
            state = e.state;
            local = e.local;
            foreign = e.foreign;
            una = e.una;
            snd_nxt = e.snd_nxt;
            rcv_nxt = e.rcv_nxt;
            rcv_wnd = e.rcv_wnd;
            queue = e.queue;
          }

      abbrev s1 : Machine W
      s1 = arrive_from (send ch bytes c) s0

      after-IsQuiet :
          IsQuiet here there (x + length bytes) y cw (arrive_from s1 (send ch bytes c)) s1
          × (received s1.io.trace ≡ received s.io.trace ++ bytes)
      unfolding received reply_event
      after-IsQuiet =
          let empty = q.empty in
          let wide : x + q.server_window < 4294967296 =
            let b = q.bound in omega (arith, b, x_small) in
          let step =
            arrive_from-send sends ch bytes c s0 here there x y cw q.server_window q.client server0
              some_text small q.positive wide in
          let t = taken bytes c s0 in
          let (same, answered) = ack_reply t in
          let (told, nothing, opened, free) =
            take_text_delivers (text_segment c.pcb.snd.nxt bytes c.pcb) bytes s0 receiver_ch refl
              some_text (omega (arith, empty, small)) (omega (arith, empty, fits)) in
          let (client, server, trace) =
            send_delivers sends ch receiver_ch bytes c s0 here there x y cw q.server_window q.client
              server0 refl fits empty some_text small q.positive wide (omega (arith, x_small))
              y_small in
          let block : s1.pcb ≡ t.pcb = ap (λ (m : Machine W). m.pcb) step ∙ same in
          (
            record {
              server_window = buffer_size;
              client = client;
              server = server;
              positive = omega arith;
              bound = omega arith;
              empty = ap (λ (p : Pcb). p.rx_len) block ∙ contents-nothing t.pcb nothing;
              free = ap (λ (p : Pcb). p.rcv_cmd) block ∙ free;
            },
            ap (λ (m : Machine W). received m.io.trace) step
                ∙ ap received answered
                ∙ ap received told
                ∙ ap (λ l. received s.io.trace ++ (l ++ bytes)) (nothing-contents s0.pcb empty),
          )

      -- The sender, behind the acknowledgement.
      client-IsIdle : IsIdle c (arrive_from s1 (send ch bytes c))
      client-IsIdle =
          let wide : x + q.server_window < 4294967296 =
            let b = q.bound in omega (arith, b, x_small) in
          let (seg, taken) =
            arrive_from-taken sends ch receiver_ch bytes c s0 here there x y cw q.server_window
              q.client server0 refl fits q.empty some_text small q.positive wide
              (omega (arith, x_small)) y_small in
          subst (IsIdle c) (sym taken) (
            IsIdle-trans c (send ch bytes c) (update_window seg (acked seg (send ch bytes c)))
              (send-IsIdle sends ch bytes c small q.client.state)
              (ack-IsIdle seg (send ch bytes c)))

      pub message-IsIdle : IsIdle c (message ch receiver_ch room bytes (c, s)).0
      unfolding message
      message-IsIdle =
          subst (λ m. IsIdle c (arrive_from (arrive_from (send ch bytes c) m) (send ch bytes c)))
            (sym (receive-waits receiver_ch room s q.server.state q.empty q.free)) client-IsIdle

      pub message_delivers :
          let r = message ch receiver_ch room bytes (c, s) in
          IsQuiet here there (x + length bytes) y cw r.0 r.1
          × (received r.1.io.trace ≡ received s.io.trace ++ bytes)
      unfolding message
      message_delivers =
          subst
            (λ m.
              let n = arrive_from (send ch bytes c) m in
              IsQuiet here there (x + length bytes) y cw (arrive_from n (send ch bytes c)) n
              × (received n.io.trace ≡ received s.io.trace ++ bytes))
            (sym (receive-waits receiver_ch room s q.server.state q.empty q.free)) after-IsQuiet

    -- Where ip.TxHandler takes every segment and no number wraps, whatever messages one side of a quiet
    -- connection sends, each with a RECEIVE before it at the other side, those RECEIVEs are given the bytes
    -- of all of them, in order, once and no others; and the connection is quiet again, with the numbers
    -- moved on by their count.
    pub stream_delivers :
        (chunks : List (List ℕ)) (x : ℕ) (c s : Machine W)
        → All (Fit room) chunks
        → IsQuiet here there x y cw c s
        → x + length (concat chunks) + 65535 < 4294967296
        → let r = stream ch receiver_ch room chunks (c, s) in
          IsQuiet here there (x + length (concat chunks)) y cw r.0 r.1
          × (received r.1.io.trace ≡ received s.io.trace ++ concat chunks)
    unfolding stream
    stream_delivers [] x c s f q h = (
      subst (λ k. IsQuiet here there k y cw c s) (omega arith) q,
      sym (append-nil (received s.io.trace)),
    )
    stream_delivers (bytes ∷ chunks) x c s ((some_text, small, fits), f) q h =
        let r = message ch receiver_ch room bytes (c, s) in
        let sum : length (bytes ++ concat chunks) ≡ length bytes + length (concat chunks) =
          length-append bytes (concat chunks) in
        let (quiet, got) =
          message_delivers bytes x c s q some_text small fits (omega (arith, sum, h)) in
        let (last, rest) =
          stream_delivers chunks (x + length bytes) r.0 r.1 f quiet (omega (arith, sum, h)) in
        (
          subst
              (λ k.
                let n = stream ch receiver_ch room chunks r in IsQuiet here there k y cw n.0 n.1)
              (omega (arith, sum)) last,
          rest
              ∙ ap (λ l. l ++ concat chunks) got
              ∙ append_assoc (received s.io.trace) bytes (concat chunks),
        )
